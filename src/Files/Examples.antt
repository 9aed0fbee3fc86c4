-- ===== src/Files/Examples.antt =====
-- internal/provider/files/path.go at concrete inputs.
use carrel.Prelude.{◌≡◌, refl, true, [], ◌∷◌, text, text_eq}
use carrel.Errors.{ok, err, outside_collection}
use carrel.Strings.{is_space, trim_left, trim_space, split, join}
use carrel.Files.{
  kept_segments, check_chars, clean_relative, normalize_dir, clean_segments, clean_path, resolve,
  relative, cut_last, parent, base, join_path,
}
use carrel.Files.Inside.{IsClean, clean_relative-IsClean, below, resolve-below}

clean_relative_dots : clean_relative (text " a//./b ") ≡ ok (text "a/b")
unfolding clean_relative kept_segments check_chars is_space trim_left trim_space split join
clean_relative_dots = refl

resolve_up : resolve (text "dav/docs") (text "a/../../x") ≡ err outside_collection
unfolding resolve clean_relative kept_segments check_chars is_space trim_left trim_space split join
    normalize_dir clean_path clean_segments
resolve_up = refl

parent_and_base : (parent (text "a/b/c") ≡ (text "a/b", true)) × (base (text "a/b/c") ≡ text "c")
unfolding parent base cut_last clean_relative kept_segments check_chars is_space trim_left
    trim_space split join
parent_and_base = (refl, refl)

join_path_trims : join_path (text "/a/") (text "b/") ≡ text "a/b"
unfolding join_path
join_path_trims = refl

-- A segment may start with a space, which Relative drops.
relative_space :
    (resolve (text "/d/") (text "/ a") ≡ ok (text "/d/ a"))
    × (relative (text "/d/") (text "/d/ a") ≡ ok (text "a"))
unfolding resolve relative clean_relative kept_segments check_chars is_space trim_left trim_space
    split join normalize_dir clean_path clean_segments
relative_space = (refl, refl)

clean_relative-IsClean_example : IsClean (text "a/b")
clean_relative-IsClean_example =
    clean_relative-IsClean (text " a//./b ") (text "a/b") clean_relative_dots

resolve-below_example :
    resolve (text "dav/docs") (text "a/./b")
    ≡ below (normalize_dir (text "dav/docs")) (clean_relative (text "a/./b"))
unfolding normalize_dir is_space trim_left trim_space join
resolve-below_example =
    resolve-below (text "dav/docs") (text "a/./b") (text "dav" ∷ text "docs" ∷ [])
      ((refl, refl, refl, refl), ((refl, refl, refl, refl), tt)) refl
