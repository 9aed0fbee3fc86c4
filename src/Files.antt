-- ===== src/Files.antt =====
-- internal/provider/files/path.go: the paths of files within a collection.
pub mod Segments
pub mod Inside
mod Examples
use mathlib.Core.List.{reverse}
use carrel.Prelude.{
  ℕ, zero, suc, Bool, true, false, ◌&&◌, ◌||◌, not, Option, none, some, List, [], ◌∷◌, ◌++◌,
  if◌then◌else◌, ltb, nat_eq, length, exists, Text, text, text_eq, ◌==◌,
}
use carrel.Errors.{Result, ok, err, outside_collection, bad_name, path_required}
use carrel.Strings.{trim_space, has_prefix, has_suffix, trim_prefix, trim_suffix, split, join}

abbrev pub slash : ℕ
slash = b'/'

-- What checkChars refuses.
abbrev pub is_bad : ℕ → Bool
is_bad c = nat_eq c 0x5c || ltb c 0x20 || nat_eq c 0x7f

unfoldable pub check_chars : Text → Bool
check_chars s = not (exists is_bad s)

-- The segments that are kept, unless one of them goes up.
unfoldable pub kept_segments : List Text → Result (List Text)
kept_segments [] = ok []
kept_segments (segment ∷ more) =
    let rest = kept_segments more in
    if nat_eq (length segment) 0 || segment == text "."
    then rest
    else if segment == text ".."
    then err outside_collection
    else elim rest [ err e ↦ err e | ok out ↦ ok (segment ∷ out) ]

abbrev pub joined_segments : Result (List Text) → Result Text
joined_segments (err e) = err e
joined_segments (ok out) = ok (join (text "/") out)

unfoldable pub clean_relative : Text → Result Text
unfolding kept_segments check_chars
clean_relative rel =
    let s = trim_space rel in
    if nat_eq (length s) 0
    then ok []
    else if not (check_chars s)
    then err bad_name
    else joined_segments (kept_segments (split slash s))

abbrev pub rooted : Text → Text
rooted p = if has_prefix p (text "/") then p else slash ∷ p

unfoldable pub normalize_dir : Text → Text
normalize_dir dir =
    let p = trim_space dir in
    if nat_eq (length p) 0
    then []
    else if has_suffix (rooted p) (text "/")
    then rooted p
    else rooted p ++ text "/"

abbrev pub parents : List Text → List Text
parents [] = []
parents (top ∷ more) = more

-- path.Clean of a path that starts with a slash: the segments so far, the last of them first.
unfoldable pub clean_segments : List Text → List Text → List Text
clean_segments out [] = out
clean_segments out (segment ∷ more) =
    let same = clean_segments out more in
    let up = clean_segments (parents out) more in
    let down = clean_segments (segment ∷ out) more in
    if nat_eq (length segment) 0 || segment == text "."
    then same
    else if segment == text ".."
    then up
    else down

unfoldable pub clean_path : Text → Text
unfolding clean_segments
clean_path p = slash ∷ join (text "/") (reverse (clean_segments [] (split slash p)))

abbrev pub resolve_in : Text → Text → Result Text
resolve_in root clean =
    let joined = clean_path (root ++ clean) in
    if nat_eq (length clean) 0
    then ok root
    else if not (joined == root) && not (has_prefix joined root)
    then err outside_collection
    else ok joined

unfoldable pub resolve : Text → Text → Result Text
unfolding clean_path
resolve root rel =
    let dir = normalize_dir root in
    if nat_eq (length dir) 0
    then err path_required
    else elim (clean_relative rel) [ err e ↦ err e | ok clean ↦ resolve_in dir clean ]

unfoldable pub relative : Text → Text → Result Text
relative root abs =
    let dir = normalize_dir root in
    let trimmed = trim_suffix abs (text "/") in
    if (trimmed ++ text "/") == dir
    then ok []
    else if not (has_prefix abs dir)
    then err outside_collection
    else clean_relative (trim_prefix trimmed dir)

unfoldable pub clean_name : Text → Result Text
clean_name name =
    let s = trim_space name in
    if nat_eq (length s) 0 || s == text "." || s == text ".."
    then err bad_name
    else if exists (λ c. nat_eq c slash || nat_eq c 0x5c) s
    then err bad_name
    else if check_chars s
    then ok s
    else err bad_name

-- What comes before the last slash, and after it.
unfoldable pub cut_last : Text → Option (Text × Text)
cut_last [] = none
cut_last (c ∷ cs) =
    let rest = cut_last cs in
    elim rest [
      | some (head, last) ↦ some (c ∷ head, last)
      | none ↦ if nat_eq c slash then some ([], cs) else none
    ]

abbrev pub parent_of : Result Text → Text × Bool
parent_of (err e) = ([], false)
parent_of (ok clean) =
    if nat_eq (length clean) 0
    then ([], false)
    else elim (cut_last clean) [ none ↦ ([], true) | some (head, last) ↦ (head, true) ]

unfoldable pub parent : Text → Text × Bool
unfolding cut_last
parent rel = parent_of (clean_relative rel)

abbrev pub base_of : Result Text → Text
base_of (err e) = []
base_of (ok clean) = elim (cut_last clean) [ none ↦ clean | some (head, last) ↦ last ]

unfoldable pub base : Text → Text
unfolding cut_last
base rel = base_of (clean_relative rel)

abbrev pub trim_slashes_left : Text → Text
trim_slashes_left [] = []
trim_slashes_left (c ∷ cs) =
    let rest = trim_slashes_left cs in if nat_eq c slash then rest else c ∷ cs

-- strings.Trim(s, "/")
abbrev pub trim_slashes : Text → Text
trim_slashes s = reverse (trim_slashes_left (reverse (trim_slashes_left s)))

unfoldable pub join_path : Text → Text → Text
join_path dir name =
    let d = trim_slashes dir in
    let n = trim_slashes name in
    if nat_eq (length d) 0 then n else if nat_eq (length n) 0 then d else d ++ text "/" ++ n
