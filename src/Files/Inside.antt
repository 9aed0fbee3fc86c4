-- ===== src/Files/Inside.antt =====
-- internal/provider/files/path.go: a path that is resolved is below its collection.
use mathlib.Core.List.{reverse, reverse-cons, reverse-reverse, append_assoc, append-nil}
use carrel.Prelude.{
  ◌≡◌, refl, sym, ap, ◌∙◌, inl, inr, Bool-cases, true, false, List, [], ◌∷◌, ◌++◌, All, nat_eq,
  nat_eq_iff, length, Text, text, text_eq, arith,
}
use carrel.Errors.{Result, Result-cases, ok, err}
use carrel.Strings.{trim_space, has_prefix, split, join}
use carrel.Files.{
  slash, check_chars, kept_segments, joined_segments, clean_relative, normalize_dir, clean_segments,
  clean_path, resolve, resolve_in,
}
use carrel.Files.Segments.{
  IsSegment, has_slash, split-join, split-has_slash, kept_segments-IsSegment,
}

-- A text that is segments with slashes between them.
abbrev pub IsClean : Text → Type 0
IsClean c = (ws : List Text) × (c ≡ join (text "/") ws) × All IsSegment ws

clean_segments-reverse :
    (out ws : List Text) → All IsSegment ws → clean_segments out ws ≡ reverse ws ++ out
unfolding clean_segments
clean_segments-reverse out [] h = refl
clean_segments-reverse out (w ∷ ws) ((n, d, u, _), h) =
    let rest = clean_segments-reverse (w ∷ out) ws h in
    let turned : reverse (w ∷ ws) ++ out ≡ reverse ws ++ (w ∷ out) =
      ap (λ r. r ++ out) (reverse-cons w ws) ∙ append_assoc (reverse ws) (w ∷ []) out in
    ground (arith, n, d, u) ∙ rest ∙ sym turned

joined_segments-IsClean :
    (ws : List Text) (c : Text)
    → All (λ w. has_slash w ≡ false) ws
    → joined_segments (kept_segments ws) ≡ ok c
    → IsClean c
joined_segments-IsClean ws c h e = elim (Result-cases (kept_segments ws)) [
  | inl (x, k) ↦ absurd (ground (arith, k))
  | inr (out, k) ↦
      let c≡ : c ≡ join (text "/") out = ground (arith, k) in
      (out, c≡, kept_segments-IsSegment ws out h k)
]

-- What CleanRelative returns has no empty segment, none that is a dot or two, and no slash at an end.
pub clean_relative-IsClean : (rel c : Text) → clean_relative rel ≡ ok c → IsClean c
unfolding clean_relative join
clean_relative-IsClean rel c h = elim (Bool-cases (nat_eq (length (trim_space rel)) 0)) [
  | inl e ↦ let c≡ : c ≡ [] = ground arith in ([], c≡, tt)
  | inr e ↦ elim (Bool-cases (check_chars (trim_space rel))) [
    | inl k ↦
        joined_segments-IsClean (split slash (trim_space rel)) c (split-has_slash (trim_space rel))
          (rw (e, k) at h)
    | inr k ↦ absurd (ground (arith, e, k))
  ]
]

has_prefix-append : (s t : Text) → has_prefix (s ++ t) s ≡ true
has_prefix-append [] t = refl
has_prefix-append (c ∷ s) t = ground (arith, has_prefix-append s t, nat_eq_iff c c)

abbrev pub dir_of : List Text → Text
dir_of ds = join (text "/") ([] ∷ ds ++ [] ∷ [])

join-append :
    (x : Text) (ds : List Text) (w : Text) (ws : List Text)
    → join (text "/") (x ∷ ds ++ [] ∷ []) ++ join (text "/") (w ∷ ws)
      ≡ join (text "/") (x ∷ ds ++ w ∷ ws)
unfolding join
join-append x [] w ws = append_assoc x (text "/") (join (text "/") (w ∷ ws))
join-append x (d ∷ ds) w ws =
    append_assoc x (text "/" ++ join (text "/") (d ∷ ds ++ [] ∷ [])) (join (text "/") (w ∷ ws))
    ∙ ap (λ r. x ++ (text "/" ++ r)) (join-append d ds w ws)

All-append : (P : Text → Type 0) (xs ys : List Text) → All P xs → All P ys → All P (xs ++ ys)
All-append P [] ys h k = k
All-append P (x ∷ xs) ys (a, h) k = (a, All-append P xs ys h k)

All-has_slash : (ws : List Text) → All IsSegment ws → All (λ w. has_slash w ≡ false) ws
All-has_slash [] h = tt
All-has_slash (w ∷ ws) ((_, _, _, k), h) = (k, All-has_slash ws h)

-- path.Clean leaves a path of segments as it is.
clean_path-join :
    (w : Text) (ws : List Text)
    → All IsSegment (w ∷ ws)
    → clean_path (join (text "/") ([] ∷ w ∷ ws)) ≡ join (text "/") ([] ∷ w ∷ ws)
unfolding clean_path clean_segments join
clean_path-join w ws h =
    let pieces = split-join [] (w ∷ ws) (refl, All-has_slash (w ∷ ws) h) in
    let back : reverse (clean_segments [] (w ∷ ws)) ≡ w ∷ ws =
      ap reverse (clean_segments-reverse [] (w ∷ ws) h ∙ append-nil (reverse (w ∷ ws)))
      ∙ reverse-reverse (w ∷ ws) in
    ap (λ r. slash ∷ join (text "/") (reverse (clean_segments [] r))) pieces
    ∙ ap (λ r. slash ∷ join (text "/") r) back

clean_path-dir_of :
    (ds : List Text) (w : Text) (ws : List Text)
    → All IsSegment ds
    → All IsSegment (w ∷ ws)
    → clean_path (dir_of ds ++ join (text "/") (w ∷ ws)) ≡ dir_of ds ++ join (text "/") (w ∷ ws)
clean_path-dir_of [] w ws h k =
    ap clean_path (join-append [] [] w ws) ∙ clean_path-join w ws k ∙ sym (join-append [] [] w ws)
clean_path-dir_of (d ∷ ds) w ws h k =
    let whole = join-append [] (d ∷ ds) w ws in
    ap clean_path whole
    ∙ clean_path-join d (ds ++ w ∷ ws) (h.0, All-append IsSegment ds (w ∷ ws) h.1 k)
    ∙ sym whole

resolve_in-below :
    (ds ws : List Text) (c : Text)
    → All IsSegment ds
    → All IsSegment ws
    → c ≡ join (text "/") ws
    → resolve_in (dir_of ds) c ≡ ok (dir_of ds ++ c)
unfolding join
resolve_in-below ds ws [] h k e = ap (λ r. ok r) (sym (append-nil (dir_of ds)))
resolve_in-below ds [] (x ∷ c) h k e = absurd (ground arith)
resolve_in-below ds (w ∷ ws) (x ∷ c) h k e =
    let same : clean_path (dir_of ds ++ x ∷ c) ≡ dir_of ds ++ x ∷ c =
      ap (λ r. clean_path (dir_of ds ++ r)) e
      ∙ clean_path-dir_of ds w ws h k
      ∙ ap (λ r. dir_of ds ++ r) (sym e) in
    let under : has_prefix (clean_path (dir_of ds ++ x ∷ c)) (dir_of ds) ≡ true =
      ap (λ r. has_prefix r (dir_of ds)) same ∙ has_prefix-append (dir_of ds) (x ∷ c) in
    ground (arith, under, same)

dir_of_nonempty : (ds : List Text) → nat_eq (length (dir_of ds)) 0 ≡ false
unfolding join
dir_of_nonempty [] = ground arith
dir_of_nonempty (d ∷ ds) = ground arith

abbrev pub below : Text → Result Text → Result Text
below dir (err e) = err e
below dir (ok c) = ok (dir ++ c)

-- In a collection whose path is clean, a path resolves exactly when its segments are allowed, and
-- then to the collection's path with them after it: the second check never refuses.
pub resolve-below :
    (root rel : Text) (ds : List Text)
    → All IsSegment ds
    → normalize_dir root ≡ dir_of ds
    → resolve root rel ≡ below (normalize_dir root) (clean_relative rel)
unfolding resolve
resolve-below root rel ds h e = elim (Result-cases (clean_relative rel)) [
  | inl (x, k) ↦ rw (k, e, dir_of_nonempty ds) refl
  | inr (c, k) ↦
      let (ws, c≡, segments) = clean_relative-IsClean rel c k in
      rw (k, e, dir_of_nonempty ds) (resolve_in-below ds ws c h segments c≡)
]
