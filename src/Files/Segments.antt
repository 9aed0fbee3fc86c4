-- ===== src/Files/Segments.antt =====
-- internal/provider/files/path.go: splitting a clean path gives its segments.
use carrel.Prelude.{
  ◌≡◌, refl, ap, subst, ◌∙◌, inl, inr, Bool, Bool-cases, false, ◌||◌, List, [], ◌∷◌, ◌++◌, All,
  if◌then◌else◌, nat_eq, length, exists, Text, text, text_eq, ◌==◌, arith,
}
use carrel.Errors.{Result, ok, err, outside_collection}
use carrel.Strings.{split, push_front, join}
use carrel.Files.{slash, kept_segments}

abbrev pub has_slash : Text → Bool
has_slash = exists (λ c. nat_eq c slash)

-- A segment that CleanRelative keeps.
abbrev pub IsSegment : Text → Type 0
IsSegment s =
    (nat_eq (length s) 0 ≡ false)
    × ((s == text ".") ≡ false)
    × ((s == text "..") ≡ false)
    × (has_slash s ≡ false)

split_whole : (s : Text) → has_slash s ≡ false → split slash s ≡ s ∷ []
unfolding split
split_whole [] h = refl
split_whole (c ∷ s) h = ground (arith, split_whole s (ground arith))

split-append : (s t : Text) → has_slash s ≡ false → split slash (s ++ slash ∷ t) ≡ s ∷ split slash t
unfolding split
split-append [] t h = refl
split-append (c ∷ s) t h = ground (arith, split-append s t (ground arith))

pub split-join :
    (w : Text) (ws : List Text)
    → All (λ s. has_slash s ≡ false) (w ∷ ws)
    → split slash (join (text "/") (w ∷ ws)) ≡ w ∷ ws
unfolding join
split-join w [] h = split_whole w h.0
split-join w (v ∷ ws) h =
    split-append w (join (text "/") (v ∷ ws)) h.0 ∙ ap (λ r. w ∷ r) (split-join v ws h.1)

pub kept_segments_whole : (ws : List Text) → All IsSegment ws → kept_segments ws ≡ ok ws
unfolding kept_segments
kept_segments_whole [] h = refl
kept_segments_whole (w ∷ ws) (a, h) =
    let (n, d, u, _) = a in ground (arith, n, d, u, kept_segments_whole ws h)

pub split-has_slash : (s : Text) → All (λ w. has_slash w ≡ false) (split slash s)
unfolding split
split-has_slash [] = (refl, tt)
split-has_slash (c ∷ s) = go (split slash s) (split-has_slash s)
  where
    front :
        (rest : List Text)
        → All (λ w. has_slash w ≡ false) rest
        → nat_eq c slash ≡ false
        → All (λ w. has_slash w ≡ false) (push_front c rest)
    front [] h e = (ground arith, tt)
    front (w ∷ ws) h e = (ground (arith, h.0), h.1)

    go :
        (rest : List Text)
        → All (λ w. has_slash w ≡ false) rest
        → All (λ w. has_slash w ≡ false) (if nat_eq c slash then [] ∷ rest else push_front c rest)
    go rest h = elim (Bool-cases (nat_eq c slash)) [
      | inl e ↦ rw e (refl, h)
      | inr e ↦ rw e (front rest h e)
    ]

-- What is kept of the segments of a text are segments.
pub kept_segments-IsSegment :
    (ws out : List Text)
    → All (λ w. has_slash w ≡ false) ws
    → kept_segments ws ≡ ok out
    → All IsSegment out
unfolding kept_segments
kept_segments-IsSegment [] [] h k = tt
kept_segments-IsSegment [] (o ∷ out) h k = absurd (ground arith)
kept_segments-IsSegment (w ∷ ws) out h k =
    go (kept_segments ws) (λ o e. kept_segments-IsSegment ws o h.1 e) k
  where
    added :
        (rest : Result (List Text))
        → ((o : List Text) → rest ≡ ok o → All IsSegment o)
        → (nat_eq (length w) 0 || w == text ".") ≡ false
        → (w == text "..") ≡ false
        → elim rest [ err e ↦ err e | ok o ↦ ok (w ∷ o) ] ≡ ok out
        → All IsSegment out
    added (err e) later n u k = absurd (ground arith)
    added (ok o) later n u k =
        let out≡ : w ∷ o ≡ out = ground arith in
        subst (All IsSegment) out≡ ((ground arith, ground arith, u, h.0), later o refl)

    go :
        (rest : Result (List Text))
        → ((o : List Text) → rest ≡ ok o → All IsSegment o)
        → (if nat_eq (length w) 0 || w == text "."
            then rest
            else if w == text ".."
            then err outside_collection
            else elim rest [ err e ↦ err e | ok o ↦ ok (w ∷ o) ])
          ≡ ok out
        → All IsSegment out
    go rest later k = elim (Bool-cases (nat_eq (length w) 0 || w == text ".")) [
      | inl e ↦ later out (rw e at k)
      | inr e ↦ elim (Bool-cases (w == text "..")) [
        | inl u ↦ absurd (ground (arith, e, u, k))
        | inr u ↦ added rest later e u (rw (e, u) at k)
      ]
    ]
