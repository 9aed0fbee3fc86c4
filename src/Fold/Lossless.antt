-- ===== src/Fold/Lossless.antt =====
-- internal/model/fold.go: what is folded reads back, and no line is too long.
use carrel.Prelude.{
  ℕ, zero, suc, ◌-◌, ◌≤◌, ◌<◌, ◌≡◌, refl, ap, inl, inr, Bool, Bool-cases, true, false, [], ◌∷◌,
  ◌++◌, leb, nat_eq, length, take, drop, length-drop, length-take, exists, nat_eq_iff, subst, arith,
}
use carrel.Random.{Bytes}
use carrel.Fold.{fold_limit, crlf, is_rune_start, byte_at, back_from, rune_boundary, write_folded}

-- What a reader makes of folded text: a carriage return, a newline and a space are left out.
pub data Unfolded : Bytes → Bytes → Type 0 where
  empty : Unfolded [] []
  fold : {s t : Bytes} → Unfolded s t → Unfolded (13 ∷ 10 ∷ 32 ∷ s) t
  byte : {s t : Bytes} (b : ℕ) → nat_eq b 13 ≡ false → Unfolded s t → Unfolded (b ∷ s) (b ∷ t)

-- The lines of the result, given how many bytes each may have: the first at most `limit`, and the
-- others one less than the bound for the space before them.
pub data Fits : ℕ → Bytes → Type 0 where
  last : {limit : ℕ} (s : Bytes) → length s ≤ limit → Fits limit s
  more :
      {limit : ℕ} {t : Bytes} (s : Bytes)
      → length s ≤ limit
      → Fits (fold_limit - 1) t
      → Fits limit (s ++ (crlf ++ 32 ∷ t))

back_from-le : (cut : ℕ) (line : Bytes) → back_from cut line ≤ cut
back_from-le zero line = omega arith
back_from-le (suc cut) line = ground (arith, back_from-le cut line)

take-drop : (n : ℕ) (s : Bytes) → take n s ++ drop n s ≡ s
take-drop zero s = refl
take-drop (suc n) [] = refl
take-drop (suc n) (b ∷ s) = ap (λ r. b ∷ r) (take-drop n s)

abbrev pub has_return : Bytes → Bool
has_return = exists (λ b. nat_eq b 13)

has_return-take : (n : ℕ) (s : Bytes) → has_return s ≡ false → has_return (take n s) ≡ false
has_return-take zero s h = refl
has_return-take (suc n) [] h = refl
has_return-take (suc n) (b ∷ s) h = ground (arith, has_return-take n s (ground arith))

has_return-drop : (n : ℕ) (s : Bytes) → has_return s ≡ false → has_return (drop n s) ≡ false
has_return-drop zero s h = h
has_return-drop (suc n) [] h = refl
has_return-drop (suc n) (b ∷ s) h = has_return-drop n s (ground arith)

-- Of any four bytes in a row one starts a rune, as in UTF-8.
abbrev pub IsText : Bytes → Type 0
IsText [] = Unit
IsText (b ∷ s) = ((4 ≤ length (b ∷ s)) → exists is_rune_start (take 4 (b ∷ s)) ≡ true) × IsText s

IsText-drop : (n : ℕ) (s : Bytes) → IsText s → IsText (drop n s)
IsText-drop zero s h = h
IsText-drop (suc n) [] h = tt
IsText-drop (suc n) (b ∷ s) h = IsText-drop n s h.1

back_from-none :
    (cut i : ℕ) (line : Bytes)
    → back_from cut line ≡ 0
    → suc i ≤ cut
    → is_rune_start (byte_at (suc i) line) ≡ false
back_from-none zero i line h l = absurd (omega (arith, l))
back_from-none (suc cut) i line h l = elim (Bool-cases (nat_eq i cut)) [
  | inl e ↦ let i≡ : i ≡ cut = (nat_eq_iff i cut).0 e in rw i≡ (ground arith)
  | inr e ↦ back_from-none cut i line (ground arith) (ground arith)
]

back_from-positive :
    (limit : ℕ) (line : Bytes)
    → 4 ≤ limit
    → limit < length line
    → IsText line
    → nat_eq (back_from limit line) 0 ≡ false
back_from-positive limit line four long t = elim (Bool-cases (nat_eq (back_from limit line) 0)) [
  | inr e ↦ e
  | inl e ↦
      let none_is = back_from-none limit in
      let cut≡ = (nat_eq_iff (back_from limit line) 0).0 e in
      absurd (ground (arith, none_starts line (λ i l. none_is i line cut≡ l) long t))
]
  where
    none_starts :
        (line : Bytes)
        → ((i : ℕ) → suc i ≤ limit → is_rune_start (byte_at (suc i) line) ≡ false)
        → limit < length line
        → IsText line
        → false ≡ true
    none_starts (a ∷ b ∷ c ∷ d ∷ e ∷ s) f l (_, (g, _)) = ground (
      arith,
      f 0 (omega (arith, four)),
      f 1 (omega (arith, four)),
      f 2 (omega (arith, four)),
      f 3 (omega (arith, four)),
      g (omega arith),
    )
    none_starts [] f l t = absurd (omega (arith, four, l))
    none_starts (a ∷ []) f l t = absurd (omega (arith, four, l))
    none_starts (a ∷ b ∷ []) f l t = absurd (omega (arith, four, l))
    none_starts (a ∷ b ∷ c ∷ []) f l t = absurd (omega (arith, four, l))
    none_starts (a ∷ b ∷ c ∷ d ∷ []) f l t = absurd (omega (arith, four, l))

plain_Unfolded :
    (xs : Bytes) {s t : Bytes} → has_return xs ≡ false → Unfolded s t → Unfolded (xs ++ s) (xs ++ t)
plain_Unfolded [] h u = u
plain_Unfolded (b ∷ xs) h u = byte b (ground arith) (plain_Unfolded xs (ground arith) u)

same_Unfolded : (s : Bytes) → has_return s ≡ false → Unfolded s s
same_Unfolded [] h = empty
same_Unfolded (b ∷ s) h = byte b (ground arith) (same_Unfolded s (ground arith))

-- With as much fuel as the line has bytes and one more, a line of UTF-8 text without a carriage
-- return is folded to lines of at most 75 bytes, and a reader gets it back.
pub write_folded-Unfolded :
    (fuel limit : ℕ) (line : Bytes)
    → length line < fuel
    → 4 ≤ limit
    → has_return line ≡ false
    → IsText line
    → Unfolded (write_folded fuel limit line) line × Fits limit (write_folded fuel limit line)
unfolding write_folded rune_boundary
write_folded-Unfolded zero limit line l four h t = absurd (omega (arith, l))
write_folded-Unfolded (suc fuel) limit line l four h t =
    elim (Bool-cases (leb (length line) limit)) [
      | inl e ↦ rw e (same_Unfolded line h, last line (ground arith))
      | inr e ↦
          let cut = back_from limit line in
          let long : limit < length line = ground arith in
          let le = back_from-le limit line in
          let some_cut = back_from-positive limit line four long t in
          let shorter : length (drop cut line) < fuel = ground (arith, length-drop cut line) in
          let rest =
            write_folded-Unfolded fuel (fold_limit - 1) (drop cut line) shorter (omega arith)
              (has_return-drop cut line h) (IsText-drop cut line t) in
          let head_fits : length (take cut line) ≤ limit =
            omega (arith, le, length-take cut line (omega (arith, le, long))) in
          rw (e, some_cut)
            (
              subst
                  (Unfolded (
                    take cut line
                    ++ (crlf ++ 32 ∷ write_folded fuel (fold_limit - 1) (drop cut line))))
                  (take-drop cut line)
                  (plain_Unfolded (take cut line) (has_return-take cut line h) (fold rest.0)),
              more (take cut line) head_fits rest.1,
            )
    ]
