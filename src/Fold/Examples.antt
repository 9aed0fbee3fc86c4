-- ===== src/Fold/Examples.antt =====
-- internal/model/fold.go at concrete inputs.
use carrel.Prelude.{◌≡◌, refl, [], ◌∷◌, ◌++◌, text, arith}
use carrel.Random.{Bytes}
use carrel.Fold.{rune_boundary, write_folded, fold_lines}
use carrel.Fold.Lossless.{Unfolded, Fits, IsText, write_folded-Unfolded}

-- Three runes of two bytes, folded at five.
abbrev umlauts : Bytes
umlauts = 0xc3 ∷ 0xa9 ∷ 0xc3 ∷ 0xa4 ∷ 0xc3 ∷ 0xb6 ∷ []

umlauts_folded :
    write_folded 7 5 umlauts ≡ 0xc3 ∷ 0xa9 ∷ 0xc3 ∷ 0xa4 ∷ 13 ∷ 10 ∷ 32 ∷ 0xc3 ∷ 0xb6 ∷ []
unfolding write_folded rune_boundary
umlauts_folded = refl

fold_lines_short :
    fold_lines (text "a" ++ (13 ∷ 10 ∷ text "b"))
    ≡ text "a" ++ (13 ∷ 10 ∷ text "b" ++ (13 ∷ 10 ∷ []))
unfolding fold_lines write_folded
fold_lines_short = refl

umlauts-IsText : IsText umlauts
umlauts-IsText = (
  λ l. refl,
  (
    λ l. refl,
    (
      λ l. refl,
      (
        λ l. absurd (omega (arith, l)),
        (λ l. absurd (omega (arith, l)), (λ l. absurd (omega (arith, l)), tt)),
      ),
    ),
  ),
)

write_folded-Unfolded_example :
    Unfolded (write_folded 7 5 umlauts) umlauts × Fits 5 (write_folded 7 5 umlauts)
write_folded-Unfolded_example =
    write_folded-Unfolded 7 5 umlauts (omega arith) (omega arith) refl umlauts-IsText
