-- ===== src/Merge/Similarity.antt =====
-- internal/merge/normalize.go: the similarity of two names.
use carrel.Prelude.{
  ℕ, ◌+◌, ◌-◌, ◌*◌, ◌/◌, ◌||◌, List, [], ◌∷◌, if◌then◌else◌, ltb, nat_eq, length, Text, text_eq,
  ◌==◌,
}

unfoldable pub min3 : ℕ → ℕ → ℕ → ℕ
min3 a b c = let a' = if ltb b a then b else a in if ltb c a' then c else a'

abbrev pub cost : ℕ → ℕ → ℕ
cost x y = if nat_eq x y then 0 else 1

-- The inner loop from a column on: the cell to the left, the one above that, the rest of the row
-- above and of the second word.
unfoldable pub cells : ℕ → ℕ → ℕ → List ℕ → List ℕ → List ℕ
unfolding min3
cells x left diagonal above [] = []
cells x left diagonal [] (y ∷ ys) = []
cells x left diagonal (up ∷ above) (y ∷ ys) =
    let cell = min3 (left + 1) (up + 1) (diagonal + cost x y) in cell ∷ cells x cell up above ys

-- One round of the outer loop: the row of the i-th rune, which starts with i.
unfoldable pub next_row : ℕ → ℕ → List ℕ → Text → List ℕ
unfolding cells
next_row i x [] b = []
next_row i x (diagonal ∷ above) b = i ∷ cells x i diagonal above b

unfoldable pub rows : ℕ → Text → List ℕ → Text → List ℕ
unfolding next_row
rows i [] row b = row
rows i (x ∷ xs) row b = rows (i + 1) xs (next_row i x row b) b

-- previous[j] = j
unfoldable pub first_row : ℕ → Text → List ℕ
first_row j [] = j ∷ []
first_row j (y ∷ ys) = j ∷ first_row (j + 1) ys

-- The last cell of a row, which has one for each rune of the second word and one more.
abbrev pub last_cell : List ℕ → ℕ
last_cell [] = 0
last_cell (x ∷ []) = x
last_cell (x ∷ y ∷ row) = last_cell (y ∷ row)

unfoldable pub levenshtein : Text → Text → ℕ
unfolding rows first_row
levenshtein a b =
    if nat_eq (length a) 0
    then length b
    else if nat_eq (length b) 0
    then length a
    else last_cell (rows 1 a (first_row 0 b) b)

-- The empty names are compared first, so the longest length is not 0.
unfoldable pub similarity : Text → Text → ℕ
similarity a b =
    if nat_eq (length a) 0 || nat_eq (length b) 0
    then 0
    else if a == b
    then 100
    else let longest = if ltb (length a) (length b) then length b else length a in
      100 - levenshtein a b * 100 / longest
