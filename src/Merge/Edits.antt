-- ===== src/Merge/Edits.antt =====
-- internal/merge/normalize.go: levenshtein gives the least number of edits.
use carrel.Prelude.{
  ℕ, suc, ◌+◌, ◌≤◌, ◌≡◌, refl, ap, ◌∙◌, inl, inr, Bool-cases, List, [], ◌∷◌, ◌++◌, ltb, nat_eq,
  nat_eq_iff, length, Text, arith,
}
use carrel.Merge.Similarity.{min3, cost, cells, next_row, rows, first_row, last_cell, levenshtein}

-- A way to turn one word into another, with the number of its insertions, deletions and
-- replacements.
pub data Edits : Text → Text → ℕ → Type 0 where
  done : Edits [] [] 0
  kept : {a b : Text} {n : ℕ} (x : ℕ) → Edits a b n → Edits (x ∷ a) (x ∷ b) n
  replaced : {a b : Text} {n : ℕ} (x y : ℕ) → Edits a b n → Edits (x ∷ a) (y ∷ b) (suc n)
  deleted : {a b : Text} {n : ℕ} (x : ℕ) → Edits a b n → Edits (x ∷ a) b (suc n)
  inserted : {a b : Text} {n : ℕ} (y : ℕ) → Edits a b n → Edits a (y ∷ b) (suc n)

-- The least number of edits, by recursion on the first runes.
least : Text → Text → ℕ
unfolding min3
least [] b = length b
least (x ∷ a) [] = suc (length a)
least (x ∷ a) (y ∷ b) = min3 (least (x ∷ a) b + 1) (least a (y ∷ b) + 1) (least a b + cost x y)

least-nil : (a : Text) → least a [] ≡ length a
unfolding least
least-nil [] = refl
least-nil (x ∷ a) = omega arith

least-suc_left : (x : ℕ) (a b : Text) → least (x ∷ a) b ≤ least a b + 1
unfolding least min3
least-suc_left x a [] = omega (arith, least-nil a)
least-suc_left x a (y ∷ b) = ground arith

least-suc_right : (a : Text) (y : ℕ) (b : Text) → least a (y ∷ b) ≤ least a b + 1
unfolding least min3
least-suc_right [] y b = omega arith
least-suc_right (x ∷ a) y b = ground arith

least-diagonal : (x y : ℕ) (a b : Text) → least (x ∷ a) (y ∷ b) ≤ least a b + cost x y
unfolding least min3
least-diagonal x y a b = ground arith

-- No way takes fewer.
least-le : {a b : Text} {n : ℕ} → Edits a b n → least a b ≤ n
unfolding least
least-le done = omega arith
least-le (kept {a} {b} x e) = ground (arith, least-le e, least-diagonal x x a b)
least-le (replaced {a} {b} x y e) = ground (arith, least-le e, least-diagonal x y a b)
least-le (deleted {a} {b} x e) = omega (arith, least-le e, least-suc_left x a b)
least-le (inserted {a} {b} y e) = omega (arith, least-le e, least-suc_right a y b)

all_inserted : (b : Text) → Edits [] b (length b)
all_inserted [] = Edits.done
all_inserted (y ∷ b) = Edits.inserted y (all_inserted b)

all_deleted : (a : Text) → Edits a [] (length a)
all_deleted [] = Edits.done
all_deleted (x ∷ a) = Edits.deleted x (all_deleted a)

relabel : {a b : Text} (m n : ℕ) → m ≡ n → Edits a b m → Edits a b n
relabel m n e h = rw (← e) h

diagonal : (x y : ℕ) (a b : Text) (n : ℕ) → Edits a b n → Edits (x ∷ a) (y ∷ b) (n + cost x y)
diagonal x y a b n e = elim (Bool-cases (nat_eq x y)) [
  | inl q ↦
      let same : x ≡ y = (nat_eq_iff x y).0 q in
      rw same (relabel n (n + cost y y) (ground (arith, (nat_eq_iff y y).1 refl)) (Edits.kept y e))
  | inr q ↦ relabel (suc n) (n + cost x y) (ground arith) (Edits.replaced x y e)
]

-- And one takes that many.
least_edits : (a b : Text) → Edits a b (least a b)
unfolding least min3
least_edits [] b = all_inserted b
least_edits (x ∷ a) [] = all_deleted (x ∷ a)
least_edits (x ∷ a) (y ∷ b) =
    let i = least (x ∷ a) b + 1 in
    let d = least a (y ∷ b) + 1 in
    let k = least a b + cost x y in
    let by_insert = relabel _ i (omega arith) (Edits.inserted y (least_edits (x ∷ a) b)) in
    let by_delete = relabel _ d (omega arith) (Edits.deleted x (least_edits a (y ∷ b))) in
    let by_diagonal = diagonal x y a b (least a b) (least_edits a b) in
    elim (Bool-cases (ltb d i)) [
      | inl p ↦ elim (Bool-cases (ltb k d)) [
        | inl q ↦ relabel k (min3 i d k) (ground arith) by_diagonal
        | inr q ↦ relabel d (min3 i d k) (ground arith) by_delete
      ]
      | inr p ↦ elim (Bool-cases (ltb k i)) [
        | inl q ↦ relabel k (min3 i d k) (ground arith) by_diagonal
        | inr q ↦ relabel i (min3 i d k) (ground arith) by_insert
      ]
    ]

-- The word turned around, in front of another.
reach : Text → Text → Text
reach onto [] = onto
reach onto (x ∷ xs) = reach (x ∷ onto) xs

length-reach : (c a : Text) → length (reach c a) ≡ length c + length a
unfolding reach
length-reach c [] = omega arith
length-reach c (x ∷ a) = omega (arith, length-reach (x ∷ c) a)

reach-reach : (c d a : Text) → reach c (reach d a) ≡ reach (a ++ c) d
unfolding reach
reach-reach c d [] = refl
reach-reach c d (x ∷ a) = reach-reach c (x ∷ d) a

append_nil : (a : Text) → a ++ [] ≡ a
append_nil [] = refl
append_nil (x ∷ a) = ap (λ t. x ∷ t) (append_nil a)

reach_twice : (a : Text) → reach [] (reach [] a) ≡ a
unfolding reach
reach_twice a = reach-reach [] [] a ∙ append_nil a

-- The edits of two words are the edits of the words turned around.
Edits-reach :
    {a b c d : Text} {m n : ℕ} → Edits a b n → Edits c d m → Edits (reach c a) (reach d b) (n + m)
unfolding reach
Edits-reach {m = m} done f = relabel m (0 + m) (omega arith) f
Edits-reach (kept x e) f = Edits-reach e (Edits.kept x f)
Edits-reach {m = m} {n = suc n} (replaced x y e) f =
    relabel (n + suc m) (suc n + m) (omega arith) (Edits-reach e (Edits.replaced x y f))
Edits-reach {m = m} {n = suc n} (deleted x e) f =
    relabel (n + suc m) (suc n + m) (omega arith) (Edits-reach e (Edits.deleted x f))
Edits-reach {m = m} {n = suc n} (inserted y e) f =
    relabel (n + suc m) (suc n + m) (omega arith) (Edits-reach e (Edits.inserted y f))

-- The row of a prefix of the first word, turned around, from a column on.
columns : Text → Text → Text → List ℕ
columns ra rb [] = []
columns ra rb (y ∷ ys) = least ra (y ∷ rb) ∷ columns ra (y ∷ rb) ys

cells-columns :
    (x : ℕ) (ra rb ys : Text)
    → cells x (least (x ∷ ra) rb) (least ra rb) (columns ra rb ys) ys ≡ columns (x ∷ ra) rb ys
unfolding cells columns least
cells-columns x ra rb [] = refl
cells-columns x ra rb (y ∷ ys) =
    ap (λ t. least (x ∷ ra) (y ∷ rb) ∷ t) (cells-columns x ra (y ∷ rb) ys)

rows-columns :
    (i : ℕ) (xs ra b : Text)
    → i ≡ length ra + 1
    → rows i xs (least ra [] ∷ columns ra [] b) b
      ≡ least (reach ra xs) [] ∷ columns (reach ra xs) [] b
unfolding rows next_row reach
rows-columns i [] ra b h = refl
rows-columns i (x ∷ xs) ra b h =
    let start : i ≡ least (x ∷ ra) [] = omega (arith, least-nil (x ∷ ra)) in
    let row : i ∷ cells x i (least ra []) (columns ra [] b) b
        ≡ least (x ∷ ra) [] ∷ columns (x ∷ ra) [] b =
      ap (λ k. k ∷ cells x k (least ra []) (columns ra [] b) b) start
      ∙ ap (λ t. least (x ∷ ra) [] ∷ t) (cells-columns x ra [] b) in
    ap (λ r. rows (i + 1) xs r b) row ∙ rows-columns (i + 1) xs (x ∷ ra) b (omega arith)

first_row-columns :
    (j : ℕ) (rb ys : Text) → j ≡ length rb → first_row j ys ≡ least [] rb ∷ columns [] rb ys
unfolding first_row columns least
first_row-columns j rb [] h = ap (λ k. k ∷ []) h
first_row-columns j rb (y ∷ ys) h =
    let e : j ≡ length rb = h in
    ap (λ t. j ∷ t) (first_row-columns (j + 1) (y ∷ rb) ys (omega arith))
    ∙ ap (λ k. k ∷ least [] (y ∷ rb) ∷ columns [] (y ∷ rb) ys) e

last_cell-columns :
    (ra rb ys : Text) → last_cell (least ra rb ∷ columns ra rb ys) ≡ least ra (reach rb ys)
unfolding columns reach
last_cell-columns ra rb [] = refl
last_cell-columns ra rb (y ∷ ys) = last_cell-columns ra (y ∷ rb) ys

levenshtein-least : (a b : Text) → levenshtein a b ≡ least (reach [] a) (reach [] b)
unfolding levenshtein least reach
levenshtein-least [] b = omega (arith, length-reach [] b)
levenshtein-least (x ∷ a) [] = grind (arith, length-reach [] (x ∷ a), least-nil (reach [] (x ∷ a)))
levenshtein-least (x ∷ a) (y ∷ b) =
    let table : last_cell (rows 1 (x ∷ a) (first_row 0 (y ∷ b)) (y ∷ b))
        ≡ least (reach [] (x ∷ a)) (reach [] (y ∷ b)) =
      ap (λ r. last_cell (rows 1 (x ∷ a) r (y ∷ b))) (first_row-columns 0 [] (y ∷ b) refl)
      ∙ ap last_cell (rows-columns 1 (x ∷ a) [] (y ∷ b) refl)
      ∙ last_cell-columns (reach [] (x ∷ a)) [] (y ∷ b) in
    ground (arith, table)

carry : {a a' b b' : Text} {m n : ℕ} → a ≡ a' → b ≡ b' → m ≡ n → Edits a b m → Edits a' b' n
carry p q r e = rw (← p, ← q, ← r) e

-- The loop over two rows gives a number of insertions, deletions and replacements that turn one
-- name into the other, and no way takes fewer.
pub levenshtein-min :
    (a b : Text) → Edits a b (levenshtein a b) × ((n : ℕ) → Edits a b n → levenshtein a b ≤ n)
levenshtein-min a b =
    let k = levenshtein-least a b in
    let there = Edits-reach (least_edits (reach [] a) (reach [] b)) Edits.done in
    (
      carry (reach_twice a) (reach_twice b) (omega (arith, k)) there,
      λ n e. omega (arith, k, least-le (Edits-reach e Edits.done)),
    )
