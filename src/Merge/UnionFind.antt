-- ===== src/Merge/UnionFind.antt =====
-- internal/merge/cluster.go: unionFind. A slice is a function of the index; nothing outside it is
-- read, since every index comes from the slice's range. The loop of `find` runs on fuel.
use carrel.Prelude.{
  ℕ, zero, suc, List, [], ◌∷◌, ◌++◌, if◌then◌else◌, ltb, nat_eq, exists, Text, text_eq, ◌==◌,
}

pub record UnionFind : Type 0 where
  pub parent : ℕ → ℕ
  pub score : ℕ → ℕ
  pub signals : ℕ → List Text

-- a[i] = v
abbrev pub assign {ℓ} : {A : Type ℓ} → ℕ → A → (ℕ → A) → ℕ → A
assign i v a j = if nat_eq j i then v else a j

unfoldable pub new_union_find : UnionFind
new_union_find = record { parent = λ i. i; score = λ i. 0; signals = λ i. [] }

-- The root, and the parents with the path to it halved.
unfoldable pub find_root : ℕ → ℕ → (ℕ → ℕ) → ℕ × (ℕ → ℕ)
find_root zero i parent = (i, parent)
find_root (suc fuel) i parent =
    let halved = assign i (parent (parent i)) parent in
    let rest = find_root fuel (halved i) halved in if nat_eq (parent i) i then (i, parent) else rest

-- A set of signals, in the order in which they were added.
abbrev pub add_signal : List Text → Text → List Text
add_signal signals s = if exists (λ t. t == s) signals then signals else signals ++ s ∷ []

abbrev pub add_signals : List Text → List Text → List Text
add_signals to [] = to
add_signals to (s ∷ more) = add_signals (add_signal to s) more

abbrev pub best : ℕ → ℕ → ℕ
best a b = if ltb a b then b else a

-- The two roots are one set from here on.
unfoldable pub link : ℕ → ℕ → UnionFind → UnionFind
link root_a root_b u = record {
  parent = assign root_b root_a u.parent;
  score = assign root_a (best (u.score root_a) (u.score root_b)) u.score;
  signals =
      assign root_b []
        (assign root_a (add_signals (u.signals root_a) (u.signals root_b)) u.signals);
}

unfoldable pub note_score : ℕ → ℕ → List Text → UnionFind → UnionFind
note_score root score signals u = record u {
  score = assign root (best (u.score root) score) u.score;
  signals = assign root (add_signals (u.signals root) signals) u.signals;
}

unfoldable pub union : ℕ → ℕ → ℕ → ℕ → List Text → UnionFind → UnionFind
union fuel a b score signals u =
    let found_a = find_root fuel a u.parent in
    let found_b = find_root fuel b found_a.1 in
    let u' : UnionFind = record u { parent = found_b.1 } in
    note_score found_a.0 score signals
      (if nat_eq found_a.0 found_b.0 then u' else link found_a.0 found_b.0 u')

-- The pairs that are joined one after the other, each with its score and its reasons.
pub record Match : Type 0 where
  pub left : ℕ
  pub right : ℕ
  pub points : ℕ
  pub reasons : List Text

unfoldable pub union_all : ℕ → List Match → UnionFind → UnionFind
union_all fuel [] u = u
union_all fuel (m ∷ ms) u = union_all fuel ms (union fuel m.left m.right m.points m.reasons u)
