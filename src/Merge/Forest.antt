-- ===== src/Merge/Forest.antt =====
-- internal/merge/cluster.go: the parents are a forest, and its roots tell the sets apart.
use carrel.Prelude.{
  ℕ, zero, suc, ◌≤◌, ◌<◌, ◌≡◌, ◌≢◌, refl, sym, ap, ◌∙◌, inl, inr, Bool-cases, false, nat_eq,
  nat_eq_iff, arith,
}
use carrel.Merge.UnionFind.{assign, find_root}

-- The parents lead from a position to a root, in a number of steps.
pub data Chain (p : ℕ → ℕ) : ℕ → ℕ → ℕ → Type 0 where
  root : (i : ℕ) → p i ≡ i → Chain p i i 0
  step : {r k : ℕ} (i m : ℕ) → p i ≡ m → m ≢ i → Chain p m r k → Chain p i r (suc k)

pub Chain-unique :
    (p : ℕ → ℕ) (i : ℕ) {r s k l : ℕ} → Chain p i r k → Chain p i s l → (r ≡ s) × (k ≡ l)
Chain-unique p i (root _ e) (root _ f) = (refl, refl)
Chain-unique p i (root _ e) (step _ m f n c) = absurd (n (sym f ∙ e))
Chain-unique p i (step _ m f n c) (root _ e) = absurd (n (sym f ∙ e))
Chain-unique p i {s = s} {l = suc l} (step _ m f n c) (step _ m' f' n' d) =
    let moved : Chain p m s l = rw (sym f ∙ f') d in
    let (e, g) = Chain-unique p m c moved in (e, ap suc g)

pub root-parent : (p : ℕ → ℕ) (i : ℕ) {r k : ℕ} → Chain p i r k → p r ≡ r
root-parent p i (root _ e) = e
root-parent p i (step _ m f n c) = root-parent p m c

-- Every position has a chain to its root, of at most d steps.
abbrev pub IsForest : (ℕ → ℕ) → (ℕ → ℕ) → ℕ → Type 0
IsForest p roots d = (i : ℕ) → (k : ℕ) × (k ≤ d) × Chain p i (roots i) k

pub assign_other : (i v : ℕ) (p : ℕ → ℕ) (j : ℕ) → nat_eq j i ≡ false → assign i v p j ≡ p j
assign_other i v p j h = rw h refl

-- A chain does not come back.
no_return : (p : ℕ → ℕ) (i m j : ℕ) {r k : ℕ} → p i ≡ m → m ≢ i → p m ≡ j → Chain p j r k → j ≢ i
no_return p i m j {r} {k} f n g c back =
    let from_i : Chain p i r k = rw back at c in
    let longer : Chain p i r (suc (suc k)) =
      Chain.step i m f n (Chain.step m j g (λ e. n (sym (sym back ∙ e))) c) in
    let (_, same) = Chain-unique p i from_i longer in absurd (omega arith)

halved_root : (p : ℕ → ℕ) (i j : ℕ) → p j ≡ j → assign i (p (p i)) p j ≡ j
halved_root p i j e = elim (Bool-cases (nat_eq j i)) [
  | inl same ↦
      let j≡ : j ≡ i = (nat_eq_iff j i).0 same in rw same (ap (λ x. p (p x)) (sym j≡) ∙ ap p e ∙ e)
  | inr other ↦ rw other e
]

-- Halving keeps the root of every position, and makes no chain longer.
halved_chain :
    (p : ℕ → ℕ) (i j : ℕ) {r k : ℕ}
    → Chain p j r k
    → (l : ℕ) × (l ≤ k) × Chain (assign i (p (p i)) p) j r l
halved_chain p i j (root _ e) = (0, omega arith, Chain.root j (halved_root p i j e))
halved_chain p i j (step _ m f n (root _ e)) =
    let to : assign i (p (p i)) p j ≡ m = elim (Bool-cases (nat_eq j i)) [
      | inl same ↦
          let j≡ : j ≡ i = (nat_eq_iff j i).0 same in
          rw same (ap (λ x. p (p x)) (sym j≡) ∙ ap p f ∙ e)
      | inr other ↦ rw other f
    ] in
    (1, omega arith, Chain.step j m to n (Chain.root m (halved_root p i m e)))
halved_chain p i j (step _ m f n (step m2 m' f' n' c)) = elim (Bool-cases (nat_eq j i)) [
  | inl same ↦
      let j≡ : j ≡ i = (nat_eq_iff j i).0 same in
      let to : assign i (p (p i)) p j ≡ m' = rw same (ap (λ x. p (p x)) (sym j≡) ∙ ap p f ∙ f') in
      let (l, le, d) = halved_chain p i m' c in
      (suc l, omega arith, Chain.step j m' to (no_return p j m m' f n f' c) d)
  | inr other ↦
      let (l, le, d) = halved_chain p i m (Chain.step m2 m' f' n' c) in
      (suc l, omega arith, Chain.step j m (rw other f) n d)
]

halved-IsForest :
    (p roots : ℕ → ℕ) (d i : ℕ) → IsForest p roots d → IsForest (assign i (p (p i)) p) roots d
halved-IsForest p roots d i h j =
    let (k, le, c) = h j in let (l, le', c') = halved_chain p i j c in (l, omega arith, c')

-- What is left of a chain after its first step.
chain_tail :
    (q : ℕ → ℕ) (i : ℕ) {r l : ℕ}
    → Chain q i r l
    → i ≢ r
    → (k : ℕ) × (l ≡ suc k) × Chain q (q i) r k
chain_tail q i (root _ e) n = absurd (n refl)
chain_tail q i (step {k = k} _ m f n c) away = (k, refl, rw f c)

-- With more fuel than steps, `find` gives the root, and the forest keeps its roots.
pub find_root-root :
    (fuel i d : ℕ) (p roots : ℕ → ℕ) {k : ℕ}
    → IsForest p roots d
    → Chain p i (roots i) k
    → k < fuel
    → ((find_root fuel i p).0 ≡ roots i) × IsForest (find_root fuel i p).1 roots d
unfolding find_root
find_root-root zero i d p roots h c le = absurd (omega arith)
find_root-root (suc fuel) i d p roots {k} h c le = elim (Bool-cases (nat_eq (p i) i)) [
  | inl at ↦
      let fixed : p i ≡ i = (nat_eq_iff (p i) i).0 at in
      let (same, _) = Chain-unique p i (Chain.root i fixed) c in rw at (same, h)
  | inr away ↦
      let q = assign i (p (p i)) p in
      let forest = halved-IsForest p roots d i h in
      let (l, le', c') = halved_chain p i i c in
      let moved : i ≢ roots i = λ e.
        let fixed : p i ≡ i = ap p e ∙ root-parent p i c ∙ sym e in
        absurd (ground (arith, away, (nat_eq_iff (p i) i).1 fixed)) in
      let (m, l≡, rest) = chain_tail q i c' moved in
      let (n, _, on) = forest (q i) in
      let (same, n≡) = Chain-unique q (q i) on rest in
      let (found, kept) = find_root-root fuel (q i) d q roots forest on (omega arith) in
      rw away (found ∙ same, kept)
]
