-- ===== src/Merge/Components.antt =====
-- internal/merge/cluster.go: the sets of unionFind are the connected components of the pairs.
use carrel.Prelude.{
  ℕ, suc, ◌+◌, ◌≤◌, ◌<◌, ◌≡◌, ◌≢◌, ◌↔◌, ◌⊎◌, refl, sym, ap, ◌∙◌, inl, inr, Bool-cases, false, List,
  [], ◌∷◌, if◌then◌else◌, nat_eq, nat_eq_iff, arith, length,
}
use carrel.Merge.UnionFind.{
  UnionFind, Match, assign, find_root, link, note_score, union, union_all, new_union_find,
}
use carrel.Merge.Forest.{Chain, root, step, root-parent, IsForest, find_root-root}

-- The least equivalence that holds a relation.
pub data Joined (R : ℕ → ℕ → Type 0) : ℕ → ℕ → Type 0 where
  alone : (i : ℕ) → Joined R i i
  linked : {i j : ℕ} → R i j → Joined R i j
  back : {i j : ℕ} → Joined R i j → Joined R j i
  on : {i j k : ℕ} → Joined R i j → Joined R j k → Joined R i k

pub Joined-bind :
    (R S : ℕ → ℕ → Type 0) {i j : ℕ}
    → ((x y : ℕ) → R x y → Joined S x y)
    → Joined R i j
    → Joined S i j
Joined-bind R S f (alone i) = Joined.alone i
Joined-bind R S {i} {j} f (linked h) = f i j h
Joined-bind R S f (back h) = Joined.back (Joined-bind R S f h)
Joined-bind R S f (on h k) = Joined.on (Joined-bind R S f h) (Joined-bind R S f k)

-- A function that respects the relation respects the equivalence.
pub Joined-ap :
    (R : ℕ → ℕ → Type 0) (f : ℕ → ℕ) {i j : ℕ}
    → ((x y : ℕ) → R x y → f x ≡ f y)
    → Joined R i j
    → f i ≡ f j
Joined-ap R f respects (alone i) = refl
Joined-ap R f {i} {j} respects (linked h) = respects i j h
Joined-ap R f respects (back h) = sym (Joined-ap R f respects h)
Joined-ap R f respects (on h k) = Joined-ap R f respects h ∙ Joined-ap R f respects k

-- The pair is one of the list.
abbrev pub Matched : List Match → ℕ → ℕ → Type 0
Matched [] i j = ⊥
Matched (m ∷ ms) i j = ((m.left ≡ i) × (m.right ≡ j)) ⊎ Matched ms i j

-- The roots after root b has been put under root a.
abbrev moved : ℕ → ℕ → (ℕ → ℕ) → ℕ → ℕ
moved a b roots j = if nat_eq (roots j) b then a else roots j

linked_chain :
    (p : ℕ → ℕ) (a b j : ℕ) {r k : ℕ}
    → p a ≡ a
    → p b ≡ b
    → nat_eq a b ≡ false
    → Chain p j r k
    → (l : ℕ) × (l ≤ suc k) × Chain (assign b a p) j (if nat_eq r b then a else r) l
linked_chain p a b j pa pb ne (root _ e) = elim (Bool-cases (nat_eq j b)) [
  | inl same ↦
      let j≡ : j ≡ b = (nat_eq_iff j b).0 same in
      let to : assign b a p j ≡ a = rw same refl in
      let top : assign b a p a ≡ a = rw ne pa in
      let away : a ≢ j = λ q. absurd (ground (arith, ne, (nat_eq_iff a b).1 (q ∙ j≡))) in
      (1, omega arith, rw same (Chain.step j a to away (Chain.root a top)))
  | inr other ↦ (0, omega arith, rw other (Chain.root j (rw other e)))
]
linked_chain p a b j pa pb ne (step _ m f n c) =
    let (l, le, d) = linked_chain p a b m pa pb ne c in
    let other : nat_eq j b ≡ false = elim (Bool-cases (nat_eq j b)) [
      | inl same ↦
          let j≡ : j ≡ b = (nat_eq_iff j b).0 same in absurd (n (sym f ∙ ap p j≡ ∙ pb ∙ sym j≡))
      | inr o ↦ o
    ] in
    (suc l, omega arith, Chain.step j m (rw other f) n d)

link-IsForest :
    (p roots : ℕ → ℕ) (d a b : ℕ)
    → IsForest p roots d
    → p a ≡ a
    → p b ≡ b
    → nat_eq a b ≡ false
    → IsForest (assign b a p) (moved a b roots) (suc d)
link-IsForest p roots d a b h pa pb ne j =
    let (k, le, c) = h j in
    let (l, le', c') = linked_chain p a b j pa pb ne c in (l, omega arith, c')

abbrev Paired : ℕ → ℕ → ℕ → ℕ → Type 0
Paired a b x y = (a ≡ x) × (b ≡ y)

-- A relation, or what has one root already.
abbrev Widened : (ℕ → ℕ → Type 0) → (ℕ → ℕ) → ℕ → ℕ → Type 0
Widened R roots x y = R x y ⊎ (roots x ≡ roots y)

-- What joining one pair does to the sets: it joins the two that hold the pair, and no others.
record IsJoin (a b : ℕ) (roots roots' : ℕ → ℕ) : Type 0 where
  joins : roots' a ≡ roots' b
  keeps : (i j : ℕ) → roots i ≡ roots j → roots' i ≡ roots' j
  only : (i j : ℕ) → roots' i ≡ roots' j → Joined (Widened (Paired a b) roots) i j

same-IsJoin : (a b : ℕ) (roots : ℕ → ℕ) → roots a ≡ roots b → IsJoin a b roots roots
same-IsJoin a b roots h = record {
  joins = h;
  keeps = λ i j e. e;
  only = λ i j e. Joined.linked (inr e);
}

-- Every position is joined with a or stays where it was.
moved_or :
    (a b j : ℕ) (roots : ℕ → ℕ)
    → ((roots j ≡ b) × (moved a b roots j ≡ a)) ⊎ (moved a b roots j ≡ roots j)
moved_or a b j roots = elim (Bool-cases (nat_eq (roots j) b)) [
  | inl e ↦ inl ((nat_eq_iff (roots j) b).0 e, rw e refl)
  | inr e ↦ inr (rw e refl)
]

moved-IsJoin :
    (a b : ℕ) (roots : ℕ → ℕ)
    → nat_eq (roots a) (roots b) ≡ false
    → IsJoin a b roots (moved (roots a) (roots b) roots)
moved-IsJoin a b roots ne = record {
  joins = stays ∙ sym goes;
  keeps = λ i j e. ap (λ r. if nat_eq r (roots b) then roots a else r) e;
  only = only;
}
  where
    stays : moved (roots a) (roots b) roots a ≡ roots a
    stays = rw ne refl

    goes : moved (roots a) (roots b) roots b ≡ roots a
    goes = rw ((nat_eq_iff (roots b) (roots b)).1 refl) refl

    crossed :
        (i j : ℕ) → roots i ≡ roots b → roots a ≡ roots j → Joined (Widened (Paired a b) roots) i j
    crossed i j e f =
        Joined.on (Joined.linked (inr e))
          (Joined.on (Joined.back (Joined.linked (inl (refl, refl)))) (Joined.linked (inr f)))

    only :
        (i j : ℕ)
        → moved (roots a) (roots b) roots i ≡ moved (roots a) (roots b) roots j
        → Joined (Widened (Paired a b) roots) i j
    only i j e = elim (moved_or (roots a) (roots b) i roots) [
      | inl (f, to) ↦ elim (moved_or (roots a) (roots b) j roots) [
        | inl (g, _) ↦ Joined.linked (inr (f ∙ sym g))
        | inr stay ↦ crossed i j f (sym to ∙ e ∙ stay)
      ]
      | inr stay_i ↦ elim (moved_or (roots a) (roots b) j roots) [
        | inl (g, to) ↦ Joined.back (crossed j i g (sym to ∙ sym e ∙ stay_i))
        | inr stay_j ↦ Joined.linked (inr (sym stay_i ∙ e ∙ stay_j))
      ]
    ]

-- One call of `union`, with fuel enough for the forest.
union-IsJoin :
    (fuel d : ℕ) (m : Match) (u : UnionFind) (roots : ℕ → ℕ)
    → IsForest u.parent roots d
    → d < fuel
    → (roots' : ℕ → ℕ) × IsForest
        (union fuel m.left m.right m.points m.reasons u).parent
        roots'
        (suc d)
      × IsJoin m.left m.right roots roots'
unfolding union link note_score
union-IsJoin fuel d m u roots h le =
    let (ka, lea, ca) = h m.left in
    let (found_a, ha) = find_root-root fuel m.left d u.parent roots h ca (omega arith) in
    let p = (find_root fuel m.left u.parent).1 in
    let (kb, leb, cb) = ha m.right in
    let (found_b, hb) = find_root-root fuel m.right d p roots ha cb (omega arith) in
    let q = (find_root fuel m.right p).1 in
    let (ka', lea', ca') = hb m.left in
    let (kb', leb', cb') = hb m.right in
    elim (Bool-cases (nat_eq (roots m.left) (roots m.right))) [
      | inl e ↦ (
        roots,
        rw (found_a, found_b, e) (λ j. let (k, le', c) = hb j in (k, omega arith, c)),
        same-IsJoin m.left m.right roots ((nat_eq_iff (roots m.left) (roots m.right)).0 e),
      )
      | inr e ↦ (
        moved (roots m.left) (roots m.right) roots,
        rw (found_a, found_b, e)
            (link-IsForest q roots d (roots m.left) (roots m.right) hb (root-parent q m.left ca')
              (root-parent q m.right cb') e),
        moved-IsJoin m.left m.right roots e,
      )
    ]

-- What joining a list of pairs does to the sets.
record AreJoins (ms : List Match) (roots roots' : ℕ → ℕ) : Type 0 where
  pub joins : (i j : ℕ) → Matched ms i j → roots' i ≡ roots' j
  keeps : (i j : ℕ) → roots i ≡ roots j → roots' i ≡ roots' j
  only : (i j : ℕ) → roots' i ≡ roots' j → Joined (Widened (Matched ms) roots) i j

AreJoins-cons :
    (m : Match) (ms : List Match) (roots one roots' : ℕ → ℕ)
    → IsJoin m.left m.right roots one
    → AreJoins ms one roots'
    → AreJoins (m ∷ ms) roots roots'
AreJoins-cons m ms roots one roots' h hs = record {
  joins = joins;
  keeps = λ i j e. hs.keeps i j (h.keeps i j e);
  only = λ i j e. Joined-bind _ _ widen (hs.only i j e);
}
  where
    joins : (i j : ℕ) → Matched (m ∷ ms) i j → roots' i ≡ roots' j
    joins i j (inl (e, f)) = hs.keeps i j (rw (← e, ← f) h.joins)
    joins i j (inr k) = hs.joins i j k

    first :
        (x y : ℕ)
        → ((m.left ≡ x) × (m.right ≡ y)) ⊎ (roots x ≡ roots y)
        → Joined (Widened (Matched (m ∷ ms)) roots) x y
    first x y (inl e) = Joined.linked (inl (inl e))
    first x y (inr e) = Joined.linked (inr e)

    widen :
        (x y : ℕ) → Matched ms x y ⊎ (one x ≡ one y) → Joined (Widened (Matched (m ∷ ms)) roots) x y
    widen x y (inl k) = Joined.linked (inl (inr k))
    widen x y (inr e) = Joined-bind _ _ first (h.only x y e)

union_all-AreJoins :
    (fuel d : ℕ) (ms : List Match) (u : UnionFind) (roots : ℕ → ℕ)
    → IsForest u.parent roots d
    → d + length ms < fuel
    → (roots' : ℕ → ℕ) × IsForest (union_all fuel ms u).parent roots' (d + length ms)
      × AreJoins ms roots roots'
unfolding union_all
union_all-AreJoins fuel d [] u roots h le = (
  roots,
  (λ j. let (k, le', c) = h j in (k, omega arith, c)),
  record { joins = λ i j m. absurd m; keeps = λ i j e. e; only = λ i j e. Joined.linked (inr e) },
)
union_all-AreJoins fuel d (m ∷ ms) u roots h le =
    let (one, forest, join) = union-IsJoin fuel d m u roots h (omega arith) in
    let (roots', forest', joins) =
      union_all-AreJoins fuel (suc d) ms (union fuel m.left m.right m.points m.reasons u) one forest
        (omega arith) in
    (
      roots',
      (λ j. let (k, le', c) = forest' j in (k, omega arith, c)),
      AreJoins-cons m ms roots one roots' join joins,
    )

-- The roots after any list of pairs, with fuel for one step more than there are pairs: two positions
-- have one root exactly when the pairs connect them.
pub roots-Joined :
    (ms : List Match) (fuel : ℕ)
    → length ms < fuel
    → (roots : ℕ → ℕ) × IsForest (union_all fuel ms new_union_find).parent roots (length ms)
      × ((i j : ℕ) → (roots i ≡ roots j) ↔ Joined (Matched ms) i j)
unfolding new_union_find
roots-Joined ms fuel le =
    let start : IsForest (λ x. x) (λ x. x) 0 = λ x. (0, omega arith, Chain.root x refl) in
    let (roots, forest, joins) =
      union_all-AreJoins fuel 0 ms new_union_find (λ x. x) start (omega arith) in
    (
      roots,
      λ j. (let (k, lk, c) = forest j in (k, omega arith, c)),
      λ i j. (
        λ e. Joined-bind _ _ (λ x y. clear x y) (joins.only i j e),
        λ h. Joined-ap (Matched ms) roots joins.joins h,
      ),
    )
  where
    clear : (x y : ℕ) → Matched ms x y ⊎ (x ≡ y) → Joined (Matched ms) x y
    clear x y (inl k) = Joined.linked k
    clear x y (inr e) = rw e (Joined.alone y)
