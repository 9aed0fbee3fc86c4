-- ===== src/Merge/Groups.antt =====
-- internal/merge/cluster.go: what grouping positions by their root gives.
use carrel.Prelude.{
  ℕ, zero, suc, ◌+◌, ◌<◌, ◌≡◌, ◌↔◌, refl, ap, ◌∙◌, inl, inr, Bool, Bool-cases, true, false, ◌&&◌,
  ◌||◌, not, List, [], ◌∷◌, ◌++◌, map, ltb, leb, nat_eq, nat_eq_iff, length, exists, keep, arith,
}
use carrel.Merge.UnionFind.{find_root}
use carrel.Merge.Forest.{IsForest, find_root-root}
use carrel.Merge.Cluster.{add_member, group_from, insert_by, sort_by, sort_ints}

-- A position is in a list; two are in one list of several.
abbrev pub has : ℕ → List ℕ → Bool
has i xs = exists (λ x. nat_eq x i) xs

abbrev pub together : ℕ → ℕ → List (List ℕ) → Bool
together i j groups = exists (λ g. has i g && has j g) groups

pub exists-append {ℓ} :
    {A : Type ℓ} (p : A → Bool) (xs ys : List A)
    → exists p (xs ++ ys) ≡ (exists p xs || exists p ys)
exists-append p [] ys = refl
exists-append p (x ∷ xs) ys = ground (arith, exists-append p xs ys)

pub exists-insert_by {ℓ} :
    {A : Type ℓ} (p : A → Bool) (key : A → ℕ) (a : A) (more : List A)
    → exists p (insert_by key a more) ≡ (p a || exists p more)
exists-insert_by p key a [] = refl
exists-insert_by p key a (b ∷ bs) = ground (arith, exists-insert_by p key a bs)

pub exists-sort_by {ℓ} :
    {A : Type ℓ} (p : A → Bool) (key : A → ℕ) (more : List A)
    → exists p (sort_by key more) ≡ exists p more
unfolding sort_by
exists-sort_by p key [] = refl
exists-sort_by p key (a ∷ more) =
    exists-insert_by p key a (sort_by key more) ∙ ap (λ b. p a || b) (exists-sort_by p key more)

-- The group of a root has a position.
abbrev holds : ℕ → ℕ → List (ℕ × List ℕ) → Bool
holds r x m = exists (λ (e : ℕ × List ℕ). nat_eq e.0 r && has x e.1) m

holds-add_member :
    (r x s i : ℕ) (m : List (ℕ × List ℕ))
    → holds r x (add_member (λ k. nat_eq k s) s i m) ≡ (holds r x m || nat_eq s r && nat_eq i x)
holds-add_member r x s i [] = ground arith
holds-add_member r x s i ((k, xs) ∷ m) =
    ground (
      arith,
      holds-add_member r x s i m,
      exists-append (λ y. nat_eq y x) xs (i ∷ []),
      nat_eq_iff k s,
    )

-- No root has two groups.
abbrev keyed : ℕ → List (ℕ × List ℕ) → Bool
keyed r m = exists (λ (e : ℕ × List ℕ). nat_eq e.0 r) m

abbrev HasOneGroup : List (ℕ × List ℕ) → Type 0
HasOneGroup [] = Unit
HasOneGroup ((k, xs) ∷ m) = (keyed k m ≡ false) × HasOneGroup m

keyed-add_member :
    (r s i : ℕ) (m : List (ℕ × List ℕ))
    → keyed r (add_member (λ k. nat_eq k s) s i m) ≡ (keyed r m || nat_eq s r)
keyed-add_member r s i [] = ground arith
keyed-add_member r s i ((k, xs) ∷ m) = ground (arith, keyed-add_member r s i m, nat_eq_iff k s)

HasOneGroup-add_member :
    (s i : ℕ) (m : List (ℕ × List ℕ))
    → HasOneGroup m
    → HasOneGroup (add_member (λ k. nat_eq k s) s i m)
HasOneGroup-add_member s i [] h = (refl, tt)
HasOneGroup-add_member s i ((k, xs) ∷ m) (f, h) = elim (Bool-cases (nat_eq k s)) [
  | inl e ↦ rw e (f, h)
  | inr e ↦ rw e (
    ground (arith, keyed-add_member k s i m, f, nat_eq_iff k s, nat_eq_iff s k),
    HasOneGroup-add_member s i m h,
  )
]

-- Position x is one of those from i on, and r its root.
abbrev reached : (ℕ → ℕ) → ℕ → ℕ → ℕ → ℕ → Bool
reached roots i n r x = leb i x && ltb x (i + n) && nat_eq (roots x) r

holds-group_from :
    (fuel d n i : ℕ) (p roots : ℕ → ℕ) (m : List (ℕ × List ℕ)) (r x : ℕ)
    → IsForest p roots d
    → d < fuel
    → holds r x (group_from fuel n i p m) ≡ (holds r x m || reached roots i n r x)
unfolding group_from
holds-group_from fuel d zero i p roots m r x h le = ground arith
holds-group_from fuel d (suc n) i p roots m r x h le =
    let (k, lk, c) = h i in
    let (found, forest) = find_root-root fuel i d p roots h c (omega arith) in
    let q = (find_root fuel i p).1 in
    let rest =
      holds-group_from fuel d n (i + 1) q roots (add_member (λ k. nat_eq k (roots i)) (roots i) i m)
        r x forest le in
    let added = holds-add_member r x (roots i) i m in
    rw found (rest ∙ ground (arith, added, nat_eq_iff i x))

HasOneGroup-group_from :
    (fuel n i : ℕ) (p : ℕ → ℕ) (m : List (ℕ × List ℕ))
    → HasOneGroup m
    → HasOneGroup (group_from fuel n i p m)
unfolding group_from
HasOneGroup-group_from fuel zero i p m h = h
HasOneGroup-group_from fuel (suc n) i p m h =
    HasOneGroup-group_from fuel n (i + 1) (find_root fuel i p).1 _
      (HasOneGroup-add_member (find_root fuel i p).0 i m h)

holds-keyed : (r x : ℕ) (m : List (ℕ × List ℕ)) → keyed r m ≡ false → holds r x m ≡ false
holds-keyed r x [] h = refl
holds-keyed r x ((k, xs) ∷ m) h = ground (arith, holds-keyed r x m)

abbrev groups : List (ℕ × List ℕ) → List (List ℕ)
groups m = map (λ (e : ℕ × List ℕ). sort_ints e.1) m

has-sort_ints : (i : ℕ) (xs : List ℕ) → has i (sort_ints xs) ≡ has i xs
has-sort_ints i xs = exists-sort_by (λ x. nat_eq x i) (λ k. k) xs

together-holds :
    (i j : ℕ) (m : List (ℕ × List ℕ))
    → together i j (groups m) ≡ true
    → (r : ℕ) × (holds r i m ≡ true) × (holds r j m ≡ true)
together-holds i j [] h = absurd (ground arith)
together-holds i j ((k, xs) ∷ m) h = elim (Bool-cases (has i xs && has j xs)) [
  | inl e ↦ (k, ground (arith, (nat_eq_iff k k).1 refl), ground (arith, (nat_eq_iff k k).1 refl))
  | inr e ↦
      let (r, hi, hj) =
        together-holds i j m (ground (arith, has-sort_ints i xs, has-sort_ints j xs)) in
      (r, ground arith, ground arith)
]

holds-together :
    (r i j : ℕ) (m : List (ℕ × List ℕ))
    → HasOneGroup m
    → holds r i m ≡ true
    → holds r j m ≡ true
    → together i j (groups m) ≡ true
holds-together r i j [] one hi hj = absurd (ground arith)
holds-together r i j ((k, xs) ∷ m) (f, one) hi hj = elim (Bool-cases (nat_eq k r)) [
  | inl e ↦
      let k≡ : k ≡ r = (nat_eq_iff k r).0 e in
      let none_i = holds-keyed r i m (rw k≡ at f) in
      let none_j = holds-keyed r j m (rw k≡ at f) in
      ground (arith, has-sort_ints i xs, has-sort_ints j xs)
  | inr e ↦ ground (arith, holds-together r i j m one (ground arith) (ground arith))
]

-- Two positions are in one group exactly when both are in range and have one root.
pub together-group_from :
    (fuel d n : ℕ) (p roots : ℕ → ℕ) (i j : ℕ)
    → IsForest p roots d
    → d < fuel
    → (together i j (groups (group_from fuel n 0 p [])) ≡ true)
      ↔ ((i < n) × (j < n) × (roots i ≡ roots j))
together-group_from fuel d n p roots i j h le =
    let m = group_from fuel n 0 p [] in
    (
      λ e.
          let (r, hi, hj) = together-holds i j m e in
          let at_i = holds-group_from fuel d n 0 p roots [] r i h le in
          let at_j = holds-group_from fuel d n 0 p roots [] r j h le in
          (
            ground (arith, at_i),
            ground (arith, at_j),
            ground (arith, at_i, at_j, nat_eq_iff (roots i) r, nat_eq_iff (roots j) r),
          ),
      λ (li, lj, e).
          let r = roots i in
          let at_i = holds-group_from fuel d n 0 p roots [] r i h le in
          let at_j = holds-group_from fuel d n 0 p roots [] r j h le in
          holds-together r i j m (HasOneGroup-group_from fuel n 0 p [] tt)
            (ground (arith, at_i, nat_eq_iff (roots i) r))
            (ground (arith, at_j, nat_eq_iff (roots j) r)),
    )

-- Two different positions make a list of two or more.
long_of_two :
    (i j : ℕ) (xs : List ℕ)
    → nat_eq i j ≡ false
    → has i xs ≡ true
    → has j xs ≡ true
    → ltb (length xs) 2 ≡ false
long_of_two i j [] ne hi hj = absurd (ground arith)
long_of_two i j (x ∷ []) ne hi hj =
    absurd (ground (arith, nat_eq_iff x i, nat_eq_iff x j, nat_eq_iff i j))
long_of_two i j (x ∷ y ∷ xs) ne hi hj = ground arith

-- Leaving out the groups of one position changes nothing for two.
pub together-keep :
    (i j : ℕ) (m : List (ℕ × List ℕ))
    → nat_eq i j ≡ false
    → together i j (groups (keep (λ (e : ℕ × List ℕ). not (ltb (length e.1) 2)) m))
      ≡ together i j (groups m)
together-keep i j [] ne = refl
together-keep i j ((k, xs) ∷ m) ne = elim (Bool-cases (ltb (length xs) 2)) [
  | inr long ↦ rw long (ground (arith, together-keep i j m ne))
  | inl short ↦
      let apart : (has i xs && has j xs) ≡ false = elim (Bool-cases (has i xs)) [
        | inr e ↦ ground arith
        | inl e ↦ elim (Bool-cases (has j xs)) [
          | inr f ↦ ground arith
          | inl f ↦ absurd (ground (arith, long_of_two i j xs ne e f))
        ]
      ] in
      rw short (ground (arith, together-keep i j m ne, has-sort_ints i xs, has-sort_ints j xs))
]
