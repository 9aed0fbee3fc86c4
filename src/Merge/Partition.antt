-- ===== src/Merge/Partition.antt =====
-- internal/merge/cluster.go: Sets and Clusters give the connected components.
use carrel.Prelude.{
  ℕ, ◌+◌, ◌≤◌, ◌<◌, ◌≡◌, ◌↔◌, refl, sym, ap, ◌∙◌, inl, inr, Bool, Bool-cases, true, false, ◌&&◌,
  ◌||◌, not, List, [], ◌∷◌, map, ltb, nat_eq, nat_eq_iff, length, exists, keep, arith,
}
use carrel.Merge.Fingerprint.{Fingerprint}
use carrel.Merge.UnionFind.{UnionFind, union_all, new_union_find}
use carrel.Merge.Components.{Joined, Joined-bind, Matched, roots-Joined}
use carrel.Merge.Cluster.{
  sets, in_range, group_from, sort_ints, first_of, Cluster, cluster_of, clusters_of, clusters,
  Options, threshold_or_default, all_pairs, is_pair, match_from, matches, scored, at_index,
}
use carrel.Merge.Groups.{has, together, exists-sort_by, together-group_from, together-keep}

-- Two positions are in one of the sets exactly when both are in range and pairs within range
-- connect them.
pub sets-Joined :
    (n : ℕ) (pairs : List (ℕ × ℕ)) (i j : ℕ)
    → (together i j (sets n pairs) ≡ true)
      ↔ ((i < n) × (j < n) × Joined (Matched (in_range n pairs)) i j)
unfolding sets
sets-Joined n pairs i j =
    let ms = in_range n pairs in
    let (roots, forest, same) = roots-Joined ms (length ms + 1) (omega arith) in
    let u = union_all (length ms + 1) ms new_union_find in
    let unsorted =
      exists-sort_by (λ g. has i g && has j g) first_of
        (map (λ (e : ℕ × List ℕ). sort_ints e.1) (group_from (length ms + 1) n 0 u.parent [])) in
    let grouped =
      together-group_from (length ms + 1) (length ms) n u.parent roots i j forest (omega arith) in
    (
      λ e. let (li, lj, r) = grouped.0 (sym unsorted ∙ e) in (li, lj, (same i j).0 r),
      λ (li, lj, h). unsorted ∙ grouped.1 (li, lj, (same i j).1 h),
    )

-- Some cluster has both positions.
abbrev pub clustered : ℕ → ℕ → List Cluster → Bool
clustered i j cs = exists (λ (c : Cluster). has i c.indexes && has j c.indexes) cs

clustered-map :
    (i j : ℕ) (u : UnionFind) (m : List (ℕ × List ℕ))
    → clustered i j (map (cluster_of u) m)
      ≡ together i j (map (λ (e : ℕ × List ℕ). sort_ints e.1) m)
clustered-map i j u [] = refl
clustered-map i j u (e ∷ m) =
    ap (λ b. has i (sort_ints e.1) && has j (sort_ints e.1) || b) (clustered-map i j u m)

-- The pair is met in a bucket, is not skipped, and scores what is asked for.
pub record IsMatch (prints : List Fingerprint) (o : Options) (visit : List (List ℕ)) (a b : ℕ)
    : Type 0 where
  pub met : exists (is_pair a b) (all_pairs visit) ≡ true
  pub wanted : o.skip a b ≡ false
  pub enough : threshold_or_default o ≤ (scored (at_index a prints) (at_index b prints)).0

abbrev Passes : List Fingerprint → Options → List (ℕ × ℕ) → List (ℕ × ℕ) → ℕ → ℕ → Type 0
Passes prints o seen pairs a b =
    (exists (is_pair a b) pairs ≡ true)
    × (exists (is_pair a b) seen ≡ false)
    × (o.skip a b ≡ false)
    × (threshold_or_default o ≤ (scored (at_index a prints) (at_index b prints)).0)

refl_pair : (a b : ℕ) → (nat_eq a a && nat_eq b b) ≡ true
refl_pair a b = ground (arith, (nat_eq_iff a a).1 refl, (nat_eq_iff b b).1 refl)

match_from-Passes :
    (prints : List Fingerprint) (o : Options) (seen pairs : List (ℕ × ℕ)) (a b : ℕ)
    → Matched (match_from prints o seen pairs) a b ↔ Passes prints o seen pairs a b
unfolding match_from
match_from-Passes prints o seen [] a b = (λ h. absurd h, λ h. absurd (ground arith))
match_from-Passes prints o seen ((x, y) ∷ pairs) a b =
    let again = match_from-Passes prints o seen pairs a b in
    let rest = match_from-Passes prints o ((x, y) ∷ seen) pairs a b in
    elim (Bool-cases (nat_eq x a && nat_eq y b)) [
      | inl e ↦
          let x≡ : x ≡ a = (nat_eq_iff x a).0 (ground arith) in
          let y≡ : y ≡ b = (nat_eq_iff y b).0 (ground arith) in
          rw (x≡, y≡) (same pairs again (rw (x≡, y≡) at rest))
      | inr e ↦ other x y pairs e again rest
    ]
  where
    same :
        (pairs : List (ℕ × ℕ))
        → Matched (match_from prints o seen pairs) a b ↔ Passes prints o seen pairs a b
        → Matched (match_from prints o ((a, b) ∷ seen) pairs) a b
          ↔ Passes prints o ((a, b) ∷ seen) pairs a b
        → Matched (match_from prints o seen ((a, b) ∷ pairs)) a b
          ↔ Passes prints o seen ((a, b) ∷ pairs) a b
    same pairs again rest =
        let here = refl_pair a b in
        elim (Bool-cases (exists (is_pair a b) seen)) [
          | inl s ↦ (λ h. absurd (ground (arith, again)), λ h. absurd (ground arith))
          | inr s ↦ elim (Bool-cases (o.skip a b)) [
            | inl k ↦ (λ h. absurd (ground (arith, rest)), λ h. absurd (ground arith))
            | inr k ↦
                elim (Bool-cases (
                  ltb (scored (at_index a prints) (at_index b prints)).0
                    (threshold_or_default o))) [
                      | inl l ↦ (λ h. absurd (ground (arith, rest)), λ h. absurd (ground arith))
                      | inr l ↦ (λ h. ground arith, λ h. rw (s, k, l) (inl (refl, refl)))
                    ]
          ]
        ]

    other :
        (x y : ℕ) (pairs : List (ℕ × ℕ))
        → (nat_eq x a && nat_eq y b) ≡ false
        → Matched (match_from prints o seen pairs) a b ↔ Passes prints o seen pairs a b
        → Matched (match_from prints o ((x, y) ∷ seen) pairs) a b
          ↔ Passes prints o ((x, y) ∷ seen) pairs a b
        → Matched (match_from prints o seen ((x, y) ∷ pairs)) a b
          ↔ Passes prints o seen ((x, y) ∷ pairs) a b
    other x y pairs e again rest = ground (arith, again, rest, nat_eq_iff x a, nat_eq_iff y b)

matches-IsMatch :
    (prints : List Fingerprint) (o : Options) (visit : List (List ℕ)) (a b : ℕ)
    → Matched (matches prints o visit) a b ↔ IsMatch prints o visit a b
unfolding matches
matches-IsMatch prints o visit a b =
    let facts = match_from-Passes prints o [] (all_pairs visit) a b in
    (
      λ h.
          let (met, _, wanted, enough) = facts.0 h in
          record { met = met; wanted = wanted; enough = enough },
      λ h. facts.1 (h.met, refl, h.wanted, h.enough),
    )

-- In whatever order the buckets are met, two different positions are in one cluster exactly when
-- they are connected by pairs that meet in a bucket, are not skipped and score the threshold.
pub clusters-Joined :
    (prints : List Fingerprint) (o : Options) (visit : List (List ℕ)) (i j : ℕ)
    → nat_eq i j ≡ false
    → i < length prints
    → j < length prints
    → (clustered i j (clusters prints o visit) ≡ true) ↔ Joined (IsMatch prints o visit) i j
unfolding clusters clusters_of
clusters-Joined prints o visit i j ne li lj =
    let ms = matches prints o visit in
    let n = length prints in
    let (roots, forest, same) = roots-Joined ms (length ms + 1) (omega arith) in
    let u = union_all (length ms + 1) ms new_union_find in
    let m = group_from (length ms + 1) n 0 u.parent [] in
    let kept = keep (λ (e : ℕ × List ℕ). not (ltb (length e.1) 2)) m in
    let shown : clustered i j (clusters prints o visit)
        ≡ together i j (map (λ (e : ℕ × List ℕ). sort_ints e.1) m) =
      exists-sort_by (λ (c : Cluster). has i c.indexes && has j c.indexes)
        (λ (c : Cluster). first_of c.indexes) (map (cluster_of u) kept)
      ∙ clustered-map i j u kept
      ∙ together-keep i j m ne in
    let grouped =
      together-group_from (length ms + 1) (length ms) n u.parent roots i j forest (omega arith) in
    (
      λ e.
          let (_, _, r) = grouped.0 (sym shown ∙ e) in
          Joined-bind _ _ (λ x y h. Joined.linked ((matches-IsMatch prints o visit x y).0 h))
            ((same i j).0 r),
      λ h.
          shown
          ∙ grouped.1 (
            li,
            lj,
            (same i j).1 (
                Joined-bind _ _ (λ x y k. Joined.linked ((matches-IsMatch prints o visit x y).1 k))
                  h),
          ),
    )
