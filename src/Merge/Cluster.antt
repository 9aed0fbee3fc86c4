-- ===== src/Merge/Cluster.antt =====
-- internal/merge/cluster.go: Sets, Clusters and what they build from a unionFind. The iteration of a
-- Go map is in the order of insertion, and `visit` is the order in which Clusters meets its buckets.
use carrel.Prelude.{
  ℕ, zero, suc, ◌+◌, Bool, ◌&&◌, not, Option, none, some, List, [], ◌∷◌, ◌++◌, map, if◌then◌else◌,
  ltb, leb, nat_eq, length, exists, keep, Text, text_eq, ◌==◌, ℤ, positive_or,
}
use carrel.Merge.Normalize.{sort}
use carrel.Merge.Fingerprint.{Fingerprint, is_empty, buckets}
use carrel.Merge.Score.{score_pair, default_threshold}
use carrel.Merge.UnionFind.{UnionFind, Match, find_root, union_all, new_union_find}

-- members[key] = append(members[key], i)
abbrev pub add_member {ℓ} :
    {K : Type ℓ} → (K → Bool) → K → ℕ → List (K × List ℕ) → List (K × List ℕ)
add_member is key i [] = (key, i ∷ []) ∷ []
add_member is key i ((k, xs) ∷ m) =
    let rest = add_member is key i m in if is k then (k, xs ++ i ∷ []) ∷ m else (k, xs) ∷ rest

-- for i := range …: members[find(i)] = append(members[find(i)], i), from i on for a number of rounds
unfoldable pub group_from : ℕ → ℕ → ℕ → (ℕ → ℕ) → List (ℕ × List ℕ) → List (ℕ × List ℕ)
group_from fuel zero i parent members = members
group_from fuel (suc n) i parent members =
    let found = find_root fuel i parent in
    group_from fuel n (i + 1) found.1 (add_member (λ k. nat_eq k found.0) found.0 i members)

abbrev pub insert_by {ℓ} : {A : Type ℓ} → (A → ℕ) → A → List A → List A
insert_by key a [] = a ∷ []
insert_by key a (b ∷ bs) =
    let rest = insert_by key a bs in if leb (key a) (key b) then a ∷ b ∷ bs else b ∷ rest

-- sort.Ints, and sort.SliceStable by a number that differs from element to element
unfoldable pub sort_by {ℓ} : {A : Type ℓ} → (A → ℕ) → List A → List A
sort_by key [] = []
sort_by key (a ∷ more) = insert_by key a (sort_by key more)

abbrev pub sort_ints : List ℕ → List ℕ
sort_ints = sort_by (λ i. i)

abbrev pub first_of : List ℕ → ℕ
first_of [] = 0
first_of (i ∷ is) = i

-- The pairs within range, more matches with no score.
abbrev pub in_range : ℕ → List (ℕ × ℕ) → List Match
in_range n [] = []
in_range n ((a, b) ∷ pairs) =
    let rest = in_range n pairs in
    if ltb a n && ltb b n
    then record { left = a; right = b; points = 0; reasons = [] } ∷ rest
    else rest

-- Sets. Its fuel is one more than the number of pairs.
unfoldable pub sets : ℕ → List (ℕ × ℕ) → List (List ℕ)
unfolding sort_by
sets n pairs =
    let ms = in_range n pairs in
    let fuel = length ms + 1 in
    let u = union_all fuel ms new_union_find in
    sort_by first_of (map (λ (e : ℕ × List ℕ). sort_ints e.1) (group_from fuel n 0 u.parent []))

pub record Cluster : Type 0 where
  pub indexes : List ℕ
  pub score : ℕ
  pub signals : List Text

-- (*unionFind).clusters
abbrev pub cluster_of : UnionFind → ℕ × List ℕ → Cluster
cluster_of u e = record {
  indexes = sort_ints e.1;
  score = u.score e.0;
  signals = sort (u.signals e.0);
}

unfoldable pub clusters_of : ℕ → ℕ → UnionFind → List Cluster
unfolding sort_by
clusters_of fuel n u =
    sort_by (λ (c : Cluster). first_of c.indexes)
      (map (cluster_of u)
        (keep (λ (e : ℕ × List ℕ). not (ltb (length e.1) 2)) (group_from fuel n 0 u.parent [])))

pub record Options : Type 0 where
  pub threshold : ℤ
  pub skip : ℕ → ℕ → Bool

abbrev pub threshold_or_default : Options → ℕ
threshold_or_default o = positive_or o.threshold default_threshold

abbrev pub add_keys : List Text → ℕ → List (Text × List ℕ) → List (Text × List ℕ)
add_keys [] i m = m
add_keys (k ∷ ks) i m = add_keys ks i (add_member (λ j. j == k) k i m)

unfoldable pub index_from :
    (ℕ → Text) → ℕ → List Fingerprint → List (Text × List ℕ) → List (Text × List ℕ)
index_from rfc3339 i [] m = m
index_from rfc3339 i (f ∷ fs) m =
    index_from rfc3339 (i + 1) fs (if is_empty f then m else add_keys (buckets rfc3339 f) i m)

-- The pairs of a bucket, the smaller position first.
abbrev pub ordered : ℕ → ℕ → ℕ × ℕ
ordered a b = if ltb b a then (b, a) else (a, b)

abbrev pub pairs_with : ℕ → List ℕ → List (ℕ × ℕ)
pairs_with a [] = []
pairs_with a (b ∷ bs) = ordered a b ∷ pairs_with a bs

abbrev pub bucket_pairs : List ℕ → List (ℕ × ℕ)
bucket_pairs [] = []
bucket_pairs (a ∷ more) = pairs_with a more ++ bucket_pairs more

abbrev pub all_pairs : List (List ℕ) → List (ℕ × ℕ)
all_pairs [] = []
all_pairs (m ∷ ms) = bucket_pairs m ++ all_pairs ms

abbrev pub at_index : ℕ → List Fingerprint → Option Fingerprint
at_index i [] = none
at_index zero (f ∷ fs) = some f
at_index (suc i) (f ∷ fs) = at_index i fs

abbrev pub scored : Option Fingerprint → Option Fingerprint → ℕ × List Text
scored (some f) (some g) = score_pair f g
scored (some f) none = (0, [])
scored none o = (0, [])

abbrev pub is_pair : ℕ → ℕ → ℕ × ℕ → Bool
is_pair a b p = nat_eq p.0 a && nat_eq p.1 b

-- The loops over the pairs; `seen` is the map `scored` of the source.
unfoldable pub match_from : List Fingerprint → Options → List (ℕ × ℕ) → List (ℕ × ℕ) → List Match
match_from prints o seen [] = []
match_from prints o seen ((a, b) ∷ pairs) =
    let again = match_from prints o seen pairs in
    let rest = match_from prints o ((a, b) ∷ seen) pairs in
    let result = scored (at_index a prints) (at_index b prints) in
    if exists (is_pair a b) seen
    then again
    else if o.skip a b
    then rest
    else if ltb result.0 (threshold_or_default o)
    then rest
    else record { left = a; right = b; points = result.0; reasons = result.1 } ∷ rest

unfoldable pub matches : List Fingerprint → Options → List (List ℕ) → List Match
unfolding match_from
matches prints o visit = match_from prints o [] (all_pairs visit)

-- The members of the buckets.
unfoldable pub bucket_members : (ℕ → Text) → List Fingerprint → List (List ℕ)
unfolding index_from
bucket_members rfc3339 prints = map (λ (e : Text × List ℕ). e.1) (index_from rfc3339 0 prints [])

-- Clusters, the buckets met in the order of `visit`.
unfoldable pub clusters : List Fingerprint → Options → List (List ℕ) → List Cluster
unfolding matches clusters_of
clusters prints o visit =
    let ms = matches prints o visit in
    let fuel = length ms + 1 in clusters_of fuel (length prints) (union_all fuel ms new_union_find)
