-- ===== src/Prelude/Map.antt =====
-- A Go map as an association list. The source never depends on the order of iteration where a
-- map is modelled so.
use mathlib.Core.Path.{◌≡◌, refl}
use mathlib.Core.Option.{Option, none, some}
use mathlib.Core.List.{List, [], ◌∷◌}
use native.Mathlib.Omega.{arith}
use mathlib.Core.Logic.{inl, inr}
use mathlib.Core.Bool.{Bool}
use carrel.Prelude.Tests.{Comparable, ◌==◌, ==_iff, ==_refl, Bool-cases, if◌then◌else◌}
use carrel.Prelude.Lists.{keep}

abbrev pub Map {ℓ} : Type ℓ → Type ℓ → Type ℓ
Map K V = List (K × V)

module _ {ℓ} {K V : Type ℓ} ⦃c : Comparable K⦄ where
  -- v, ok := m[k]
  unfoldable pub lookup : K → Map K V → Option V
  lookup k [] = none
  lookup k ((j, v) ∷ m) = if j == k then some v else lookup k m

  -- delete(m, k)
  unfoldable pub delete : K → Map K V → Map K V
  delete k [] = []
  delete k ((j, v) ∷ m) = let rest = delete k m in if j == k then rest else (j, v) ∷ rest

  -- m[k] = v
  unfoldable pub put : K → V → Map K V → Map K V
  put k v m = (k, v) ∷ delete k m

  pub lookup-delete :
      (k j : K) (m : Map K V) → lookup j (delete k m) ≡ (if k == j then none else lookup j m)
  unfolding lookup delete
  lookup-delete k j [] = ground arith
  lookup-delete k j ((i, v) ∷ m) =
      ground (arith, lookup-delete k j m, ==_iff i k, ==_iff i j, ==_iff k j)

  pub lookup-put :
      (k j : K) (v : V) (m : Map K V)
      → lookup j (put k v m) ≡ (if k == j then some v else lookup j m)
  unfolding put lookup
  lookup-put k j v m = ground (arith, lookup-delete k j m)

  -- No key has two entries.
  abbrev pub Distinct : Map K V → Type ℓ
  Distinct [] = Unit
  Distinct ((k, v) ∷ m) = (lookup k m ≡ none) × Distinct m

  pub Distinct-delete : (k : K) (m : Map K V) → Distinct m → Distinct (delete k m)
  unfolding delete
  Distinct-delete k [] h = h
  Distinct-delete k ((j, v) ∷ m) h = elim (Bool-cases (j == k)) [
    | inl e ↦ rw e (Distinct-delete k m h.1)
    | inr e ↦ rw e (ground (arith, lookup-delete k j m, h.0), Distinct-delete k m h.1)
  ]

  pub Distinct-put : (k : K) (v : V) (m : Map K V) → Distinct m → Distinct (put k v m)
  unfolding put
  Distinct-put k v m h = (ground (arith, lookup-delete k k m, ==_refl k), Distinct-delete k m h)

  -- What a filter keeps of an entry.
  abbrev pub filtered : (K × V → Bool) → K → Option V → Option V
  filtered p k none = none
  filtered p k (some v) = if p (k, v) then some v else none

  pub lookup-keep :
      (p : K × V → Bool) (k : K) (m : Map K V)
      → Distinct m
      → lookup k (keep p m) ≡ filtered p k (lookup k m)
  unfolding lookup
  lookup-keep p k [] h = refl
  lookup-keep p k ((j, v) ∷ m) h = ground (arith, lookup-keep p k m h.1, h.0, ==_iff j k)

  pub Distinct-keep : (p : K × V → Bool) (m : Map K V) → Distinct m → Distinct (keep p m)
  Distinct-keep p [] h = h
  Distinct-keep p ((j, v) ∷ m) h = elim (Bool-cases (p (j, v))) [
    | inl e ↦ rw e (ground (arith, lookup-keep p j m h.1, h.0), Distinct-keep p m h.1)
    | inr e ↦ rw e (Distinct-keep p m h.1)
  ]
