-- ===== src/Session/Ended.antt =====
-- internal/session/session.go: which sessions are left when some have ended.
use carrel.Prelude.{
  ℕ, ◌≡◌, refl, sym, ap, ◌∙◌, inl, inr, Bool, Bool-cases, false, ◌&&◌, ◌||◌, Option, none, some,
  List, [], ◌∷◌, if◌then◌else◌, exists, Text, text_eq, ◌==◌, ==_iff, ==_refl, arith,
}
use carrel.Prelude.Map
use carrel.Prelude.Map.{lookup-put, lookup-delete, Distinct}
use carrel.Session.Types.{Session, Manager}
use carrel.Session.Manager.{ids_of, remove, expired}
use carrel.Session.Endings.{remove_entry, destroy_ids, destroy_user, sweep_entries, sweep}
use carrel.Session.Index.{has_id, owns, IsIndexed, IsKeyed, lookup-remove, in_index-remove}

pub remove-IsKeyed : (s : Session) (m : Manager) → IsKeyed m → IsKeyed (remove s m)
remove-IsKeyed s m k id t h = k id t (ground (arith, lookup-remove s m id))

pub remove-IsIndexed :
    (id : Text) (s : Session) (m : Manager)
    → Map.lookup id m.sessions ≡ some s
    → IsKeyed m
    → IsIndexed m
    → IsIndexed (remove s m)
remove-IsIndexed id s m here k x user j =
    let id≡ = k id s here in
    let here' : Map.lookup s.id m.sessions ≡ some s =
      ap (λ i. Map.lookup i m.sessions) id≡ ∙ here in
    elim (Bool-cases (s.id == j)) [
      | inl e ↦
          let j≡ : s.id ≡ j = (==_iff s.id j).0 e in
          let at_j = ap (λ i. Map.lookup i m.sessions) (sym j≡) ∙ here' in
          ground (arith, e, at_j, x user j, in_index-remove s m user j, lookup-remove s m j)
      | inr e ↦ ground (arith, e, x user j, in_index-remove s m user j, lookup-remove s m j)
    ]

pub lookup-destroy_ids :
    (ids : List Text) (m : Manager) (j : Text)
    → IsKeyed m
    → Map.lookup j (destroy_ids ids m).1.sessions
      ≡ (if has_id j ids then none else Map.lookup j m.sessions)
unfolding destroy_ids
lookup-destroy_ids [] m j k = refl
lookup-destroy_ids (id ∷ ids) m j k =
    go (λ m' k'. lookup-destroy_ids ids m' j k') (Map.lookup id m.sessions) refl
  where
    go :
        ((m' : Manager)
          → IsKeyed m'
          → Map.lookup j (destroy_ids ids m').1.sessions
            ≡ (if has_id j ids then none else Map.lookup j m'.sessions))
        → (o : Option Session) → Map.lookup id m.sessions ≡ o
        → Map.lookup j (destroy_ids ids (remove_entry o m).1).1.sessions
          ≡ (if (id == j) || has_id j ids then none else Map.lookup j m.sessions)
    go later none h =
        let rest = later m k in
        elim (Bool-cases (id == j)) [
          | inl e ↦
              let at_j : Map.lookup j m.sessions ≡ none = rw ((==_iff id j).0 e) at h in
              ground (arith, rest, e, at_j)
          | inr e ↦ ground (arith, rest, e)
        ]
    go later (some s) h =
        let id≡ = k id s h in
        let same : (s.id == j) ≡ (id == j) = ap (λ i. i == j) id≡ in
        ground (arith, later (remove s m) (remove-IsKeyed s m k), lookup-remove s m j, same)

-- When the sessions and the index agree, ending a user's sessions leaves none of them, and leaves
-- every other session as it is.
pub destroy_user-owns :
    (user : Text) (m : Manager) (j : Text)
    → IsKeyed m
    → IsIndexed m
    → Map.lookup j (destroy_user user m).1.sessions
      ≡ (if owns user (Map.lookup j m.sessions) then none else Map.lookup j m.sessions)
unfolding destroy_user
destroy_user-owns user m j k x =
    ground (arith, lookup-destroy_ids (ids_of (Map.lookup user m.by_user)) m j k, x user j)

-- Some entry with the identifier has expired.
abbrev pub expired_in : ℕ → Manager → Text → List (Text × Session) → Bool
expired_in now m j = exists (λ (e : Text × Session). expired now m e.1 && e.1.id == j)

pub expired-remove :
    (now : ℕ) (s t : Session) (m : Manager) → expired now (remove s m) t ≡ expired now m t
unfolding expired remove
expired-remove now s t m = refl

expired_in-remove :
    (now : ℕ) (s : Session) (m : Manager) (j : Text) (es : List (Text × Session))
    → expired_in now (remove s m) j es ≡ expired_in now m j es
expired_in-remove now s m j [] = refl
expired_in-remove now s m j ((k, t) ∷ es) =
    ground (arith, expired-remove now s t m, expired_in-remove now s m j es)

lookup-sweep_entries :
    (now : ℕ) (es : List (Text × Session)) (m : Manager) (j : Text)
    → Map.lookup j (sweep_entries now es m).1.sessions
      ≡ (if expired_in now m j es then none else Map.lookup j m.sessions)
unfolding sweep_entries
lookup-sweep_entries now [] m j = refl
lookup-sweep_entries now ((k, s) ∷ es) m j = elim (Bool-cases (expired now m s)) [
  | inl e ↦ ground (
    arith,
    e,
    lookup-sweep_entries now es (remove s m) j,
    lookup-remove s m j,
    expired_in-remove now s m j es,
  )
  | inr e ↦ ground (arith, e, lookup-sweep_entries now es m j)
]

abbrev pub is_expired : ℕ → Manager → Option Session → Bool
is_expired now m none = false
is_expired now m (some s) = expired now m s

-- The entries of a map, each under its own identifier.
abbrev AreNamed : List (Text × Session) → Type 0
AreNamed [] = Unit
AreNamed ((k, s) ∷ es) = (s.id ≡ k) × AreNamed es

named_entries :
    (es : Map.Map Text Session)
    → Distinct es
    → ((id : Text) (s : Session) → Map.lookup id es ≡ some s → s.id ≡ id)
    → AreNamed es
unfolding Map.lookup
named_entries [] d k = tt
named_entries ((i, s) ∷ es) d k = (k i s (ground (arith, ==_refl i)), named_entries es d.1 later)
  where
    later : (id : Text) (t : Session) → Map.lookup id es ≡ some t → t.id ≡ id
    later id t h = elim (Bool-cases (i == id)) [
      | inl e ↦
          let i≡ : i ≡ id = (==_iff i id).0 e in
          let none' : Map.lookup id es ≡ none = rw i≡ at d.0 in absurd (ground arith)
      | inr e ↦ k id t (rw e h)
    ]

expired_in-lookup :
    (now : ℕ) (m : Manager) (j : Text) (es : Map.Map Text Session)
    → Distinct es
    → AreNamed es
    → expired_in now m j es ≡ is_expired now m (Map.lookup j es)
unfolding Map.lookup
expired_in-lookup now m j [] d n = refl
expired_in-lookup now m j ((i, s) ∷ es) d n =
    let same : (s.id == j) ≡ (i == j) = ap (λ k. k == j) n.0 in
    let rest = expired_in-lookup now m j es d.1 n.1 in
    elim (Bool-cases (i == j)) [
      | inl e ↦
          let none' : Map.lookup j es ≡ none = rw ((==_iff i j).0 e) at d.0 in
          ground (arith, e, same, rest, none')
      | inr e ↦ ground (arith, e, same, rest)
    ]

-- A sweep ends exactly the sessions that have expired, and leaves the others as they are.
pub sweep-expired :
    (now : ℕ) (m : Manager) (j : Text)
    → IsKeyed m
    → Distinct m.sessions
    → Map.lookup j (sweep now m).1.sessions
      ≡ (if is_expired now m (Map.lookup j m.sessions) then none else Map.lookup j m.sessions)
unfolding sweep
sweep-expired now m j k d = ground (
  arith,
  lookup-sweep_entries now m.sessions m j,
  expired_in-lookup now m j m.sessions d (named_entries m.sessions d k),
)
