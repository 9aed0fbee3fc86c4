-- ===== src/Session/Index.antt =====
-- internal/session/session.go: the sessions and the index of them by user.
use carrel.Prelude.{
  ◌≡◌, refl, ap, inl, inr, Bool, Bool-cases, true, false, ◌&&◌, not, Option, none, some, List, [],
  ◌∷◌, if◌then◌else◌, nat_eq, length, keep, exists, Text, text_eq, ◌==◌, ==_iff, ==_refl, arith,
}
use carrel.Prelude.Map
use carrel.Prelude.Map.{lookup-put, lookup-delete}
use carrel.Session.Types.{Session, Manager}
use carrel.Session.Scratch.{wipe_scratch}
use carrel.Session.Manager.{ids_of, add_id, insert, without, detach, remove}

abbrev pub has_id : Text → List Text → Bool
has_id id = exists (λ j. j == id)

abbrev pub in_index : Text → Text → Manager → Bool
in_index user id m = has_id id (ids_of (Map.lookup user m.by_user))

abbrev pub owns : Text → Option Session → Bool
owns user none = false
owns user (some s) = s.user_id == user

-- A user's set has the identifiers of the sessions that are the user's, and no others.
abbrev pub IsIndexed : Manager → Type 0
IsIndexed m = (user id : Text) → in_index user id m ≡ owns user (Map.lookup id m.sessions)

abbrev pub IsKeyed : Manager → Type 0
IsKeyed m = (id : Text) (s : Session) → Map.lookup id m.sessions ≡ some s → s.id ≡ id

has_id-add_id :
    (id j : Text) (ids : List Text)
    → has_id j (add_id id ids) ≡ (if id == j then true else has_id j ids)
has_id-add_id id j ids = elim (Bool-cases (id == j)) [
  | inl e ↦ let id≡ : id ≡ j = (==_iff id j).0 e in rw (id≡, ==_refl j) (ground (arith, ==_refl j))
  | inr e ↦ ground (arith, e)
]

has_id-keep :
    (id j : Text) (ids : List Text)
    → has_id j (keep (λ k. not (k == id)) ids) ≡ (if id == j then false else has_id j ids)
has_id-keep id j [] = ground arith
has_id-keep id j (k ∷ ids) =
    ground (arith, has_id-keep id j ids, ==_iff k id, ==_iff k j, ==_iff id j)

has_id-empty : (j : Text) (ids : List Text) → nat_eq (length ids) 0 ≡ true → has_id j ids ≡ false
has_id-empty j [] h = refl
has_id-empty j (k ∷ ids) h = absurd (ground arith)

pub lookup-insert :
    (s : Session) (m : Manager) (j : Text)
    → Map.lookup j (insert s m).sessions ≡ (if s.id == j then some s else Map.lookup j m.sessions)
unfolding insert
lookup-insert s m j = lookup-put s.id j s m.sessions

pub lookup-detach :
    (s : Session) (m : Manager) (j : Text)
    → Map.lookup j (detach s m).sessions ≡ (if s.id == j then none else Map.lookup j m.sessions)
unfolding detach
lookup-detach s m j = lookup-delete s.id j m.sessions

pub lookup-remove :
    (s : Session) (m : Manager) (j : Text)
    → Map.lookup j (remove s m).sessions ≡ (if s.id == j then none else Map.lookup j m.sessions)
unfolding remove wipe_scratch detach
lookup-remove s m j = lookup-delete s.id j m.sessions

pub in_index-insert :
    (s : Session) (m : Manager) (user j : Text)
    → in_index user j (insert s m)
      ≡ (if s.user_id == user && s.id == j then true else in_index user j m)
unfolding insert
in_index-insert s m user j =
    let there = ids_of (Map.lookup s.user_id m.by_user) in
    let put = lookup-put s.user_id user (add_id s.id there) m.by_user in
    elim (Bool-cases (s.user_id == user)) [
      | inl e ↦
          let user≡ : s.user_id ≡ user = (==_iff s.user_id user).0 e in
          let same : Map.lookup s.user_id m.by_user ≡ Map.lookup user m.by_user =
            ap (λ k. Map.lookup k m.by_user) user≡ in
          ground (arith, e, put, same, has_id-add_id s.id j there)
      | inr e ↦ ground (arith, e, put)
    ]

in_index-without :
    (user id other j : Text) (by_user : Map.Map Text (List Text)) (o : Option (List Text))
    → Map.lookup user by_user ≡ o
    → has_id j (ids_of (Map.lookup other (without user id by_user o)))
      ≡ (if user == other && id == j then false else has_id j (ids_of (Map.lookup other by_user)))
in_index-without user id other j by_user none h = elim (Bool-cases (user == other)) [
  | inl e ↦
      let user≡ : user ≡ other = (==_iff user other).0 e in
      let same : Map.lookup other by_user ≡ none = rw user≡ at h in rw same (ground arith)
  | inr e ↦ ground (arith, e)
]
in_index-without user id other j by_user (some ids) h =
    let left = keep (λ k. not (k == id)) ids in
    let gone = lookup-delete user other by_user in
    let put = lookup-put user other left by_user in
    let kept = has_id-keep id j ids in
    elim (Bool-cases (user == other)) [
      | inl e ↦
          let user≡ : user ≡ other = (==_iff user other).0 e in
          let same : Map.lookup other by_user ≡ some ids = rw user≡ at h in
          elim (Bool-cases (nat_eq (length left) 0)) [
            | inl n ↦ ground (arith, e, gone, kept, same, has_id-empty j left n)
            | inr n ↦ ground (arith, e, put, kept, same)
          ]
      | inr e ↦ elim (Bool-cases (nat_eq (length left) 0)) [
        | inl n ↦ ground (arith, e, gone)
        | inr n ↦ ground (arith, e, put)
      ]
    ]

pub in_index-detach :
    (s : Session) (m : Manager) (user j : Text)
    → in_index user j (detach s m)
      ≡ (if s.user_id == user && s.id == j then false else in_index user j m)
unfolding detach
in_index-detach s m user j =
    in_index-without s.user_id s.id user j m.by_user (Map.lookup s.user_id m.by_user) refl

pub in_index-remove :
    (s : Session) (m : Manager) (user j : Text)
    → in_index user j (remove s m)
      ≡ (if s.user_id == user && s.id == j then false else in_index user j m)
unfolding remove wipe_scratch detach
in_index-remove s m user j =
    in_index-without s.user_id s.id user j m.by_user (Map.lookup s.user_id m.by_user) refl
