-- ===== src/Session/Sound.antt =====
-- internal/session/session.go: what holds of the manager between two calls.
use carrel.Prelude.{
  [], nat_eq, nat_eq_iff, ℕ, ◌+◌, ◌≡◌, refl, sym, ap, subst, ◌∙◌, inl, inr, Bool-cases, true, false,
  All, none, some, List, ◌∷◌, if◌then◌else◌, Text, text_eq, ◌==◌, ==_iff, arith,
}
use carrel.Prelude.Map
use carrel.Prelude.Map.{lookup-put, Distinct, Distinct-put, Distinct-delete}
use carrel.Random.{Bytes}
use carrel.Session.Types.{User, Session, Manager}
use carrel.Session.Scratch.{wipe_scratch}
use carrel.Session.Manager.{
  insert, detach, remove, create_with, rotate_with, fresh_session, old_shell,
}
use carrel.Session.Index.{
  IsIndexed, lookup-insert, lookup-detach, lookup-remove, in_index-insert, in_index-detach,
}
use carrel.Session.Ended.{remove-IsIndexed}
use carrel.Session.Keyring.{Login, login_of, IsKeyring, remove-IsKeyring, given}
use carrel.Session.Moves.{touched, touched-IsKeyring, create_with-IsKeyring, found}
use carrel.Session.Rotation.{rotate_with-IsKeyring, lookup-rotate_with}

-- A live session is not dead, and it comes from a login: it has the key that the login gave, it is
-- that user's, and it ends the absolute time after the login.
abbrev pub IsTimely : List Login → Manager → Session → Type 0
IsTimely g m s =
    (s.dead ≡ false)
    × ((a : Login) × (s.dek ≡ some a.buffer)
        × (login_of a.buffer g ≡ some a)
        × (s.user_id ≡ a.user_id)
        × (s.deadline ≡ a.time + m.opts.absolute))

abbrev pub IsShell : Session → Type 0
IsShell s = (s.dead ≡ true) × (s.dek ≡ none)

pub record IsSound (start : ℕ → Bytes) (g : List Login) (m : Manager) : Type 0 where
  pub keyring : IsKeyring start g m
  pub indexed : IsIndexed m
  pub distinct : Distinct m.sessions
  pub timely : (i : Text) (s : Session) → Map.lookup i m.sessions ≡ some s → IsTimely g m s
  pub shells : All IsShell m.shells

insert-IsIndexed :
    (s : Session) (m : Manager)
    → Map.lookup s.id m.sessions ≡ none
    → IsIndexed m
    → IsIndexed (insert s m)
insert-IsIndexed s m fresh x user j = elim (Bool-cases (s.id == j)) [
  | inl e ↦
      let there = ap (λ i. Map.lookup i m.sessions) ((==_iff s.id j).0 e) in
      ground (arith, e, fresh, there, x user j, in_index-insert s m user j, lookup-insert s m j)
  | inr e ↦ ground (arith, e, x user j, in_index-insert s m user j, lookup-insert s m j)
]

detach-IsIndexed :
    (s t : Session) (m : Manager)
    → Map.lookup s.id m.sessions ≡ some t
    → s.user_id ≡ t.user_id
    → IsIndexed m
    → IsIndexed (detach s m)
detach-IsIndexed s t m here same x user j =
    let same' : (s.user_id == user) ≡ (t.user_id == user) = ap (λ u. u == user) same in
    elim (Bool-cases (s.id == j)) [
      | inl e ↦
          let there = ap (λ i. Map.lookup i m.sessions) (sym ((==_iff s.id j).0 e)) ∙ here in
          ground (arith, e, same', there, x user j, in_index-detach s m user j, lookup-detach s m j)
      | inr e ↦ ground (arith, e, x user j, in_index-detach s m user j, lookup-detach s m j)
    ]

touched-IsIndexed :
    (s s' : Session) (m : Manager)
    → Map.lookup s'.id m.sessions ≡ some s
    → s'.user_id ≡ s.user_id
    → IsIndexed m
    → IsIndexed (touched s' m)
touched-IsIndexed s s' m here same x user j =
    let same' : (s'.user_id == user) ≡ (s.user_id == user) = ap (λ u. u == user) same in
    let look = lookup-put s'.id j s' m.sessions in
    elim (Bool-cases (s'.id == j)) [
      | inl e ↦
          let there = ap (λ i. Map.lookup i m.sessions) (sym ((==_iff s'.id j).0 e)) ∙ here in
          ground (arith, e, same', there, look, x user j)
      | inr e ↦ ground (arith, e, look, x user j)
    ]

insert-Distinct : (s : Session) (m : Manager) → Distinct m.sessions → Distinct (insert s m).sessions
unfolding insert
insert-Distinct s m d = Distinct-put s.id s m.sessions d

detach-Distinct : (s : Session) (m : Manager) → Distinct m.sessions → Distinct (detach s m).sessions
unfolding detach
detach-Distinct s m d = Distinct-delete s.id m.sessions d

insert-IsTimely :
    (g : List Login) (s : Session) (m : Manager) (t : Session)
    → IsTimely g m t
    → IsTimely g (insert s m) t
unfolding insert
insert-IsTimely g s m t h = h

detach-IsTimely :
    (g : List Login) (s : Session) (m : Manager) (t : Session)
    → IsTimely g m t
    → IsTimely g (detach s m) t
unfolding detach
detach-IsTimely g s m t h = h

login_of-given : (b : ℕ) (g : List Login) (a : Login) → login_of b g ≡ some a → given b g ≡ true
login_of-given b [] a h = absurd (ground arith)
login_of-given b (x ∷ g) a h = elim (Bool-cases (nat_eq b x.buffer)) [
  | inl e ↦ ground (arith, e)
  | inr e ↦ ground (arith, e, login_of-given b g a (ground (arith, e)))
]

-- A login that gives a new buffer leaves the other sessions theirs.
later-IsTimely :
    (g : List Login) (x : Login) (m : Manager) (t : Session)
    → given x.buffer g ≡ false
    → IsTimely g m t
    → IsTimely (x ∷ g) m t
later-IsTimely g x m t new (live, (a, d, l, u, e)) =
    let had = login_of-given a.buffer g a l in
    let l' : login_of a.buffer (x ∷ g) ≡ some a = elim (Bool-cases (nat_eq a.buffer x.buffer)) [
      | inl q ↦
          let b≡ = ap (λ b. given b g) ((nat_eq_iff a.buffer x.buffer).0 q) in
          absurd (ground (arith, had, b≡, new))
      | inr q ↦ ground (arith, q, l)
    ] in
    (live, (a, d, l', u, e))

insert_shells : (s : Session) (m : Manager) → All IsShell m.shells → All IsShell (insert s m).shells
unfolding insert
insert_shells s m h = h

detach_shells : (s : Session) (m : Manager) → All IsShell m.shells → All IsShell (detach s m).shells
unfolding detach
detach_shells s m h = h

module _ (start : ℕ → Bytes) (g : List Login) where
  pub remove-IsSound :
      (id : Text) (s : Session) (m : Manager)
      → Map.lookup id m.sessions ≡ some s
      → IsSound start g m
      → IsSound start g (remove s m)
  unfolding remove wipe_scratch detach
  remove-IsSound id s m here k = record {
    keyring = remove-IsKeyring start g id s m here k.keyring;
    indexed = remove-IsIndexed id s m here k.keyring.keyed k.indexed;
    distinct = Distinct-delete s.id m.sessions k.distinct;
    timely = λ i t h. k.timely i t (ground (arith, lookup-remove s m i));
    shells = ((refl, refl), k.shells);
  }

  pub touched-IsSound :
      (id : Text) (s s' : Session) (m : Manager)
      → Map.lookup id m.sessions ≡ some s
      → s'.id ≡ s.id
      → s'.dek ≡ s.dek
      → s'.user_id ≡ s.user_id
      → IsTimely g m s'
      → IsSound start g m
      → IsSound start g (touched s' m)
  touched-IsSound id s s' m here same_id same_dek same_user time k =
      let id≡ = same_id ∙ k.keyring.keyed id s here in
      let here' = ap (λ i. Map.lookup i m.sessions) id≡ ∙ here in
      record {
        keyring = touched-IsKeyring start g id s s' m here same_id same_dek k.keyring;
        indexed = touched-IsIndexed s s' m here' same_user k.indexed;
        distinct = Distinct-put s'.id s' m.sessions k.distinct;
        timely = λ i t h.
            elim (found s'.id s' (Map.lookup i m.sessions) i t
              (sym (lookup-put s'.id i s' m.sessions) ∙ h)) [
                | inl (i≡, t≡) ↦ subst (IsTimely g m) t≡ time
                | inr (ne, h') ↦ k.timely i t h'
              ];
        shells = k.shells;
      }

  pub create_with-IsSound :
      (id csrf : Text) (u : User) (dek now : ℕ) (m : Manager)
      → Map.lookup id m.sessions ≡ none
      → given dek g ≡ false
      → IsSound start g m
      → IsSound start
          (record { buffer = dek; time = now; user_id = u.id } ∷ g)
          (create_with id csrf u dek now m).1
  unfolding create_with
  create_with-IsSound id csrf u dek now m fresh new k =
      let s = (create_with id csrf u dek now m).0 in
      let m0 : Manager = record m { caches = m.caches + 1 } in
      let a : Login = record { buffer = dek; time = now; user_id = u.id } in
      record {
        keyring = create_with-IsKeyring start g id csrf u dek now m fresh new k.keyring;
        indexed = insert-IsIndexed s m0 fresh k.indexed;
        distinct = insert-Distinct s m0 k.distinct;
        timely = λ i t h.
            elim (found id s (Map.lookup i m.sessions) i t (sym (lookup-insert s m0 i) ∙ h)) [
              | inl (i≡, t≡) ↦
                  subst (IsTimely (a ∷ g) m) t≡
                    (refl, (a, refl, ground (arith, (nat_eq_iff dek dek).1 refl), refl, refl))
              | inr (ne, h') ↦
                  insert-IsTimely (a ∷ g) s m0 t (later-IsTimely g a m t new (k.timely i t h'))
            ];
        shells = insert_shells s m0 k.shells;
      }

  pub rotate_with-IsSound :
      (id next : Text) (now : ℕ) (old : Session) (m : Manager)
      → Map.lookup id m.sessions ≡ some old
      → Map.lookup next m.sessions ≡ none
      → IsSound start g m
      → IsSound start g (rotate_with next now old m).1
  unfolding rotate_with
  rotate_with-IsSound id next now old m here fresh k =
      let old≡ = k.keyring.keyed id old here in
      let here' = ap (λ i. Map.lookup i m.sessions) old≡ ∙ here in
      let shell = old_shell old in
      let new = fresh_session next now old in
      let m1 : Manager = record m { shells = shell ∷ m.shells } in
      let m2 = detach shell m1 in
      record {
        keyring = rotate_with-IsKeyring start g id next now old m here fresh k.keyring;
        indexed =
            insert-IsIndexed new m2 (ground (arith, lookup-detach shell m1 next, fresh))
              (detach-IsIndexed shell old m1 here' refl k.indexed);
        distinct = insert-Distinct new m2 (detach-Distinct shell m1 k.distinct);
        timely = λ i t h.
            elim (found next new (if old.id == i then none else Map.lookup i m.sessions) i t
              (sym (lookup-rotate_with next now old m i) ∙ h)) [
                | inl (i≡, t≡) ↦ insert-IsTimely g new m2 t (
                    detach-IsTimely g shell m1 t
                      (subst (IsTimely g m) t≡ (refl, (k.timely id old here).1)))
                | inr (ne, h') ↦
                    insert-IsTimely g new m2 t
                      (detach-IsTimely g shell m1 t (k.timely i t (ground arith)))
              ];
        shells = insert_shells new m2 (detach_shells shell m1 ((refl, refl), k.shells));
      }
