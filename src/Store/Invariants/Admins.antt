-- ===== src/Store/Invariants/Admins.antt =====
-- internal/store/users.go: the instance never loses its last administrator who can log in.
use carrel.Prelude.{
  ◌≡◌, inl, inr, Bool, true, false, ◌&&◌, not, Bool-cases, List, [], ◌∷◌, ◌++◌, exists, text_eq,
  ◌==◌, ==_refl, arith,
}
use carrel.Store.Types.{User}
use carrel.Store.Base.{Env, IsLawful, World, Store, is_active_admin, is_last_active_admin}
use carrel.Store.Service.{Request, handle, serve}
use carrel.Store.Effects.{Edited, Removed, UsersStep, here, there, same, edited, added, removed}
use carrel.Store.Effects.Requests.{handle-Effect}

module _ (p : User → Bool) where
  Edited-exists_same :
      {us vs : List User} {u v : User}
      → Edited us u v vs
      → p v ≡ p u
      → exists p us ≡ true
      → exists p vs ≡ true
  Edited-exists_same here e h = ground arith
  Edited-exists_same (there {x = x} d) e h = elim (Bool-cases (p x)) [
    | inl q ↦ ground arith
    | inr q ↦ ground (arith, Edited-exists_same d e (ground arith))
  ]

  Edited-exists_new :
      {us vs : List User} {u v : User} → Edited us u v vs → p v ≡ true → exists p vs ≡ true
  Edited-exists_new here e = ground arith
  Edited-exists_new (there {x = x} d) e = ground (arith, Edited-exists_new d e)

  Edited-exists_other :
      {us vs : List User} {u v : User}
      → Edited us u v vs
      → p u ≡ false
      → exists p us ≡ true
      → exists p vs ≡ true
  Edited-exists_other here e h = ground arith
  Edited-exists_other (there {x = x} d) e h = elim (Bool-cases (p x)) [
    | inl q ↦ ground arith
    | inr q ↦ ground (arith, Edited-exists_other d e (ground arith))
  ]

  Removed-exists_other :
      {us vs : List User} {u : User}
      → Removed us u vs
      → p u ≡ false
      → exists p us ≡ true
      → exists p vs ≡ true
  Removed-exists_other here e h = ground arith
  Removed-exists_other (there {x = x} d) e h = elim (Bool-cases (p x)) [
    | inl q ↦ ground arith
    | inr q ↦ ground (arith, Removed-exists_other d e (ground arith))
  ]

  exists-append : (us vs : List User) → exists p us ≡ true → exists p (us ++ vs) ≡ true
  exists-append [] vs h = absurd (ground arith)
  exists-append (x ∷ us) vs h = elim (Bool-cases (p x)) [
    | inl q ↦ ground arith
    | inr q ↦ ground (arith, exists-append us vs (ground arith))
  ]

-- Another account than `u` that is an active administrator.
other_admin : User → User → Bool
other_admin u o = is_active_admin o && not (o.id == u.id)

other_admin_self : (u : User) → other_admin u u ≡ false
unfolding other_admin
other_admin_self u = ground (arith, ==_refl u.id)

other_admin-exists :
    (u : User) (us : List User)
    → exists (other_admin u) us ≡ true
    → exists is_active_admin us ≡ true
unfolding other_admin
other_admin-exists u [] h = absurd (ground arith)
other_admin-exists u (x ∷ us) h = elim (Bool-cases (is_active_admin x)) [
  | inl q ↦ ground arith
  | inr q ↦ ground (arith, other_admin-exists u us (ground arith))
]

-- A test that keeps an active administrator when `u` is touched.
spared :
    (us vs : List User) (u : User)
    → is_last_active_admin us u ≡ false
    → ((p : User → Bool) → p u ≡ false → exists p us ≡ true → exists p vs ≡ true)
    → exists is_active_admin us ≡ true
    → exists is_active_admin vs ≡ true
unfolding is_last_active_admin other_admin
spared us vs u last keeps h = elim (Bool-cases (is_active_admin u)) [
  | inr idle ↦ keeps is_active_admin idle h
  | inl busy ↦ elim (Bool-cases (exists (other_admin u) us)) [
    | inl more ↦ other_admin-exists u vs (keeps (other_admin u) (other_admin_self u) more)
    | inr none_left ↦ absurd (ground arith)
  ]
]

UsersStep-active :
    {us vs : List User}
    → UsersStep us vs
    → exists is_active_admin us ≡ true
    → exists is_active_admin vs ≡ true
UsersStep-active (same e) h = rw e h
UsersStep-active (edited u v d l (inl e)) h = Edited-exists_same is_active_admin d e h
UsersStep-active (edited u v d l (inr (inl e))) h = Edited-exists_new is_active_admin d e
UsersStep-active {us} {vs} (edited u v d l (inr (inr e))) h =
    spared us vs u e (λ p. Edited-exists_other p d) h
UsersStep-active {us} (added u f e) h = rw e (exists-append is_active_admin us _ h)
UsersStep-active {us} {vs} (removed u d e) h = spared us vs u e (λ p. Removed-exists_other p d) h

-- An administrator who can log in is left after any sequence of requests, whoever makes them and
-- whether they succeed or fail, when there was one before.
pub serve-is_active_admin :
    (env : Env) (laws : IsLawful env) (calls : List (World × Request)) (s : Store)
    → exists is_active_admin s.state.users ≡ true
    → exists is_active_admin (serve env calls s).state.users ≡ true
unfolding serve
serve-is_active_admin env laws [] s h = h
serve-is_active_admin env laws ((w, r) ∷ calls) s h =
    serve-is_active_admin env laws calls (handle env w r s)
      (UsersStep-active (handle-Effect env laws w r s).users h)
