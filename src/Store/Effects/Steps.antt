-- ===== src/Store/Effects/Steps.antt =====
-- internal/store: the effects of a change.
use carrel.Prelude.{
  ℕ, ◌≡◌, ◌⊎◌, inl, inr, Bool, true, false, none, some, List, [], ◌∷◌, ◌++◌, Bool-cases,
  Option-cases, find, find_last, replace_first, replace_last, remove_first, text_eq, ◌==◌, arith,
}
use carrel.Store.Types.{State, User, AuditEntry}
use carrel.Store.Base.{is_active_admin, is_last_active_admin, append_audit}

-- One account in the list is another value after.
pub data Edited : List User → User → User → List User → Type 0 where
  here : {u v : User} {us : List User} → Edited (u ∷ us) u v (v ∷ us)
  there : {u v x : User} {us vs : List User} → Edited us u v vs → Edited (x ∷ us) u v (x ∷ vs)

-- One account is gone from the list.
pub data Removed : List User → User → List User → Type 0 where
  here : {u : User} {us : List User} → Removed (u ∷ us) u us
  there : {u x : User} {us vs : List User} → Removed us u vs → Removed (x ∷ us) u (x ∷ vs)

-- Accounts may change but for their login; one is added under a free login; the last administrator
-- who can log in neither loses that nor is removed.
pub data UsersStep (us vs : List User) : Type 0 where
  same : vs ≡ us → UsersStep us vs
  edited :
      (u v : User)
      → Edited us u v vs
      → v.login ≡ u.login
      → (is_active_admin v ≡ is_active_admin u)
        ⊎ ((is_active_admin v ≡ true) ⊎ (is_last_active_admin us u ≡ false))
      → UsersStep us vs
  added :
      (u : User) → find (λ x. x.login == u.login) us ≡ none → vs ≡ us ++ u ∷ [] → UsersStep us vs
  removed : (u : User) → Removed us u vs → is_last_active_admin us u ≡ false → UsersStep us vs

-- The log stays, or one entry is appended.
pub data AuditStep (st st' : State) : Type 0 where
  quiet : st'.audit ≡ st.audit → st'.audit_seq ≡ st.audit_seq → AuditStep st st'
  logged :
      (now : ℕ) (e : AuditEntry)
      → st'.audit ≡ (append_audit now e st).audit
      → st'.audit_seq ≡ (append_audit now e st).audit_seq
      → AuditStep st st'

pub record Effect (st st' : State) : Type 0 where
  pub users : UsersStep st.users st'.users
  pub audit : AuditStep st st'

pub Edited-replace_first :
    (p : User → Bool) (v : User) (us : List User) {u : User}
    → find p us ≡ some u
    → Edited us u v (replace_first p v us)
Edited-replace_first p v [] h = absurd (ground arith)
Edited-replace_first p v (x ∷ us) {u} h = elim (Bool-cases (p x)) [
  | inl e ↦ let x≡ : x ≡ u = ground arith in rw (e, x≡) Edited.here
  | inr e ↦ rw e (Edited.there (Edited-replace_first p v us (rw e at h)))
]

pub Edited-replace_last :
    (p : User → Bool) (v : User) (us : List User) {u : User}
    → find_last p us ≡ some u
    → Edited us u v (replace_last p v us)
Edited-replace_last p v [] h = absurd (ground arith)
Edited-replace_last p v (x ∷ us) {u} h = elim (Option-cases (find_last p us)) [
  | inl e ↦ elim (Bool-cases (p x)) [
    | inl q ↦ let x≡ : x ≡ u = ground arith in rw (e, replace_last, q, x≡) Edited.here
    | inr q ↦ absurd (ground arith)
  ]
  | inr (y, e) ↦
      let y≡ : y ≡ u = ground arith in
      rw (e, replace_last) (Edited.there (Edited-replace_last p v us (rw y≡ at e)))
]

pub Removed-remove_first :
    (p : User → Bool) (us : List User) {u : User}
    → find p us ≡ some u
    → Removed us u (remove_first p us)
Removed-remove_first p [] h = absurd (ground arith)
Removed-remove_first p (x ∷ us) {u} h = elim (Bool-cases (p x)) [
  | inl e ↦ let x≡ : x ≡ u = ground arith in rw (e, x≡) Removed.here
  | inr e ↦ rw e (Removed.there (Removed-remove_first p us (rw e at h)))
]
