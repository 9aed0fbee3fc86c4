-- ===== src/Store/Effects/Accounts.antt =====
-- internal/store/users.go: the effects of the changes of an existing account.
use carrel.Prelude.{
  ℕ, ◌≡◌, refl, ◌⊎◌, inl, inr, Bool, true, false, not, some, [], ◌&&◌, Bool-cases, remove_first,
  nat_eq, length, if◌then◌else◌, text, Option-cases, Text, text_eq, ◌==◌, arith,
}
use carrel.Errors.{ok}
use carrel.Random.{Bytes}
use carrel.Store.Types.{State, User, AuditEntry, Actor, role_admin}
use carrel.Store.Base.{
  find_user, set_user, is_active_admin, is_last_active_admin, append_audit, entry_on, entry,
}
use carrel.Store.Accounts.{
  set_disabled_change, set_role_change, bool_same, delete_user_change, record_login_change,
  set_email_change, edit_change,
}
use carrel.Store.Effects.Steps.{
  UsersStep, AuditStep, Effect, Edited-replace_first, Removed-remove_first,
}

-- An audited write of one account.
pub audited-Effect :
    (now : ℕ) (e : AuditEntry) (st : State) (id : Text) (u v : User)
    → find_user st id ≡ some u
    → v.login ≡ u.login
    → (is_active_admin v ≡ is_active_admin u)
      ⊎ ((is_active_admin v ≡ true) ⊎ (is_last_active_admin st.users u ≡ false))
    → Effect st (append_audit now e (set_user id v st))
unfolding append_audit
audited-Effect now e st id u v found login admins = record {
  users =
      UsersStep.edited u v (Edited-replace_first (λ x. x.id == id) v st.users found) login admins;
  audit = AuditStep.logged now e refl refl;
}

unchanged-Effect : {st : State} → Effect st st
unchanged-Effect = record { users = UsersStep.same refl; audit = AuditStep.quiet refl refl }

disabling :
    (admin before waiting after last : Bool)
    → (after && last) ≡ false
    → ((admin && not after && not waiting) ≡ (admin && not before && not waiting))
      ⊎ (((admin && not after && not waiting) ≡ true) ⊎ (last ≡ false))
disabling admin before waiting true last h = inr (inr h)
disabling true before true false last h = inl (ground arith)
disabling true before false false last h = inr (inl refl)
disabling false before waiting false last h = inl refl

demoting :
    (before after disabled waiting last : Bool)
    → (not after && last) ≡ false
    → ((after && not disabled && not waiting) ≡ (before && not disabled && not waiting))
      ⊎ (((after && not disabled && not waiting) ≡ true) ⊎ (last ≡ false))
demoting before false disabled waiting last h = inr (inr h)
demoting true true disabled waiting last h = inl refl
demoting false true disabled waiting last h = active_or disabled waiting
  where
    active_or :
        (d w : Bool) → ((not d && not w) ≡ false) ⊎ (((not d && not w) ≡ true) ⊎ (last ≡ false))
    active_or true w = inl refl
    active_or false true = inl refl
    active_or false false = inr (inl refl)

pub set_disabled-Effect :
    (now : ℕ) (actor : Actor) (id : Text) (d : Bool) (st st' : State) (t t' : Bytes)
    → set_disabled_change now actor id d st t ≡ ok ((tt, st'), t')
    → Effect st st'
unfolding set_disabled_change
set_disabled-Effect now actor id d st st' t t' h = elim (Option-cases (find_user st id)) [
  | inl e ↦ absurd (ground arith)
  | inr (u, e) ↦ elim (Bool-cases (bool_same u.disabled d)) [
    | inl as_is ↦ let q : st' ≡ st = ground arith in rw q unchanged-Effect
    | inr other ↦ elim (Bool-cases (d && is_last_active_admin st.users u)) [
      | inl last ↦ absurd (ground arith)
      | inr fine ↦
          let q : st'
              ≡ append_audit now
                  (entry_on (if d then text "user_disable" else text "user_enable") actor u [])
                  (set_user id (record u { disabled = d }) st) =
            ground arith in
          rw q (
            audited-Effect now _ st id u (record u { disabled = d }) e refl
              (disabling (u.role == role_admin) u.disabled u.unconfirmed d
                (is_last_active_admin st.users u) fine))
    ]
  ]
]

pub set_role-Effect :
    (now : ℕ) (actor : Actor) (id : Text) (role : Text) (st st' : State) (t t' : Bytes)
    → set_role_change now actor id role st t ≡ ok ((tt, st'), t')
    → Effect st st'
unfolding set_role_change
set_role-Effect now actor id role st st' t t' h = elim (Option-cases (find_user st id)) [
  | inl e ↦ absurd (ground arith)
  | inr (u, e) ↦ elim (Bool-cases (u.role == role)) [
    | inl as_is ↦ let q : st' ≡ st = ground arith in rw q unchanged-Effect
    | inr other ↦ elim (Bool-cases (not (role == role_admin) && is_last_active_admin st.users u)) [
      | inl last ↦ absurd (ground arith)
      | inr fine ↦
          let q : st'
              ≡ append_audit now (entry_on (text "user_role_change") actor u role)
                  (set_user id (record u { role = role }) st) =
            ground arith in
          rw q (
            audited-Effect now _ st id u (record u { role = role }) e refl
              (demoting (u.role == role_admin) (role == role_admin) u.disabled u.unconfirmed
                (is_last_active_admin st.users u) fine))
    ]
  ]
]

pub delete_user-Effect :
    (now : ℕ) (actor : Actor) (id : Text) (st st' : State) (t t' : Bytes)
    → delete_user_change now actor id st t ≡ ok ((tt, st'), t')
    → Effect st st'
unfolding delete_user_change append_audit
delete_user-Effect now actor id st st' t t' h = elim (Option-cases (find_user st id)) [
  | inl e ↦ absurd (ground arith)
  | inr (u, e) ↦ elim (Bool-cases (is_last_active_admin st.users u)) [
    | inl last ↦ absurd (ground arith)
    | inr fine ↦
        let q : st'
            ≡ append_audit now (entry_on (text "user_delete") actor u [])
                (record st { users = remove_first (λ x. x.id == id) st.users }) =
          ground arith in
        rw q (record {
          users = UsersStep.removed u (Removed-remove_first (λ x. x.id == id) st.users e) fine;
          audit = AuditStep.logged now (entry_on (text "user_delete") actor u []) refl refl;
        })
  ]
]

pub record_login-Effect :
    (now : ℕ) (actor : Actor) (st st' : State) (t t' : Bytes)
    → record_login_change now actor st t ≡ ok ((tt, st'), t')
    → Effect st st'
unfolding record_login_change
record_login-Effect now actor st st' t t' h = elim (Option-cases (find_user st actor.id)) [
  | inl e ↦ absurd (ground arith)
  | inr (u, e) ↦
      let q : st'
          ≡ append_audit now (entry (text "login") u.id u.login u.id u.login actor.ip [])
              (set_user actor.id (record u { last_login_at = now }) st) =
        ground arith in
      rw q (audited-Effect now _ st actor.id u (record u { last_login_at = now }) e refl (inl refl))
]

pub set_email-Effect :
    (now : ℕ) (actor : Actor) (id email : Text) (st st' : State) (t t' : Bytes)
    → set_email_change now actor id email st t ≡ ok ((tt, st'), t')
    → Effect st st'
unfolding set_email_change
set_email-Effect now actor id email st st' t t' h = elim (Option-cases (find_user st id)) [
  | inl e ↦ absurd (ground arith)
  | inr (u, e) ↦
      let v : User = record u { email = email; email_confirmed = not (nat_eq (length email) 0) } in
      let q : st'
          ≡ append_audit now (entry_on (text "user_email_change") actor u []) (set_user id v st) =
        ground arith in
      rw q (audited-Effect now _ st id u v e refl (inl refl))
]

-- An edit that keeps the login and what makes an administrator.
pub edit-Effect :
    (id : Text) (edit : User → User) (st st' : State) (t t' : Bytes)
    → ((u : User) → ((edit u).login ≡ u.login) × (is_active_admin (edit u) ≡ is_active_admin u))
    → edit_change id edit st t ≡ ok ((tt, st'), t')
    → Effect st st'
unfolding edit_change
edit-Effect id edit st st' t t' keeps h = elim (Option-cases (find_user st id)) [
  | inl e ↦ absurd (ground arith)
  | inr (u, e) ↦
      let q : st' ≡ set_user id (edit u) st = ground arith in
      rw q (record {
        users =
            UsersStep.edited u (edit u) (Edited-replace_first (λ x. x.id == id) (edit u) st.users e)
              (keeps u).0 (inl (keeps u).1);
        audit = AuditStep.quiet refl refl;
      })
]
