-- ===== src/Store/Effects/Confirmations.antt =====
-- internal/store/register.go and email_change.go: the effects of registering and of confirming.
use carrel.Prelude.{
  ℕ, ◌+◌, ◌≡◌, refl, ap, ◌⊎◌, inl, inr, Bool, true, false, not, none, some, [], ◌&&◌, ◌||◌,
  Bool-cases, Option-cases, find_last, replace_last, Text, text, text_eq, ◌==◌, arith,
}
use carrel.Errors.{ok, Result-cases}
use carrel.Random.{Bytes}
use carrel.Crypto.{hash_token}
use carrel.Store.Types.{State, User, Actor, role_user, role_admin}
use carrel.Store.Base.{
  Env, find_user, find_user_by_login, set_user, add_user, append_audit, entry_on, entry,
  is_last_active_admin,
}
use carrel.Store.Users.{new_user, set_credentials}
use carrel.Store.Confirm.{
  register_new, register_again, register_change, stamp_registration, default_email_change_ttl,
  replace_by_login, request_email_change_change, confirm_email_change_change, if_confirmable,
  awaits,
}
use carrel.Store.Effects.Steps.{
  UsersStep, AuditStep, Effect, Edited-replace_first, Edited-replace_last,
}
use carrel.Store.Effects.Accounts.{audited-Effect}
use carrel.Store.Effects.Credentials.{set_credentials-keeps}
use carrel.Store.Effects.Creations.{added-Effect, new_user-login}

-- Confirming an account makes no administrator who could log in one who cannot.
confirming :
    (admin disabled waiting last : Bool)
    → ((admin && not disabled && true) ≡ (admin && not disabled && not waiting))
      ⊎ (((admin && not disabled && true) ≡ true) ⊎ (last ≡ false))
confirming admin disabled false last = inl refl
confirming false disabled true last = inl refl
confirming true true true last = inl refl
confirming true false true last = inr (inl refl)

module _ (env : Env) where
  register_new-Effect :
      (now : ℕ) (token login email pw ip : Text) (st st' : State) (a : User) (t t' : Bytes)
      → find_user_by_login st login ≡ none
      → register_new env now token login email pw ip st t ≡ ok ((a, st'), t')
      → Effect st st'
  unfolding register_new
  register_new-Effect now token login email pw ip st st' a t t' free h =
      elim (Result-cases (new_user env now st login email role_user pw [] t)) [
        | inl (x, n) ↦ absurd (ground arith)
        | inr ((v, t₁), n) ↦
            let u = stamp_registration env email token (now + default_email_change_ttl) v in
            let q : st'
                ≡ append_audit now
                    (entry (text "user_create") [] login u.id u.login ip (text "self-registration"))
                    (add_user u st) =
              ground arith in
            rw q (
              added-Effect now _ st st.invites u login free
                (new_user-login env now st login email role_user pw [] t n))
      ]

  register_again-Effect :
      (now : ℕ) (token login email pw ip : Text) (existing : User) (st st' : State) (a : User)
      (t t' : Bytes)
      → find_user_by_login st login ≡ some existing
      → register_again env now token login email pw ip existing st t ≡ ok ((a, st'), t')
      → Effect st st'
  unfolding register_again append_audit
  register_again-Effect now token login email pw ip existing st st' a t t' found h =
      elim (Bool-cases (not existing.unconfirmed || not (existing.email == email))) [
        | inl taken ↦ absurd (ground arith)
        | inr waits ↦ elim (Result-cases (set_credentials env existing pw st.settings.escrow t)) [
          | inl (x, c) ↦ absurd (ground arith)
          | inr ((v, t₁), c) ↦
              let u = stamp_registration env email token (now + default_email_change_ttl) v in
              let keeps = set_credentials-keeps env existing pw st.settings.escrow t c in
              let e =
                entry (text "user_create") [] login u.id u.login ip
                  (text "self-registration resent") in
              let q : st' ≡ append_audit now e (replace_by_login login u st) = ground arith in
              let waiting : existing.unconfirmed ≡ true = ground arith in
              rw q (record {
                users =
                    UsersStep.edited existing u
                      (Edited-replace_first (λ x. x.login == login) u st.users found)
                      (ap (λ (x : User). x.login) keeps)
                      (inl (
                        rw waiting (
                          ap (λ (x : User). x.role == role_admin && not x.disabled && false)
                            keeps)));
                audit = AuditStep.logged now e refl refl;
              })
        ]
      ]

  pub register-Effect :
      (now : ℕ) (token login email pw ip : Text) (st st' : State) (a : User) (t t' : Bytes)
      → register_change env now token login email pw ip st t ≡ ok ((a, st'), t')
      → Effect st st'
  unfolding register_change
  register-Effect now token login email pw ip st st' a t t' h =
      elim (Bool-cases st.settings.self_registration) [
        | inr closed ↦ absurd (ground arith)
        | inl opened ↦ elim (Option-cases (find_user_by_login st login)) [
          | inl f ↦ register_new-Effect now token login email pw ip st st' a t t' f (ground arith)
          | inr (x, f) ↦
              register_again-Effect now token login email pw ip x st st' a t t' f (ground arith)
        ]
      ]

  pub request_email_change-Effect :
      (now : ℕ) (actor : Actor) (id email : Text) (ttl : ℕ) (token : Text) (st st' : State)
      (t t' : Bytes)
      → request_email_change_change env now actor id email ttl token st t ≡ ok ((tt, st'), t')
      → Effect st st'
  unfolding request_email_change_change
  request_email_change-Effect now actor id email ttl token st st' t t' h =
      elim (Option-cases (find_user st id)) [
        | inl e ↦ absurd (ground arith)
        | inr (u, e) ↦ elim (Bool-cases (u.email == email && u.email_confirmed)) [
          | inl as_is ↦ absurd (ground arith)
          | inr other ↦
              let v : User = record u {
                pending_email = email;
                email_change_token_hash = hash_token env.crypto token;
                email_change_expires = now + ttl;
              } in
              let q : st'
                  ≡ append_audit now
                      (entry_on (text "user_email_change") actor u (text "confirmation requested"))
                      (set_user id v st) =
                ground arith in
              rw q (audited-Effect now _ st id u v e refl (inl refl))
        ]
      ]

  pub confirm_email_change-Effect :
      (now : ℕ) (token : Text) (st st' : State) (a : User × Bool) (t t' : Bytes)
      → confirm_email_change_change env now token st t ≡ ok ((a, st'), t')
      → Effect st st'
  unfolding confirm_email_change_change append_audit
  confirm_email_change-Effect now token st st' a t t' h =
      let digest = hash_token env.crypto token in
      elim (Option-cases (find_last (awaits digest) st.users)) [
        | inl f ↦ absurd (ground arith)
        | inr (u, f) ↦ elim (Result-cases (if_confirmable now (some u))) [
          | inl (x, c) ↦ absurd (ground arith)
          | inr (y, c) ↦
              let y≡ : y ≡ u = ground arith in
              let v : User = record u {
                unconfirmed = false;
                email = u.pending_email;
                email_confirmed = true;
                pending_email = [];
                email_change_token_hash = [];
                email_change_expires = 0;
              } in
              let e = entry (text "email_confirm") u.id u.login u.id u.login [] u.pending_email in
              let q : st'
                  ≡ append_audit now e
                      (record st { users = replace_last (awaits digest) v st.users }) =
                ground arith in
              rw q (record {
                users =
                    UsersStep.edited u v (Edited-replace_last (awaits digest) v st.users f) refl (
                      confirming (u.role == role_admin) u.disabled u.unconfirmed
                        (is_last_active_admin st.users u));
                audit = AuditStep.logged now e refl refl;
              })
        ]
      ]
