-- ===== src/Store/Effects/Creations.antt =====
-- internal/store: the effects of the changes that add an account or confirm one.
use carrel.Prelude.{
  ℕ, ◌≡◌, refl, ap, inl, inr, true, false, not, none, List, [], Option-cases, find_last,
  replace_last, Text, text, text_eq, ◌==◌, arith, nat_eq, length,
}
use carrel.Errors.{ok, Result-cases}
use carrel.Random.{Bytes, random}
use carrel.Crypto.{hash_token}
use carrel.Store.Types.{State, User, Invite, AuditEntry, Actor, Role, role_admin, delivery_email}
use carrel.Store.Base.{Env, find_user_by_login, add_user, append_audit, entry_on, entry}
use carrel.Store.Users.{blank_user, new_user, create_first_admin_change, create_user_change}
use carrel.Store.Invites.{accept_invite_change, if_usable, with_digest, account_email}
use carrel.Store.Effects.Steps.{UsersStep, AuditStep, Effect}
use carrel.Store.Effects.Credentials.{set_credentials-keeps}

-- An account that is added under a free login, with an entry in the log. Invitations may change too.
pub added-Effect :
    (now : ℕ) (e : AuditEntry) (st : State) (is : List Invite) (u : User) (login : Text)
    → find_user_by_login st login ≡ none
    → u.login ≡ login
    → Effect st (append_audit now e (add_user u (record st { invites = is })))
unfolding append_audit
added-Effect now e st is u login free named = record {
  users = UsersStep.added u (rw named free) refl;
  audit = AuditStep.logged now e refl refl;
}

module _ (env : Env) where
  pub new_user-login :
      (now : ℕ) (st : State) (login email : Text) (role : Role) (pw by : Text) (t : Bytes)
      {v : User} {t' : Bytes}
      → new_user env now st login email role pw by t ≡ ok (v, t')
      → v.login ≡ login
  unfolding new_user
  new_user-login now st login email role pw by t {v} {t'} h = elim (Result-cases (random 16 t)) [
    | inl (x, r) ↦ absurd (ground arith)
    | inr ((id, t₁), r) ↦
        ap (λ (x : User). x.login)
          (set_credentials-keeps env (blank_user now (env.crypto.hex id) login email role by) pw
            st.settings.escrow t₁ {v = v} {t' = t'} (ground arith))
  ]

  pub create_first_admin-Effect :
      (now : ℕ) (login email pw ip : Text) (st st' : State) (a : User) (t t' : Bytes)
      → create_first_admin_change env now login email pw ip st t ≡ ok ((a, st'), t')
      → Effect st st'
  unfolding create_first_admin_change
  create_first_admin-Effect now login email pw ip st st' a t t' h =
      elim (Option-cases (find_user_by_login st login)) [
        | inr (x, f) ↦ absurd (ground arith)
        | inl f ↦ elim (Result-cases (new_user env now st login email role_admin pw [] t)) [
          | inl (x, n) ↦ absurd (ground arith)
          | inr ((v, t₁), n) ↦
              let u : User = record v {
                must_change_password = false;
                email_confirmed = not (nat_eq (length email) 0);
              } in
              let q : st'
                  ≡ append_audit now (entry (text "bootstrap") u.id login u.id login ip [])
                      (add_user u st) =
                ground arith in
              rw q (
                added-Effect now _ st st.invites u login f
                  (new_user-login now st login email role_admin pw [] t n))
        ]
      ]

  pub create_user-Effect :
      (now : ℕ) (actor : Actor) (login email : Text) (role : Role) (pw : Text) (st st' : State)
      (a : User) (t t' : Bytes)
      → create_user_change env now actor login email role pw st t ≡ ok ((a, st'), t')
      → Effect st st'
  unfolding create_user_change
  create_user-Effect now actor login email role pw st st' a t t' h =
      elim (Option-cases (find_user_by_login st login)) [
        | inr (x, f) ↦ absurd (ground arith)
        | inl f ↦ elim (Result-cases (new_user env now st login email role pw actor.id t)) [
          | inl (x, n) ↦ absurd (ground arith)
          | inr ((v, t₁), n) ↦
              let u : User = record v {
                must_change_password = true;
                email_confirmed = not (nat_eq (length email) 0);
              } in
              let q : st'
                  ≡ append_audit now
                      (entry_on (text "user_create") actor u (text "temporary password"))
                      (add_user u st) =
                ground arith in
              rw q (
                added-Effect now _ st st.invites u login f
                  (new_user-login now st login email role pw actor.id t n))
        ]
      ]

  pub accept_invite-Effect :
      (now : ℕ) (token login email pw ip : Text) (st st' : State) (a : User) (t t' : Bytes)
      → accept_invite_change env now token login email pw ip st t ≡ ok ((a, st'), t')
      → Effect st st'
  unfolding accept_invite_change
  accept_invite-Effect now token login email pw ip st st' a t t' h =
      let digest = hash_token env.crypto token in
      elim (Result-cases (if_usable now (find_last (with_digest digest) st.invites))) [
        | inl (x, f) ↦ absurd (ground arith)
        | inr (inv, f) ↦ elim (Option-cases (find_user_by_login st login)) [
          | inr (x, l) ↦ absurd (ground arith)
          | inl l ↦ elim (Result-cases (account_email env inv email)) [
            | inl (x, m) ↦ absurd (ground arith)
            | inr (address, m) ↦
                let is =
                  replace_last (with_digest digest)
                    (record inv { accepted_at = now; login = login; email = address }) st.invites in
                elim (Result-cases (
                  new_user env now (record st { invites = is }) login address inv.role pw
                    inv.created_by t)) [
                      | inl (x, n) ↦ absurd (ground arith)
                      | inr ((v, t₁), n) ↦
                          let u : User = record v {
                            email_confirmed = inv.delivery == delivery_email;
                          } in
                          let q : st'
                              ≡ append_audit now
                                  (entry (text "invite_accept") u.id u.login u.id u.login ip [])
                                  (add_user u (record st { invites = is })) =
                            ground arith in
                          rw q (
                            added-Effect now _ st is u login l (
                              new_user-login now (record st { invites = is }) login address inv.role
                                pw inv.created_by t n))
                    ]
          ]
        ]
      ]
