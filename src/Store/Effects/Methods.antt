-- ===== src/Store/Effects/Methods.antt =====
-- internal/store: every method has an effect on the state, whether it succeeds or not.
use carrel.Prelude.{◌≡◌, refl, Bool, Text, text_eq, ℤ}
use carrel.Errors.{Error, Result, ok, err}
use carrel.Random.{Bytes, Draw}
use carrel.Store.Types.{State, Role, Actor, AuditEntry, Settings}
use carrel.Store.Base.{Env, IsLawful, World, Store, update, checked, drawn, log}
use carrel.Store.Users.{create_first_admin, create_user_with_password}
use carrel.Store.Accounts.{
  record_login, change_password, reset_password, set_disabled, set_role, set_display_name,
  set_email, delete_user, set_week_start, set_contact_sort, set_note_sort, mark_escrow_notice_seen,
}
use carrel.Store.Invites.{
  with_token, create_invite, accept_invite, revoke_invite, extend_invite, resend_invite,
  record_invite_send,
}
use carrel.Store.Deposits.{
  enable_escrow, resume_escrow, disable_escrow, change_escrow_master_password, escrow_opt_in,
  escrow_opt_out, recover_user,
}
use carrel.Store.Preferences.{update_settings, set_smtp_password}
use carrel.Store.Confirm.{register, request_email_change, confirm_email_change}
use carrel.Store.Commit.{Outcome, refused, written, update-Outcome}
use carrel.Store.Effects.Accounts.{
  set_disabled-Effect, set_role-Effect, delete_user-Effect, record_login-Effect, set_email-Effect,
  edit-Effect,
}
use carrel.Store.Effects.Credentials.{
  change_password-Effect, reset_password-Effect, escrow_opt_out-Effect, escrow_opt_in-Effect,
  recover_user-Effect,
}
use carrel.Store.Effects.Creations.{
  create_first_admin-Effect, create_user-Effect, accept_invite-Effect,
}
use carrel.Store.Effects.Confirmations.{
  register-Effect, request_email_change-Effect, confirm_email_change-Effect,
}
use carrel.Store.Effects.Settings.{
  log-Effect, create_invite-Effect, revoke_invite-Effect, extend_invite-Effect,
  resend_invite-Effect, record_invite_send-Effect, enable_escrow-Effect, resume_escrow-Effect,
  disable_escrow-Effect, change_escrow_master_password-Effect, update_settings-Effect,
  set_smtp_password-Effect,
}
use carrel.Store.Effects.Steps.{UsersStep, AuditStep, Effect}

-- The state that a method leaves differs from the one that it found by an effect.
pub record Kept {A : Type 0} (s : Store) (x : Result A × Store) : Type 0 where
  pub effect : Effect s.state x.1.state

unchanged-Kept : {A : Type 0} (s : Store) (e : Error) → Kept {A = A} s (err e, s)
unchanged-Kept s e = record {
  effect = record { users = UsersStep.same refl; audit = AuditStep.quiet refl refl };
}

module _ {A : Type 0} (env : Env) (laws : IsLawful env) (w : World) (s : Store) where
  update-Kept :
      (change : State → Draw (A × State))
      → ((a : A) (next : State) (t t' : Bytes)
          → change s.state t ≡ ok ((a, next), t')
          → Effect s.state next)
      → Kept s (update env w s change)
  update-Kept change effect = go (update-Outcome env laws w s change)
    where
      go : Outcome env s change (update env w s change) → Kept s (update env w s change)
      go (refused e v p same) = rw p (record {
        effect = record { users = UsersStep.same refl; audit = AuditStep.quiet refl refl };
      })
      go (written a next sealed t t' u u' h k p) = rw p (record { effect = effect a next t t' h })

checked-Kept :
    {A : Type 0} (r : Result (Unit {0})) (s : Store) (x : Result A × Store)
    → Kept s x
    → Kept s (checked r s x)
unfolding checked
checked-Kept (ok _) s x k = k
checked-Kept (err e) s x k = unchanged-Kept s e

drawn-Kept :
    {A B : Type 0} (r : Result (B × Bytes)) (s : Store) (f : B → Bytes → Result A × Store)
    → ((b : B) (rest : Bytes) → Kept s (f b rest))
    → Kept s (drawn r s f)
unfolding drawn
drawn-Kept (ok (b, rest)) s f k = k b rest
drawn-Kept (err e) s f k = unchanged-Kept s e

with_token-Kept :
    {A : Type 0} (s : Store) (token : Text) (x : Result A × Store)
    → Kept s x
    → Kept s (with_token token x)
unfolding with_token
with_token-Kept s token (err e, s') h = record { effect = h.effect }
with_token-Kept s token (ok a, s') h = record { effect = h.effect }

module _ (env : Env) (laws : IsLawful env) (w : World) (s : Store) where
  pub create_first_admin-Kept : (l e p ip : Text) → Kept s (create_first_admin env w l e p ip s)
  unfolding create_first_admin
  create_first_admin-Kept l e p ip = checked-Kept _ s _ (
      update-Kept env laws w s _
        (λ a n t t' h. create_first_admin-Effect env w.now _ _ p ip s.state n a t t' h))

  pub create_user_with_password-Kept :
      (x : Actor) (l e : Text) (r : Role) (p : Text)
      → Kept s (create_user_with_password env w x l e r p s)
  unfolding create_user_with_password
  create_user_with_password-Kept x l e r p = checked-Kept _ s _ (
      checked-Kept _ s _ (
        update-Kept env laws w s _
          (λ a n t t' h. create_user-Effect env w.now x _ _ r p s.state n a t t' h)))

  pub record_login-Kept : (x : Actor) → Kept s (record_login env w x s)
  unfolding record_login
  record_login-Kept x =
      update-Kept env laws w s _ (λ a n t t' h. record_login-Effect w.now x s.state n t t' h)

  pub change_password-Kept : (id c p : Text) → Kept s (change_password env w id c p s)
  unfolding change_password
  change_password-Kept id c p = checked-Kept _ s _ (
      update-Kept env laws w s _
        (λ a n t t' h. change_password-Effect env w.now id c p s.state n t t' h))

  pub reset_password-Kept : (x : Actor) (id p : Text) → Kept s (reset_password env w x id p s)
  unfolding reset_password
  reset_password-Kept x id p = checked-Kept _ s _ (
      update-Kept env laws w s _
        (λ a n t t' h. reset_password-Effect env w.now x id p s.state n t t' h))

  pub set_disabled-Kept : (x : Actor) (id : Text) (d : Bool) → Kept s (set_disabled env w x id d s)
  unfolding set_disabled
  set_disabled-Kept x id d =
      update-Kept env laws w s _ (λ a n t t' h. set_disabled-Effect w.now x id d s.state n t t' h)

  pub set_role-Kept : (x : Actor) (id : Text) (r : Role) → Kept s (set_role env w x id r s)
  unfolding set_role
  set_role-Kept x id r =
      checked-Kept _ s _
        (update-Kept env laws w s _ (λ a n t t' h. set_role-Effect w.now x id r s.state n t t' h))

  pub set_display_name-Kept : (id v : Text) → Kept s (set_display_name env w id v s)
  unfolding set_display_name
  set_display_name-Kept id v = checked-Kept _ s _ (
      update-Kept env laws w s _
        (λ a n t t' h. edit-Effect id _ s.state n t t' (λ u. (refl, refl)) h))

  pub set_email-Kept : (x : Actor) (id e : Text) → Kept s (set_email env w x id e s)
  unfolding set_email
  set_email-Kept x id e =
      checked-Kept _ s _
        (update-Kept env laws w s _ (λ a n t t' h. set_email-Effect w.now x id _ s.state n t t' h))

  pub delete_user-Kept : (x : Actor) (id : Text) → Kept s (delete_user env w x id s)
  unfolding delete_user
  delete_user-Kept x id =
      update-Kept env laws w s _ (λ a n t t' h. delete_user-Effect w.now x id s.state n t t' h)

  pub set_week_start-Kept : (id v : Text) → Kept s (set_week_start env w id v s)
  unfolding set_week_start
  set_week_start-Kept id v = checked-Kept _ s _ (
      update-Kept env laws w s _
        (λ a n t t' h. edit-Effect id _ s.state n t t' (λ u. (refl, refl)) h))

  pub set_contact_sort-Kept : (id v : Text) → Kept s (set_contact_sort env w id v s)
  unfolding set_contact_sort
  set_contact_sort-Kept id v =
      update-Kept env laws w s _
        (λ a n t t' h. edit-Effect id _ s.state n t t' (λ u. (refl, refl)) h)

  pub set_note_sort-Kept : (id v : Text) → Kept s (set_note_sort env w id v s)
  unfolding set_note_sort
  set_note_sort-Kept id v =
      update-Kept env laws w s _
        (λ a n t t' h. edit-Effect id _ s.state n t t' (λ u. (refl, refl)) h)

  pub mark_escrow_notice_seen-Kept : (id : Text) → Kept s (mark_escrow_notice_seen env w id s)
  unfolding mark_escrow_notice_seen
  mark_escrow_notice_seen-Kept id =
      update-Kept env laws w s _
        (λ a n t t' h. edit-Effect id _ s.state n t t' (λ u. (refl, refl)) h)

  pub create_invite-Kept :
      (x : Actor) (r : Role) (d e : Text) (ttl : ℤ) → Kept s (create_invite env w x r d e ttl s)
  unfolding create_invite
  create_invite-Kept x r d e ttl = checked-Kept _ s _ (
      drawn-Kept {B = Text × Text} _ s _ (λ k rest. with_token-Kept s _ _ (
        update-Kept env laws (record w { tape = rest }) s _
          (λ a n t t' h. create_invite-Effect env w.now x r d _ ttl k.0 k.1 s.state n a t t' h))))

  pub accept_invite-Kept : (k l e p ip : Text) → Kept s (accept_invite env w k l e p ip s)
  unfolding accept_invite
  accept_invite-Kept k l e p ip = checked-Kept _ s _ (
      checked-Kept _ s _ (
        checked-Kept _ s _ (
          update-Kept env laws w s _
            (λ a n t t' h. accept_invite-Effect env w.now k _ e p ip s.state n a t t' h))))

  pub revoke_invite-Kept : (x : Actor) (id : Text) → Kept s (revoke_invite env w x id s)
  unfolding revoke_invite
  revoke_invite-Kept x id =
      update-Kept env laws w s _ (λ a n t t' h. revoke_invite-Effect w.now x id s.state n t t' h)

  pub extend_invite-Kept :
      (x : Actor) (id : Text) (ttl : ℤ) → Kept s (extend_invite env w x id ttl s)
  unfolding extend_invite
  extend_invite-Kept x id ttl =
      update-Kept env laws w s _
        (λ a n t t' h. extend_invite-Effect w.now x id ttl s.state n t t' h)

  pub resend_invite-Kept : (x : Actor) (id : Text) → Kept s (resend_invite env w x id s)
  unfolding resend_invite
  resend_invite-Kept x id = drawn-Kept _ s _ (λ k rest. with_token-Kept s _ _ (
      update-Kept env laws (record w { tape = rest }) s _
        (λ a n t t' h. resend_invite-Effect env w.now x id k s.state n t t' h)))

  pub record_invite_send-Kept : (id k e : Text) → Kept s (record_invite_send env w id k e s)
  unfolding record_invite_send
  record_invite_send-Kept id k e =
      update-Kept env laws w s _
        (λ a n t t' h. record_invite_send-Effect w.now id k e s.state n t t' h)

  pub register-Kept : (l e p ip : Text) → Kept s (register env w l e p ip s)
  unfolding register
  register-Kept l e p ip = checked-Kept _ s _ (
      checked-Kept _ s _ (
        drawn-Kept _ s _ (λ k rest. with_token-Kept s _ _ (
          update-Kept env laws (record w { tape = rest }) s _
            (λ a n t t' h. register-Effect env w.now k _ _ p ip s.state n a t t' h)))))

  pub request_email_change-Kept :
      (x : Actor) (id e : Text) (ttl : ℤ) → Kept s (request_email_change env w x id e ttl s)
  unfolding request_email_change
  request_email_change-Kept x id e ttl = checked-Kept _ s _ (
      checked-Kept _ s _ (
        drawn-Kept _ s _ (λ k rest. with_token-Kept s _ _ (
          update-Kept env laws (record w { tape = rest }) s _
            (λ a n t t' h. request_email_change-Effect env w.now x id _ _ k s.state n t t' h)))))

  pub confirm_email_change-Kept : (k : Text) → Kept s (confirm_email_change env w k s)
  unfolding confirm_email_change
  confirm_email_change-Kept k = checked-Kept _ s _ (
      update-Kept env laws w s _
        (λ a n t t' h. confirm_email_change-Effect env w.now k s.state n a t t' h))

  pub enable_escrow-Kept : (x : Actor) (mp : Text) → Kept s (enable_escrow env w x mp s)
  unfolding enable_escrow
  enable_escrow-Kept x mp = drawn-Kept _ s _ (λ k rest.
      update-Kept env laws (record w { tape = rest }) s _
        (λ a n t t' h. enable_escrow-Effect w.now x k s.state n t t' h))

  pub resume_escrow-Kept : (x : Actor) (mp : Text) → Kept s (resume_escrow env w x mp s)
  unfolding resume_escrow
  resume_escrow-Kept x mp =
      update-Kept env laws w s _
        (λ a n t t' h. resume_escrow-Effect env w.now x mp s.state n t t' h)

  pub disable_escrow-Kept : (x : Actor) → Kept s (disable_escrow env w x s)
  unfolding disable_escrow
  disable_escrow-Kept x =
      update-Kept env laws w s _ (λ a n t t' h. disable_escrow-Effect w.now x s.state n t t' h)

  pub change_escrow_master_password-Kept :
      (x : Actor) (c p : Text) → Kept s (change_escrow_master_password env w x c p s)
  unfolding change_escrow_master_password
  change_escrow_master_password-Kept x c p =
      update-Kept env laws w s _
        (λ a n t t' h. change_escrow_master_password-Effect env w.now x c p s.state n t t' h)

  pub escrow_opt_in-Kept : (x : Actor) (id p : Text) → Kept s (escrow_opt_in env w x id p s)
  unfolding escrow_opt_in
  escrow_opt_in-Kept x id p =
      update-Kept env laws w s _
        (λ a n t t' h. escrow_opt_in-Effect env w.now x id p s.state n t t' h)

  pub escrow_opt_out-Kept : (x : Actor) (id : Text) → Kept s (escrow_opt_out env w x id s)
  unfolding escrow_opt_out
  escrow_opt_out-Kept x id =
      update-Kept env laws w s _
        (λ a n t t' h. escrow_opt_out-Effect env w.now x id s.state n t t' h)

  pub recover_user-Kept : (x : Actor) (id mp p : Text) → Kept s (recover_user env w x id mp p s)
  unfolding recover_user
  recover_user-Kept x id mp p = checked-Kept _ s _ (
      update-Kept env laws w s _
        (λ a n t t' h. recover_user-Effect env w.now x id mp p s.state n t t' a h))

  pub update_settings-Kept :
      (x : Actor) (fn : Settings → Settings) → Kept s (update_settings env w x fn s)
  unfolding update_settings
  update_settings-Kept x fn =
      update-Kept env laws w s _
        (λ a n t t' h. update_settings-Effect env w.now x fn s.state n t t' h)

  pub set_smtp_password-Kept : (x : Actor) (p : Text) → Kept s (set_smtp_password env w x p s)
  unfolding set_smtp_password
  set_smtp_password-Kept x p =
      update-Kept env laws w s _
        (λ a n t t' h. set_smtp_password-Effect env s.key w.now x p s.state n t t' h)

  pub log-Kept : (e : AuditEntry) → Kept s (log env w e s)
  unfolding log
  log-Kept e = update-Kept env laws w s _ (λ a n t t' h. log-Effect w.now e s.state n t t' h)
