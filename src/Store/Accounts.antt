-- ===== src/Store/Accounts.antt =====
-- internal/store/users.go: changes of an existing account.
use carrel.Prelude.{
  ℕ, Bool, true, false, ◌&&◌, ◌||◌, not, [], if◌then◌else◌, nat_eq, length, Text, text, text_eq,
  ◌==◌, remove_first,
}
use carrel.Errors.{
  Result, or_else, check, not_found, last_admin, auth_failed, escrow_active, unknown_role,
  unknown_week_start,
}
use carrel.Random.{Draw, ◌>>=◌, ◌>>◌, pure, raise, lift}
use carrel.Store.Types.{State, User, Role, role_admin, is_role, Actor, is_some}
use carrel.Store.Validate.{
  normalize_email, validate_email, validate_password, normalize_display_name, validate_display_name,
}
use carrel.Store.Base.{
  Env, World, Store, update, checked, find_user, set_user, is_last_active_admin, entry, entry_on,
  append_audit,
}
use carrel.Store.Users.{set_credentials, unwrap_user_dek, rewrap_dek, password_matches}

-- An update that returns nothing but an error.
abbrev pub Change : Type 0
Change = State → Draw (Unit {0} × State)

abbrev pub done : State → Draw (Unit {0} × State)
done st = pure (tt, st)

abbrev pub the_user : State → Text → Draw User
the_user st id = lift (or_else (find_user st id) not_found)

abbrev pub Reply : Type 0
Reply = Result (Unit {0}) × Store

unfoldable pub record_login_change : ℕ → Actor → Change
record_login_change now actor st = do
  u ← the_user st actor.id
  done (
      append_audit now (entry (text "login") u.id u.login u.id u.login actor.ip [])
        (set_user actor.id (record u { last_login_at = now }) st))

unfoldable pub change_password_change : Env → ℕ → Text → Text → Text → Change
change_password_change env now user_id current next st = do
  u ← the_user st user_id
  lift (check (password_matches env u current) auth_failed)
  dek ← lift (unwrap_user_dek env u current)
  u' ← rewrap_dek env u next dek
  done (
      append_audit now (entry (text "password_change") u.id u.login u.id u.login [] [])
        (set_user user_id (record u' { must_change_password = false }) st))

unfoldable pub change_password : Env → World → Text → Text → Text → Store → Reply
change_password env w user_id current next s =
    checked (validate_password next) s
      (update env w s (change_password_change env w.now user_id current next))

unfoldable pub reset_password_change : Env → ℕ → Actor → Text → Text → Change
reset_password_change env now actor user_id temp_password st = do
  u ← the_user st user_id
  lift (
      check (not (not (nat_eq (length u.escrow_dek) 0) && is_some st.settings.escrow.config))
        escrow_active)
  u' ← set_credentials env u temp_password st.settings.escrow
  done (
      append_audit now (entry_on (text "password_reset") actor u (text "connections destroyed"))
        (set_user user_id (record u' { secrets = []; must_change_password = true }) st))

unfoldable pub reset_password : Env → World → Actor → Text → Text → Store → Reply
reset_password env w actor user_id temp_password s =
    checked (validate_password temp_password) s
      (update env w s (reset_password_change env w.now actor user_id temp_password))

abbrev pub bool_same : Bool → Bool → Bool
bool_same true b = b
bool_same false b = not b

unfoldable pub set_disabled_change : ℕ → Actor → Text → Bool → Change
set_disabled_change now actor user_id disabled st = do
  u ← the_user st user_id
  if bool_same u.disabled disabled
      then done st
      else if disabled && is_last_active_admin st.users u
      then raise last_admin
      else done (
          append_audit now
            (entry_on (if disabled then text "user_disable" else text "user_enable") actor u [])
            (set_user user_id (record u { disabled = disabled }) st))

unfoldable pub set_role_change : ℕ → Actor → Text → Role → Change
set_role_change now actor user_id role st = do
  u ← the_user st user_id
  if u.role == role
      then done st
      else if not (role == role_admin) && is_last_active_admin st.users u
      then raise last_admin
      else done (
          append_audit now (entry_on (text "user_role_change") actor u role)
            (set_user user_id (record u { role = role }) st))

unfoldable pub set_role : Env → World → Actor → Text → Role → Store → Reply
set_role env w actor user_id role s =
    checked (check (is_role role) unknown_role) s
      (update env w s (set_role_change w.now actor user_id role))

-- A change of one account that is not audited.
unfoldable pub edit_change : Text → (User → User) → Change
edit_change user_id edit st = do u ← the_user st user_id; done (set_user user_id (edit u) st)

unfoldable pub set_display_name : Env → World → Text → Text → Store → Reply
set_display_name env w user_id name' s =
    let name = normalize_display_name name' in
    checked (validate_display_name name) s
      (update env w s (edit_change user_id (λ u. record u { display_name = name })))

unfoldable pub set_email_change : ℕ → Actor → Text → Text → Change
set_email_change now actor user_id email st = do
  u ← the_user st user_id
  done (
      append_audit now (entry_on (text "user_email_change") actor u []) (
        set_user user_id
          (record u { email = email; email_confirmed = not (nat_eq (length email) 0) }) st))

unfoldable pub set_email : Env → World → Actor → Text → Text → Store → Reply
set_email env w actor user_id email' s =
    let email = normalize_email email' in
    checked (validate_email env.parses email) s
      (update env w s (set_email_change w.now actor user_id email))

unfoldable pub delete_user_change : ℕ → Actor → Text → Change
delete_user_change now actor user_id st = do
  u ← the_user st user_id
  lift (check (not (is_last_active_admin st.users u)) last_admin)
  done (
      append_audit now (entry_on (text "user_delete") actor u [])
        (record st { users = remove_first (λ x. x.id == user_id) st.users }))

unfoldable pub set_week_start : Env → World → Text → Text → Store → Reply
set_week_start env w user_id start s =
    checked (check (start == text "monday" || start == text "sunday") unknown_week_start) s
      (update env w s (edit_change user_id (λ u. record u { week_start = start })))

unfoldable pub set_contact_sort : Env → World → Text → Text → Store → Reply
set_contact_sort env w user_id value s =
    update env w s (edit_change user_id (λ u. record u { contact_sort = value }))

unfoldable pub set_note_sort : Env → World → Text → Text → Store → Reply
set_note_sort env w user_id value s =
    update env w s (edit_change user_id (λ u. record u { note_sort = value }))

unfoldable pub mark_escrow_notice_seen : Env → World → Text → Store → Reply
mark_escrow_notice_seen env w user_id s =
    update env w s (edit_change user_id (λ u. record u { escrow_notice_seen = true }))

unfoldable pub record_login : Env → World → Actor → Store → Reply
record_login env w actor s = update env w s (record_login_change w.now actor)

unfoldable pub set_disabled : Env → World → Actor → Text → Bool → Store → Reply
set_disabled env w actor user_id disabled s =
    update env w s (set_disabled_change w.now actor user_id disabled)

unfoldable pub delete_user : Env → World → Actor → Text → Store → Reply
delete_user env w actor user_id s = update env w s (delete_user_change w.now actor user_id)
