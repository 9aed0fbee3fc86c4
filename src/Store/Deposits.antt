-- ===== src/Store/Deposits.antt =====
-- internal/store/escrow.go: the key deposit of the instance and of its accounts.
use carrel.Prelude.{ℕ, true, false, not, some, [], if◌then◌else◌, nat_eq, length, Text, text, keep}
use carrel.Errors.{
  Result, or_else, check, auth_failed, wrong_master_password, escrow_not_configured,
  escrow_configured, escrow_not_deposited, escrow_deposited,
}
use carrel.Random.{Draw, ◌>>=◌, ◌>>◌, pure, lift}
use carrel.Crypto.{
  Escrow, new_escrow, check_master_password, change_master_password, seal_dek, recover_dek,
}
use carrel.Store.Types.{State, User, EscrowSettings, active, Actor, is_some}
use carrel.Store.Validate.{validate_password}
use carrel.Store.Base.{
  Env, World, Store, update, checked, drawn, set_user, entry, entry_on, append_audit,
}
use carrel.Store.Users.{password_matches, unwrap_user_dek, rewrap_dek}
use carrel.Store.Accounts.{Change, Reply, done, the_user}

abbrev pub set_escrow : EscrowSettings → State → State
set_escrow e st = record st { settings = record (st.settings) { escrow = e } }

-- An actor's entry with no target.
abbrev pub entry_by : Text → Actor → Text → carrel.Store.Types.AuditEntry
entry_by action actor detail = entry action actor.id actor.login [] [] actor.ip detail

abbrev pub the_config : State → Draw Escrow
the_config st = lift (or_else st.settings.escrow.config escrow_not_configured)

unfoldable pub enable_escrow_change : ℕ → Actor → Escrow → Change
enable_escrow_change now actor esc st = do
  lift (check (not (is_some st.settings.escrow.config)) escrow_configured)
  done (
      append_audit now (entry_by (text "escrow_enable") actor [])
        (set_escrow (record (st.settings.escrow) { enabled = true; config = some esc }) st))

unfoldable pub enable_escrow : Env → World → Actor → Text → Store → Reply
enable_escrow env w actor master_password s =
    drawn (new_escrow env.crypto master_password env.master w.tape) s
      (λ esc rest. update env (record w { tape = rest }) s (enable_escrow_change w.now actor esc))

unfoldable pub resume_escrow_change : Env → ℕ → Actor → Text → Change
resume_escrow_change env now actor master_password st = do
  esc ← the_config st
  lift (check (check_master_password env.crypto esc master_password) wrong_master_password)
  if st.settings.escrow.enabled
      then done st
      else done (
          append_audit now (entry_by (text "escrow_enable") actor (text "existing key pair"))
            (set_escrow (record (st.settings.escrow) { enabled = true }) st))

unfoldable pub disable_escrow_change : ℕ → Actor → Change
disable_escrow_change now actor st = done (
    append_audit now (entry_by (text "escrow_disable") actor [])
      (set_escrow (record (st.settings.escrow) { enabled = false }) st))

unfoldable pub change_escrow_master_password_change : Env → ℕ → Actor → Text → Text → Change
change_escrow_master_password_change env now actor current next st = do
  esc ← the_config st
  esc' ← change_master_password env.crypto esc current next
  done (
      append_audit now (entry_by (text "settings_update") actor (text "escrow master password"))
        (set_escrow (record (st.settings.escrow) { config = some esc' }) st))

unfoldable pub escrow_opt_in_change : Env → ℕ → Actor → Text → Text → Change
escrow_opt_in_change env now actor user_id password st = do
  lift (check (active st.settings.escrow) escrow_not_configured)
  u ← the_user st user_id
  lift (check (nat_eq (length u.escrow_dek) 0) escrow_deposited)
  lift (check (password_matches env u password) auth_failed)
  dek ← lift (unwrap_user_dek env u password)
  esc ← the_config st
  sealed ← seal_dek env.crypto esc dek
  done (
      append_audit now (entry_on (text "escrow_opt_in") actor u [])
        (set_user user_id (record u { escrow_dek = sealed; escrow_notice_seen = true }) st))

unfoldable pub escrow_opt_out_change : ℕ → Actor → Text → Change
escrow_opt_out_change now actor user_id st = do
  u ← the_user st user_id
  lift (check (not (nat_eq (length u.escrow_dek) 0)) escrow_not_deposited)
  done (
      append_audit now (entry_on (text "escrow_opt_out") actor u [])
        (set_user user_id (record u { escrow_dek = [] }) st))

unfoldable pub recover_user_change :
    Env → ℕ → Actor → Text → Text → Text → State → Draw (User × State)
recover_user_change env now actor user_id master_password temp_password st = do
  esc ← the_config st
  u ← the_user st user_id
  lift (check (not (nat_eq (length u.escrow_dek) 0)) escrow_not_deposited)
  dek ← lift (recover_dek env.crypto esc master_password u.escrow_dek)
  rewrapped ← rewrap_dek env u temp_password dek
  let u' : User = record rewrapped { must_change_password = true; escrow_recovered_at = now }
  pure (u', append_audit now (entry_on (text "escrow_recover") actor u []) (set_user user_id u' st))

unfoldable pub recover_user : Env → World → Actor → Text → Text → Text → Store → Result User × Store
recover_user env w actor user_id master_password temp_password s =
    checked (validate_password temp_password) s
      (update env w s (recover_user_change env w.now actor user_id master_password temp_password))

unfoldable pub escrow_coverage : Store → ℕ
escrow_coverage s = length (keep (λ u. not (nat_eq (length u.escrow_dek) 0)) s.state.users)

unfoldable pub resume_escrow : Env → World → Actor → Text → Store → Reply
resume_escrow env w actor master_password s =
    update env w s (resume_escrow_change env w.now actor master_password)

unfoldable pub disable_escrow : Env → World → Actor → Store → Reply
disable_escrow env w actor s = update env w s (disable_escrow_change w.now actor)

unfoldable pub change_escrow_master_password : Env → World → Actor → Text → Text → Store → Reply
change_escrow_master_password env w actor current next s =
    update env w s (change_escrow_master_password_change env w.now actor current next)

unfoldable pub escrow_opt_in : Env → World → Actor → Text → Text → Store → Reply
escrow_opt_in env w actor user_id password s =
    update env w s (escrow_opt_in_change env w.now actor user_id password)

unfoldable pub escrow_opt_out : Env → World → Actor → Text → Store → Reply
escrow_opt_out env w actor user_id s = update env w s (escrow_opt_out_change w.now actor user_id)
