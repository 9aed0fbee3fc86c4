-- ===== src/Store/Preferences.antt =====
-- internal/store/settings.go: the global settings.
use carrel.Prelude.{
  ℕ, Bool, false, ◌||◌, not, [], if◌then◌else◌, ltb, nat_eq, length, Text, text, text_eq, ℤ, pos,
  negsuc,
}
use carrel.Errors.{Result, ok, err, unknown_tls_mode, bad_port}
use carrel.Random.{Bytes, ◌>>=◌, ◌>>◌, lift}
use carrel.Crypto.{seal, aad_state, utf8}
use carrel.Store.Types.{State, Settings, is_tls_mode, Actor}
use carrel.Store.Validate.{validate_email}
use carrel.Store.Base.{Env, World, Store, update, append_audit}
use carrel.Store.Accounts.{Change, Reply, done}
use carrel.Store.Deposits.{entry_by}

abbrev pub is_port : ℤ → Bool
is_port (pos n) = not (ltb n 1 || ltb 65535 n)
is_port (negsuc n) = false

unfoldable pub validate_settings : Env → Settings → Result (Unit {0})
validate_settings env s =
    if nat_eq (length s.smtp.host) 0
    then ok tt
    else if not (is_tls_mode s.smtp.tls)
    then err unknown_tls_mode
    else if not (is_port s.smtp.port)
    then err bad_port
    else validate_email env.parses s.smtp.from_address

-- The key material and the sealed relay password stay, whatever the caller's function made of them.
abbrev pub protect : Settings → Settings → Settings
protect old next = record next {
  smtp = record (next.smtp) { password = old.smtp.password };
  escrow = record (next.escrow) { config = old.escrow.config };
}

unfoldable pub update_settings_change : Env → ℕ → Actor → (Settings → Settings) → Change
update_settings_change env now actor fn st = do
  lift (validate_settings env (fn st.settings))
  done (
      append_audit now (entry_by (text "settings_update") actor [])
        (record st { settings = protect st.settings (fn st.settings) }))

unfoldable pub update_settings : Env → World → Actor → (Settings → Settings) → Store → Reply
update_settings env w actor fn s = update env w s (update_settings_change env w.now actor fn)

abbrev pub set_password : Bytes → State → State
set_password p st = record st {
  settings = record (st.settings) { smtp = record (st.settings.smtp) { password = p } };
}

unfoldable pub set_smtp_password_change : Env → Bytes → ℕ → Actor → Text → Change
set_smtp_password_change env key now actor password st =
    if nat_eq (length password) 0 then done (set_password [] st) else do
      sealed ← seal env.crypto key (utf8 password) aad_state
      done (
          append_audit now (entry_by (text "settings_update") actor (text "smtp password"))
            (set_password sealed st))

unfoldable pub set_smtp_password : Env → World → Actor → Text → Store → Reply
set_smtp_password env w actor password s =
    update env w s (set_smtp_password_change env s.key w.now actor password)
