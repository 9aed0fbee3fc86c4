-- ===== src/Store/Users.antt =====
-- internal/store/users.go: creating accounts, their credentials, and logging in. `…_change` is the
-- function that a method hands to `update`.
use carrel.Prelude.{
  ℕ, Bool, true, false, not, none, some, [], if◌then◌else◌, nat_eq, length, Text, text, text_eq,
}
use carrel.Errors.{
  Result, ok, err, check, login_taken, not_bootstrap, auth_failed, user_disabled, user_unconfirmed,
  unknown_role,
}
use carrel.Random.{Bytes, Draw, random, ◌>>=◌, ◌>>◌, pure, lift}
use carrel.Crypto.{
  Params, salt_len, key_len, hash_password, derive_key, wrap_dek, unwrap_dek, verify, seal_dek,
}
use carrel.Store.Types.{State, User, Role, role_admin, is_role, EscrowSettings, Actor, is_some}
use carrel.Store.Validate.{
  normalize_login, normalize_email, validate_login, validate_email, validate_password,
}
use carrel.Store.Base.{
  Env, World, Store, update, checked, find_user_by_login, add_user, has_admin, entry, entry_on,
  append_audit,
}

unfoldable pub validate_new_user : Env → Text → Text → Text → Result (Unit {0})
validate_new_user env login email password = elim (validate_login login) [
  | err e ↦ err e
  | ok _ ↦ elim (validate_email env.parses email) [
    | err e ↦ err e
    | ok _ ↦ validate_password password
  ]
]

-- checkLoginFree
abbrev pub check_login_free : State → Text → Result (Unit {0})
check_login_free st login = check (not (is_some (find_user_by_login st login))) login_taken

abbrev pub seal_for : Env → EscrowSettings → Bytes → Draw Bytes
seal_for env esc dek = elim esc.config [
  | none ↦ pure []
  | some e ↦ if esc.enabled then seal_dek env.crypto e dek else pure []
]

unfoldable pub set_credentials : Env → User → Text → EscrowSettings → Draw User
set_credentials env u password esc = do
  auth ← hash_password env.crypto password env.auth
  kek_salt ← random salt_len
  kek ← lift (derive_key env.crypto password kek_salt env.kek)
  dek ← random key_len
  wrapped ← wrap_dek env.crypto kek dek
  escrowed ← seal_for env esc dek
  pure (record u {
    auth = some auth;
    kek_salt = kek_salt;
    kek_params = env.kek;
    wrapped_dek = wrapped;
    escrow_dek = escrowed;
  })

abbrev pub no_params : Params
no_params = record { time = 0; memory = 0; threads = 0; key_length = 0 }

-- The account before its credentials.
abbrev pub blank_user : ℕ → Text → Text → Text → Role → Text → User
blank_user now id login email role created_by = record {
  id = id;
  login = login;
  email = email;
  display_name = [];
  email_confirmed = false;
  role = role;
  disabled = false;
  created_at = now;
  created_by = created_by;
  last_login_at = 0;
  must_change_password = false;
  unconfirmed = false;
  auth = none;
  kek_salt = [];
  kek_params = no_params;
  wrapped_dek = [];
  escrow_dek = [];
  escrow_notice_seen = false;
  escrow_recovered_at = 0;
  secrets = [];
  dav_account_count = 0;
  pending_email = [];
  email_change_token_hash = [];
  email_change_expires = 0;
  week_start = [];
  contact_sort = [];
  note_sort = [];
}

unfoldable pub new_user : Env → ℕ → State → Text → Text → Role → Text → Text → Draw User
new_user env now st login email role password created_by = do
  id ← random 16
  set_credentials env (blank_user now (env.crypto.hex id) login email role created_by) password
      st.settings.escrow

unfoldable pub create_first_admin_change :
    Env → ℕ → Text → Text → Text → Text → State → Draw (User × State)
create_first_admin_change env now login email password ip st = do
  lift (check (not (has_admin st.users)) not_bootstrap)
  lift (check_login_free st login)
  made ← new_user env now st login email role_admin password []
  let u : User = record made {
    must_change_password = false;
    email_confirmed = not (nat_eq (length email) 0);
  }
  pure (u, append_audit now (entry (text "bootstrap") u.id login u.id login ip []) (add_user u st))

unfoldable pub create_first_admin :
    Env → World → Text → Text → Text → Text → Store → Result User × Store
create_first_admin env w login' email' password ip s =
    let login = normalize_login env.lower login' in
    let email = normalize_email email' in
    checked (validate_new_user env login email password) s
      (update env w s (create_first_admin_change env w.now login email password ip))

unfoldable pub create_user_change :
    Env → ℕ → Actor → Text → Text → Role → Text → State → Draw (User × State)
create_user_change env now actor login email role temp_password st = do
  lift (check_login_free st login)
  made ← new_user env now st login email role temp_password actor.id
  let u : User = record made {
    must_change_password = true;
    email_confirmed = not (nat_eq (length email) 0);
  }
  pure (
    u,
    append_audit now (entry_on (text "user_create") actor u (text "temporary password"))
        (add_user u st),
  )

unfoldable pub create_user_with_password :
    Env → World → Actor → Text → Text → Role → Text → Store → Result User × Store
create_user_with_password env w actor login' email' role temp_password s =
    let login = normalize_login env.lower login' in
    let email = normalize_email email' in
    checked (validate_new_user env login email temp_password) s (
      checked (check (is_role role) unknown_role) s
        (update env w s (create_user_change env w.now actor login email role temp_password)))

-- unwrapDEK
unfoldable pub unwrap_user_dek : Env → User → Text → Result Bytes
unwrap_user_dek env u password = elim (derive_key env.crypto password u.kek_salt u.kek_params) [
  | err e ↦ err e
  | ok kek ↦ elim (unwrap_dek env.crypto kek u.wrapped_dek) [
    | err e ↦ err auth_failed
    | ok dek ↦ ok dek
  ]
]

unfoldable pub rewrap_dek : Env → User → Text → Bytes → Draw User
rewrap_dek env u password dek = do
  auth ← hash_password env.crypto password env.auth
  salt ← random salt_len
  kek ← lift (derive_key env.crypto password salt env.kek)
  wrapped ← wrap_dek env.crypto kek dek
  pure (record u { auth = some auth; kek_salt = salt; kek_params = env.kek; wrapped_dek = wrapped })

-- `u.Activated() && u.Auth.Verify(password)`
abbrev pub password_matches : Env → User → Text → Bool
password_matches env u password = elim u.auth [
  | none ↦ false
  | some h ↦ verify env.crypto h password
]

-- What Authenticate answers about the account that it found.
abbrev pub admit : Env → User → Text → Result (User × Bytes)
admit env u password =
    if not (password_matches env u password)
    then err auth_failed
    else if u.disabled
    then err user_disabled
    else if u.unconfirmed
    then err user_unconfirmed
    else elim (unwrap_user_dek env u password) [ err e ↦ err e | ok dek ↦ ok (u, dek) ]

-- The decoy derivation for an unknown login has no result.
unfoldable pub authenticate : Env → Text → Text → Store → Result (User × Bytes)
authenticate env login password s =
    elim (find_user_by_login s.state (normalize_login env.lower login)) [
      | none ↦ err auth_failed
      | some u ↦ admit env u password
    ]
