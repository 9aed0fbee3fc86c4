-- ===== src/Store/Confirm.antt =====
-- internal/store/register.go and email_change.go: addresses that a mailed link confirms.
use carrel.Prelude.{
  ℕ, ◌+◌, ◌*◌, Bool, true, false, ◌&&◌, ◌||◌, not, Option, none, some, List, [], ◌∷◌, ◌++◌,
  if◌then◌else◌, ltb, nat_eq, length, Text, text, text_eq, ◌==◌, find_last, replace_last, ℤ,
  positive_or,
}
use carrel.Errors.{
  Result, ok, err, check, not_found, invite_invalid, login_taken, registration_closed,
  email_required, email_unchanged,
}
use carrel.Random.{Bytes, Draw, ◌>>=◌, pure, raise, lift}
use carrel.Crypto.{new_token, hash_token}
use carrel.Store.Types.{State, User, role_user, Actor, second}
use carrel.Store.Validate.{normalize_login, normalize_email, validate_email}
use carrel.Store.Base.{
  Env, World, Store, update, checked, drawn, find_user_by_login, set_user, add_user, entry,
  entry_on, append_audit,
}
use carrel.Store.Users.{validate_new_user, new_user, set_credentials}
use carrel.Store.Accounts.{Change, done, the_user}
use carrel.Store.Invites.{with_token}

abbrev pub default_email_change_ttl : ℕ
default_email_change_ttl = 86_400 * second

abbrev pub stamp_registration : Env → Text → Text → ℕ → User → User
stamp_registration env email token expires u = record u {
  unconfirmed = true;
  email = email;
  pending_email = email;
  email_change_token_hash = hash_token env.crypto token;
  email_change_expires = expires;
}

-- The two branches of Register: the login is taken by an account that waits for its confirmation,
-- or it is free. `&existing` is the first account with the login.
abbrev pub replace_by_login : Text → User → State → State
replace_by_login login u st = record st {
  users = carrel.Prelude.replace_first (λ x. x.login == login) u st.users;
}

unfoldable pub register_again :
    Env → ℕ → Text → Text → Text → Text → Text → User → State → Draw (User × State)
register_again env now token login email password ip existing st =
    if not existing.unconfirmed || not (existing.email == email) then raise login_taken else do
      made ← set_credentials env existing password st.settings.escrow
      let u = stamp_registration env email token (now + default_email_change_ttl) made
      pure (
        u,
        append_audit now
            (entry (text "user_create") [] login u.id u.login ip (text "self-registration resent"))
            (replace_by_login login u st),
      )

unfoldable pub register_new :
    Env → ℕ → Text → Text → Text → Text → Text → State → Draw (User × State)
register_new env now token login email password ip st = do
  made ← new_user env now st login email role_user password []
  let u = stamp_registration env email token (now + default_email_change_ttl) made
  pure (
    u,
    append_audit now
        (entry (text "user_create") [] login u.id u.login ip (text "self-registration"))
        (add_user u st),
  )

unfoldable pub register_change :
    Env → ℕ → Text → Text → Text → Text → Text → State → Draw (User × State)
register_change env now token login email password ip st =
    if not st.settings.self_registration
    then raise registration_closed
    else elim (find_user_by_login st login) [
      | none ↦ register_new env now token login email password ip st
      | some existing ↦ register_again env now token login email password ip existing st
    ]

unfoldable pub register :
    Env → World → Text → Text → Text → Text → Store → Result (User × Text) × Store
register env w login' email' password ip s =
    let login = normalize_login env.lower login' in
    let email = normalize_email email' in
    checked (check (not (nat_eq (length email) 0)) email_required) s (
      checked (validate_new_user env login email password) s (
        drawn (new_token env.crypto w.tape) s (λ token rest. with_token token (
          update env (record w { tape = rest }) s
            (register_change env w.now token login email password ip)))))

unfoldable pub request_email_change_change : Env → ℕ → Actor → Text → Text → ℕ → Text → Change
request_email_change_change env now actor user_id new_email ttl token st = do
  u ← the_user st user_id
  if u.email == new_email && u.email_confirmed
      then raise email_unchanged
      else done (
          append_audit now
            (entry_on (text "user_email_change") actor u (text "confirmation requested"))
            (set_user user_id
              (record u {
                pending_email = new_email;
                email_change_token_hash = hash_token env.crypto token;
                email_change_expires = now + ttl;
              })
              st))

unfoldable pub request_email_change :
    Env → World → Actor → Text → Text → ℤ → Store → Result (Unit {0} × Text) × Store
request_email_change env w actor user_id new_email' ttl s =
    let new_email = normalize_email new_email' in
    checked (validate_email env.parses new_email) s (
      checked (check (not (nat_eq (length new_email) 0)) not_found) s (
        drawn (new_token env.crypto w.tape) s (λ token rest. with_token token (
          update env (record w { tape = rest }) s
            (request_email_change_change env w.now actor user_id new_email
              (positive_or ttl default_email_change_ttl) token)))))

-- The test of the loop of ConfirmEmailChange, which has no early exit.
abbrev pub awaits : Bytes → User → Bool
awaits digest u =
    not (nat_eq (length u.email_change_token_hash) 0) && u.email_change_token_hash == digest

abbrev pub if_confirmable : ℕ → Option User → Result User
if_confirmable now none = err invite_invalid
if_confirmable now (some u) =
    if nat_eq (length u.pending_email) 0 || not (ltb now u.email_change_expires)
    then err invite_invalid
    else ok u

-- The account as confirmed, and whether the link ended a registration.
unfoldable pub confirm_email_change_change : Env → ℕ → Text → State → Draw ((User × Bool) × State)
confirm_email_change_change env now token st = do
  let digest = hash_token env.crypto token
  u ← lift (if_confirmable now (find_last (awaits digest) st.users))
  let u' : User = record u {
    unconfirmed = false;
    email = u.pending_email;
    email_confirmed = true;
    pending_email = [];
    email_change_token_hash = [];
    email_change_expires = 0;
  }
  pure (
    (u', u.unconfirmed),
    append_audit now (entry (text "email_confirm") u.id u.login u.id u.login [] u.pending_email)
        (record st { users = replace_last (awaits digest) u' st.users }),
  )

unfoldable pub confirm_email_change : Env → World → Text → Store → Result (User × Bool) × Store
confirm_email_change env w token s =
    checked (check (not (nat_eq (length token) 0)) invite_invalid) s
      (update env w s (confirm_email_change_change env w.now token))
