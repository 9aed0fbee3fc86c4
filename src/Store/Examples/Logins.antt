-- ===== src/Store/Examples/Logins.antt =====
-- internal/store: logging in after a change of an account.
use carrel.Prelude.{ℕ, ◌≡◌, refl, true, Option, none, some, [], Text, text, arith}
use carrel.Errors.{Result, ok, err}
use carrel.Random.{Bytes, random}
use carrel.Crypto.{
  utf8, validate, seal, unseal, wrap_dek, unwrap_dek, derive_key, hash_password, verify, hash_token,
}
use carrel.Store.Types.{User, role_user}
use carrel.Strings.{is_space, trim_left, trim_space}
use carrel.Store.Validate.{
  normalize_login, login_characters, validate_login, validate_email, validate_password,
}
use carrel.Store.Volume.{write_atomic}
use carrel.Store.Base.{Store, update, checked, append_audit}
use carrel.Crypto.{
  new_escrow, seal_private, seal_dek, seal_to_public, agree, recover_dek, unwrap_private,
  open_with_private, new_token, Escrow,
}
use carrel.Store.Types.{Invite, delivery_link, status}
use carrel.Prelude.{pos}
use carrel.Errors.{invite_invalid}
use carrel.Store.Accounts.{change_password, change_password_change}
use carrel.Store.Invites.{
  create_invite, create_invite_change, validate_invite, draw_invite, with_token, accept_invite,
  accept_invite_change, lookup_invite,
}
use carrel.Store.Deposits.{enable_escrow, enable_escrow_change, recover_user, recover_user_change}
use carrel.Store.Base.{drawn}
use carrel.Store.Invariants.Logins.{IsFree, HaveUniqueLogins}
use carrel.Store.Access.Passwords.{change_password-authenticate, recover_user-authenticate}
use carrel.Store.Access.Arrivals.{create_user-authenticate, accept_invite-once}
use carrel.Store.Users.{
  validate_new_user, set_credentials, new_user, create_user_change, create_user_with_password,
  unwrap_user_dek, rewrap_dek, authenticate,
}
use carrel.Store.Examples.{
  env, env-IsLawful, calm, empty, password, founded, root, admin, user_of, fill, costs,
}

abbrev next_password : Text
next_password = text "battery staple"

abbrev changed : Result (Unit {0}) × Store
unfolding founded empty change_password change_password_change update rewrap_dek unwrap_user_dek
    normalize_login validate_password checked hash_password derive_key validate verify wrap_dek
    unwrap_dek seal unseal write_atomic random append_audit is_space trim_left trim_space utf8
    authenticate
changed = change_password env (calm 8) root.id password next_password founded.1

abbrev founding_key : Bytes
founding_key = fill 32 7

change_password-authenticate_example :
    (v : User) × (authenticate env (text " ROOT") next_password changed.1 ≡ ok (v, founding_key))
    × (v.secrets ≡ root.secrets)
unfolding changed founded empty HaveUniqueLogins IsFree change_password change_password_change
    update rewrap_dek unwrap_user_dek normalize_login validate_password checked hash_password
    derive_key validate verify wrap_dek unwrap_dek seal unseal write_atomic random append_audit
    is_space trim_left trim_space utf8 authenticate
change_password-authenticate_example =
    change_password-authenticate env env-IsLawful (calm 8) founded.1 changed.1 root.id password
      next_password (text " ROOT") root founding_key (refl, tt) refl refl refl refl

abbrev created : Result User × Store
unfolding create_user_with_password create_user_change update validate_new_user normalize_login
    validate_login validate_email validate_password checked new_user set_credentials hash_password
    derive_key validate wrap_dek seal write_atomic random append_audit is_space trim_left trim_space
    login_characters utf8 founded empty seal_dek seal_to_public agree
created = create_user_with_password env (calm 8) admin (text "Eve") [] role_user password founded.1

create_user-authenticate_example :
    (dek : Bytes) × (authenticate env (text "Eve") password created.1 ≡ ok (user_of created.0, dek))
    × ((user_of created.0).role ≡ role_user)
    × ((user_of created.0).must_change_password ≡ true)
unfolding created founded
create_user-authenticate_example =
    create_user-authenticate env env-IsLawful (calm 8) founded.1 created.1 admin (text "Eve") []
      role_user password (user_of created.0) refl

abbrev invited : Result (Invite × Text) × Store
unfolding founded empty create_invite create_invite_change validate_invite draw_invite new_token
    random with_token drawn checked update seal write_atomic append_audit hash_token utf8 trim_space
    trim_left is_space
invited = create_invite env (calm 65) admin role_user delivery_link [] (pos 0) founded.1

abbrev token : Text
token = fill 32 65

abbrev accepted : Result User × Store
unfolding invited create_user_with_password create_user_change update validate_new_user
    normalize_login validate_login validate_email validate_password checked new_user set_credentials
    hash_password derive_key validate wrap_dek seal write_atomic random append_audit is_space
    trim_left trim_space login_characters utf8 founded empty seal_dek seal_to_public agree
    accept_invite accept_invite_change hash_token status
accepted = accept_invite env (calm 9) token (text "Bob") [] password (text "::1") invited.1

accept_invite-once_example :
    ((i : Invite) × (lookup_invite env 5 token invited.1 ≡ ok i)
      × ((user_of accepted.0).role ≡ i.role))
    × ((dek : Bytes) × (authenticate env (text "Bob") password accepted.1
          ≡ ok (user_of accepted.0, dek)))
    × ((later : ℕ) → lookup_invite env later token accepted.1 ≡ err invite_invalid)
unfolding accepted invited
accept_invite-once_example =
    accept_invite-once env env-IsLawful (calm 9) invited.1 accepted.1 token (text "Bob") [] password
      (text "::1") (user_of accepted.0) (omega arith) refl

abbrev master : Text
master = text "master password of all"

abbrev deposited : Result (Unit {0}) × Store
unfolding founded empty enable_escrow enable_escrow_change new_escrow seal_private random drawn
    update derive_key validate seal write_atomic append_audit utf8
deposited = enable_escrow env (calm 6) admin master founded.1

abbrev covered : Result User × Store
unfolding deposited create_user_with_password create_user_change update validate_new_user
    normalize_login validate_login validate_email validate_password checked new_user set_credentials
    hash_password derive_key validate wrap_dek seal write_atomic random append_audit is_space
    trim_left trim_space login_characters utf8 founded empty seal_dek seal_to_public agree
covered =
    create_user_with_password env (calm 8) admin (text "Eve") [] role_user password deposited.1

abbrev eve : User
eve = user_of covered.0

abbrev recovered : Result User × Store
unfolding covered founded empty recover_user recover_user_change recover_dek unwrap_private
    open_with_private agree seal random update checked validate_password rewrap_dek hash_password
    derive_key validate wrap_dek unseal write_atomic append_audit utf8
recovered = recover_user env (calm 9) admin eve.id master next_password covered.1

abbrev config_of : Option Escrow → Escrow
config_of (some e) = e
config_of none = record {
  public_key = [];
  sealed_key = [];
  master_salt = [];
  master_params = costs;
}

abbrev deposit : Escrow
deposit = config_of covered.1.state.settings.escrow.config

recover_user-authenticate_example :
    (authenticate env (text "eve") next_password recovered.1 ≡ ok (user_of recovered.0, fill 32 8))
    × ((user_of recovered.0).secrets ≡ eve.secrets)
    × ((user_of recovered.0).must_change_password ≡ true)
unfolding recovered covered deposited HaveUniqueLogins IsFree recover_dek unwrap_private
    open_with_private agree unseal derive_key validate utf8 normalize_login trim_space trim_left
    is_space
recover_user-authenticate_example =
    recover_user-authenticate env env-IsLawful (calm 9) covered.1 recovered.1 admin eve.id master
      next_password (text "eve") eve (user_of recovered.0) deposit (fill 32 8) (refl, (refl, tt))
      refl refl refl refl refl refl refl
