-- ===== src/Store/Examples/Registrations.antt =====
-- internal/store: a registration and the link that confirms it.
use carrel.Prelude.{◌≡◌, refl, true, Text, text, arith}
use carrel.Errors.{Result, ok, err, user_unconfirmed}
use carrel.Random.{Bytes, random}
use carrel.Crypto.{validate, hash_password, derive_key, wrap_dek, seal, new_token, utf8, hash_token}
use carrel.Store.Types.{User}
use carrel.Strings.{is_space, trim_left, trim_space}
use carrel.Store.Validate.{
  normalize_login, login_characters, validate_login, validate_email, validate_password,
  normalize_email,
}
use carrel.Store.Volume.{write_atomic}
use carrel.Store.Base.{Store, update, checked, drawn, append_audit}
use carrel.Store.Users.{validate_new_user, set_credentials, new_user, authenticate}
use carrel.Store.Invites.{with_token}
use carrel.Store.Confirm.{register, register_change, register_new, confirm_email_change}
use carrel.Store.Commit.{CanStore}
use carrel.Store.Access.Registration.{register-confirm}
use carrel.Store.Examples.{env, env-IsLawful, calm, empty, password, founded, user_of, fill}

-- The instance with registration switched on.
abbrev public_instance : Store
public_instance = record (founded.1) {
  state = record (founded.1.state) {
    settings = record (founded.1.state.settings) { self_registration = true };
  };
}

abbrev token : Text
token = fill 32 65

abbrev registered : Result (User × Text) × Store
unfolding founded empty register register_change register_new update validate_new_user
    normalize_login validate_login validate_email validate_password checked drawn with_token
    new_token new_user set_credentials hash_password derive_key validate wrap_dek seal write_atomic
    random append_audit is_space trim_left trim_space login_characters utf8 hash_token
registered =
    register env (calm 65) (text "Dan") (text " dan@x.org") password (text "::1") public_instance

abbrev user_in : Result (User × Text) → User
user_in (ok (u, t)) = u
user_in (err e) = user_of (err e)

abbrev dan : User
dan = user_in registered.0

calm-CanStore : CanStore env (calm 6) registered.1
unfolding registered update seal random write_atomic
calm-CanStore next = refl

register-confirm_example :
    (authenticate env (text "Dan") password registered.1 ≡ err user_unconfirmed)
    × ((v : User) × (after : Store) × (confirm_email_change env (calm 6) token registered.1
          ≡ (ok (v, true), after))
        × (v.email ≡ normalize_email (text " dan@x.org"))
        × ((dek : Bytes) × (authenticate env (text "Dan") password after ≡ ok (v, dek))))
unfolding registered
register-confirm_example =
    register-confirm env env-IsLawful (calm 65) (calm 6) public_instance registered.1 (text "Dan")
      (text " dan@x.org") password (text "::1") dan token refl refl (omega arith) calm-CanStore
