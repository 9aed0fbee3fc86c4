-- ===== src/Store/Examples.antt =====
-- internal/store at concrete inputs.
use carrel.Prelude.{
  ℕ, zero, suc, ◌≡◌, refl, ap, Bool, true, false, Option, none, some, List, [], ◌∷◌, find, Text,
  text, exists, ltb, leb, nat_eq, ◌+◌, ◌&&◌, if◌then◌else◌, arith,
}
use carrel.Errors.{Result, ok, err}
use carrel.Random.{Bytes, random}
use carrel.Crypto.{
  Params, utf8, validate, seal, unseal, wrap_dek, unwrap_dek, derive_key, hash_password, verify,
  hash_token,
}
use carrel.Crypto.Examples.Sample.{sample, sample-AreLawful}
use carrel.Store.Types.{State, User, Actor, role_admin, role_user, new_state}
use carrel.Strings.{is_space, trim_left, trim_space}
use carrel.Store.Validate.{
  normalize_login, login_characters, validate_login, validate_email, validate_password,
}
use carrel.Store.Volume.{Volume, Faults, Stage, write_atomic}
use carrel.Store.Base.{
  Env, IsLawful, World, Store, update, checked, append_audit, is_active_admin, is_last_active_admin,
}
use carrel.Store.Base.{find_user, needs_bootstrap, load}
use carrel.Crypto.{
  new_escrow, seal_private, seal_dek, seal_to_public, agree, recover_dek, unwrap_private,
  open_with_private, new_token, Escrow,
}
use carrel.Store.Types.{Invite, delivery_link, status, Settings}
use carrel.Prelude.{pos}
use carrel.Errors.{Error, invite_invalid, write_failed}
use carrel.Store.Accounts.{
  change_password, change_password_change, set_disabled, set_disabled_change, delete_user,
  delete_user_change,
}
use carrel.Store.Invites.{
  create_invite, create_invite_change, validate_invite, draw_invite, with_token, accept_invite,
  accept_invite_change, lookup_invite,
}
use carrel.Store.Deposits.{enable_escrow, enable_escrow_change, recover_user, recover_user_change}
use carrel.Store.Base.{drawn}
use carrel.Store.Service.{Request, handle, serve, sets_disabled, deletes_user, creates_user}
use carrel.Store.Commit.{Outcome, update-Outcome, load-update, load-update_err}
use carrel.Store.Invariants.Admins.{serve-is_active_admin}
use carrel.Store.Invariants.Logins.{IsFree, HaveUniqueLogins, serve-HaveUniqueLogins}
use carrel.Store.Invariants.Log.{
  IsLog, AreNumbered, IsContinuedBy, serve-IsLog, serve-IsContinuedBy,
}
use carrel.Store.Access.Passwords.{change_password-authenticate, recover_user-authenticate}
use carrel.Store.Access.Arrivals.{create_user-authenticate, accept_invite-once}
use carrel.Store.Users.{
  blank_user, validate_new_user, set_credentials, new_user, create_first_admin_change,
  create_first_admin, create_user_change, create_user_with_password, unwrap_user_dek, rewrap_dek,
  authenticate,
}
mod Codec
mod Sequences
mod Logins
mod Commits
mod Registrations
use carrel.Store.Examples.Codec.{state}

abbrev costs : Params
costs = record { time = 1; memory = 8; threads = 1; key_length = 32 }

abbrev unmarshalled : Option (State × Bytes) → Option State
unmarshalled none = none
unmarshalled (some (s, rest)) = some s

abbrev env : Env
env = record {
  crypto = sample;
  lower = λ c. if leb 65 c && leb c 90 then c + 32 else c;
  parses = λ e. true;
  encode = λ s. some (state.put s []);
  decode = λ b. unmarshalled (state.get b);
  auth = costs;
  kek = costs;
  master = costs;
}

env-IsLawful : IsLawful env
env-IsLawful = record {
  crypto = sample-AreLawful;
  decode-encode =
      λ s {b} h. let b≡ : state.put s [] ≡ b = cc in rw (← b≡) (ap unmarshalled (state.law s []));
}

abbrev fill : ℕ → ℕ → Bytes
fill zero c = []
fill (suc n) c = c ∷ fill n c

-- A world where nothing fails, with random bytes of one value.
abbrev calm : ℕ → World
calm c = record { now = 5; tape = fill 300 c; faults = record { fails = λ s. false; written = 0 } }

abbrev write_or_remove : Stage → Bool
write_or_remove Stage.write = true
write_or_remove Stage.remove = true
write_or_remove _ = false

-- A world whose volume is full after 3 bytes.
abbrev full_disk : World
full_disk = record (calm 9) { faults = record { fails = write_or_remove; written = 3 } }

abbrev empty : Store
unfolding new_state
empty = record {
  key = fill 32 3;
  state = new_state 1;
  volume = record { file = none; flushed = false; temps = [] };
}

abbrev user_of : Result User → User
user_of (ok u) = u
user_of (err e) = blank_user 0 [] [] [] [] []

abbrev password : Text
password = text "correct horse"

abbrev founded : Result User × Store
unfolding create_first_admin update validate_new_user normalize_login validate_login validate_email
    validate_password checked create_first_admin_change new_user set_credentials hash_password
    derive_key validate wrap_dek seal write_atomic random append_audit is_space trim_left trim_space
    login_characters utf8
founded =
    create_first_admin env (calm 7) (text "Root") (text "root@x.org") password (text "::1") empty

abbrev root : User
root = user_of founded.0

abbrev admin : Actor
admin = record { id = root.id; login = root.login; ip = text "::1" }

founded-root : founded.0 ≡ ok root
unfolding founded empty
founded-root = refl
