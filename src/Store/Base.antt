-- ===== src/Store/Base.antt =====
-- internal/store/store.go and audit.go: opening the store, one change of it, and the audit log.
use carrel.Prelude.{
  ℕ, ◌≡◌, ◌+◌, ◌-◌, Bool, ◌&&◌, not, Option, none, some, List, [], ◌∷◌, ◌++◌, if◌then◌else◌, ltb,
  length, drop, find, replace_first, exists, Text, text_eq, ◌==◌,
}
use carrel.Errors.{
  Result, ok, err, or_else, clone_failed, encode_failed, parse_failed, unsupported_version,
}
use carrel.Random.{Bytes, Draw, ◌>>=◌, pure, lift}
use carrel.Crypto.{Primitives, AreLawful, Params, seal, unseal, aad_state}
use carrel.Store.Types.{
  State, User, AuditEntry, Actor, max_audit_entries, role_admin, is_zero, new_state, state_version,
}
use carrel.Store.Volume.{Volume, Faults, write_atomic}

-- What the store calls and does not implement, and the costs that it was opened with.
pub record Env : Type 0 where
  pub crypto : Primitives
  -- unicode.ToLower
  pub lower : ℕ → ℕ
  -- mail.ParseAddress succeeds
  pub parses : Text → Bool
  -- json.Marshal, json.Unmarshal
  pub encode : State → Option Bytes
  pub decode : Bytes → Option State
  pub auth : Params
  pub kek : Params
  pub master : Params

-- A state that is marshalled is unmarshalled again.
pub record IsLawful (env : Env) : Type 0 where
  pub crypto : AreLawful env.crypto
  pub decode-encode : (s : State) {b : Bytes} → env.encode s ≡ some b → env.decode b ≡ some s

-- The clock, the random bytes and the faults of the volume during one call. Every reading of the
-- clock within a call gives the same time.
pub record World : Type 0 where
  pub now : ℕ
  pub tape : Bytes
  pub faults : Faults

pub record Store : Type 0 where
  pub key : Bytes
  pub state : State
  pub volume : Volume

abbrev pub clone_state : Env → State → Result State
clone_state env s = elim (env.encode s) [
  | none ↦ err clone_failed
  | some raw ↦ or_else (env.decode raw) clone_failed
]

-- The sealing half of persist.
abbrev pub sealed_state : Env → Bytes → State → Draw Bytes
sealed_state env key s = do
  plaintext ← lift (or_else (env.encode s) encode_failed)
  seal env.crypto key plaintext aad_state

-- The swap after the state file has been replaced, or not.
abbrev pub landed : {A : Type 0} → Store → A → State → Result (Unit {0}) × Volume → Result A × Store
landed s a next (err e, v) = (err e, record s { volume = v })
landed s a next (ok done, v) = (ok a, record s { volume = v; state = next })

-- The writing half of persist, and the swap.
abbrev pub commit : {A : Type 0} → Faults → Store → A → State → Bytes → Result A × Store
commit faults s a next sealed = landed s a next (write_atomic faults sealed s.volume)

abbrev pub finish :
    {A : Type 0} → Faults → Store → Result ((A × State × Bytes) × Bytes) → Result A × Store
finish faults s (err e) = (err e, s)
finish faults s (ok ((a, next, sealed), rest)) = commit faults s a next sealed

unfoldable pub update :
    {A : Type 0} → Env → World → Store → (State → Draw (A × State)) → Result A × Store
update env w s change = finish w.faults s (
    (do
      copy ← lift (clone_state env s.state)
      changed ← change copy
      sealed ← sealed_state env s.key changed.1
      pure (changed.0, changed.1, sealed))
      w.tape)

abbrev pub migrate : State → State
migrate s = record s { version = state_version }

abbrev pub parsed : Option State → Result State
parsed none = err parse_failed
parsed (some s) =
    if ltb state_version s.version
    then err unsupported_version
    else if ltb s.version state_version
    then ok (migrate s)
    else ok s

unfoldable pub load : Env → ℕ → Bytes → Volume → Result State
load env now key v = elim v.file [
  | none ↦ ok (new_state now)
  | some raw ↦ elim (unseal env.crypto key raw aad_state) [
    | err e ↦ err e
    | ok plaintext ↦ parsed (env.decode plaintext)
  ]
]

abbrev pub has_admin : List User → Bool
has_admin = exists (λ u. u.role == role_admin)

unfoldable pub needs_bootstrap : Store → Bool
needs_bootstrap s = not (has_admin s.state.users)

abbrev pub find_user : State → Text → Option User
find_user s id = find (λ u. u.id == id) s.users

abbrev pub find_user_by_login : State → Text → Option User
find_user_by_login s login = find (λ u. u.login == login) s.users

-- A write through the pointer that `findUser` returned.
abbrev pub set_user : Text → User → State → State
set_user id u s = record s { users = replace_first (λ x. x.id == id) u s.users }

abbrev pub add_user : User → State → State
add_user u s = record s { users = s.users ++ u ∷ [] }

-- An administrator who can log in.
abbrev pub is_active_admin : User → Bool
is_active_admin u = u.role == role_admin && not u.disabled && not u.unconfirmed

unfoldable pub is_last_active_admin : List User → User → Bool
is_last_active_admin users u =
    is_active_admin u && not (exists (λ o. is_active_admin o && not (o.id == u.id)) users)

-- An entry before it is stamped: action, actor, target, address and detail.
abbrev pub entry : Text → Text → Text → Text → Text → Text → Text → AuditEntry
entry action actor_id actor_login target_id target_login ip detail = record {
  seq = 0;
  at = 0;
  action = action;
  actor_id = actor_id;
  actor_login = actor_login;
  target_id = target_id;
  target_login = target_login;
  ip = ip;
  detail = detail;
}

-- What an actor did to an account.
abbrev pub entry_on : Text → Actor → User → Text → AuditEntry
entry_on action actor u detail = entry action actor.id actor.login u.id u.login actor.ip detail

unfoldable pub append_audit : ℕ → AuditEntry → State → State
append_audit now e s =
    let stamped : AuditEntry = record e {
      seq = s.audit_seq + 1;
      at = if is_zero e.at then now else e.at;
    } in
    let grown = s.audit ++ stamped ∷ [] in
    record s { audit = drop (length grown - max_audit_entries) grown; audit_seq = s.audit_seq + 1 }

-- A validation before an update.
unfoldable pub checked :
    {A : Type 0} → Result (Unit {0}) → Store → Result A × Store → Result A × Store
checked (err e) s r = (err e, s)
checked (ok _) s r = r

-- Random values that are drawn before an update.
unfoldable pub drawn :
    {A B : Type 0} → Result (B × Bytes) → Store → (B → Bytes → Result A × Store) → Result A × Store
drawn (err e) s f = (err e, s)
drawn (ok (b, rest)) s f = f b rest

unfoldable pub log_change : ℕ → AuditEntry → State → Draw (Unit {0} × State)
log_change now e st = pure (tt, append_audit now e st)

-- (*Store).Log
unfoldable pub log : Env → World → AuditEntry → Store → Result (Unit {0}) × Store
log env w e s = update env w s (log_change w.now e)
