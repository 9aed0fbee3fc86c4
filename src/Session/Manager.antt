-- ===== src/Session/Manager.antt =====
-- internal/session/session.go: the manager. The mutexes make each call one step; `now` is the clock.
use carrel.Prelude.{
  ℕ, ◌+◌, ◌-◌, Bool, true, false, ◌||◌, not, Option, none, some, List, [], ◌∷◌, ◌++◌, map,
  if◌then◌else◌, ltb, leb, nat_eq, length, keep, exists, Text, text_eq, ◌==◌,
}
use carrel.Prelude.Map
use carrel.Errors.{session_not_found}
use carrel.Random.{Bytes, Draw, ◌>>=◌, pure, raise, random}
use carrel.Session.Types.{
  User, Session, Effect, wiped_cache, ended, Options, with_defaults, Manager,
}
use carrel.Session.Scratch.{wipe_scratch}

unfoldable pub new : Options → (ℕ → Bytes) → Manager
new o keys = record {
  opts = with_defaults o;
  sessions = [];
  by_user = [];
  keys = keys;
  caches = 0;
  shells = [];
  effects = [];
}

abbrev pub ids_of : Option (List Text) → List Text
ids_of none = []
ids_of (some ids) = ids

abbrev pub add_id : Text → List Text → List Text
add_id id ids = if exists (λ j. j == id) ids then ids else id ∷ ids

unfoldable pub insert : Session → Manager → Manager
insert s m = record m {
  sessions = Map.put s.id s m.sessions;
  by_user = Map.put s.user_id (add_id s.id (ids_of (Map.lookup s.user_id m.by_user))) m.by_user;
}

abbrev pub without :
    Text → Text → Map.Map Text (List Text) → Option (List Text) → Map.Map Text (List Text)
without user id by_user none = by_user
without user id by_user (some ids) =
    let left = keep (λ j. not (j == id)) ids in
    if nat_eq (length left) 0 then Map.delete user by_user else Map.put user left by_user

unfoldable pub detach : Session → Manager → Manager
detach s m = record m {
  sessions = Map.delete s.id m.sessions;
  by_user = without s.user_id s.id m.by_user (Map.lookup s.user_id m.by_user);
}

unfoldable pub expired : ℕ → Manager → Session → Bool
expired now m s = s.dead || not (ltb now s.deadline) || leb m.opts.idle (now - s.last_seen)

-- (crypto.Key).Zero
unfoldable pub zeroed : Bytes → Bytes
zeroed = map (λ b. 0)

abbrev pub zero_key : Option ℕ → (ℕ → Bytes) → ℕ → Bytes
zero_key none keys b = keys b
zero_key (some a) keys b = if nat_eq b a then zeroed (keys b) else keys b

abbrev pub wipe_cache : Option ℕ → List Effect
wipe_cache none = []
wipe_cache (some c) = wiped_cache c ∷ []

unfoldable pub remove : Session → Manager → Manager
unfolding wipe_scratch detach
remove s m =
    let (files, bare) = wipe_scratch s in
    let shell : Session = record bare { cache = none; dek = none; dead = true } in
    let m' = detach shell m in
    record m' {
      keys = zero_key s.dek m.keys;
      shells = shell ∷ m.shells;
      effects =
          m.effects
          ++ wipe_cache s.cache
          ++ files
          ++ (if m.opts.on_end then ended s.id ∷ [] else []);
    }

abbrev pub id_len : ℕ
id_len = 32

-- The encoding of package base64 is a function of the bytes.
unfoldable pub random_id : (Bytes → Text) → Draw Text
random_id encode = random id_len >>= λ b. pure (encode b)

-- Create, once the identifier and the token are drawn.
unfoldable pub create_with : Text → Text → User → ℕ → ℕ → Manager → Session × Manager
unfolding insert
create_with id csrf u dek now m =
    let s : Session = record {
      id = id;
      user_id = u.id;
      login = u.login;
      admin = u.admin;
      csrf = csrf;
      created_at = now;
      dek = some dek;
      last_seen = now;
      deadline = now + m.opts.absolute;
      must_change = u.must_change_password;
      escrow_notice = u.escrow_notice;
      dead = false;
      cache = some m.caches;
      losses = none;
      conflicts = [];
      photos = [];
      imports = [];
    } in
    (s, insert s (record m { caches = m.caches + 1 }))

unfoldable pub create : (Bytes → Text) → User → ℕ → ℕ → Manager → Draw (Session × Manager)
create encode u dek now m = do
  id ← random_id encode
  csrf ← random_id encode
  pure (create_with id csrf u dek now m)

-- Get of an entry of the map.
abbrev pub get_entry : ℕ → Manager → Option Session → Option Session × Manager
get_entry now m none = (none, m)
get_entry now m (some s) =
    let seen : Session = record s { last_seen = now } in
    if expired now m s
    then (none, remove s m)
    else (some seen, record m { sessions = Map.put s.id seen m.sessions })

unfoldable pub get : Text → ℕ → Manager → Option Session × Manager
unfolding expired remove
get id now m =
    if nat_eq (length id) 0 then (none, m) else get_entry now m (Map.lookup id m.sessions)

-- The session under its new identifier, and what is left of the old one.
abbrev pub fresh_session : Text → ℕ → Session → Session
fresh_session next now old = record {
  id = next;
  user_id = old.user_id;
  login = old.login;
  admin = old.admin;
  csrf = old.csrf;
  created_at = old.created_at;
  dek = old.dek;
  last_seen = now;
  deadline = old.deadline;
  must_change = old.must_change;
  escrow_notice = old.escrow_notice;
  dead = false;
  cache = old.cache;
  losses = old.losses;
  conflicts = old.conflicts;
  photos = old.photos;
  imports = [];
}

abbrev pub old_shell : Session → Session
old_shell old = record old {
  dek = none;
  cache = none;
  losses = none;
  conflicts = [];
  photos = [];
  dead = true;
}

unfoldable pub rotate_with : Text → ℕ → Session → Manager → Session × Manager
unfolding insert detach
rotate_with next now old m =
    let fresh = fresh_session next now old in
    let shell = old_shell old in
    (fresh, insert fresh (detach shell (record m { shells = shell ∷ m.shells })))

abbrev pub rotate_entry : Text → ℕ → Option Session → Manager → Draw (Session × Manager)
rotate_entry next now none m = raise session_not_found
rotate_entry next now (some old) m = pure (rotate_with next now old m)

unfoldable pub rotate : (Bytes → Text) → Text → ℕ → Manager → Draw (Session × Manager)
unfolding rotate_with
rotate encode id now m = do
  next ← random_id encode
  rotate_entry next now (Map.lookup id m.sessions) m
