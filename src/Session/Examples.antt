-- ===== src/Session/Examples.antt =====
-- internal/session at concrete inputs.
use carrel.Prelude.{
  List, ℕ, ◌+◌, ◌*◌, ◌<◌, ◌≡◌, ◌⊎◌, refl, true, false, All, none, some, [], ◌∷◌, if◌then◌else◌,
  text, text_eq, pos,
}
use carrel.Prelude.Map
use carrel.Random.{Bytes}
use carrel.Session.Types.{User, Session, Options, Manager, with_defaults, hour}
use carrel.Session.Scratch.{wipe_scratch}
use carrel.Session.Manager.{
  new, insert, detach, create_with, rotate_with, expired, remove, get, zeroed,
}
use carrel.Session.Endings.{destroy, destroy_user, sweep, sweep_entries, len}
use carrel.Session.Index.{in_index, owns}
use carrel.Session.Ended.{is_expired}
use carrel.Session.Keyring.{Login, login_of, given, Held}
use carrel.Session.Sound.{IsShell}
use carrel.Session.Lifetimes.{
  Reached, made, created, rotated, destroyed, Reached-wiped, Reached-destroy_user, Reached-sweep,
  Reached-get,
}

abbrev buffers : ℕ → Bytes
buffers b = b ∷ 7 ∷ []

abbrev ann : User
ann = record {
  id = text "u1";
  login = text "ann";
  admin = false;
  must_change_password = false;
  escrow_notice = false;
}

abbrev session_options : Options
session_options = record { idle = pos 0; absolute = pos 0; on_end = true }

abbrev empty : Manager
empty = new session_options buffers

abbrev first_login : Manager
first_login = (create_with (text "s1") (text "t1") ann 4 100 empty).1

abbrev two_logins : Manager
two_logins = (create_with (text "s2") (text "t2") ann 5 200 first_login).1

abbrev renamed : Session
renamed = (create_with (text "s1") (text "t1") ann 4 100 empty).0

abbrev moved : Manager
moved = (rotate_with (text "s3") 300 renamed two_logins).1

abbrev ended_one : Manager
ended_one = destroy (text "s2") moved

abbrev logins : List Login
logins =
    record { buffer = 5; time = 200; user_id = text "u1" }
    ∷ record { buffer = 4; time = 100; user_id = text "u1" }
    ∷ []

two_logins-Reached : Reached buffers logins two_logins
unfolding new create_with insert Map.lookup Map.put Map.delete
two_logins-Reached =
    created (text "s2") (text "t2") ann 5 200 refl refl
      (created (text "s1") (text "t1") ann 4 100 refl refl (made session_options))

ended_one-Reached : Reached buffers logins ended_one
unfolding new create_with insert Map.lookup Map.put Map.delete
ended_one-Reached =
    destroyed (text "s2") (rotated (text "s1") (text "s3") 300 renamed refl refl two_logins-Reached)

wiped_keys : (ended_one.keys 4 ≡ 4 ∷ 7 ∷ []) × (ended_one.keys 5 ≡ 0 ∷ 0 ∷ [])
unfolding destroy remove rotate_with new create_with insert detach Map.lookup Map.put Map.delete
    zeroed wipe_scratch
wiped_keys = (refl, refl)

Reached-wiped_example :
    ((b : ℕ)
      → given b logins ≡ true
      → (Held b ended_one × (ended_one.keys b ≡ buffers b))
        ⊎ (ended_one.keys b ≡ zeroed (buffers b)))
    × All IsShell ended_one.shells
Reached-wiped_example = Reached-wiped buffers logins ended_one ended_one-Reached

Reached-destroy_user_example :
    (in_index (text "u1") (text "s3") ended_one
      ≡ owns (text "u1") (Map.lookup (text "s3") ended_one.sessions))
    × (Map.lookup (text "s3") (destroy_user (text "u1") ended_one).1.sessions ≡ (
        if owns (text "u1") (Map.lookup (text "s3") ended_one.sessions)
        then none
        else Map.lookup (text "s3") ended_one.sessions))
Reached-destroy_user_example =
    Reached-destroy_user buffers logins ended_one (text "u1") (text "s3") ended_one-Reached

Reached-sweep_example : Map.lookup (text "s1") (sweep (20 * hour) two_logins).1.sessions ≡ (
    if is_expired (20 * hour) two_logins (Map.lookup (text "s1") two_logins.sessions)
    then none
    else Map.lookup (text "s1") two_logins.sessions)
Reached-sweep_example =
    Reached-sweep buffers logins two_logins (20 * hour) (text "s1") two_logins-Reached

swept_out : len (sweep (20 * hour) two_logins).1 ≡ 0
unfolding len sweep sweep_entries expired remove new create_with insert detach Map.lookup Map.put
    Map.delete zeroed wipe_scratch with_defaults
swept_out = refl

abbrev seen : Session
seen = record renamed { last_seen = 250 }

seen_is_got : (get (text "s1") 250 two_logins).0 ≡ some seen
unfolding get expired remove new create_with insert detach Map.lookup Map.put Map.delete
    with_defaults
seen_is_got = refl

Reached-get_example :
    (a : Login) × (seen.dek ≡ some a.buffer)
    × (login_of a.buffer logins ≡ some a)
    × (seen.user_id ≡ a.user_id)
    × (250 < a.time + two_logins.opts.absolute)
    × (two_logins.keys a.buffer ≡ buffers a.buffer)
Reached-get_example =
    Reached-get buffers logins two_logins (text "s1") 250 seen two_logins-Reached seen_is_got
