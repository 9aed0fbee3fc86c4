-- ===== src/Session/Types.antt =====
-- internal/session/session.go and scratch.go: a session and the manager's state.
-- A *Cache, a loss registry and the buffer of a key are numbers, their addresses. A nil map is
-- the empty one. A time is a number of nanoseconds.
use carrel.Prelude.{ℕ, Bool, Option, List, Text, ℤ, positive_or, ◌*◌}
use carrel.Prelude.Map.{Map}
use carrel.Random.{Bytes}

pub record User : Type 0 where
  pub id : Text
  pub login : Text
  pub admin : Bool
  pub must_change_password : Bool
  pub escrow_notice : Bool

pub record ConflictDraft : Type 0 where
  pub key : Text
  pub account_id : Text
  pub collection : Text
  pub path : Text
  pub uid : Text
  pub body : Bytes

-- The floating-point numbers of the crop are the bits of a float64.
pub record Crop : Type 0 where
  pub pan_x : ℕ
  pub pan_y : ℕ
  pub zoom : ℕ
  pub rotate : ℤ

pub record PhotoDraft : Type 0 where
  pub key : Text
  pub account_id : Text
  pub collection : Text
  pub uid : Text
  pub etag : Text
  pub path : Text
  pub crop : Crop

pub record ImportCard : Type 0 where
  pub body : Bytes
  pub source : Text
  pub original_uid : Text
  pub display_name : Text
  pub uid_collision : Bool
  pub parse_error : Text

pub record ImportDraft : Type 0 where
  pub key : Text
  pub account_id : Text
  pub collection : Text
  pub cards : List ImportCard

pub record Session : Type 0 where
  pub id : Text
  pub user_id : Text
  pub login : Text
  pub admin : Bool
  pub csrf : Text
  pub created_at : ℕ
  pub dek : Option ℕ
  pub last_seen : ℕ
  pub deadline : ℕ
  pub must_change : Bool
  pub escrow_notice : Bool
  pub dead : Bool
  pub cache : Option ℕ
  pub losses : Option ℕ
  pub conflicts : Map Text ConflictDraft
  pub photos : Map Text PhotoDraft
  pub imports : Map Text ImportDraft

-- What a call does outside the manager.
pub data Effect : Type 0 where
  wiped_cache : ℕ → Effect
  removed_file ended : Text → Effect

pub record Options : Type 0 where
  pub idle : ℤ
  pub absolute : ℤ
  pub on_end : Bool

-- Options once the defaults are filled in.
pub record Limits : Type 0 where
  pub idle : ℕ
  pub absolute : ℕ
  pub on_end : Bool

abbrev pub hour : ℕ
hour = 3_600_000_000_000

abbrev pub default_idle : ℕ
default_idle = 12 * hour

abbrev pub default_absolute : ℕ
default_absolute = 7 * 24 * hour

unfoldable pub with_defaults : Options → Limits
with_defaults o = record {
  idle = positive_or o.idle default_idle;
  absolute = positive_or o.absolute default_absolute;
  on_end = o.on_end;
}

-- The manager, the buffers of the keys, the number of caches made, the sessions that have ended,
-- as they were left, and what was done outside.
pub record Manager : Type 0 where
  pub opts : Limits
  pub sessions : Map Text Session
  pub by_user : Map Text (List Text)
  pub keys : ℕ → Bytes
  pub caches : ℕ
  pub shells : List Session
  pub effects : List Effect
