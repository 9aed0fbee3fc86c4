-- ===== src/Store/Types.antt =====
-- internal/store/model.go: the state. A time is a number of nanoseconds, and 0 is Go's zero time.
-- Bytes that are nil and bytes of length 0 are one value, as the state file writes them.
use carrel.Prelude.{
  ℕ, ◌*◌, Bool, true, false, ◌&&◌, ◌||◌, not, Option, none, some, List, [], if◌then◌else◌, ltb,
  nat_eq, ℤ, pos, positive_or, Text, text, text_eq, ◌==◌, length,
}
use carrel.Random.{Bytes}
use carrel.Crypto.{Params, PasswordHash, Escrow}

abbrev pub state_version : ℕ
state_version = 1

-- A Role is a string; `Valid` tells the two known ones.
abbrev pub Role : Type 0
Role = Text

abbrev pub role_user : Role
role_user = text "user"

abbrev pub role_admin : Role
role_admin = text "admin"

abbrev pub is_role : Role → Bool
is_role r = r == role_user || r == role_admin

abbrev pub is_tls_mode : Text → Bool
is_tls_mode m = m == text "starttls" || m == text "implicit" || m == text "none"

pub record User : Type 0 where
  pub id : Text
  pub login : Text
  pub email : Text
  pub display_name : Text
  pub email_confirmed : Bool
  pub role : Role
  pub disabled : Bool
  pub created_at : ℕ
  pub created_by : Text
  pub last_login_at : ℕ
  pub must_change_password : Bool
  pub unconfirmed : Bool
  pub auth : Option PasswordHash
  pub kek_salt : Bytes
  pub kek_params : Params
  pub wrapped_dek : Bytes
  pub escrow_dek : Bytes
  pub escrow_notice_seen : Bool
  pub escrow_recovered_at : ℕ
  pub secrets : Bytes
  pub dav_account_count : ℕ
  pub pending_email : Text
  pub email_change_token_hash : Bytes
  pub email_change_expires : ℕ
  pub week_start : Text
  pub contact_sort : Text
  pub note_sort : Text

abbrev pub is_some {ℓ} : {A : Type ℓ} → Option A → Bool
is_some none = false
is_some (some a) = true

abbrev pub activated : User → Bool
activated u = is_some u.auth

pub data InviteStatus : Type 0 where
  pending accepted revoked expired : InviteStatus

abbrev pub send_not_configured : Text
send_not_configured = text "not_configured"

abbrev pub send_pending : Text
send_pending = text "pending"

abbrev pub send_ok : Text
send_ok = text "sent"

abbrev pub delivery_link : Text
delivery_link = text "link"

abbrev pub delivery_email : Text
delivery_email = text "email"

abbrev pub is_delivery : Text → Bool
is_delivery d = d == delivery_link || d == delivery_email

pub record Invite : Type 0 where
  pub id : Text
  pub login : Text
  pub email : Text
  pub role : Role
  pub delivery : Text
  pub token_hash : Bytes
  pub created_at : ℕ
  pub created_by : Text
  pub expires_at : ℕ
  pub accepted_at : ℕ
  pub revoked_at : ℕ
  pub last_sent_at : ℕ
  pub send_status : Text
  pub send_error : Text

abbrev pub is_zero : ℕ → Bool
is_zero t = nat_eq t 0

-- (*Invite).Status
unfoldable pub status : Invite → ℕ → InviteStatus
status i now =
    if not (is_zero i.accepted_at)
    then accepted
    else if not (is_zero i.revoked_at)
    then revoked
    else if not (ltb now i.expires_at)
    then expired
    else pending

abbrev pub is_pending : InviteStatus → Bool
is_pending pending = true
is_pending accepted = false
is_pending revoked = false
is_pending expired = false

abbrev pub usable : Invite → ℕ → Bool
usable i now = is_pending (status i now)

pub record Smtp : Type 0 where
  pub host : Text
  pub port : ℤ
  pub tls : Text
  pub username : Text
  pub password : Bytes
  pub from_address : Text
  pub from_name : Text

abbrev pub is_positive : ℤ → Bool
is_positive (pos n) = not (nat_eq n 0)
is_positive (ℤ.negsuc n) = false

abbrev pub configured : Smtp → Bool
configured s =
    not (nat_eq (length s.host) 0) && is_positive s.port && not (nat_eq (length s.from_address) 0)

pub record EscrowSettings : Type 0 where
  pub enabled : Bool
  pub forbid_opt_out : Bool
  pub config : Option Escrow

abbrev pub active : EscrowSettings → Bool
active e = e.enabled && is_some e.config

pub record Settings : Type 0 where
  pub self_registration : Bool
  pub invite_ttl_seconds : ℤ
  pub session_idle_seconds : ℤ
  pub session_absolute_seconds : ℤ
  pub smtp : Smtp
  pub escrow : EscrowSettings

abbrev pub second : ℕ
second = 1_000_000_000

abbrev pub default_invite_ttl : ℕ
default_invite_ttl = 259_200 * second

abbrev pub seconds_or : ℤ → ℕ → ℕ
seconds_or v fallback = if is_positive v then positive_or v 0 * second else fallback

abbrev pub invite_ttl : Settings → ℕ
invite_ttl s = seconds_or s.invite_ttl_seconds default_invite_ttl

pub record Actor : Type 0 where
  pub id : Text
  pub login : Text
  pub ip : Text

pub record AuditEntry : Type 0 where
  pub seq : ℕ
  pub at : ℕ
  pub action : Text
  pub actor_id : Text
  pub actor_login : Text
  pub target_id : Text
  pub target_login : Text
  pub ip : Text
  pub detail : Text

abbrev pub max_audit_entries : ℕ
max_audit_entries = 10_000

pub record State : Type 0 where
  pub version : ℕ
  pub created_at : ℕ
  pub users : List User
  pub invites : List Invite
  pub settings : Settings
  pub audit : List AuditEntry
  pub audit_seq : ℕ

abbrev pub default_settings : Settings
default_settings = record {
  self_registration = false;
  invite_ttl_seconds = pos 259_200;
  session_idle_seconds = pos 43_200;
  session_absolute_seconds = pos 604_800;
  smtp = record {
    host = [];
    port = pos 0;
    tls = [];
    username = [];
    password = [];
    from_address = [];
    from_name = [];
  };
  escrow = record { enabled = false; forbid_opt_out = false; config = none };
}

unfoldable pub new_state : ℕ → State
new_state now = record {
  version = state_version;
  created_at = now;
  users = [];
  invites = [];
  settings = default_settings;
  audit = [];
  audit_seq = 0;
}
