-- ===== src/Merge/Fingerprint.antt =====
-- internal/merge/fingerprint.go, and what it reads of internal/model/contact.go. A time is a number
-- of nanoseconds, and 0 is Go's zero time.
use carrel.Prelude.{
  ℕ, Bool, true, false, ◌&&◌, not, List, [], ◌∷◌, ◌++◌, map, if◌then◌else◌, nat_eq, length, take,
  keep, Text, text,
}
use carrel.Strings.{Unicode, trim_space, join}
use carrel.Merge.Normalize.{phone_key, normalize_name, birthday_key, normalize_email, firsts}

pub record LabeledValue : Type 0 where
  pub label : Text
  pub value : Text
  pub preferred : Bool

pub record Address : Type 0 where
  pub label : Text
  pub preferred : Bool
  pub po_box : Text
  pub extended : Text
  pub street : Text
  pub locality : Text
  pub region : Text
  pub postal_code : Text
  pub country : Text

-- model.Name
pub record PersonName : Type 0 where
  pub family : Text
  pub given : Text
  pub additional : Text
  pub prefix : Text
  pub suffix : Text

-- model.Contact without its version, photo, revision and unnamed properties, which merging does not
-- read.
pub record Contact : Type 0 where
  pub uid : Text
  pub formatted_name : Text
  pub name : PersonName
  pub nickname : Text
  pub organization : List Text
  pub title : Text
  pub role : Text
  pub birthday : Text
  pub note : Text
  pub categories : List Text
  pub phones : List LabeledValue
  pub emails : List LabeledValue
  pub urls : List LabeledValue
  pub ims : List LabeledValue
  pub addresses : List Address

abbrev pub is_given : Text → Bool
is_given s = not (nat_eq (length s) 0)

abbrev pub organization_or : Text → List Text → Text
organization_or uid [] = uid
organization_or uid (o ∷ os) = o

-- (Contact).DisplayName
unfoldable pub display_name : Contact → Text
display_name c =
    let parts = keep is_given (c.name.given ∷ c.name.family ∷ []) in
    if is_given (trim_space c.formatted_name)
    then trim_space c.formatted_name
    else if not (nat_eq (length parts) 0)
    then join (text " ") parts
    else organization_or c.uid c.organization

-- (Contact).NormalizedEmails
unfoldable pub normalized_emails : (ℕ → ℕ) → Contact → List Text
normalized_emails lower c =
    firsts (λ e. e) [] (map (λ (e : LabeledValue). normalize_email lower e.value) c.emails)

pub data Kind : Type 0 where
  contact event todo note : Kind

abbrev pub same_kind : Kind → Kind → Bool
same_kind contact contact = true
same_kind event event = true
same_kind todo todo = true
same_kind note note = true
same_kind _ _ = false

pub record Fingerprint : Type 0 where
  pub kind : Kind
  pub uid : Text
  pub name : Text
  pub emails : List Text
  pub phones : List Text
  pub birthday : Text
  pub start : ℕ

unfoldable pub fingerprint_contact : Unicode → Contact → Fingerprint
fingerprint_contact u c = record {
  kind = contact;
  uid = trim_space c.uid;
  name = normalize_name u (display_name c);
  emails = normalized_emails u.lower c;
  phones = firsts (λ k. k) [] (map (λ (p : LabeledValue). phone_key u.lower p.value) c.phones);
  birthday = birthday_key c.birthday;
  start = 0;
}

-- What FingerprintEvent, FingerprintTodo and FingerprintNote read: the UID, the summary, and the
-- start of an event or the date of a note; a task has none.
unfoldable pub fingerprint_dated : Unicode → Kind → Text → Text → ℕ → Fingerprint
fingerprint_dated u k uid summary start = record {
  kind = k;
  uid = trim_space uid;
  name = normalize_name u summary;
  emails = [];
  phones = [];
  birthday = [];
  start = start;
}

unfoldable pub fingerprint_event : Unicode → Text → Text → ℕ → Fingerprint
fingerprint_event u uid summary start = fingerprint_dated u event uid summary start

unfoldable pub fingerprint_todo : Unicode → Text → Text → Fingerprint
fingerprint_todo u uid summary = fingerprint_dated u todo uid summary 0

unfoldable pub fingerprint_note : Unicode → Text → Text → ℕ → Fingerprint
fingerprint_note u uid summary date = fingerprint_dated u note uid summary date

unfoldable pub is_empty : Fingerprint → Bool
is_empty f =
    nat_eq (length f.uid) 0
    && nat_eq (length f.name) 0
    && nat_eq (length f.emails) 0
    && nat_eq (length f.phones) 0
    && nat_eq f.start 0

abbrev pub name_prefix_len : ℕ
name_prefix_len = 4

unfoldable pub name_prefix : Text → Text
name_prefix name = take name_prefix_len (keep (λ c. not (nat_eq c b' ')) name)

abbrev pub tagged : Text → Text → List Text
tagged tag s = if is_given s then (tag ++ s) ∷ [] else []

-- The start is formatted by package time, a function of it.
unfoldable pub buckets : (ℕ → Text) → Fingerprint → List Text
buckets rfc3339 f =
    tagged (text "u:") f.uid
    ++ map (λ e. text "e:" ++ e) f.emails
    ++ map (λ p. text "p:" ++ p) f.phones
    ++ tagged (text "n:") (name_prefix f.name)
    ++ (if nat_eq f.start 0 then [] else (text "t:" ++ rfc3339 f.start) ∷ [])
