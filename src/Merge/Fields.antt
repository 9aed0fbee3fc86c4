-- ===== src/Merge/Fields.antt =====
-- internal/merge/fields.go: the one row that a linked group shows.
use carrel.Prelude.{
  ℕ, Bool, true, false, ◌&&◌, Option, none, some, List, [], ◌∷◌, ◌++◌, map, if◌then◌else◌, ltb,
  length, keep, find, exists, Text, text, text_eq, ◌==◌,
}
use carrel.Prelude.Map
use carrel.Strings.{trim_space, join, fields, to_lower}
use carrel.Merge.Normalize.{phone_key, normalize_email, firsts}
use carrel.Merge.Fingerprint.{Contact, LabeledValue, Address, display_name, is_given}

pub record MergedField : Type 0 where
  pub name : Text
  pub label : Text
  pub multi : Bool
  pub values : List Text
  pub options : List Text
  pub chosen : Text
  pub conflict : Bool
  pub remembered : Bool

pub record Merged : Type 0 where
  pub title : Text
  pub fields : List MergedField

-- A key that is not set is the function that gives no key.
pub record ContactField : Type 0 where
  pub name : Text
  pub label : Text
  pub multi : Bool
  pub key : Text → Text
  pub read : Contact → List Text

abbrev pub single : Text → List Text
single value = if is_given (trim_space value) then value ∷ [] else []

abbrev pub labeled_values : List LabeledValue → List Text
labeled_values values =
    keep (λ v. is_given (trim_space v)) (map (λ (v : LabeledValue). v.value) values)

unfoldable pub format_address : Address → Text
format_address a = join (text ", ") (
    keep is_given (
      map trim_space
        (a.street ∷ a.extended ∷ a.locality ∷ a.region ∷ a.postal_code ∷ a.country ∷ [])))

abbrev pub no_key : Text → Text
no_key v = []

abbrev pub one : Text → Text → (Contact → Text) → ContactField
one name label read = record {
  name = name;
  label = label;
  multi = false;
  key = no_key;
  read = λ c. single (read c);
}

abbrev pub several : Text → Text → (Text → Text) → (Contact → List Text) → ContactField
several name label key read = record {
  name = name;
  label = label;
  multi = true;
  key = key;
  read = read;
}

unfoldable pub contact_fields : (ℕ → ℕ) → List ContactField
contact_fields lower =
    one (text "FN") (text "Name") display_name
    ∷ one (text "NICKNAME") (text "Nickname") (λ c. c.nickname)
    ∷ one (text "ORG") (text "Organisation") (λ c. join (text ", ") c.organization)
    ∷ one (text "TITLE") (text "Title") (λ c. c.title)
    ∷ one (text "ROLE") (text "Role") (λ c. c.role)
    ∷ one (text "BDAY") (text "Birthday") (λ c. c.birthday)
    ∷ several (text "TEL") (text "Phone") (phone_key lower) (λ c. labeled_values c.phones)
    ∷ several (text "EMAIL") (text "Email") (normalize_email lower) (λ c. labeled_values c.emails)
    ∷ several (text "ADR") (text "Address") no_key
        (λ c. keep is_given (map format_address c.addresses))
    ∷ several (text "URL") (text "Link") no_key (λ c. labeled_values c.urls)
    ∷ several (text "IMPP") (text "Chat") no_key (λ c. labeled_values c.ims)
    ∷ several (text "CATEGORIES") (text "Tags") no_key (λ c. c.categories)
    ∷ one (text "NOTE") (text "Note") (λ c. c.note)
    ∷ []

unfoldable pub fold_key : (ℕ → ℕ) → ContactField → Text → Text
fold_key lower f value =
    if is_given (f.key value) then f.key value else to_lower lower (join (text " ") (fields value))

abbrev pub concat : List (List Text) → List Text
concat [] = []
concat (xs ∷ xss) = xs ++ concat xss

-- What the records say of a field, trimmed, without the empty.
abbrev pub offered : ContactField → List Contact → List Text
offered f views = keep is_given (map trim_space (concat (map f.read views)))

unfoldable pub merged_values : (ℕ → ℕ) → ContactField → List Contact → List Text
merged_values lower f views = firsts (fold_key lower f) [] (offered f views)

abbrev pub preferred_value : Map.Map Text Text → Text → Text
preferred_value prefs name = elim (Map.lookup name prefs) [ none ↦ [] | some v ↦ trim_space v ]

-- A single-value field whose values are not all one.
abbrev pub chosen_field : ContactField → Text → Text → List Text → MergedField
chosen_field f want first values =
    let remembered = is_given want && exists (λ v. v == want) values in
    let chosen = if remembered then want else first in
    record {
      name = f.name;
      label = f.label;
      multi = false;
      values = chosen ∷ [];
      options = values;
      chosen = chosen;
      conflict = true;
      remembered = remembered;
    }

abbrev pub plain_field : ContactField → Bool → Text → List Text → MergedField
plain_field f multi chosen values = record {
  name = f.name;
  label = f.label;
  multi = multi;
  values = values;
  options = [];
  chosen = chosen;
  conflict = false;
  remembered = false;
}

-- The field that the values make, if there are any.
unfoldable pub field_of : ContactField → Text → List Text → Option MergedField
field_of f want [] = none
field_of f want (v ∷ values) = some (
    if f.multi
    then plain_field f true [] (v ∷ values)
    else if ltb 1 (length (v ∷ values))
    then chosen_field f want v (v ∷ values)
    else plain_field f false v (v ∷ []))

unfoldable pub merge_fields :
    (ℕ → ℕ) → Map.Map Text Text → List Contact → List ContactField → List MergedField
merge_fields lower prefs views [] = []
merge_fields lower prefs views (f ∷ fs) =
    let rest = merge_fields lower prefs views fs in
    elim (field_of f (preferred_value prefs f.name) (merged_values lower f views)) [
      | none ↦ rest
      | some m ↦ m ∷ rest
    ]

abbrev pub field : Text → List MergedField → Option MergedField
field name = find (λ (m : MergedField). m.name == name)

abbrev pub title_of : Option MergedField → Text
title_of none = []
title_of (some m) = m.chosen

-- MergeContacts, of the records that are cards.
unfoldable pub merge_contacts : (ℕ → ℕ) → List Contact → Map.Map Text Text → Merged
unfolding merge_fields contact_fields
merge_contacts lower views prefs =
    let made = merge_fields lower prefs views (contact_fields lower) in
    record { title = title_of (field (text "FN") made); fields = made }

-- (Merged).Conflicts
unfoldable pub conflicts : Merged → List MergedField
conflicts m = keep (λ (f : MergedField). f.conflict) m.fields
