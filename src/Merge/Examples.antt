-- ===== src/Merge/Examples.antt =====
-- internal/merge at concrete inputs.
use carrel.Prelude.{
  ℕ, ◌+◌, ◌≤◌, ◌<◌, ltb, ◌≡◌, ◌↔◌, ◌⊎◌, refl, Bool, true, false, ◌&&◌, if◌then◌else◌, leb, some,
  List, [], ◌∷◌, length, exists, Text, text, text_eq, ◌==◌, pos, arith,
}
use carrel.Strings.{Unicode, is_space, trim_left, trim_space, cut}
use carrel.Merge.Similarity.{levenshtein, similarity}
use carrel.Merge.Edits.{Edits, levenshtein-min}
use carrel.Merge.UnionFind.{find_root, union, link, note_score, union_all, new_union_find}
use carrel.Merge.Normalize.{phone_digits, phone_key, normalize_email, birthday_match, firsts}
use carrel.Merge.Fingerprint.{
  Fingerprint, Contact, LabeledValue, contact, fingerprint_contact, display_name, is_given,
}
use carrel.Merge.Score.{score_pair, score_contact, matched, shares_any, shared_uid, name_weight}
use carrel.Merge.Cluster.{Options, clusters, group_from, sets, sort_by, in_range}
use carrel.Merge.Fields.{
  ContactField, MergedField, merged_values, field_of, offered, fold_key, several, one,
  labeled_values,
}
use carrel.Merge.Components.{Joined, Matched}
use carrel.Merge.Groups.{together}
use carrel.Merge.Partition.{sets-Joined, clusters-Joined, clustered, IsMatch}
use carrel.Merge.Symmetry.{score_pair_comm, score_contact-default_threshold}
use carrel.Merge.Union.{merged_values-union, field_of-chosen, keyed, HaveOwnKeys}

abbrev lower : ℕ → ℕ
lower c = if leb b'A' c && leb c b'Z' then c + 32 else c

abbrev ascii : Unicode
ascii = record {
  lower = lower;
  is_letter = λ c. leb b'a' (lower c) && leb (lower c) b'z';
  is_digit = λ c. leb b'0' c && leb c b'9';
}

abbrev plain : Text → LabeledValue
plain v = record { label = []; value = v; preferred = false }

abbrev person : Text → Text → List LabeledValue → List LabeledValue → Contact
person uid name phones emails = record {
  uid = uid;
  formatted_name = name;
  name = record { family = []; given = []; additional = []; prefix = []; suffix = [] };
  nickname = [];
  organization = [];
  title = [];
  role = [];
  birthday = [];
  note = [];
  categories = [];
  phones = phones;
  emails = emails;
  urls = [];
  ims = [];
  addresses = [];
}

abbrev home : Contact
home = person (text "a") (text "Ann Lee") (plain (text "+7 999 123-45-67") ∷ []) []

abbrev work : Contact
work =
    person (text "b") (text "Lee, Ann") (plain (text "8 (999) 123 45 67") ∷ [])
      (plain (text "Ann.Lee+x@gmail.com") ∷ [])

abbrev other : Contact
other = person (text "c") (text "Bob") [] (plain (text "bob@x.org") ∷ [])

phone_key_prefixes : phone_key lower (text "+7 999 123-45-67") ≡ text "991234567"
unfolding phone_key phone_digits is_space trim_left trim_space cut
phone_key_prefixes = refl

normalize_email_gmail :
    normalize_email lower (text " mailto:Ann.Lee+x@Gmail.com?subject=hi") ≡ text "annlee@gmail.com"
unfolding normalize_email is_space trim_left trim_space cut
normalize_email_gmail = refl

levenshtein-min_example :
    Edits (text "maria") (text "marya") 1
    × ((n : ℕ) → Edits (text "maria") (text "marya") n → 1 ≤ n)
unfolding levenshtein
levenshtein-min_example = levenshtein-min (text "maria") (text "marya")

sets_chain : sets 5 ((0, 3) ∷ (4, 3) ∷ (7, 1) ∷ []) ≡ (0 ∷ 3 ∷ 4 ∷ []) ∷ (1 ∷ []) ∷ (2 ∷ []) ∷ []
unfolding sets sort_by group_from find_root union_all new_union_find union link note_score
sets_chain = refl

sets-Joined_example :
    (together 0 4 (sets 5 ((0, 3) ∷ (4, 3) ∷ [])) ≡ true)
    ↔ ((0 < 5) × (4 < 5) × Joined (Matched (in_range 5 ((0, 3) ∷ (4, 3) ∷ []))) 0 4)
sets-Joined_example = sets-Joined 5 ((0, 3) ∷ (4, 3) ∷ []) 0 4

abbrev prints : List Fingerprint
prints =
    fingerprint_contact ascii home
    ∷ fingerprint_contact ascii other
    ∷ fingerprint_contact ascii work
    ∷ []

abbrev open_options : Options
open_options = record { threshold = pos 0; skip = λ a b. false }

abbrev bucket_visit : List (List ℕ)
bucket_visit = (0 ∷ []) ∷ (0 ∷ 2 ∷ []) ∷ (1 ∷ []) ∷ []

clusters-Joined_example :
    (clustered 0 2 (clusters prints open_options bucket_visit) ≡ true)
    ↔ Joined (IsMatch prints open_options bucket_visit) 0 2
clusters-Joined_example =
    clusters-Joined prints open_options bucket_visit 0 2 refl (omega arith) (omega arith)

score_pair_comm_example :
    score_pair (fingerprint_contact ascii home) (fingerprint_contact ascii work)
    ≡ score_pair (fingerprint_contact ascii work) (fingerprint_contact ascii home)
score_pair_comm_example =
    score_pair_comm (fingerprint_contact ascii home) (fingerprint_contact ascii work)

abbrev desk : Fingerprint
desk = record {
  kind = contact;
  uid = [];
  name = text "ann lee";
  emails = [];
  phones = text "991234567" ∷ [];
  birthday = [];
  start = 0;
}

desk_score : (score_contact desk desk).0 ≡ 90
unfolding score_contact matched shares_any name_weight similarity levenshtein birthday_match
desk_score = refl

score_contact-default_threshold_example :
    (shared_uid desk desk ≡ true)
    ⊎ ((shares_any desk.emails desk.emails ≡ true) ⊎ (shares_any desk.phones desk.phones ≡ true))
score_contact-default_threshold_example =
    score_contact-default_threshold desk desk (rw desk_score (omega arith))

abbrev phone_field : ContactField
phone_field = several (text "TEL") (text "Phone") (phone_key lower) (λ c. labeled_values c.phones)

abbrev name_field : ContactField
name_field = one (text "FN") (text "Name") display_name

merged_values_phones :
    merged_values lower phone_field (home ∷ work ∷ []) ≡ text "+7 999 123-45-67" ∷ []
unfolding merged_values fold_key firsts phone_key phone_digits is_space trim_left trim_space cut
merged_values_phones = refl

merged_values-union_example :
    ((k : Text)
      → is_given k ≡ true
      → keyed (fold_key lower phone_field) k (merged_values lower phone_field (home ∷ work ∷ []))
        ≡ keyed (fold_key lower phone_field) k (offered phone_field (home ∷ work ∷ [])))
    × HaveOwnKeys (fold_key lower phone_field) (merged_values lower phone_field (home ∷ work ∷ []))
    × ((p : Text → Bool)
        → exists p (merged_values lower phone_field (home ∷ work ∷ [])) ≡ true
        → exists p (offered phone_field (home ∷ work ∷ [])) ≡ true)
merged_values-union_example = merged_values-union lower phone_field (home ∷ work ∷ [])

abbrev shown : MergedField
shown = record {
  name = text "FN";
  label = text "Name";
  multi = false;
  values = text "Lee, Ann" ∷ [];
  options = text "Ann Lee" ∷ text "Lee, Ann" ∷ [];
  chosen = text "Lee, Ann";
  conflict = true;
  remembered = true;
}

shown_is_made :
    field_of name_field (text "Lee, Ann") (text "Ann Lee" ∷ text "Lee, Ann" ∷ []) ≡ some shown
unfolding field_of
shown_is_made = refl

field_of-chosen_example :
    (exists (λ x. x == shown.chosen) (text "Ann Lee" ∷ text "Lee, Ann" ∷ []) ≡ true)
    × (shown.conflict ≡ ltb 0 (length (text "Lee, Ann" ∷ [])))
    × (shown.values ≡ shown.chosen ∷ [])
    × (shown.remembered ≡ (
        ltb 0 (length (text "Lee, Ann" ∷ []))
        && (is_given (text "Lee, Ann")
            && exists (λ x. x == text "Lee, Ann") (text "Ann Lee" ∷ text "Lee, Ann" ∷ []))))
    × (shown.chosen ≡ (if shown.remembered then text "Lee, Ann" else text "Ann Lee"))
field_of-chosen_example =
    field_of-chosen name_field (text "Lee, Ann") (text "Ann Lee") (text "Lee, Ann" ∷ []) shown refl
      shown_is_made
