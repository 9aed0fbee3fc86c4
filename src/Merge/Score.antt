-- ===== src/Merge/Score.antt =====
-- internal/merge/score.go
use carrel.Prelude.{
  ℕ, ◌+◌, Bool, ◌&&◌, ◌||◌, not, List, [], ◌∷◌, ◌++◌, if◌then◌else◌, ltb, leb, nat_eq, length,
  exists, Text, text, text_eq, ◌==◌,
}
use carrel.Merge.Similarity.{similarity}
use carrel.Merge.Normalize.{birthday_match}
use carrel.Merge.Fingerprint.{Fingerprint, Kind, event, same_kind, is_given, is_empty}

abbrev pub weight_email : ℕ
weight_email = 60

abbrev pub weight_phone : ℕ
weight_phone = 60

abbrev pub weight_uid : ℕ
weight_uid = 60

abbrev pub weight_name : ℕ
weight_name = 30

abbrev pub weight_name_close : ℕ
weight_name_close = 20

abbrev pub weight_name_loose : ℕ
weight_name_loose = 10

abbrev pub weight_birthday : ℕ
weight_birthday = 20

abbrev pub weight_start_summary : ℕ
weight_start_summary = 60

abbrev pub similarity_close : ℕ
similarity_close = 90

abbrev pub similarity_loose : ℕ
similarity_loose = 80

abbrev pub default_threshold : ℕ
default_threshold = 60

unfoldable pub name_weight : Text → Text → ℕ
name_weight a b =
    if nat_eq (length a) 0 || nat_eq (length b) 0
    then 0
    else if leb 100 (similarity a b)
    then weight_name
    else if leb similarity_close (similarity a b)
    then weight_name_close
    else if leb similarity_loose (similarity a b)
    then weight_name_loose
    else 0

unfoldable pub shares_any : List Text → List Text → Bool
shares_any a b = exists (λ l. exists (λ r. is_given l && l == r) b) a

-- A signal: its weight and its name, or nothing.
abbrev pub when : Bool → ℕ → Text → ℕ × List Text
when holds weight name = if holds then (weight, name ∷ []) else (0, [])

infixl 30 ◌⊕◌
abbrev pub ◌⊕◌ : ℕ × List Text → ℕ × List Text → ℕ × List Text
(m, s) ⊕ (n, t) = (m + n, s ++ t)

abbrev pub shared_uid : Fingerprint → Fingerprint → Bool
shared_uid a b = is_given a.uid && a.uid == b.uid

-- The signals of scoreContact before the birthday.
unfoldable pub matched : Fingerprint → Fingerprint → ℕ × List Text
matched a b =
    when (shared_uid a b) weight_uid (text "uid")
    ⊕ when (shares_any a.emails b.emails) weight_email (text "address")
    ⊕ when (shares_any a.phones b.phones) weight_phone (text "phone")
    ⊕ when (ltb 0 (name_weight a.name b.name)) (name_weight a.name b.name) (text "name")

unfoldable pub score_contact : Fingerprint → Fingerprint → ℕ × List Text
score_contact a b =
    matched a b
    ⊕ when (ltb 0 (matched a b).0 && birthday_match a.birthday b.birthday) weight_birthday
        (text "birthday")

unfoldable pub score_event : Fingerprint → Fingerprint → ℕ × List Text
score_event a b =
    if shared_uid a b
    then (weight_uid, text "uid" ∷ [])
    else if not (nat_eq a.start 0) && nat_eq a.start b.start && is_given a.name && a.name == b.name
    then (weight_start_summary, text "start" ∷ text "name" ∷ [])
    else (0, [])

abbrev pub is_event : Kind → Bool
is_event k = same_kind k event

unfoldable pub score_pair : Fingerprint → Fingerprint → ℕ × List Text
score_pair a b =
    if not (same_kind a.kind b.kind) || is_empty a || is_empty b
    then (0, [])
    else if is_event a.kind
    then score_event a b
    else score_contact a b
