-- ===== src/Merge/Symmetry.antt =====
-- internal/merge/score.go and normalize.go: a score does not depend on which record comes first, and
-- weak signals alone make no group.
use mathlib.Core.List.{reverse, reverse-cons, reverse-reverse}
use carrel.Prelude.{
  ℕ, ◌≤◌, ◌≡◌, ◌↔◌, ◌⊎◌, refl, sym, ap, ◌∙◌, inl, inr, Bool, Bool-cases, true, false, ◌&&◌, ◌||◌,
  List, [], ◌∷◌, if◌then◌else◌, ltb, nat_eq, nat_eq_iff, length, length-append, exists, Text,
  text_eq, ◌==◌, ==_iff, arith,
}
use carrel.Strings.{has_prefix, has_suffix}
use carrel.Merge.Similarity.{levenshtein, similarity}
use carrel.Merge.Edits.{Edits, done, kept, replaced, deleted, inserted, levenshtein-min}
use carrel.Merge.Fingerprint.{Fingerprint, Kind, contact, event, todo, note, same_kind, is_given}
use carrel.Merge.Normalize.{birthday_match}
use carrel.Merge.Score.{
  name_weight, shares_any, shared_uid, matched, score_contact, score_event, score_pair,
  default_threshold, is_event,
}

turned : {a b : Text} {n : ℕ} → Edits a b n → Edits b a n
turned done = Edits.done
turned (kept x e) = Edits.kept x (turned e)
turned (replaced x y e) = Edits.replaced y x (turned e)
turned (deleted x e) = Edits.inserted x (turned e)
turned (inserted y e) = Edits.deleted y (turned e)

pub levenshtein_comm : (a b : Text) → levenshtein a b ≡ levenshtein b a
levenshtein_comm a b =
    let (ab, least_ab) = levenshtein-min a b in
    let (ba, least_ba) = levenshtein-min b a in
    omega (arith, least_ab _ (turned ba), least_ba _ (turned ab))

same_comm : (a b : Text) → (a == b) ≡ (b == a)
same_comm a b = elim (Bool-cases (a == b)) [
  | inl e ↦ ground (arith, (==_iff b a).1 (sym ((==_iff a b).0 e)))
  | inr e ↦ elim (Bool-cases (b == a)) [
    | inl f ↦ absurd (ground (arith, (==_iff a b).1 (sym ((==_iff b a).0 f)), e))
    | inr f ↦ ground arith
  ]
]

similarity_comm : (a b : Text) → similarity a b ≡ similarity b a
unfolding similarity
similarity_comm a b =
    let longest : (if ltb (length a) (length b) then length b else length a)
        ≡ (if ltb (length b) (length a) then length a else length b) =
      ground arith in
    rw (levenshtein_comm a b, same_comm a b, longest) (ground arith)

name_weight_comm : (a b : Text) → name_weight a b ≡ name_weight b a
unfolding name_weight
name_weight_comm a b = rw (similarity_comm a b) (ground arith)

shared_uid_comm : (a b : Fingerprint) → shared_uid a b ≡ shared_uid b a
shared_uid_comm a b = elim (Bool-cases (a.uid == b.uid)) [
  | inl e ↦
      let same : a.uid ≡ b.uid = (==_iff a.uid b.uid).0 e in
      let back : (b.uid == a.uid) ≡ true = sym (same_comm a.uid b.uid) ∙ e in
      rw (e, back, same) refl
  | inr e ↦
      let back : (b.uid == a.uid) ≡ false = sym (same_comm a.uid b.uid) ∙ e in
      ground (arith, e, back)
]

-- Two texts that are given and equal.
abbrev agree : Text → Text → Bool
agree l r = is_given l && l == r

agree_comm : (l r : Text) → agree l r ≡ agree r l
agree_comm l r = elim (Bool-cases (l == r)) [
  | inl e ↦
      let same : l ≡ r = (==_iff l r).0 e in
      let back : (r == l) ≡ true = sym (same_comm l r) ∙ e in rw (e, back, same) refl
  | inr e ↦ let back : (r == l) ≡ false = sym (same_comm l r) ∙ e in ground (arith, e, back)
]

shares_any-nil : (a : List Text) → shares_any a [] ≡ false
unfolding shares_any
shares_any-nil [] = refl
shares_any-nil (l ∷ a) = ground (arith, shares_any-nil a)

shares_any-cons :
    (a b : List Text) (r : Text)
    → shares_any a (r ∷ b) ≡ (exists (λ l. agree l r) a || shares_any a b)
unfolding shares_any
shares_any-cons [] b r = refl
shares_any-cons (l ∷ a) b r = ground (arith, shares_any-cons a b r)

exists-agree : (r : Text) (a : List Text) → exists (λ l. agree l r) a ≡ exists (λ l. agree r l) a
exists-agree r [] = refl
exists-agree r (l ∷ a) = rw (agree_comm l r, exists-agree r a) refl

shares_any_comm : (a b : List Text) → shares_any a b ≡ shares_any b a
unfolding shares_any
shares_any_comm a [] = shares_any-nil a
shares_any_comm a (r ∷ b) =
    shares_any-cons a b r
    ∙ ap (λ x. x || shares_any a b) (exists-agree r a)
    ∙ ap (λ x. exists (λ l. agree r l) a || x) (shares_any_comm a b)

length-reverse : (s : Text) → length (reverse s) ≡ length s
length-reverse [] = refl
length-reverse (c ∷ s) =
    ap length (reverse-cons c s)
    ∙ omega (arith, length-append (reverse s) (c ∷ []), length-reverse s)

has_prefix-same : (s p : Text) → length s ≡ length p → has_prefix s p ≡ true → s ≡ p
has_prefix-same [] [] e h = refl
has_prefix-same [] (d ∷ p) e h = absurd (omega arith)
has_prefix-same (c ∷ s) [] e h = absurd (omega arith)
has_prefix-same (c ∷ s) (d ∷ p) e h =
    let rest = has_prefix-same s p (omega arith) (ground arith) in
    let first : c ≡ d = (nat_eq_iff c d).0 (ground arith) in rw (first, rest) refl

has_suffix-same : (s p : Text) → length s ≡ length p → has_suffix s p ≡ true → s ≡ p
has_suffix-same s p e h =
    let back : reverse s ≡ reverse p =
      has_prefix-same (reverse s) (reverse p) (omega (arith, length-reverse s, length-reverse p))
        h in
    sym (reverse-reverse s) ∙ ap reverse back ∙ reverse-reverse p

-- Suffixes of one length are equal or do not match.
no_suffix : (s p : Text) → length s ≡ length p → (s == p) ≡ false → has_suffix s p ≡ false
no_suffix s p e n = elim (Bool-cases (has_suffix s p)) [
  | inl h ↦ absurd (ground (arith, n, (==_iff s p).1 (has_suffix-same s p e h)))
  | inr h ↦ h
]

birthday_match_comm : (a b : Text) → birthday_match a b ≡ birthday_match b a
unfolding birthday_match
birthday_match_comm a b = elim (Bool-cases (a == b)) [
  | inl e ↦ ground (arith, e, sym (same_comm a b) ∙ e)
  | inr n ↦
      let back : (b == a) ≡ false = sym (same_comm a b) ∙ n in
      elim (Bool-cases (nat_eq (length a) (length b))) [
        | inl e ↦
            let len : length a ≡ length b = (nat_eq_iff (length a) (length b)).0 e in
            ground (arith, n, back, no_suffix a b len n, no_suffix b a (sym len) back)
        | inr d ↦ ground (arith, n, back)
      ]
]

matched_comm : (a b : Fingerprint) → matched a b ≡ matched b a
unfolding matched
matched_comm a b =
    rw
      (
        shared_uid_comm a b,
        shares_any_comm a.emails b.emails,
        shares_any_comm a.phones b.phones,
        name_weight_comm a.name b.name,
      )
      refl

score_contact_comm : (a b : Fingerprint) → score_contact a b ≡ score_contact b a
unfolding score_contact
score_contact_comm a b = rw (matched_comm a b, birthday_match_comm a.birthday b.birthday) refl

score_event_comm : (a b : Fingerprint) → score_event a b ≡ score_event b a
unfolding score_event
score_event_comm a b = elim (Bool-cases (shared_uid a b)) [
  | inl e ↦ ground (arith, e, sym (shared_uid_comm a b) ∙ e)
  | inr e ↦
      let back : shared_uid b a ≡ false = sym (shared_uid_comm a b) ∙ e in
      let names : agree a.name b.name ≡ agree b.name a.name = agree_comm a.name b.name in
      ground (arith, e, back, names, nat_eq_iff a.start b.start, nat_eq_iff b.start a.start)
]

same_kind_iff : (k l : Kind) → (same_kind k l ≡ true) ↔ (k ≡ l)
same_kind_iff contact contact = ground arith
same_kind_iff contact event = ground arith
same_kind_iff contact todo = ground arith
same_kind_iff contact note = ground arith
same_kind_iff event contact = ground arith
same_kind_iff event event = ground arith
same_kind_iff event todo = ground arith
same_kind_iff event note = ground arith
same_kind_iff todo contact = ground arith
same_kind_iff todo event = ground arith
same_kind_iff todo todo = ground arith
same_kind_iff todo note = ground arith
same_kind_iff note contact = ground arith
same_kind_iff note event = ground arith
same_kind_iff note todo = ground arith
same_kind_iff note note = ground arith

-- The score of two records and its reasons do not depend on which comes first.
pub score_pair_comm : (a b : Fingerprint) → score_pair a b ≡ score_pair b a
unfolding score_pair
score_pair_comm a b = elim (Bool-cases (same_kind a.kind b.kind)) [
  | inl e ↦
      let k≡ : a.kind ≡ b.kind = (same_kind_iff a.kind b.kind).0 e in
      let back : same_kind b.kind a.kind ≡ true = (same_kind_iff b.kind a.kind).1 (sym k≡) in
      let other : is_event a.kind ≡ is_event b.kind = ap is_event k≡ in
      ground (arith, e, back, other, score_event_comm a b, score_contact_comm a b)
  | inr e ↦
      let back : same_kind b.kind a.kind ≡ false = elim (Bool-cases (same_kind b.kind a.kind)) [
        | inr f ↦ f
        | inl f ↦ absurd (
            ground
              (arith, e, (same_kind_iff a.kind b.kind).1 (sym ((same_kind_iff b.kind a.kind).0 f))))
      ] in
      ground (arith, e, back)
]

name_weight-le : (a b : Text) → name_weight a b ≤ 30
unfolding name_weight
name_weight-le a b = ground arith

-- Two cards, tasks or notes reach the default threshold only when they share a UID, an address or a
-- telephone number: a name and a birthday are not enough.
pub score_contact-default_threshold :
    (a b : Fingerprint)
    → default_threshold ≤ (score_contact a b).0
    → (shared_uid a b ≡ true)
      ⊎ ((shares_any a.emails b.emails ≡ true) ⊎ (shares_any a.phones b.phones ≡ true))
unfolding score_contact matched
score_contact-default_threshold a b h = elim (Bool-cases (shared_uid a b)) [
  | inl e ↦ inl e
  | inr e ↦ elim (Bool-cases (shares_any a.emails b.emails)) [
    | inl f ↦ inr (inl f)
    | inr f ↦ elim (Bool-cases (shares_any a.phones b.phones)) [
      | inl g ↦ inr (inr g)
      | inr g ↦ absurd (ground (arith, name_weight-le a.name b.name))
    ]
  ]
]
