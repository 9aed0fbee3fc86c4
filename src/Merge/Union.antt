-- ===== src/Merge/Union.antt =====
-- internal/merge/fields.go: a merged field is the union of what the records offer, and a choice among
-- it.
use carrel.Prelude.{
  if◌then◌else◌, ℕ, ◌≡◌, refl, sym, ap, ◌∙◌, inl, inr, Bool, Bool-cases, true, false, ◌&&◌, ◌||◌,
  not, some, List, [], ◌∷◌, ltb, nat_eq, length, exists, Text, text_eq, ◌==◌, ==_iff, ==_refl,
  arith,
}
use carrel.Merge.Normalize.{firsts}
use carrel.Merge.Fingerprint.{Contact, is_given}
use carrel.Merge.Fields.{
  ContactField, MergedField, fold_key, offered, merged_values, field_of, chosen_field, plain_field,
}

-- Some value has the key.
abbrev pub keyed : (Text → Text) → Text → List Text → Bool
keyed key k = exists (λ v. key v == k)

abbrev pub seen_in : Text → List Text → Bool
seen_in k = exists (λ j. j == k)

seen_equal : (k j : Text) (seen : List Text) → k ≡ j → seen_in k seen ≡ seen_in j seen
seen_equal k j seen e = ap (λ x. seen_in x seen) e

firsts-keyed :
    (key : Text → Text) (seen xs : List Text) (k : Text)
    → is_given k ≡ true
    → keyed key k (firsts key seen xs) ≡ (keyed key k xs && not (seen_in k seen))
unfolding firsts
firsts-keyed key seen [] k g = refl
firsts-keyed key seen (x ∷ xs) k g = elim (Bool-cases (key x == k)) [
  | inl e ↦
      let same : key x ≡ k = (==_iff (key x) k).0 e in
      let skip = firsts-keyed key seen xs k g in
      let seen_same = seen_equal (key x) k seen same in
      let long : nat_eq (length (key x)) 0 ≡ nat_eq (length k) 0 =
        ap (λ (t : Text). nat_eq (length t) 0) same in
      ground (arith, e, skip, seen_same, long)
  | inr e ↦
      let skip = firsts-keyed key seen xs k g in
      let take = firsts-keyed key (key x ∷ seen) xs k g in ground (arith, e, skip, take)
]

-- No key is shown twice.
abbrev pub HaveOwnKeys : (Text → Text) → List Text → Type 0
HaveOwnKeys key [] = Unit
HaveOwnKeys key (v ∷ vs) = (exists (λ w. key w == key v) vs ≡ false) × HaveOwnKeys key vs

firsts-HaveOwnKeys :
    (key : Text → Text) (seen xs : List Text) → HaveOwnKeys key (firsts key seen xs)
unfolding firsts
firsts-HaveOwnKeys key seen [] = tt
firsts-HaveOwnKeys key seen (x ∷ xs) =
    elim (Bool-cases (nat_eq (length (key x)) 0 || seen_in (key x) seen)) [
      | inl e ↦ rw e (firsts-HaveOwnKeys key seen xs)
      | inr e ↦
          let rest = firsts-keyed key (key x ∷ seen) xs (key x) (ground arith) in
          rw e (ground (arith, rest, ==_refl (key x)), firsts-HaveOwnKeys key (key x ∷ seen) xs)
    ]

-- What is shown was offered.
firsts-offered :
    (key : Text → Text) (p : Text → Bool) (seen xs : List Text)
    → exists p (firsts key seen xs) ≡ true
    → exists p xs ≡ true
unfolding firsts
firsts-offered key p seen [] h = h
firsts-offered key p seen (x ∷ xs) h = elim (Bool-cases (p x)) [
  | inl e ↦ ground arith
  | inr e ↦ elim (Bool-cases (nat_eq (length (key x)) 0 || seen_in (key x) seen)) [
    | inl s ↦ ground (arith, e, firsts-offered key p seen xs (rw s at h))
    | inr s ↦ ground (arith, e, firsts-offered key p (key x ∷ seen) xs (ground arith))
  ]
]

-- The values of a merged field are values that the records offer. A key that is not empty has a value
-- in it exactly when some record offers one with that key, and no key has two.
pub merged_values-union :
    (lower : ℕ → ℕ) (f : ContactField) (views : List Contact)
    → ((k : Text)
        → is_given k ≡ true
        → keyed (fold_key lower f) k (merged_values lower f views)
          ≡ keyed (fold_key lower f) k (offered f views))
      × HaveOwnKeys (fold_key lower f) (merged_values lower f views)
      × ((p : Text → Bool)
          → exists p (merged_values lower f views) ≡ true
          → exists p (offered f views) ≡ true)
unfolding merged_values
merged_values-union lower f views = (
  λ k g. ground (arith, firsts-keyed (fold_key lower f) [] (offered f views) k g),
  firsts-HaveOwnKeys (fold_key lower f) [] (offered f views),
  λ p h. firsts-offered (fold_key lower f) p [] (offered f views) h,
)

-- A single-value field shows one of its values, and asks exactly when there are several. When the
-- remembered value is given and still among several, that one is shown, and the field says that it
-- is remembered; otherwise the first is.
pub field_of-chosen :
    (f : ContactField) (want v : Text) (vs : List Text) (m : MergedField)
    → f.multi ≡ false
    → field_of f want (v ∷ vs) ≡ some m
    → (exists (λ x. x == m.chosen) (v ∷ vs) ≡ true)
      × (m.conflict ≡ ltb 0 (length vs))
      × (m.values ≡ m.chosen ∷ [])
      × (m.remembered ≡ (ltb 0 (length vs) && (is_given want && exists (λ x. x == want) (v ∷ vs))))
      × (m.chosen ≡ (if m.remembered then want else v))
unfolding field_of
field_of-chosen f want v [] m single h =
    let m≡ : m ≡ plain_field f false v (v ∷ []) = ground arith in
    (ground (arith, ==_refl v), ground arith, ground arith, ground arith, ground arith)
field_of-chosen f want v (w ∷ vs) m single h =
    let among = exists (λ x. x == want) (v ∷ w ∷ vs) in
    let m≡ : m ≡ chosen_field f want v (v ∷ w ∷ vs) = ground arith in
    let r≡ : m.remembered ≡ (is_given want && among) = ap (λ n. n.remembered) m≡ in
    elim (Bool-cases (is_given want && among)) [
      | inl e ↦
          let there : among ≡ true = ground arith in
          let c≡ : m.chosen ≡ want = ap (λ n. n.chosen) m≡ ∙ ground arith in
          let listed = ap (λ k. exists (λ x. x == k) (v ∷ w ∷ vs)) c≡ ∙ there in
          (
            listed,
            ground arith,
            ground arith,
            ground (arith, r≡),
            c≡ ∙ sym (ap (λ b. if b then want else v) (r≡ ∙ e)),
          )
      | inr e ↦
          let c≡ : m.chosen ≡ v = ap (λ n. n.chosen) m≡ ∙ ground arith in
          let own : exists (λ x. x == v) (v ∷ w ∷ vs) ≡ true = ground (arith, ==_refl v) in
          let listed = ap (λ k. exists (λ x. x == k) (v ∷ w ∷ vs)) c≡ ∙ own in
          (
            listed,
            ground arith,
            ground arith,
            ground (arith, r≡),
            c≡ ∙ sym (ap (λ b. if b then want else v) (r≡ ∙ e)),
          )
    ]
