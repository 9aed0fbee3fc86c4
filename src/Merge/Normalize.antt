-- ===== src/Merge/Normalize.antt =====
-- internal/merge/normalize.go and internal/model/email.go: the forms under which values are compared.
use carrel.Prelude.{
  ℕ, zero, suc, ◌-◌, Bool, true, false, ◌&&◌, ◌||◌, not, Option, none, some, List, [], ◌∷◌, ◌++◌,
  map, if◌then◌else◌, leb, ltb, nat_eq, length, drop, keep, exists, Text, text, text_eq, ◌==◌,
}
use carrel.Strings.{
  Unicode, trim_space, has_prefix, has_suffix, trim_prefix, trim_suffix, cut, before, join, fields,
  to_lower,
}

abbrev pub phone_key_digits : ℕ
phone_key_digits = 9

abbrev pub phone_min_digits : ℕ
phone_min_digits = 5

abbrev pub is_digit : ℕ → Bool
is_digit c = leb b'0' c && leb c b'9'

-- The number without a scheme.
abbrev pub without_scheme : (ℕ → ℕ) → Text → Text → Text
without_scheme lower scheme s = elim (cut b':' s) [
  | none ↦ s
  | some (head, rest) ↦ if to_lower lower head == scheme then rest else s
]

abbrev pub international : Bool → Text → Text × Bool
international plus digits =
    if not plus && has_prefix digits (text "00") && ltb 2 (length digits)
    then (drop 2 digits, true)
    else (digits, plus)

unfoldable pub phone_digits : (ℕ → ℕ) → Text → Text × Bool
phone_digits lower value =
    let trimmed = trim_space value in
    let s = trim_space (before b';' (without_scheme lower (text "tel") trimmed)) in
    if nat_eq (length trimmed) 0
    then ([], false)
    else international (has_prefix s (text "+")) (keep is_digit s)

unfoldable pub normalize_phone : (ℕ → ℕ) → Text → Text
normalize_phone lower value =
    let (digits, plus) = phone_digits lower value in
    if nat_eq (length digits) 0 then [] else if plus then b'+' ∷ digits else digits

unfoldable pub phone_key : (ℕ → ℕ) → Text → Text
phone_key lower value =
    let digits = (phone_digits lower value).0 in
    if ltb (length digits) phone_min_digits
    then []
    else if leb (length digits) phone_key_digits
    then digits
    else drop (length digits - phone_key_digits) digits

-- The order of sort.Strings: UTF-8 keeps the order of the code points.
abbrev pub text_leb : Text → Text → Bool
text_leb [] t = true
text_leb (c ∷ s) [] = false
text_leb (c ∷ s) (d ∷ t) = ltb c d || nat_eq c d && text_leb s t

abbrev pub insert : Text → List Text → List Text
insert w [] = w ∷ []
insert w (v ∷ ws) = let rest = insert w ws in if text_leb w v then w ∷ v ∷ ws else v ∷ rest

-- sort.Strings: equal texts are one text, so any sort gives this list.
unfoldable pub sort : List Text → List Text
sort [] = []
sort (w ∷ ws) = insert w (sort ws)

-- The rune that is written for a rune of a name.
abbrev pub folded : Unicode → ℕ → ℕ
folded u c = if u.is_letter c || u.is_digit c then u.lower c else b' '

unfoldable pub normalize_name : Unicode → Text → Text
unfolding sort
normalize_name u value = join (text " ") (sort (fields (map (folded u) value)))

-- The digits up to the eighth; the loop looks at the length before it reads on.
unfoldable pub birthday_from : ℕ → Text → Text
birthday_from zero s = []
birthday_from (suc left) [] = []
birthday_from (suc left) (c ∷ cs) =
    let taken = birthday_from left cs in
    let skipped = birthday_from (suc left) cs in if is_digit c then c ∷ taken else skipped

unfoldable pub birthday_key : Text → Text
unfolding birthday_from
birthday_key value = birthday_from 8 value

unfoldable pub birthday_match : Text → Text → Bool
birthday_match a b =
    if ltb (length a) 4 || ltb (length b) 4
    then false
    else if a == b
    then true
    else if ltb (length b) (length a)
    then has_suffix a b
    else has_suffix b a

-- model.NormalizeEmail
abbrev pub is_gmail : Text → Bool
is_gmail domain = domain == text "gmail.com" || domain == text "googlemail.com"

-- The part before a plus that is not the first rune.
abbrev pub without_tag : Text → Text
without_tag local = elim (cut b'+' local) [
  | none ↦ local
  | some (head, rest) ↦ if nat_eq (length head) 0 then local else head
]

abbrev pub local_part : Text → Text → Text
local_part local domain =
    if is_gmail domain then without_tag (keep (λ c. not (nat_eq c b'.')) local) else local

abbrev pub address_of : Text → Option (Text × Text) → Text
address_of s none = s
address_of s (some (local, domain)) =
    let folded = local_part local domain in
    if nat_eq (length folded) 0 then [] else folded ++ b'@' ∷ domain

unfoldable pub normalize_email : (ℕ → ℕ) → Text → Text
normalize_email lower value =
    let s = trim_suffix (trim_prefix (trim_space value) (text "<")) (text ">") in
    let address = before b'?' (without_scheme lower (text "mailto") s) in
    let folded = to_lower lower (trim_space address) in address_of folded (cut b'@' folded)

-- A loop that keeps the first value of each key that is not empty; `seen` has the keys before.
unfoldable pub firsts {ℓ} : {A : Type ℓ} → (A → Text) → List Text → List A → List A
firsts key seen [] = []
firsts key seen (x ∷ xs) =
    let skipped = firsts key seen xs in
    let taken = firsts key (key x ∷ seen) xs in
    if nat_eq (length (key x)) 0 || exists (λ k. k == key x) seen then skipped else x ∷ taken
