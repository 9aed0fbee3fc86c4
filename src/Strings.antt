-- ===== src/Strings.antt =====
-- What the Go code uses of the packages strings and unicode, on lists of code points.
use mathlib.Core.List.{reverse}
use carrel.Prelude.{
  ℕ, ◌-◌, Bool, true, false, ◌&&◌, ◌||◌, Option, none, some, List, [], ◌∷◌, ◌++◌, map,
  if◌then◌else◌, leb, nat_eq, length, take, drop, Text, text_eq,
}

-- The tables of package unicode.
pub record Unicode : Type 0 where
  pub lower : ℕ → ℕ
  pub is_letter : ℕ → Bool
  pub is_digit : ℕ → Bool

-- unicode.IsSpace
unfoldable pub is_space : ℕ → Bool
is_space c =
    leb 9 c && leb c 13
    || nat_eq c 0x20
    || nat_eq c 0x85
    || nat_eq c 0xa0
    || nat_eq c 0x1680
    || leb 0x2000 c && leb c 0x200a
    || nat_eq c 0x2028
    || nat_eq c 0x2029
    || nat_eq c 0x202f
    || nat_eq c 0x205f
    || nat_eq c 0x3000

unfoldable pub trim_left : Text → Text
unfolding is_space
trim_left [] = []
trim_left (c ∷ cs) = let rest = trim_left cs in if is_space c then rest else c ∷ cs

-- strings.TrimSpace
unfoldable pub trim_space : Text → Text
unfolding trim_left
trim_space s = reverse (trim_left (reverse (trim_left s)))

-- strings.HasPrefix, HasSuffix, TrimPrefix, TrimSuffix
abbrev pub has_prefix : Text → Text → Bool
has_prefix s [] = true
has_prefix [] (p ∷ ps) = false
has_prefix (c ∷ cs) (p ∷ ps) = nat_eq c p && has_prefix cs ps

abbrev pub has_suffix : Text → Text → Bool
has_suffix s p = has_prefix (reverse s) (reverse p)

abbrev pub trim_prefix : Text → Text → Text
trim_prefix s p = if has_prefix s p then drop (length p) s else s

abbrev pub trim_suffix : Text → Text → Text
trim_suffix s p = if has_suffix s p then take (length s - length p) s else s

-- strings.Cut at a separator of one code point: what comes before its first place, and after.
unfoldable pub cut : ℕ → Text → Option (Text × Text)
cut sep [] = none
cut sep (c ∷ cs) =
    let rest = cut sep cs in
    if nat_eq c sep
    then some ([], cs)
    else elim rest [ none ↦ none | some (before, after) ↦ some (c ∷ before, after) ]

-- The text before the first place of a separator, or the whole.
abbrev pub before : ℕ → Text → Text
before sep s = elim (cut sep s) [ none ↦ s | some (head, tail) ↦ head ]

abbrev pub push_front : ℕ → List Text → List Text
push_front c [] = (c ∷ []) ∷ []
push_front c (w ∷ ws) = (c ∷ w) ∷ ws

-- strings.Split at a separator of one code point
unfoldable pub split : ℕ → Text → List Text
split sep [] = [] ∷ []
split sep (c ∷ cs) =
    let rest = split sep cs in if nat_eq c sep then [] ∷ rest else push_front c rest

-- strings.Join
unfoldable pub join : Text → List Text → Text
join sep [] = []
join sep (w ∷ []) = w
join sep (w ∷ v ∷ ws) = w ++ (sep ++ join sep (v ∷ ws))

-- The words that end with the word so far.
abbrev pub flush : Text → List Text → List Text
flush [] ws = ws
flush (c ∷ cs) ws = (c ∷ cs) ∷ ws

-- strings.Fields, the word so far first.
unfoldable pub fields_from : Text → Text → List Text
fields_from word [] = flush word []
fields_from word (c ∷ cs) =
    let next = fields_from [] cs in
    let longer = fields_from (word ++ c ∷ []) cs in if is_space c then flush word next else longer

abbrev pub fields : Text → List Text
fields s = fields_from [] s

-- strings.ToLower, one code point for one
abbrev pub to_lower : (ℕ → ℕ) → Text → Text
to_lower lower = map lower
