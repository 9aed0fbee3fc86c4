-- ===== src/Store/Validate.antt =====
-- internal/store/validate.go. The table of lower-case letters and the parser of net/mail are
-- arguments.
use carrel.Prelude.{
  ℕ, Bool, true, false, ◌&&◌, ◌||◌, not, [], ◌∷◌, map, if◌then◌else◌, ltb, leb, nat_eq, length,
  Text, text, text_eq, ◌==◌, keep,
}
use carrel.Strings.{trim_space}
use carrel.Errors.{
  Result, ok, err, empty_login, reserved_login, long_login, login_character, invalid_email,
  short_password, long_display_name,
}
use carrel.Crypto.{utf8}

abbrev pub max_login_length : ℕ
max_login_length = 64

abbrev pub max_display_name_length : ℕ
max_display_name_length = 200

abbrev pub min_password_length : ℕ
min_password_length = 10

-- strings.ToLower(strings.TrimSpace(login)), by the table of lower-case code points
unfoldable pub normalize_login : (ℕ → ℕ) → Text → Text
unfolding trim_space
normalize_login lower s = map lower (trim_space s)

abbrev pub normalize_email : Text → Text
normalize_email = trim_space

abbrev pub is_alnum : ℕ → Bool
is_alnum c = leb b'a' c && leb c b'z' || leb b'0' c && leb c b'9'

abbrev pub is_separator : ℕ → Bool
is_separator c = nat_eq c b'.' || nat_eq c b'_' || nat_eq c b'-'

-- The loop of ValidateLogin, from the code point at a place where `first` tells whether i is 0. A
-- separator is accepted before the last byte, and a code point of one byte is last when no other
-- follows it.
unfoldable pub login_characters : Bool → Text → Bool
login_characters first [] = true
login_characters first (c ∷ cs) =
    (is_alnum c || is_separator c && not first && not (nat_eq (length cs) 0))
    && login_characters false cs

unfoldable pub validate_login : Text → Result (Unit {0})
unfolding login_characters utf8
validate_login login =
    if nat_eq (length login) 0
    then err empty_login
    else if login == text "noreply"
    then err reserved_login
    else if ltb max_login_length (length (utf8 login))
    then err long_login
    else if login_characters true login
    then ok tt
    else err login_character

unfoldable pub validate_email : (Text → Bool) → Text → Result (Unit {0})
validate_email parses email =
    if nat_eq (length email) 0 || parses email then ok tt else err invalid_email

unfoldable pub validate_password : Text → Result (Unit {0})
validate_password password =
    if ltb (length password) min_password_length then err short_password else ok tt

unfoldable pub normalize_display_name : Text → Text
unfolding trim_space
normalize_display_name name = keep (λ c. not (nat_eq c 10 || nat_eq c 13)) (trim_space name)

unfoldable pub validate_display_name : Text → Result (Unit {0})
unfolding normalize_display_name
validate_display_name name =
    if ltb max_display_name_length (length (normalize_display_name name))
    then err long_display_name
    else ok tt
