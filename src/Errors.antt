-- ===== src/Errors.antt =====
-- The error values of internal/crypto, internal/store and the others, and a result that may be one of them.
use carrel.Prelude.{◌≡◌, refl, ◌⊎◌, inl, inr, Bool, true, false, Option, none, some}

pub data Error : Type 0 where
  -- internal/crypto
  random_length random_failed key_size decrypt_failed weak_params short_salt : Error
  master_password_too_short wrong_master_password crypto_not_configured key_agreement : Error
  -- internal/store
  not_found login_taken last_admin not_bootstrap auth_failed user_disabled user_unconfirmed : Error
  registration_closed invite_invalid invite_not_by_email escrow_active unsupported_version : Error
  escrow_not_configured escrow_configured escrow_not_deposited escrow_deposited : Error
  -- the formatted messages of internal/store
  unknown_role unknown_delivery link_with_email email_required email_unchanged : Error
  empty_login reserved_login long_login login_character invalid_email short_password : Error
  long_display_name unknown_week_start unknown_tls_mode bad_port : Error
  encode_failed clone_failed write_failed parse_failed : Error
  -- internal/session and internal/provider/files
  session_not_found outside_collection bad_name path_required : Error

pub data Result {ℓ} (A : Type ℓ) : Type ℓ where
  ok : A → Result A
  err : Error → Result A

abbrev pub or_else {ℓ} : {A : Type ℓ} → Option A → Error → Result A
or_else none e = err e
or_else (some a) e = ok a

abbrev pub check : Bool → Error → Result (Unit {0})
check true e = ok tt
check false e = err e

pub Result-cases {ℓ} :
    {A : Type ℓ} (r : Result A) → ((e : Error) × (r ≡ err e)) ⊎ ((a : A) × (r ≡ ok a))
Result-cases (ok a) = inr (a, refl)
Result-cases (err e) = inl (e, refl)
