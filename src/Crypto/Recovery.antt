-- ===== src/Crypto/Recovery.antt =====
-- internal/crypto/escrow.go: a copy of a user's key, sealed to a key pair whose private half is
-- sealed under the master password.
use carrel.Prelude.{
  ℕ, Bool, true, false, ◌||◌, not, none, some, ◌++◌, if◌then◌else◌, ltb, nat_eq, length, take, drop,
  Text, text,
}
use carrel.Errors.{
  Result, ok, err, or_else, check, key_size, decrypt_failed, master_password_too_short,
  wrong_master_password, crypto_not_configured, key_agreement,
}
use carrel.Random.{Bytes, Draw, random, ◌>>=◌, ◌>>◌, pure, lift}
use carrel.Crypto.Interface.{Primitives}
use carrel.Crypto.Keys.{
  Params, key_len, salt_len, aad_escrow_private, aad_escrow_dek, seal, unseal, derive_key,
  sized_key,
}

abbrev pub min_master_password_length : ℕ
min_master_password_length = 16

abbrev pub escrow_hkdf_info : Bytes
escrow_hkdf_info = text "carrel:escrow:x25519:v1"

pub record Escrow : Type 0 where
  pub public_key : Bytes
  pub sealed_key : Bytes
  pub master_salt : Bytes
  pub master_params : Params

abbrev pub escrow_aad : Bytes → Bytes
escrow_aad eph_pub = aad_escrow_dek ++ eph_pub

module _ (p : Primitives) where
  unfoldable pub seal_private : Bytes → Text → Bytes → Params → Draw Bytes
  seal_private priv master_password salt c = do
    kek ← lift (derive_key p master_password salt c)
    seal p kek priv aad_escrow_private

  -- NewEscrowWithParams
  unfoldable pub new_escrow : Text → Params → Draw Escrow
  new_escrow master_password c = do
    lift (
        check (not (ltb (length master_password) min_master_password_length))
          master_password_too_short)
    priv ← p.generate_key
    salt ← random salt_len
    sealed ← seal_private priv master_password salt c
    pure (record {
      public_key = p.public_key priv;
      sealed_key = sealed;
      master_salt = salt;
      master_params = c;
    })

  -- Every failure to open or to read the private key is a wrong master password.
  abbrev pub private_of : Result Bytes → Result Bytes
  private_of (err e) = err wrong_master_password
  private_of (ok raw) = if p.is_private raw then ok raw else err wrong_master_password

  unfoldable pub unwrap_private : Escrow → Text → Result Bytes
  unwrap_private e master_password =
      if nat_eq (length e.sealed_key) 0 || nat_eq (length e.master_salt) 0
      then err crypto_not_configured
      else elim (derive_key p master_password e.master_salt e.master_params) [
        | err x ↦ err x
        | ok kek ↦ private_of (unseal p kek e.sealed_key aad_escrow_private)
      ]

  unfoldable pub check_master_password : Escrow → Text → Bool
  check_master_password e master_password = elim (unwrap_private e master_password) [
    | ok _ ↦ true
    | err _ ↦ false
  ]

  unfoldable pub change_master_password : Escrow → Text → Text → Draw Escrow
  change_master_password e old_password new_password = do
    lift (
        check (not (ltb (length new_password) min_master_password_length))
          master_password_too_short)
    priv ← lift (unwrap_private e old_password)
    salt ← random salt_len
    sealed ← seal_private priv new_password salt e.master_params
    pure (record e { sealed_key = sealed; master_salt = salt })

  unfoldable pub agree : Bytes → Bytes → Bytes → Result Bytes
  agree priv pub_key eph_pub = elim (p.ecdh priv pub_key) [
    | none ↦ err key_agreement
    | some shared ↦ or_else (p.hkdf shared eph_pub escrow_hkdf_info key_len) key_agreement
  ]

  unfoldable pub seal_to_public : Bytes → Bytes → Draw Bytes
  seal_to_public pub_key plaintext = do
    eph ← p.generate_key
    key ← lift (agree eph pub_key (p.public_key eph))
    ciphertext ← seal p key plaintext (escrow_aad (p.public_key eph))
    pure (p.public_key eph ++ ciphertext)

  unfoldable pub seal_dek : Escrow → Bytes → Draw Bytes
  seal_dek e dek = do
    lift (check (not (nat_eq (length e.public_key) 0)) crypto_not_configured)
    lift (check (nat_eq (length dek) key_len) key_size)
    lift (check (p.is_public e.public_key) key_agreement)
    seal_to_public e.public_key dek

  abbrev pub open_agreed : Result Bytes → Bytes → Bytes → Result Bytes
  open_agreed (err e) eph_pub ciphertext = err decrypt_failed
  open_agreed (ok key) eph_pub ciphertext = unseal p key ciphertext (escrow_aad eph_pub)

  unfoldable pub open_with_private : Bytes → Bytes → Result Bytes
  open_with_private priv blob =
      if ltb (length blob) 32
      then err decrypt_failed
      else if not (p.is_public (take 32 blob))
      then err decrypt_failed
      else open_agreed (agree priv (take 32 blob) (take 32 blob)) (take 32 blob) (drop 32 blob)

  unfoldable pub recover_dek : Escrow → Text → Bytes → Result Bytes
  recover_dek e master_password sealed_dek = elim (unwrap_private e master_password) [
    | err x ↦ err x
    | ok priv ↦ sized_key (open_with_private priv sealed_dek)
  ]
