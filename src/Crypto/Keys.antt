-- ===== src/Crypto/Keys.antt =====
-- internal/crypto/keys.go, aead.go, argon2.go and token.go
use carrel.Prelude.{
  ℕ, ◌+◌, ◌*◌, ◌/◌, ◌%◌, Bool, false, ◌&&◌, not, [], ◌∷◌, ◌++◌, if◌then◌else◌, ltb, nat_eq, length,
  take, drop, Text, text, text_beq,
}
use carrel.Errors.{
  Result, ok, err, or_else, check, key_size, decrypt_failed, weak_params, short_salt,
}
use carrel.Random.{Bytes, Draw, random, ◌>>=◌, ◌>>◌, pure, lift}
use carrel.Crypto.Interface.{Primitives}

abbrev pub key_len : ℕ
key_len = 32

abbrev pub salt_len : ℕ
salt_len = 16

abbrev pub nonce_len : ℕ
nonce_len = 12

abbrev pub token_len : ℕ
token_len = 32

abbrev pub aad_dek : Bytes
aad_dek = text "carrel:dek:v1"

abbrev pub aad_state : Bytes
aad_state = text "carrel:state:v1"

abbrev pub aad_escrow_private : Bytes
aad_escrow_private = text "carrel:escrow-private:v1"

abbrev pub aad_escrow_dek : Bytes
aad_escrow_dek = text "carrel:escrow-dek:v1"

-- []byte(s): the UTF-8 bytes of a text.
abbrev pub utf8_rune : ℕ → Bytes
utf8_rune c =
    if ltb c 0x80
    then c ∷ []
    else if ltb c 0x800
    then (0xc0 + c / 64) ∷ (0x80 + c % 64) ∷ []
    else if ltb c 0x10000
    then (0xe0 + c / 4096) ∷ (0x80 + c / 64 % 64) ∷ (0x80 + c % 64) ∷ []
    else (0xf0 + c / 262144) ∷ (0x80 + c / 4096 % 64) ∷ (0x80 + c / 64 % 64) ∷ (0x80 + c % 64) ∷ []

unfoldable pub utf8 : Text → Bytes
utf8 [] = []
utf8 (c ∷ cs) = utf8_rune c ++ utf8 cs

-- Argon2id costs.
pub record Params : Type 0 where
  pub time : ℕ
  pub memory : ℕ
  pub threads : ℕ
  pub key_length : ℕ

-- `Memory < 8*uint32(p.Threads)`: a uint8 times 8 does not wrap.
unfoldable pub validate : Params → Result (Unit {0})
validate p =
    if ltb p.time 1
    then err weak_params
    else if ltb p.threads 1
    then err weak_params
    else if ltb p.memory (8 * p.threads)
    then err weak_params
    else if ltb p.key_length 16
    then err weak_params
    else ok tt

pub record PasswordHash : Type 0 where
  pub params : Params
  pub salt : Bytes
  pub hash : Bytes

-- The check of a plaintext's length that UnwrapDEK and RecoverDEK share.
abbrev pub sized_key : Result Bytes → Result Bytes
sized_key (err e) = err e
sized_key (ok plaintext) =
    if nat_eq (length plaintext) key_len then ok plaintext else err decrypt_failed

-- The comparison of digests; a failed derivation is no match.
abbrev pub matches_digest : Result Bytes → Bytes → Bool
matches_digest (err e) hash = false
matches_digest (ok got) hash = text_beq got hash

-- newAEAD refuses a key of another length; aes.NewCipher and cipher.NewGCM then succeed.
module _ (p : Primitives) where
  unfoldable pub seal : Bytes → Bytes → Bytes → Draw Bytes
  seal key plaintext aad = do
    lift (check (nat_eq (length key) key_len) key_size)
    nonce ← random nonce_len
    pure (nonce ++ p.gcm_seal key nonce plaintext aad)

  unfoldable pub unseal : Bytes → Bytes → Bytes → Result Bytes
  unseal key ciphertext aad =
      if not (nat_eq (length key) key_len)
      then err key_size
      else if ltb (length ciphertext) (nonce_len + p.gcm_overhead)
      then err decrypt_failed
      else or_else (p.gcm_open key (take nonce_len ciphertext) (drop nonce_len ciphertext) aad)
          decrypt_failed

  unfoldable pub wrap_dek : Bytes → Bytes → Draw Bytes
  wrap_dek kek dek = do lift (check (nat_eq (length dek) key_len) key_size); seal kek dek aad_dek

  unfoldable pub unwrap_dek : Bytes → Bytes → Result Bytes
  unwrap_dek kek wrapped = sized_key (unseal kek wrapped aad_dek)

  unfoldable pub derive_key : Text → Bytes → Params → Result Bytes
  derive_key password salt c = elim (validate c) [
    | err e ↦ err e
    | ok _ ↦
        if ltb (length salt) 8
        then err short_salt
        else ok (p.argon2 (utf8 password) salt c.time c.memory c.threads c.key_length)
  ]

  unfoldable pub hash_password : Text → Params → Draw PasswordHash
  hash_password password c = do
    salt ← random salt_len
    key ← lift (derive_key password salt c)
    pure (record { params = c; salt = salt; hash = key })

  unfoldable pub verify : PasswordHash → Text → Bool
  verify h password =
      not (nat_eq (length h.salt) 0)
      && not (nat_eq (length h.hash) 0)
      && matches_digest (derive_key password h.salt h.params) h.hash

  unfoldable pub new_token : Draw Text
  new_token = do b ← random token_len; pure (p.base64_url b)

  unfoldable pub hash_token : Text → Bytes
  hash_token token = p.sha256 (utf8 token)
