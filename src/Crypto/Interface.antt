-- ===== src/Crypto/Interface.antt =====
-- The functions of Go's crypto packages and of golang.org/x/crypto/argon2 that internal/crypto calls,
-- and what it relies on.
use carrel.Prelude.{ℕ, ◌+◌, ◌≤◌, ◌≡◌, Bool, true, Option, some, length, Text}
use carrel.Random.{Bytes, Draw}

pub record Primitives : Type 0 where
  -- argon2.IDKey: password, salt, time, memory, threads, length of the key
  pub argon2 : Bytes → Bytes → ℕ → ℕ → ℕ → ℕ → Bytes
  -- AES-256-GCM under a key of 32 bytes and a nonce of 12: plaintext or ciphertext, then the
  -- authenticated data
  pub gcm_seal : Bytes → Bytes → Bytes → Bytes → Bytes
  pub gcm_open : Bytes → Bytes → Bytes → Bytes → Option Bytes
  pub gcm_overhead : ℕ
  pub sha256 : Bytes → Bytes
  -- base64.RawURLEncoding.EncodeToString, hex.EncodeToString
  pub base64_url : Bytes → Text
  pub hex : Bytes → Text
  -- X25519: a fresh private key, its public key, the shared secret, and the checks of both keys
  pub generate_key : Draw Bytes
  pub public_key : Bytes → Bytes
  pub is_public : Bytes → Bool
  pub is_private : Bytes → Bool
  pub ecdh : Bytes → Bytes → Option Bytes
  -- hkdf.Key over SHA-256: secret, salt, info, length
  pub hkdf : Bytes → Bytes → Bytes → ℕ → Option Bytes

-- What their documentation promises.
pub record AreLawful (p : Primitives) : Type 0 where
  pub length-sha256 : (b : Bytes) → length (p.sha256 b) ≡ 32
  -- an encoding has no fewer characters than there are bytes
  pub length-base64_url : (b : Bytes) → length b ≤ length (p.base64_url b)
  pub length-argon2 : (pw salt : Bytes) (t m th n : ℕ) → length (p.argon2 pw salt t m th n) ≡ n
  pub length-gcm_seal :
      (k n x a : Bytes)
      → length k ≡ 32
      → length n ≡ 12
      → length (p.gcm_seal k n x a) ≡ length x + p.gcm_overhead
  pub gcm_open-seal :
      (k n x a : Bytes)
      → length k ≡ 32
      → length n ≡ 12
      → p.gcm_open k n (p.gcm_seal k n x a) a ≡ some x
  pub generated :
      (tape : Bytes) {key rest : Bytes}
      → p.generate_key tape ≡ carrel.Errors.ok (key, rest)
      → p.is_private key ≡ true
  pub public_key_valid :
      (key : Bytes)
      → p.is_private key ≡ true
      → (length (p.public_key key) ≡ 32) × (p.is_public (p.public_key key) ≡ true)
  pub ecdh_agrees :
      (a b : Bytes)
      → p.is_private a ≡ true
      → p.is_private b ≡ true
      → p.ecdh a (p.public_key b) ≡ p.ecdh b (p.public_key a)
  pub length-hkdf :
      (s salt info : Bytes) (n : ℕ) {k : Bytes} → p.hkdf s salt info n ≡ some k → length k ≡ n
