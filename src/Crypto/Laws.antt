-- ===== src/Crypto/Laws.antt =====
-- internal/crypto: what is sealed opens again.
use carrel.Prelude.{
  ◌≡◌, ◌<◌, inl, inr, Bool-cases, text_beq_iff, true, ◌++◌, nat_eq, length, length-append,
  take-append, drop-append, arith, Text,
}
use carrel.Errors.{ok, Result-cases}
use carrel.Random.{Bytes, random, length-random}
use carrel.Crypto.Interface.{Primitives, AreLawful}
use carrel.Crypto.Keys.{
  Params, PasswordHash, utf8, aad_dek, seal, unseal, wrap_dek, unwrap_dek, derive_key,
  hash_password, verify, validate,
}

module _ (p : Primitives) (laws : AreLawful p) where
  unseal-nonce :
      (key nonce x aad : Bytes)
      → length key ≡ 32
      → length nonce ≡ 12
      → unseal p key (nonce ++ p.gcm_seal key nonce x aad) aad ≡ ok x
  unfolding unseal
  unseal-nonce key nonce x aad hk hn = ground (
    arith,
    take-append 12 nonce (p.gcm_seal key nonce x aad) hn,
    drop-append 12 nonce (p.gcm_seal key nonce x aad) hn,
    length-append nonce (p.gcm_seal key nonce x aad),
    laws.length-gcm_seal key nonce x aad hk hn,
    laws.gcm_open-seal key nonce x aad hk hn,
  )

  -- The parts of a successful seal.
  seal_parts :
      (key x aad tape : Bytes) {c rest : Bytes}
      → seal p key x aad tape ≡ ok (c, rest)
      → (nonce : Bytes) × (length key ≡ 32)
        × (length nonce ≡ 12)
        × (c ≡ nonce ++ p.gcm_seal key nonce x aad)
  unfolding seal
  seal_parts key x aad tape h = elim (Result-cases (random 12 tape)) [
    | inl (e, q) ↦ absurd (ground arith)
    | inr ((nonce, t), q) ↦ (nonce, ground arith, length-random 12 tape q, ground arith)
  ]

  -- What `Seal` wrote under a key, `Open` reads under that key.
  pub unseal-seal :
      (key x aad tape : Bytes) {c rest : Bytes}
      → seal p key x aad tape ≡ ok (c, rest)
      → (unseal p key c aad ≡ ok x) × (length key ≡ 32) × (0 < length c)
  unseal-seal key x aad tape h =
      let (nonce, hk, hn, e) = seal_parts key x aad tape h in
      (
        rw e (unseal-nonce key nonce x aad hk hn),
        hk,
        rw e (omega (arith, length-append nonce (p.gcm_seal key nonce x aad))),
      )

  -- A wrapped key is unwrapped by the key that it was wrapped under.
  pub unwrap_dek-wrap_dek :
      (kek dek tape : Bytes) {w rest : Bytes}
      → wrap_dek p kek dek tape ≡ ok (w, rest)
      → unwrap_dek p kek w ≡ ok dek
  unfolding wrap_dek unwrap_dek
  unwrap_dek-wrap_dek kek dek tape h = elim (Bool-cases (nat_eq (length dek) 32)) [
    | inl sized ↦
        let sealed = unseal-seal kek dek aad_dek tape (rw sized at h) in rw (sealed.0, sized)
    | inr other ↦ absurd (ground arith)
  ]

  -- A derived key has the length that its costs ask for, which is not 0.
  derive_key-length :
      (pw : Text) (salt : Bytes) (c : Params) {k : Bytes}
      → derive_key p pw salt c ≡ ok k
      → 0 < length k
  unfolding derive_key validate
  derive_key-length pw salt c h =
      ground (arith, laws.length-argon2 (utf8 pw) salt c.time c.memory c.threads c.key_length)

  -- A password is accepted by the hash that was made of it.
  pub verify-hash_password :
      (pw : Text) (c : Params) (tape : Bytes) {h : PasswordHash} {rest : Bytes}
      → hash_password p pw c tape ≡ ok (h, rest)
      → verify p h pw ≡ true
  unfolding hash_password verify
  verify-hash_password pw c tape eq = elim (Result-cases (random 16 tape)) [
    | inl (e, q) ↦ absurd (ground arith)
    | inr ((salt, t), q) ↦ elim (Result-cases (derive_key p pw salt c)) [
      | inl (e, d) ↦ absurd (ground arith)
      | inr (k, d) ↦
          ground (arith, length-random 16 tape q, derive_key-length pw salt c d, text_beq_iff k k)
    ]
  ]
