-- ===== src/Crypto/Deposit.antt =====
-- internal/crypto/escrow.go: a deposited key is recovered by the master password, also after that
-- password has been changed.
use carrel.Prelude.{
  ◌<◌, ◌≡◌, refl, ◌∙◌, inl, inr, Bool-cases, true, ◌++◌, ltb, length, length-append, take-append,
  drop-append, arith, Text,
}
use carrel.Errors.{ok, Result-cases}
use carrel.Random.{Bytes, random, length-random}
use carrel.Crypto.Interface.{Primitives, AreLawful}
use carrel.Crypto.Keys.{Params, seal, derive_key, aad_escrow_private}
use carrel.Crypto.Recovery.{
  Escrow, seal_private, new_escrow, unwrap_private, change_master_password, agree, escrow_aad,
  seal_to_public, seal_dek, open_with_private, recover_dek,
}
use carrel.Crypto.Laws.{unseal-seal}

-- A master password that opens the private half of the deposit's key pair.
pub record Opens (p : Primitives) (e : Escrow) (master_password : Text) : Type 0 where
  pub priv : Bytes
  pub opened : unwrap_private p e master_password ≡ ok priv
  pub valid : p.is_private priv ≡ true
  pub pair : e.public_key ≡ p.public_key priv

-- Any number of successful changes of the master password.
pub data Changes (p : Primitives) (e : Escrow) (mp : Text) : Escrow → Text → Type 0 where
  unchanged : Changes p e mp e mp
  changed :
      {e' e'' : Escrow} {old : Text} (new : Text) (tape : Bytes) {rest : Bytes}
      → Changes p e mp e' old
      → change_master_password p e' old new tape ≡ ok (e'', rest)
      → Changes p e mp e'' new

module _ (p : Primitives) (laws : AreLawful p) where
  unwrap_private-seal_private :
      (e : Escrow) (priv tape : Bytes) (mp : Text) {rest : Bytes}
      → p.is_private priv ≡ true
      → 0 < length e.master_salt
      → seal_private p priv mp e.master_salt e.master_params tape ≡ ok (e.sealed_key, rest)
      → unwrap_private p e mp ≡ ok priv
  unfolding seal_private unwrap_private
  unwrap_private-seal_private e priv tape mp {rest} valid salted h =
      elim (Result-cases (derive_key p mp e.master_salt e.master_params)) [
        | inl (x, d) ↦ absurd (ground arith)
        | inr (kek, d) ↦
            let sealed =
              unseal-seal p laws kek priv aad_escrow_private tape {c = e.sealed_key} {rest = rest}
                (rw d at h) in
            ground (arith, sealed.0, sealed.2)
      ]

  -- A fresh deposit is opened by the master password that it was made with.
  pub new_escrow-Opens :
      (mp : Text) (c : Params) (tape : Bytes) {e : Escrow} {rest : Bytes}
      → new_escrow p mp c tape ≡ ok (e, rest)
      → Opens p e mp
  unfolding new_escrow
  new_escrow-Opens mp c tape {e} h = elim (Bool-cases (ltb (length mp) 16)) [
    | inl short ↦ absurd (ground arith)
    | inr long ↦ elim (Result-cases (p.generate_key tape)) [
      | inl (x, g) ↦ absurd (ground arith)
      | inr ((priv, t₁), g) ↦ elim (Result-cases (random 16 t₁)) [
        | inl (x, r) ↦ absurd (ground arith)
        | inr ((salt, t₂), r) ↦ elim (Result-cases (seal_private p priv mp salt c t₂)) [
          | inl (x, s) ↦ absurd (ground arith)
          | inr ((sealed, t₃), s) ↦
              let e≡ : e ≡ record {
                public_key = p.public_key priv;
                sealed_key = sealed;
                master_salt = salt;
                master_params = c;
              } =
                ground arith in
              rw e≡ (record {
                priv = priv;
                opened =
                    unwrap_private-seal_private _ priv t₂ mp (laws.generated tape g)
                      (omega (arith, length-random 16 t₁ r)) s;
                valid = laws.generated tape g;
                pair = refl;
              })
        ]
      ]
    ]
  ]

  -- A change of the master password keeps the key pair, which the new password then opens.
  pub change_master_password-Opens :
      (e : Escrow) (old new : Text) (tape : Bytes) {e' : Escrow} {rest : Bytes}
      → Opens p e old
      → change_master_password p e old new tape ≡ ok (e', rest)
      → Opens p e' new × (e'.public_key ≡ e.public_key)
  unfolding change_master_password
  change_master_password-Opens e old new tape {e'} o h = elim (Bool-cases (ltb (length new) 16)) [
    | inl short ↦ absurd (ground arith)
    | inr long ↦ elim (Result-cases (random 16 tape)) [
      | inl (x, r) ↦ absurd (ground (arith, o.opened))
      | inr ((salt, t), r) ↦
          elim (Result-cases (seal_private p o.priv new salt e.master_params t)) [
            | inl (x, s) ↦ absurd (ground (arith, o.opened))
            | inr ((sealed, t'), s) ↦
                let e≡ : e' ≡ record e { sealed_key = sealed; master_salt = salt } =
                  ground (arith, o.opened) in
                rw e≡ (
                  record {
                    priv = o.priv;
                    opened =
                        unwrap_private-seal_private _ o.priv t new o.valid
                          (omega (arith, length-random 16 tape r)) s;
                    valid = o.valid;
                    pair = o.pair;
                  },
                  refl,
                )
          ]
    ]
  ]

  -- The two ends of the key agreement derive one key.
  agree-pair :
      (eph priv : Bytes)
      → p.is_private eph ≡ true
      → p.is_private priv ≡ true
      → agree p priv (p.public_key eph) (p.public_key eph)
        ≡ agree p eph (p.public_key priv) (p.public_key eph)
  unfolding agree
  agree-pair eph priv he hp = rw (laws.ecdh_agrees priv eph hp he, agree) refl

  open_with_private-seal_to_public :
      (priv x tape : Bytes) {s rest : Bytes}
      → p.is_private priv ≡ true
      → seal_to_public p (p.public_key priv) x tape ≡ ok (s, rest)
      → open_with_private p priv s ≡ ok x
  unfolding seal_to_public open_with_private
  open_with_private-seal_to_public priv x tape {s} {rest} valid h =
      elim (Result-cases (p.generate_key tape)) [
        | inl (z, g) ↦ absurd (ground arith)
        | inr ((eph, t₁), g) ↦
            elim (Result-cases (agree p eph (p.public_key priv) (p.public_key eph))) [
              | inl (z, a) ↦ absurd (ground arith)
              | inr (key, a) ↦
                  elim (Result-cases (seal p key x (escrow_aad (p.public_key eph)) t₁)) [
                    | inl (z, c) ↦ absurd (ground arith)
                    | inr ((ct, t₂), c) ↦
                        let s≡ : s ≡ p.public_key eph ++ ct = ground arith in
                        let facts = laws.public_key_valid eph (laws.generated tape g) in
                        let head = take-append 32 (p.public_key eph) ct facts.0 in
                        let tail = drop-append 32 (p.public_key eph) ct facts.0 in
                        let long = length-append (p.public_key eph) ct in
                        let opens = unseal-seal p laws key x (escrow_aad (p.public_key eph)) t₁ c in
                        let same = agree-pair eph priv (laws.generated tape g) valid ∙ a in
                        rw (s≡, head, tail, same, facts.1, opens.0) (ground (arith, long, facts.0))
                  ]
            ]
      ]

  -- A key that was deposited with a key pair is recovered by every master password that opens the
  -- pair's private half.
  pub recover_dek-seal_dek :
      (e e' : Escrow) (mp : Text) (dek tape : Bytes) {sealed rest : Bytes}
      → Opens p e' mp
      → e'.public_key ≡ e.public_key
      → seal_dek p e dek tape ≡ ok (sealed, rest)
      → recover_dek p e' mp sealed ≡ ok dek
  unfolding seal_dek recover_dek
  recover_dek-seal_dek e e' mp dek tape {sealed} {rest} o same h =
      let to_pair : seal_to_public p e.public_key dek tape ≡ ok (sealed, rest) = ground arith in
      let sized : length dek ≡ 32 = ground arith in
      let opens =
        open_with_private-seal_to_public o.priv dek tape {s = sealed} {rest = rest} o.valid
          (rw (← o.pair, same) to_pair) in
      ground (arith, o.opened, opens)

  Changes-Opens :
      {e : Escrow} {mp : Text} {e' : Escrow} {mp' : Text}
      → Opens p e mp
      → Changes p e mp e' mp'
      → Opens p e' mp' × (e'.public_key ≡ e.public_key)
  Changes-Opens o unchanged = (o, refl)
  Changes-Opens o (changed {e' = f} {old = old} new tape cs h) =
      let before = Changes-Opens o cs in
      let after = change_master_password-Opens f old new tape before.0 h in
      (after.0, after.1 ∙ before.1)

  -- A key that was sealed to a deposit is recovered, whatever changes of the master password have
  -- succeeded since the deposit was set up, by the latest master password.
  pub recover_dek-Changes :
      (mp mp' : Text) (c : Params) (tape tape' : Bytes) (dek : Bytes) {e e' e'' : Escrow}
      {rest rest' sealed : Bytes} {now : Text}
      → new_escrow p mp c tape ≡ ok (e, rest)
      → Changes p e mp e' mp'
      → seal_dek p e' dek tape' ≡ ok (sealed, rest')
      → Changes p e' mp' e'' now
      → recover_dek p e'' now sealed ≡ ok dek
  recover_dek-Changes mp mp' c tape tape' dek {e} {e'} {e''} {now = now} made before deposited
        since =
      let at = Changes-Opens (new_escrow-Opens mp c tape made) before in
      let late = Changes-Opens at.0 since in
      recover_dek-seal_dek e' e'' now dek tape' late.0 late.1 deposited
