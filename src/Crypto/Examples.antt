-- ===== src/Crypto/Examples.antt =====
-- internal/crypto at concrete inputs.
use carrel.Prelude.{ℕ, zero, suc, ◌≡◌, ◌<◌, refl, true, List, [], ◌∷◌, ◌+◌, length, Text, text}
use carrel.Errors.{Result, ok, err}
use carrel.Random.{Bytes, random}
use carrel.Crypto.Interface.{Primitives, AreLawful}
use carrel.Crypto.Keys.{
  Params, PasswordHash, utf8, aad_state, validate, seal, unseal, wrap_dek, unwrap_dek, derive_key,
  hash_password, verify,
}
use carrel.Crypto.Recovery.{
  Escrow, seal_private, new_escrow, unwrap_private, change_master_password, agree, seal_to_public,
  seal_dek, recover_dek,
}
use carrel.Crypto.Laws.{unseal-seal, unwrap_dek-wrap_dek, verify-hash_password}
use carrel.Crypto.Deposit.{Changes, unchanged, changed, recover_dek-Changes}
pub mod Sample
use carrel.Crypto.Examples.Sample.{sample, sample-AreLawful}

abbrev fill : ℕ → ℕ → Bytes
fill zero c = []
fill (suc n) c = c ∷ fill n c

abbrev costs : Params
costs = record { time = 1; memory = 8; threads = 1; key_length = 32 }

abbrev result_of : {A : Type 0} → A → Result (A × Bytes) → A
result_of a (ok (b, rest)) = b
result_of a (err e) = a

abbrev kek : Bytes
kek = fill 32 1

abbrev dek : Bytes
dek = fill 32 2

abbrev sealed : Bytes
unfolding seal random
sealed = result_of [] (seal sample kek (text "state") aad_state (fill 20 3))

unseal-seal_example :
    (unseal sample kek sealed aad_state ≡ ok (text "state"))
    × (length kek ≡ 32)
    × (0 < length sealed)
unfolding sealed
unseal-seal_example =
    unseal-seal sample sample-AreLawful kek (text "state") aad_state (fill 20 3) {rest = fill 8 3}
      refl

abbrev wrapped : Bytes
unfolding wrap_dek seal random
wrapped = result_of [] (wrap_dek sample kek dek (fill 20 3))

unwrap_dek-wrap_dek_example : unwrap_dek sample kek wrapped ≡ ok dek
unfolding wrapped
unwrap_dek-wrap_dek_example =
    unwrap_dek-wrap_dek sample sample-AreLawful kek dek (fill 20 3) {rest = fill 8 3} refl

abbrev no_hash : PasswordHash
no_hash = record { params = costs; salt = []; hash = [] }

abbrev hashed : PasswordHash
unfolding hash_password derive_key validate random utf8
hashed = result_of no_hash (hash_password sample (text "correct horse") costs (fill 20 3))

verify-hash_password_example : verify sample hashed (text "correct horse") ≡ true
unfolding hashed
verify-hash_password_example =
    verify-hash_password sample sample-AreLawful (text "correct horse") costs (fill 20 3)
      {rest = fill 4 3} refl

abbrev no_escrow : Escrow
no_escrow = record { public_key = []; sealed_key = []; master_salt = []; master_params = costs }

abbrev first_password : Text
first_password = text "the first master password"

abbrev second_password : Text
second_password = text "the second master password"

abbrev third_password : Text
third_password = text "the third master password"

abbrev set_up : Escrow
unfolding new_escrow seal_private derive_key validate seal random utf8
set_up = result_of no_escrow (new_escrow sample first_password costs (fill 60 4))

abbrev changed_once : Escrow
unfolding set_up change_master_password unwrap_private unseal seal_private derive_key validate seal
    random utf8
changed_once =
    result_of no_escrow
      (change_master_password sample set_up first_password second_password (fill 28 5))

abbrev deposited : Bytes
unfolding changed_once set_up seal_dek seal_to_public agree seal random
deposited = result_of [] (seal_dek sample changed_once dek (fill 44 6))

abbrev changed_twice : Escrow
unfolding changed_once set_up change_master_password unwrap_private unseal seal_private derive_key
    validate seal random utf8
changed_twice =
    result_of no_escrow
      (change_master_password sample changed_once second_password third_password (fill 28 7))

recover_dek-Changes_example : recover_dek sample changed_twice third_password deposited ≡ ok dek
unfolding changed_twice deposited changed_once set_up
recover_dek-Changes_example =
    recover_dek-Changes sample sample-AreLawful first_password second_password costs (fill 60 4)
      (fill 44 6) dek {e = set_up} {e' = changed_once} {e'' = changed_twice} {rest = []}
      {rest' = []} {sealed = deposited} {now = third_password} refl
      (changed {old = first_password} second_password (fill 28 5) {rest = []} unchanged refl) refl
      (changed {old = second_password} third_password (fill 28 7) {rest = []} unchanged refl)
