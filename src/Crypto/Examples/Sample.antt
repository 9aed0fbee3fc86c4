-- ===== src/Crypto/Examples/Sample.antt =====
-- Functions that behave as internal/crypto relies on and that can be run, for the examples. They
-- keep no secret.
use carrel.Prelude.{
  ℕ, zero, suc, ◌+◌, ◌≡◌, refl, ap, true, none, some, [], ◌∷◌, ◌++◌, if◌then◌else◌, nat_eq, length,
  take, drop, text_beq, text_beq_iff, length-append, take-append, drop-append, arith,
}
use carrel.Random.{Bytes, random, length-random}
use carrel.Crypto.Interface.{Primitives, AreLawful}

-- Cut or filled up with zeros to a length.
abbrev pub fit : ℕ → Bytes → Bytes
fit zero b = []
fit (suc n) [] = 0 ∷ fit n []
fit (suc n) (x ∷ b) = x ∷ fit n b

pub length-fit : (n : ℕ) (b : Bytes) → length (fit n b) ≡ n
length-fit zero b = refl
length-fit (suc n) [] = omega (arith, length-fit n [])
length-fit (suc n) (x ∷ b) = omega (arith, length-fit n b)

abbrev pub sum : Bytes → Bytes → Bytes
sum [] b = []
sum (x ∷ a) [] = []
sum (x ∷ a) (y ∷ b) = (x + y) ∷ sum a b

pub sum_comm : (a b : Bytes) → sum a b ≡ sum b a
sum_comm [] [] = refl
sum_comm [] (y ∷ b) = refl
sum_comm (x ∷ a) [] = refl
sum_comm (x ∷ a) (y ∷ b) = let q : x + y ≡ y + x = omega arith in rw (q, sum_comm a b) refl

abbrev pub sample : Primitives
sample = record {
  argon2 = λ pw salt t m th n. fit n (pw ++ salt);
  gcm_seal = λ k n x a. fit 16 k ++ x;
  gcm_open = λ k n c a. if text_beq (take 16 c) (fit 16 k) then some (drop 16 c) else none;
  gcm_overhead = 16;
  sha256 = fit 32;
  base64_url = λ b. b;
  hex = λ b. b;
  generate_key = random 32;
  public_key = λ k. k;
  is_public = λ k. nat_eq (length k) 32;
  is_private = λ k. nat_eq (length k) 32;
  ecdh = λ a b. some (sum a b);
  hkdf = λ s salt info n. some (fit n s);
}

sample-opens : (k n x a : Bytes) → sample.gcm_open k n (sample.gcm_seal k n x a) a ≡ some x
sample-opens k n x a =
    let head = take-append 16 (fit 16 k) x (length-fit 16 k) in
    let tail = drop-append 16 (fit 16 k) x (length-fit 16 k) in
    let equal : text_beq (fit 16 k) (fit 16 k) ≡ true =
      (text_beq_iff (fit 16 k) (fit 16 k)).1 refl in
    ground (arith, head, tail, equal)

pub sample-AreLawful : AreLawful sample
sample-AreLawful = record {
  length-base64_url = λ b. omega arith;
  length-sha256 = length-fit 32;
  length-argon2 = λ pw salt t m th n. length-fit n (pw ++ salt);
  length-gcm_seal = λ k n x a hk hn. omega (arith, length-append (fit 16 k) x, length-fit 16 k);
  gcm_open-seal = λ k n x a hk hn. sample-opens k n x a;
  generated = λ tape {key} {rest} h. ground (arith, length-random 32 tape h);
  public_key_valid = λ key h. (ground arith, h);
  ecdh_agrees = λ a b ha hb. ap some (sum_comm a b);
  length-hkdf = λ s salt info n {k} h. ground (arith, length-fit n s);
}
