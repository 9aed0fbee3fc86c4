-- ===== src/Random.antt =====
-- Computations that may fail and that draw random bytes. The bytes that the operating system will
-- give are a list, the tape; a read that it cannot fill fails.
use carrel.Prelude.{
  ℕ, zero, suc, ◌≡◌, refl, List, if◌then◌else◌, ltb, length, take, drop, arith, length-take,
  Bool-cases, inl, inr,
}
use carrel.Errors.{Error, Result, ok, err, random_length, random_failed}

abbrev pub Bytes : Type 0
Bytes = List ℕ

abbrev pub Draw : Type 0 → Type 0
Draw A = Bytes → Result (A × Bytes)

infixl 5 ◌>>=◌ ◌>>◌
abbrev pub ◌>>=◌ : {A B : Type 0} → Draw A → (A → Draw B) → Draw B
◌>>=◌ m f tape = elim (m tape) [ err e ↦ err e | ok (a, rest) ↦ f a rest ]

abbrev pub ◌>>◌ : {A B : Type 0} → Draw A → Draw B → Draw B
m >> n = m >>= λ _. n

abbrev pub pure : {A : Type 0} → A → Draw A
pure a tape = ok (a, tape)

abbrev pub raise : {A : Type 0} → Error → Draw A
raise e tape = err e

-- A step that draws nothing.
abbrev pub lift : {A : Type 0} → Result A → Draw A
lift (ok a) tape = ok (a, tape)
lift (err e) tape = err e

-- crypto.Random
unfoldable pub random : ℕ → Draw Bytes
random zero tape = err random_length
random (suc n) tape =
    if ltb (length tape) (suc n)
    then err random_failed
    else ok (take (suc n) tape, drop (suc n) tape)

pub length-random :
    (n : ℕ) (tape : Bytes) {b rest : Bytes} → random n tape ≡ ok (b, rest) → length b ≡ n
unfolding random
length-random zero tape h = cc
length-random (suc n) tape h = elim (Bool-cases (ltb (length tape) (suc n))) [
  | inl short ↦ absurd (ground arith)
  | inr fits ↦ ground (arith, length-take (suc n) tape (ground arith))
]

-- A computation that has succeeded came through each of its steps.
pub >>=-eq-ok :
    {A B : Type 0} (m : Draw A) (f : A → Draw B) {tape : Bytes} {r : B × Bytes}
    → (m >>= f) tape ≡ ok r
    → (a : A) × (rest : Bytes) × (m tape ≡ ok (a, rest)) × (f a rest ≡ ok r)
>>=-eq-ok {A} {B} m f {tape} {r} h = go (m tape) refl h
  where
    go :
        (x : Result (A × Bytes))
        → m tape ≡ x
        → elim x [ err e ↦ err e | ok (a, rest) ↦ f a rest ] ≡ ok r
        → (a : A) × (rest : Bytes) × (m tape ≡ ok (a, rest)) × (f a rest ≡ ok r)
    go (err e) p q = cc
    go (ok (a, rest)) p q = (a, rest, p, q)
