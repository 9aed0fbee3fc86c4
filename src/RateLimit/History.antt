-- ===== src/RateLimit/History.antt =====
-- internal/ratelimit/ratelimit.go: any sequence of calls, whatever their keys.
use native.Mathlib.Nat.{add-zero, zero-add, add_assoc}
use carrel.Prelude.{
  ℕ, ◌+◌, ◌≤◌, ◌<◌, ◌≡◌, refl, ◌∙◌, false, Option, none, some, List, [], ◌∷◌, All, if◌then◌else◌,
  arith, Text, text_eq, ◌==◌, ==_iff, exists, ap, Bool-cases, inl, inr,
}
use carrel.Prelude.Map
use carrel.Prelude.Map.{lookup-put, lookup-delete}
use carrel.RateLimit.{
  Limits, Entry, Limiter, is_quiet, allow, fail, reset, sweep, counted, failed_entry, delay_for,
}
use carrel.RateLimit.Attempts.{opts-allow, opts-reset, lookup-reset}
use carrel.RateLimit.Sweeping.{
  IsMap, allow-IsMap, fail-IsMap, reset-IsMap, sweep-IsMap, swept, lookup-sweep, opts-sweep,
}

pub data Call : Type 0 where
  allows fails : ℕ → Text → Call
  resets : List Text → Call
  sweeps : ℕ → Call

unfoldable pub step : Limiter → Call → Limiter
step l (allows t k) = (allow t k l).1
step l (fails t k) = (fail t k l).1
step l (resets ks) = reset ks l
step l (sweeps t) = (sweep t l).1

unfoldable pub run : Limiter → List Call → Limiter
unfolding step
run l [] = l
run l (c ∷ cs) = run (step l c) cs

-- How often a key failed.
abbrev pub failures_of : Text → List Call → ℕ
failures_of key [] = 0
failures_of key (allows t k ∷ cs) = failures_of key cs
failures_of key (fails t k ∷ cs) =
    let rest = failures_of key cs in if k == key then rest + 1 else rest
failures_of key (resets ks ∷ cs) = failures_of key cs
failures_of key (sweeps t ∷ cs) = failures_of key cs

-- A call at a time from `start` on, and less than `forget` after it, that does not reset the key.
abbrev pub InWindow : ℕ → ℕ → Text → Call → Type 0
InWindow start forget key (allows t k) = (start ≤ t) × (t < start + forget)
InWindow start forget key (fails t k) = (start ≤ t) × (t < start + forget)
InWindow start forget key (resets ks) = exists (λ k. k == key) ks ≡ false
InWindow start forget key (sweeps t) = (start ≤ t) × (t < start + forget)

-- The entry of a key that has failed so often since `start`.
abbrev pub Tracks : ℕ → ℕ → Option Entry → Type 0
Tracks start n none = n ≡ 0
Tracks start n (some e) = (e.failures ≡ n) × (start ≤ e.seen)

module _ (o : Limits) (start n t : ℕ) (from : start ≤ t) (until : t < start + o.forget) where
  counted-Tracks : (x : Option Entry) → Tracks start n x → counted o t x ≡ n
  counted-Tracks none k = ground arith
  counted-Tracks (some e) k = ground arith

  swept-Tracks : (x : Option Entry) → Tracks start n x → Tracks start n (swept o t x)
  swept-Tracks none k = k
  swept-Tracks (some e) k = elim (Bool-cases (is_quiet o t e)) [
    | inl q ↦ absurd (ground arith)
    | inr q ↦ rw q k
  ]

lookup-allow :
    (t : ℕ) (k j : Text) (l : Limiter)
    → Map.lookup j (allow t k l).1.entries
      ≡ (if k == j then swept l.opts t (Map.lookup j l.entries) else Map.lookup j l.entries)
unfolding allow
lookup-allow t k j l = ground (arith, lookup-delete k j l.entries, ==_iff k j)

lookup-fail :
    (t : ℕ) (k j : Text) (l : Limiter)
    → Map.lookup j (fail t k l).1.entries ≡ (
        if k == j
        then some (failed_entry l.opts t (Map.lookup j l.entries))
        else Map.lookup j l.entries)
unfolding fail
lookup-fail t k j l =
    ground
      (arith, lookup-put k j (failed_entry l.opts t (Map.lookup k l.entries)) l.entries, ==_iff k j)

opts-fail : (t : ℕ) (k : Text) (l : Limiter) → (fail t k l).1.opts ≡ l.opts
unfolding fail
opts-fail t k l = refl

-- What one call adds to the failures of a key.
abbrev adds : Text → Call → ℕ
adds key c = failures_of key (c ∷ [])

step-Tracks :
    (start n : ℕ) (key : Text) (l : Limiter) (c : Call)
    → IsMap l
    → InWindow start l.opts.forget key c
    → Tracks start n (Map.lookup key l.entries)
    → Tracks start (n + adds key c) (Map.lookup key (step l c).entries)
unfolding step
step-Tracks start n key l (allows t k) m w tr = elim (Bool-cases (k == key)) [
  | inl e ↦
      rw (add-zero, lookup-allow t k key l, e)
        (swept-Tracks l.opts start n t w.0 w.1 (Map.lookup key l.entries) tr)
  | inr e ↦ rw (add-zero, lookup-allow t k key l, e) tr
]
step-Tracks start n key l (fails t k) m w tr = elim (Bool-cases (k == key)) [
  | inl e ↦
      rw (lookup-fail t k key l, e)
        (
          ap (λ c. c + 1) (counted-Tracks l.opts start n t w.0 w.1 (Map.lookup key l.entries) tr),
          w.0,
        )
  | inr e ↦ rw (lookup-fail t k key l, e, add-zero) tr
]
step-Tracks start n key l (resets ks) m w tr = rw (lookup-reset ks key l, w, add-zero) tr
step-Tracks start n key l (sweeps t) m w tr =
    rw (add-zero, lookup-sweep t key l m)
      (swept-Tracks l.opts start n t w.0 w.1 (Map.lookup key l.entries) tr)

step-IsMap : (l : Limiter) (c : Call) → IsMap l → IsMap (step l c)
unfolding step
step-IsMap l (allows t k) m = allow-IsMap t k l m
step-IsMap l (fails t k) m = fail-IsMap t k l m
step-IsMap l (resets ks) m = reset-IsMap ks l m
step-IsMap l (sweeps t) m = sweep-IsMap t l m

opts-step : (l : Limiter) (c : Call) → (step l c).opts ≡ l.opts
unfolding step
opts-step l (allows t k) = opts-allow t k l
opts-step l (fails t k) = opts-fail t k l
opts-step l (resets ks) = opts-reset ks l
opts-step l (sweeps t) = opts-sweep t l

failures_of-cons :
    (key : Text) (c : Call) (cs : List Call)
    → failures_of key (c ∷ cs) ≡ adds key c + failures_of key cs
failures_of-cons key (allows t k) cs = omega arith
failures_of-cons key (fails t k) cs = ground arith
failures_of-cons key (resets ks) cs = omega arith
failures_of-cons key (sweeps t) cs = omega arith

opts-run : (l : Limiter) (cs : List Call) → (run l cs).opts ≡ l.opts
unfolding run
opts-run l [] = refl
opts-run l (c ∷ cs) = opts-run (step l c) cs ∙ opts-step l c

-- A key has one entry after any calls.
pub run-IsMap : (l : Limiter) (cs : List Call) → IsMap l → IsMap (run l cs)
unfolding run
run-IsMap l [] m = m
run-IsMap l (c ∷ cs) m = run-IsMap (step l c) cs (step-IsMap l c m)

run-Tracks :
    (start n : ℕ) (key : Text) (l : Limiter) (cs : List Call)
    → IsMap l
    → All (InWindow start l.opts.forget key) cs
    → Tracks start n (Map.lookup key l.entries)
    → Tracks start (n + failures_of key cs) (Map.lookup key (run l cs).entries)
unfolding run
run-Tracks start n key l [] m w tr = rw add-zero tr
run-Tracks start n key l (c ∷ cs) m w tr =
    rw (failures_of-cons key c cs, ← add_assoc n (adds key c) (failures_of key cs))
      (run-Tracks start (n + adds key c) key (step l c) cs (step-IsMap l c m)
        (rw (opts-step l c) w.1) (step-Tracks start n key l c m w.0 tr))

-- Whatever attempts, failures of other keys, resets of other keys and sweeps come in between, a
-- failure on a key is answered by the delay for all its failures since a moment `start` before
-- which it had none, as long as nothing resets the key and every call comes less than the
-- forgetting time after `start`.
pub fail-run :
    (start t : ℕ) (key : Text) (l : Limiter) (cs : List Call)
    → IsMap l
    → Map.lookup key l.entries ≡ none
    → All (InWindow start l.opts.forget key) cs
    → start ≤ t
    → t < start + l.opts.forget
    → (fail t key (run l cs)).0 ≡ delay_for l.opts (failures_of key cs + 1)
unfolding fail
fail-run start t key l cs m absent w from until =
    let tr : Tracks start (failures_of key cs) (Map.lookup key (run l cs).entries) =
      rw (← zero-add (failures_of key cs)) (run-Tracks start 0 key l cs m w (rw absent refl)) in
    rw (opts-run l cs) (
      ap (λ n. delay_for l.opts (n + 1))
        (counted-Tracks l.opts start (failures_of key cs) t from until
          (Map.lookup key (run l cs).entries) tr))
