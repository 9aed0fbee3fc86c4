-- ===== src/RateLimit/Sweeping.antt =====
-- internal/ratelimit/ratelimit.go: `Sweep` removes only what no answer depends on.
use carrel.Prelude.{
  ℕ, ◌+◌, ◌≤◌, ◌≡◌, refl, false, not, Option, none, some, List, [], ◌∷◌, if◌then◌else◌, arith, Text,
  text_eq, ap, sym, ◌∙◌, keep, length,
}
use carrel.Prelude.Map
use carrel.Prelude.Map.{
  Map, Distinct, Distinct-delete, Distinct-put, Distinct-keep, lookup-keep, filtered,
}
use carrel.RateLimit.{
  Limits, Entry, Limiter, is_quiet, allow, fail, reset, sweep, drop_quiet, len, counted,
  failed_entry, delay_for,
}
use carrel.RateLimit.Attempts.{answer, allow-answer}

-- A key has one entry, as in any map.
abbrev pub IsMap : Limiter → Type 0
IsMap l = Distinct l.entries

pub allow-IsMap : (now : ℕ) (k : Text) (l : Limiter) → IsMap l → IsMap (allow now k l).1
unfolding allow
allow-IsMap now k l h = ground (arith, Distinct-delete k l.entries h)

pub fail-IsMap : (now : ℕ) (k : Text) (l : Limiter) → IsMap l → IsMap (fail now k l).1
unfolding fail
fail-IsMap now k l h = Distinct-put k (failed_entry l.opts now (Map.lookup k l.entries)) l.entries h

pub reset-IsMap : (ks : List Text) (l : Limiter) → IsMap l → IsMap (reset ks l)
unfolding reset
reset-IsMap [] l h = h
reset-IsMap (k ∷ ks) l h =
    reset-IsMap ks (record l { entries = Map.delete k l.entries }) (Distinct-delete k l.entries h)

-- The loop keeps the entries that are not quiet, and counts the others.
drop_quiet-keep :
    (o : Limits) (now : ℕ) (m : Map Text Entry)
    → ((drop_quiet o now m).1 ≡ keep (λ (j, e). not (is_quiet o now e)) m)
      × ((drop_quiet o now m).0 + length (drop_quiet o now m).1 ≡ length m)
unfolding drop_quiet
drop_quiet-keep o now [] = (refl, omega arith)
drop_quiet-keep o now ((k, e) ∷ m) =
    let (same, total) = drop_quiet-keep o now m in (ground (arith, same), ground (arith, total))

pub sweep-IsMap : (now : ℕ) (l : Limiter) → IsMap l → IsMap (sweep now l).1
unfolding sweep
sweep-IsMap now l h = rw (drop_quiet-keep l.opts now l.entries).0 (Distinct-keep _ l.entries h)

-- What a sweep leaves of an entry.
abbrev pub swept : Limits → ℕ → Option Entry → Option Entry
swept o now none = none
swept o now (some e) = if is_quiet o now e then none else some e

swept-filtered :
    (o : Limits) (now : ℕ) (k : Text) (x : Option Entry)
    → filtered (λ (j, e). not (is_quiet o now e)) k x ≡ swept o now x
swept-filtered o now k none = refl
swept-filtered o now k (some e) = ground arith

pub lookup-sweep :
    (now : ℕ) (k : Text) (l : Limiter)
    → IsMap l
    → Map.lookup k (sweep now l).1.entries ≡ swept l.opts now (Map.lookup k l.entries)
unfolding sweep
lookup-sweep now k l h =
    ap (Map.lookup k) (drop_quiet-keep l.opts now l.entries).0
    ∙ lookup-keep (λ (j, e). not (is_quiet l.opts now e)) k l.entries h
    ∙ swept-filtered l.opts now k (Map.lookup k l.entries)

answer-swept :
    (o : Limits) (now t : ℕ) (x : Option Entry)
    → now ≤ t
    → answer o t (swept o now x) ≡ answer o t x
answer-swept o now t none h = refl
answer-swept o now t (some e) h = ground arith

counted-swept :
    (o : Limits) (now t : ℕ) (x : Option Entry)
    → now ≤ t
    → counted o t (swept o now x) ≡ counted o t x
counted-swept o now t none h = refl
counted-swept o now t (some e) h = ground arith

pub opts-sweep : (now : ℕ) (l : Limiter) → (sweep now l).1.opts ≡ l.opts
unfolding sweep
opts-sweep now l = refl

-- A sweep changes no later answer and no later delay, whatever the key.
pub sweep_invisible :
    (now t : ℕ) (k : Text) (l : Limiter)
    → IsMap l
    → now ≤ t
    → ((allow t k (sweep now l).1).0 ≡ (allow t k l).0)
      × ((fail t k (sweep now l).1).0 ≡ (fail t k l).0)
unfolding fail
sweep_invisible now t k l m h = (
  rw
      (
        allow-answer t k (sweep now l).1,
        allow-answer t k l,
        lookup-sweep now k l m,
        opts-sweep now l,
      )
      (answer-swept l.opts now t (Map.lookup k l.entries) h),
  rw (lookup-sweep now k l m, opts-sweep now l)
      (ap (λ n. delay_for l.opts (n + 1)) (counted-swept l.opts now t (Map.lookup k l.entries) h)),
)

left_fresh :
    (o : Limits) (now : ℕ) (x : Option Entry) (e : Entry)
    → swept o now x ≡ some e
    → is_quiet o now e ≡ false
left_fresh o now none e p = cc
left_fresh o now (some d) e p = ground arith

-- Where a key has one entry, as in any map, a sweep removes exactly the keys that have been quiet for
-- the forgetting time, leaves the others as they are, and returns how many it removed.
pub len-sweep :
    (now : ℕ) (l : Limiter)
    → IsMap l
    → ((sweep now l).0 + len (sweep now l).1 ≡ len l)
      × ((k : Text)
          → Map.lookup k (sweep now l).1.entries ≡ swept l.opts now (Map.lookup k l.entries))
unfolding sweep len
len-sweep now l m = ((drop_quiet-keep l.opts now l.entries).1, λ k. lookup-sweep now k l m)

-- No key that a sweep leaves has been quiet for the forgetting time.
pub sweep_fresh :
    (now : ℕ) (l : Limiter) (k : Text) (e : Entry)
    → IsMap l
    → Map.lookup k (sweep now l).1.entries ≡ some e
    → is_quiet l.opts now e ≡ false
sweep_fresh now l k e m p =
    left_fresh l.opts now (Map.lookup k l.entries) e (sym (lookup-sweep now k l m) ∙ p)
