-- ===== src/RateLimit/Examples.antt =====
-- internal/ratelimit/ratelimit.go at concrete inputs.
use carrel.Prelude.{
  ℕ, ◌+◌, ◌-◌, ◌*◌, ◌^◌, ◌≡◌, refl, true, false, not, List, [], ◌∷◌, if◌then◌else◌, leb, ltb, min,
  arith, Text, text, text_eq, pos, negsuc, exists, ◌==◌,
}
use carrel.Prelude.Map
use carrel.RateLimit.{
  after, Options, Limiter, new, second, allow, allow_all, delay_for, fail, fail_all, reset, sweep,
  len,
}
use carrel.RateLimit.Delay.{delay_for-min}
use carrel.RateLimit.Attempts.{
  allow-fail, allow-fail_ne, allow-reset, allow_all-joins, longest_wait, refuses_any,
}
use carrel.RateLimit.Sweeping.{IsMap, sweep_invisible, swept, len-sweep}
use carrel.RateLimit.History.{fail-run, fails, allows, resets, sweeps, failures_of, run, Call}

abbrev login_options : Options
login_options = record { free = pos 0; base = negsuc 4; max_delay = pos 0; forget = pos 0 }

abbrev limiter : Limiter
unfolding new
limiter = new login_options

abbrev address : Text
address = text "10.0.0.7"

abbrev account : Text
account = text "alice"

-- Five failures, one a second, on the address; one on the account.
abbrev tried : Limiter
unfolding new fail fail_all
tried =
    (fail (5 * second) address
      (fail (4 * second) address
        (fail (3 * second) address
          (fail (2 * second) address
            (fail second address (fail_all ((second, account) ∷ []) limiter)).1).1).1).1).1

tried-waits : (allow (6 * second) address tried).0 ≡ (false, 3 * second)
unfolding tried allow delay_for
tried-waits = refl

delay_for-min_example :
    delay_for (tried.opts) 6 ≡ (if leb 6 3 then 0 else min (300 * second) (2 * second * 2 ^ 2))
unfolding tried
delay_for-min_example = delay_for-min tried.opts 6 (omega arith) (omega arith)

allow-fail_example : (allow (9 * second) address (fail (7 * second) address tried).1).0 ≡ (
    if leb tried.opts.forget (9 * second - 7 * second)
    then (true, 0)
    else if ltb (9 * second) (after (7 * second) (fail (7 * second) address tried).0)
    then (false, after (7 * second) (fail (7 * second) address tried).0 - 9 * second)
    else (true, 0))
allow-fail_example = allow-fail (7 * second) (9 * second) address tried

allow-fail_ne_example :
    (allow (9 * second) account (fail (7 * second) address tried).1).0
    ≡ (allow (9 * second) account tried).0
allow-fail_ne_example = allow-fail_ne (7 * second) (9 * second) address account tried (λ e. cc e)

allow-reset_example : (allow (6 * second) address (reset (account ∷ address ∷ []) tried)).0 ≡ (
    if exists (λ k. k == address) (account ∷ address ∷ [])
    then (true, 0)
    else (allow (6 * second) address tried).0)
allow-reset_example = allow-reset (account ∷ address ∷ []) (6 * second) address tried

-- The address and the account, the clock read a nanosecond later for the second.
abbrev reads : List (ℕ × Text)
reads = (6 * second, address) ∷ (6 * second + 1, account) ∷ []

allow_all-joins_example :
    ((allow_all reads tried).0.0 ≡ not (refuses_any reads tried))
    × ((allow_all reads tried).0.1 ≡ longest_wait reads tried)
allow_all-joins_example = allow_all-joins reads tried ((omega arith, tt), (tt, tt))

-- At a base delay of 2 ^ 62 the first doubling gives a negative delay, which is over at once.
abbrev wide : Limiter
unfolding new
wide =
    new (record { free = pos 1; base = pos (2 ^ 62); max_delay = pos (2 ^ 63 - 1); forget = pos 0 })

wide-allows :
    (allow 9 address (fail 8 address (fail 7 address (fail 6 address wide).1).1).1).0 ≡ (true, 0)
unfolding wide allow fail delay_for
wide-allows = refl

tried-IsMap : IsMap tried
unfolding tried Map.lookup Map.delete
tried-IsMap = (refl, (refl, tt))

sweep_invisible_example :
    ((allow (8 * second) address (sweep (7 * second) tried).1).0
      ≡ (allow (8 * second) address tried).0)
    × ((fail (8 * second) address (sweep (7 * second) tried).1).0
        ≡ (fail (8 * second) address tried).0)
sweep_invisible_example =
    sweep_invisible (7 * second) (8 * second) address tried tried-IsMap (omega arith)

len-sweep_example :
    ((sweep (4000 * second) tried).0 + len (sweep (4000 * second) tried).1 ≡ len tried)
    × ((k : Text)
        → Map.lookup k (sweep (4000 * second) tried).1.entries
          ≡ swept tried.opts (4000 * second) (Map.lookup k tried.entries))
len-sweep_example = len-sweep (4000 * second) tried tried-IsMap

-- Between the failures of the address: attempts, another key's failure and reset, and a sweep.
abbrev mixed : List Call
mixed =
    fails (2 * second) address
    ∷ allows (3 * second) address
    ∷ fails (3 * second) account
    ∷ fails (4 * second) address
    ∷ resets (account ∷ [])
    ∷ sweeps (5 * second)
    ∷ fails (6 * second) address
    ∷ []

mixed-delay : (fail (7 * second) address (run limiter mixed)).0 ≡ 2 * second
unfolding limiter run fail delay_for allow reset sweep
mixed-delay = refl

fail-run_example :
    (fail (7 * second) address (run limiter mixed)).0
    ≡ delay_for limiter.opts (failures_of address mixed + 1)
unfolding limiter Map.lookup
fail-run_example =
    fail-run second (7 * second) address limiter mixed tt refl (ground arith) (omega arith)
      (omega arith)
