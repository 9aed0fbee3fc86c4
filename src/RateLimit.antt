-- ===== src/RateLimit.antt =====
-- internal/ratelimit/ratelimit.go: the limiter that slows down guessing at a secret.
-- A time is a number of nanoseconds, an argument of each call. Durations are int64: the doubling
-- of a delay keeps its wrap-around, and a word from 2 ^ 63 on stands for a negative one. The count
-- of failures, an int, is left unbounded.
pub mod Delay
pub mod Attempts
pub mod Sweeping
pub mod History
mod Examples
use carrel.Prelude.{
  ℕ, zero, suc, ◌+◌, ◌-◌, ◌*◌, ◌%◌, ◌^◌, Bool, true, false, ◌&&◌, ◌||◌, not, ◌⊎◌, inl, inr, Option,
  none, some, List, [], ◌∷◌, if◌then◌else◌, ltb, leb, ℤ, positive_or, Text, text_eq, keep, length,
}
use carrel.Prelude.Map
use carrel.Prelude.Map.{Map}

pub record Options : Type 0 where
  pub free : ℤ
  pub base : ℤ
  pub max_delay : ℤ
  pub forget : ℤ

-- Options once the defaults are filled in.
pub record Limits : Type 0 where
  pub free : ℕ
  pub base : ℕ
  pub max_delay : ℕ
  pub forget : ℕ

abbrev pub second : ℕ
second = 1_000_000_000

abbrev pub default_free : ℕ
default_free = 3

abbrev pub default_base : ℕ
default_base = 2 * second

abbrev pub default_max : ℕ
default_max = 300 * second

abbrev pub default_forget : ℕ
default_forget = 3600 * second

unfoldable pub with_defaults : Options → Limits
with_defaults o = record {
  free = positive_or o.free default_free;
  base = positive_or o.base default_base;
  max_delay = positive_or o.max_delay default_max;
  forget = positive_or o.forget default_forget;
}

pub record Entry : Type 0 where
  pub failures : ℕ
  pub retry_at : ℕ
  pub seen : ℕ

pub record Limiter : Type 0 where
  pub opts : Limits
  pub entries : Map Text Entry

unfoldable pub new : Options → Limiter
unfolding with_defaults
new o = record { opts = with_defaults o; entries = [] }

abbrev pub word : ℕ
word = 2 ^ 64

-- `a < b` on int64 words, for a `b` that is not negative.
abbrev pub below : ℕ → ℕ → Bool
below a b = ltb a b || leb (2 ^ 63) a

-- The rounds of the loop that are left, the cap, and the delay so far. `none`: the loop ran out;
-- `some d`: it returned `d`.
unfoldable pub grow : ℕ → ℕ → ℕ → ℕ ⊎ ℕ
grow zero cap delay = inl delay
grow (suc rounds) cap delay =
    let doubled = (delay * 2) % word in
    let rest = grow rounds cap doubled in if below doubled cap then rest else inr cap

-- What follows the loop: `if delay > l.opts.Max { return l.opts.Max }`.
abbrev pub cap_delay : ℕ → ℕ ⊎ ℕ → ℕ
cap_delay cap (inl delay) = if ltb cap delay && ltb delay (2 ^ 63) then cap else delay
cap_delay cap (inr returned) = returned

unfoldable pub delay_for : Limits → ℕ → ℕ
unfolding grow
delay_for l failures =
    if leb failures l.free
    then 0
    else cap_delay l.max_delay (grow (failures - l.free - 1) l.max_delay l.base)

-- `now.Sub(e.seen) >= l.opts.Forget`, at a `Forget` above 0.
abbrev pub is_quiet : Limits → ℕ → Entry → Bool
is_quiet l now e = leb l.forget (now - e.seen)

-- One attempt: whether it may proceed, and the wait if not.
abbrev pub Verdict : Type 0
Verdict = Bool × ℕ

unfoldable pub allow : ℕ → Text → Limiter → Verdict × Limiter
unfolding Map.lookup Map.delete
allow now key l = elim (Map.lookup key l.entries) [
  | none ↦ ((true, 0), l)
  | some e ↦
      if is_quiet l.opts now e
      then ((true, 0), record l { entries = Map.delete key l.entries })
      else if ltb now e.retry_at
      then ((false, e.retry_at - now), l)
      else ((true, 0), l)
]

-- The fold of `AllowAll` over the verdicts.
abbrev pub join_verdict : Verdict → Verdict → Verdict
join_verdict (ok, longest) (allowed, wait) =
    if allowed then (ok, longest) else (false, if ltb longest wait then wait else longest)

-- Each key comes with what the clock reads when its `Allow` is called: the lock is taken and the
-- clock is read once for each key.
unfoldable pub allow_from : List (ℕ × Text) → Verdict → Limiter → Verdict × Limiter
unfolding allow
allow_from [] v l = (v, l)
allow_from ((now, k) ∷ reads) v l =
    let (w, l') = allow now k l in allow_from reads (join_verdict v w) l'

unfoldable pub allow_all : List (ℕ × Text) → Limiter → Verdict × Limiter
unfolding allow_from
allow_all reads l = allow_from reads (true, 0) l

-- The entry that `Fail` counts in: a fresh one if there is none or it has been quiet.
abbrev pub counted : Limits → ℕ → Option Entry → ℕ
counted l now none = 0
counted l now (some e) = if is_quiet l now e then 0 else e.failures

-- `now.Add(delay)` of a delay that is an int64 word: a word from 2 ^ 63 on is negative and leads
-- back. A time before 0 is taken for 0, which no reading of the clock comes before either.
abbrev pub after : ℕ → ℕ → ℕ
after now delay = if ltb delay (2 ^ 63) then now + delay else now - (word - delay)

-- That entry with the failure counted, and the end of the delay in force.
abbrev pub failed_entry : Limits → ℕ → Option Entry → Entry
failed_entry l now o =
    let failures = counted l now o + 1 in
    record { failures = failures; retry_at = after now (delay_for l failures); seen = now }

unfoldable pub fail : ℕ → Text → Limiter → ℕ × Limiter
unfolding Map.lookup Map.put
fail now key l =
    let e = failed_entry l.opts now (Map.lookup key l.entries) in
    (delay_for l.opts e.failures, record l { entries = Map.put key e l.entries })

unfoldable pub fail_all : List (ℕ × Text) → Limiter → Limiter
unfolding fail
fail_all [] l = l
fail_all ((now, k) ∷ reads) l = fail_all reads (fail now k l).1

unfoldable pub reset : List Text → Limiter → Limiter
unfolding Map.delete
reset [] l = l
reset (k ∷ ks) l = reset ks (record l { entries = Map.delete k l.entries })

-- The loop of `Sweep`, with its counter.
unfoldable pub drop_quiet : Limits → ℕ → Map Text Entry → ℕ × Map Text Entry
drop_quiet o now [] = (0, [])
drop_quiet o now ((k, e) ∷ m) =
    let (n, rest) = drop_quiet o now m in
    if is_quiet o now e then (n + 1, rest) else (n, (k, e) ∷ rest)

unfoldable pub sweep : ℕ → Limiter → ℕ × Limiter
unfolding drop_quiet
sweep now l = let (n, kept) = drop_quiet l.opts now l.entries in (n, record l { entries = kept })

unfoldable pub len : Limiter → ℕ
len l = length l.entries
