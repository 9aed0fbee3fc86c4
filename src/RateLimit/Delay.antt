-- ===== src/RateLimit/Delay.antt =====
-- internal/ratelimit/ratelimit.go: the doubling delay of `delayFor`, in closed form.
use native.Mathlib.Nat.{pow-suc, le_trans}
use carrel.Prelude.{
  ℕ, zero, suc, ◌-◌, ◌*◌, ◌^◌, ◌<◌, ◌≤◌, min, ◌≡◌, inl, inr, true, false, if◌then◌else◌, leb, ltb,
  ap, ◌%◌, arith, Bool-cases,
}
use carrel.RateLimit.{Limits, word, below, grow, cap_delay, delay_for}

pub pow-pos : (r : ℕ) → 1 ≤ 2 ^ r
pow-pos zero = omega arith
pow-pos (suc r) = omega (arith, pow-suc 2 r, pow-pos r)

doubled_pow : (d r : ℕ) → d * 2 * 2 ^ r ≡ d * 2 ^ suc r
doubled_pow d r = rw (pow-suc 2 r) (omega arith)

no_wrap : (d : ℕ) → d < 2 ^ 62 → (d * 2) % word ≡ d * 2
no_wrap d h = omega arith

low_below : (d cap : ℕ) → d < 2 ^ 62 → ltb (d * 2) cap ≡ true → below (d * 2) cap ≡ true
low_below d cap h low = ground arith

high_below : (d cap : ℕ) → d < 2 ^ 62 → ltb (d * 2) cap ≡ false → below (d * 2) cap ≡ false
high_below d cap h high = ground arith

-- A cap that `d * 2` reaches is reached by every further doubling.
reaches : (d cap r : ℕ) → cap ≤ d * 2 → cap ≤ d * 2 * 2 ^ r
reaches d cap r h = le_trans h (grind (arith, pow-pos r))

grow-min :
    (rounds cap d : ℕ)
    → cap < 2 ^ 62
    → d < 2 ^ 62
    → cap_delay cap (grow rounds cap d) ≡ min cap (d * 2 ^ rounds)
unfolding grow
grow-min zero cap d hc hd = ground arith
grow-min (suc r) cap d hc hd = elim (Bool-cases (ltb (d * 2) cap)) [
  | inl low ↦
      rw (no_wrap d hd, low_below d cap hd low)
        (omega (arith, grow-min r cap (d * 2) hc (ground arith), doubled_pow d r))
  | inr high ↦
      rw (no_wrap d hd, high_below d cap hd high)
        (omega (arith, doubled_pow d r, reaches d cap r (ground arith)))
]

-- Below 2 ^ 62 nanoseconds, which is 146 years, the delay after a number of failures is nothing
-- while they are forgiven, and then the base delay, doubled for each further failure and capped.
pub delay_for-min :
    (l : Limits) (failures : ℕ)
    → l.max_delay < 2 ^ 62
    → l.base < 2 ^ 62
    → delay_for l failures
      ≡ (if leb failures l.free then 0 else min l.max_delay (l.base * 2 ^ (failures - l.free - 1)))
unfolding delay_for
delay_for-min l failures hc hb =
    ap (λ d. if leb failures l.free then 0 else d)
      (grow-min (failures - l.free - 1) l.max_delay l.base hc hb)

-- No delay passes the cap.
pub delay_for-le-max :
    (l : Limits) (failures : ℕ)
    → l.max_delay < 2 ^ 62
    → l.base < 2 ^ 62
    → delay_for l failures ≤ l.max_delay
delay_for-le-max l failures hc hb = ground (arith, delay_for-min l failures hc hb)
