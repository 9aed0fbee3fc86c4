-- ===== src/RateLimit/Attempts.antt =====
-- internal/ratelimit/ratelimit.go: what an attempt is told after failures, resets and other keys.
use carrel.Prelude.{
  ℕ, ◌-◌, ◌≡◌, ◌≢◌, ◌≤◌, Bool, All, refl, true, false, ◌&&◌, Option, none, some, List, [], ◌∷◌,
  if◌then◌else◌, leb, ltb, arith, Text, text_eq, ◌==◌, ==_iff, ==_refl, exists, ◌∙◌, not, ap, max,
}
use carrel.Prelude.Map
use carrel.Prelude.Map.{lookup-put, lookup-delete}
use carrel.RateLimit.{
  after, Limits, Entry, Limiter, Verdict, is_quiet, allow, allow_from, allow_all, join_verdict,
  fail, reset,
}

-- What `Allow` answers, from the entry that it finds.
abbrev pub answer : Limits → ℕ → Option Entry → Verdict
answer o now none = (true, 0)
answer o now (some e) =
    if is_quiet o now e
    then (true, 0)
    else if ltb now e.retry_at
    then (false, e.retry_at - now)
    else (true, 0)

pub allow-answer :
    (now : ℕ) (key : Text) (l : Limiter)
    → (allow now key l).0 ≡ answer l.opts now (Map.lookup key l.entries)
unfolding allow
allow-answer now key l = ground arith

pub opts-allow : (now : ℕ) (key : Text) (l : Limiter) → (allow now key l).1.opts ≡ l.opts
unfolding allow
opts-allow now key l = ground arith

-- `Allow` may drop an entry that is quiet, which changes no answer from then on.
pub allow-allow :
    (t now : ℕ) (j k : Text) (l : Limiter)
    → t ≤ now
    → (allow now j (allow t k l).1).0 ≡ (allow now j l).0
unfolding allow
allow-allow t now j k l h = ground (arith, lookup-delete k j l.entries, ==_iff k j)

-- After a failure on a key the next attempt on it waits for exactly the delay that the failure
-- returned, where a delay that has wrapped to below 0 is over at once, unless the entry has meanwhile
-- been quiet for the forgetting time; an attempt that may proceed has no wait.
pub allow-fail :
    (t now : ℕ) (key : Text) (l : Limiter)
    → (allow now key (fail t key l).1).0 ≡ (
        if leb l.opts.forget (now - t)
        then (true, 0)
        else if ltb now (after t (fail t key l).0)
        then (false, after t (fail t key l).0 - now)
        else (true, 0))
unfolding fail
allow-fail t now key l = rw (allow-answer now key (fail t key l).1) (ground (arith, ==_refl key))

-- A failure on one key changes no answer about another.
pub allow-fail_ne :
    (t now : ℕ) (key j : Text) (l : Limiter)
    → key ≢ j
    → (allow now j (fail t key l).1).0 ≡ (allow now j l).0
unfolding fail
allow-fail_ne t now key j l ne =
    rw (allow-answer now j (fail t key l).1, allow-answer now j l)
      (ground (arith, lookup-delete key j l.entries, ==_iff key j))

pub lookup-reset :
    (keys : List Text) (j : Text) (l : Limiter)
    → Map.lookup j (reset keys l).entries
      ≡ (if exists (λ k. k == j) keys then none else Map.lookup j l.entries)
unfolding reset
lookup-reset [] j l = refl
lookup-reset (k ∷ ks) j l = ground (
  arith,
  lookup-reset ks j (record l { entries = Map.delete k l.entries }),
  lookup-delete k j l.entries,
)

pub opts-reset : (keys : List Text) (l : Limiter) → (reset keys l).opts ≡ l.opts
unfolding reset
opts-reset [] l = refl
opts-reset (k ∷ ks) l = opts-reset ks (record l { entries = Map.delete k l.entries })

-- A reset lets the keys that it names proceed at once, and changes no answer about any other.
pub allow-reset :
    (keys : List Text) (now : ℕ) (j : Text) (l : Limiter)
    → (allow now j (reset keys l)).0
      ≡ (if exists (λ k. k == j) keys then (true, 0) else (allow now j l).0)
allow-reset keys now j l =
    rw (allow-answer now j (reset keys l), allow-answer now j l, opts-reset keys l)
      (ground (arith, lookup-reset keys j l))

-- The clock does not go back.
abbrev pub IsAscending : List (ℕ × Text) → Type 0
IsAscending [] = Unit
IsAscending ((t, k) ∷ reads) = All (λ (r : ℕ × Text). t ≤ r.0) reads × IsAscending reads

-- The fold of the single answers.
abbrev pub joined : List (ℕ × Text) → Verdict → Limiter → Verdict
joined [] v l = v
joined ((now, k) ∷ reads) v l = joined reads (join_verdict v (allow now k l).0) l

joined-allow :
    (t : ℕ) (reads : List (ℕ × Text)) (k : Text) (v : Verdict) (l : Limiter)
    → All (λ (r : ℕ × Text). t ≤ r.0) reads
    → joined reads v (allow t k l).1 ≡ joined reads v l
joined-allow t [] k v l h = refl
joined-allow t ((now, j) ∷ reads) k v l h =
    rw (allow-allow t now j k l h.0)
      (joined-allow t reads k (join_verdict v (allow now j l).0) l h.1)

allow_from-joined :
    (reads : List (ℕ × Text)) (v : Verdict) (l : Limiter)
    → IsAscending reads
    → (allow_from reads v l).0 ≡ joined reads v l
unfolding allow_from
allow_from-joined [] v l h = refl
allow_from-joined ((now, k) ∷ reads) v l h =
    allow_from-joined reads (join_verdict v (allow now k l).0) (allow now k l).1 h.1
    ∙ joined-allow now reads k (join_verdict v (allow now k l).0) l h.0

-- The longest wait among single answers.
abbrev pub longest_wait : List (ℕ × Text) → Limiter → ℕ
longest_wait [] l = 0
longest_wait ((now, k) ∷ reads) l = max (allow now k l).0.1 (longest_wait reads l)

-- Some key may not proceed.
abbrev pub refuses_any : List (ℕ × Text) → Limiter → Bool
refuses_any reads l = exists (λ (r : ℕ × Text). not (allow r.0 r.1 l).0.0) reads

no_wait : (now : ℕ) (k : Text) (l : Limiter) → (allow now k l).0.0 ≡ true → (allow now k l).0.1 ≡ 0
unfolding allow
no_wait now k l h = ground arith

joined_ok :
    (reads : List (ℕ × Text)) (v : Verdict) (l : Limiter)
    → (joined reads v l).0 ≡ (v.0 && not (refuses_any reads l))
joined_ok [] v l = ground arith
joined_ok ((now, k) ∷ reads) v l =
    ground (arith, joined_ok reads (join_verdict v (allow now k l).0) l)

joined_wait :
    (reads : List (ℕ × Text)) (v : Verdict) (l : Limiter)
    → (joined reads v l).1 ≡ max v.1 (longest_wait reads l)
joined_wait [] v l = omega arith
joined_wait ((now, k) ∷ reads) v l =
    joined_wait reads (join_verdict v (allow now k l).0) l ∙ ground (arith, no_wait now k l)

-- Several keys may proceed together exactly when each may proceed on its own when the clock is read
-- for it, which does not go back; otherwise the wait is the longest of theirs, and it is 0 when none
-- has to wait.
pub allow_all-joins :
    (reads : List (ℕ × Text)) (l : Limiter)
    → IsAscending reads
    → ((allow_all reads l).0.0 ≡ not (refuses_any reads l))
      × ((allow_all reads l).0.1 ≡ longest_wait reads l)
unfolding allow_all
allow_all-joins reads l h = (
  ap (λ v. v.0) (allow_from-joined reads (true, 0) l h) ∙ joined_ok reads (true, 0) l,
  ap (λ v. v.1) (allow_from-joined reads (true, 0) l h)
      ∙ joined_wait reads (true, 0) l
      ∙ omega arith,
)
