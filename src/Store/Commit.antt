-- ===== src/Store/Commit.antt =====
-- internal/store/store.go: `update` writes the new state to the volume before it becomes visible.
use carrel.Prelude.{true, ℕ, ◌≡◌, refl, sym, ◌∙◌, ap, inl, inr, Option-cases, some, arith}
use carrel.Errors.{Error, Result, ok, err, Result-cases}
use carrel.Random.{Bytes, Draw, pure}
use carrel.Crypto.{aad_state}
use carrel.Crypto.Laws.{unseal-seal}
use carrel.Store.Types.{State, state_version}
use carrel.Store.Volume.{Volume, write_atomic}
use carrel.Store.Replacement.{Replaced, replaced, kept, write_atomic-Replaced}
use carrel.Store.Base.{
  Env, IsLawful, World, Store, update, landed, commit, clone_state, sealed_state, load,
}

clone_state-ok : (env : Env) → IsLawful env → (s c : State) → clone_state env s ≡ ok c → c ≡ s
clone_state-ok env laws s c h = elim (Option-cases (env.encode s)) [
  | inl e ↦ absurd (ground arith)
  | inr (raw, e) ↦ ground (arith, laws.decode-encode s e)
]

-- What became of an update: it failed, and neither the state nor the state file has changed; or it
-- made its change of the state, and the state file holds the new state, sealed.
pub data Outcome {A : Type 0} (env : Env) (s : Store) (change : State → Draw (A × State))
    (r : Result A × Store) : Type 0 where
  refused :
      (e : Error) (v : Volume)
      → r ≡ (err e, record s { volume = v })
      → v.file ≡ s.volume.file
      → Outcome env s change r
  written :
      (a : A) (next : State) (sealed : Bytes) (t t' u u' : Bytes)
      → change s.state t ≡ ok ((a, next), t')
      → sealed_state env s.key next u ≡ ok (sealed, u')
      → r ≡ (
        ok a,
        record s { state = next; volume = record s.volume { file = some sealed; flushed = true } },
      )
      → Outcome env s change r

load-sealed :
    (env : Env) (laws : IsLawful env) (now : ℕ) (key : Bytes) (next : State) (v : Volume)
    (sealed u u' : Bytes)
    → next.version ≡ state_version
    → sealed_state env key next u ≡ ok (sealed, u')
    → load env now key (record v { file = some sealed; flushed = true }) ≡ ok next
unfolding load
load-sealed env laws now key next v sealed u u' current h = elim (Option-cases (env.encode next)) [
  | inl e ↦ absurd (ground arith)
  | inr (raw, e) ↦
      let opens =
        unseal-seal env.crypto laws.crypto key raw aad_state u {c = sealed} {rest = u'}
          (ground arith) in
      ground (arith, opens.0, laws.decode-encode next e, current)
]

module _ {A : Type 0} (env : Env) (laws : IsLawful env) (w : World) (s : Store) where
  commit-Outcome :
      (change : State → Draw (A × State)) (a : A) (next : State) (sealed : Bytes)
      (t t' u u' : Bytes)
      → change s.state t ≡ ok ((a, next), t')
      → sealed_state env s.key next u ≡ ok (sealed, u')
      → Outcome env s change (commit w.faults s a next sealed)
  commit-Outcome change a next sealed t t' u u' h k =
      go (write_atomic w.faults sealed s.volume) (write_atomic-Replaced w.faults sealed s.volume).0
        refl
    where
      go :
          (x : Result (Unit {0}) × Volume)
          → Replaced w.faults sealed s.volume x
          → write_atomic w.faults sealed s.volume ≡ x
          → Outcome env s change (commit w.faults s a next sealed)
      go x (replaced n p) q =
          Outcome.written a next sealed t t' u u' h k (ap (landed s a next) (q ∙ p))
      go x (kept e v n p same _ _) q = Outcome.refused e v (ap (landed s a next) (q ∙ p)) same

  -- An update either fails and leaves the state and the state file as they were, or it makes the
  -- change that it was given to the state, and the state file then holds the new state, sealed.
  pub update-Outcome :
      (change : State → Draw (A × State)) → Outcome env s change (update env w s change)
  unfolding update
  update-Outcome change = elim (Result-cases (clone_state env s.state)) [
    | inl (e, c) ↦ Outcome.refused e s.volume (ground arith) refl
    | inr (copy, c) ↦
        let copy≡ = clone_state-ok env laws s.state copy c in
        elim (Result-cases (change copy w.tape)) [
          | inl (e, h) ↦ Outcome.refused e s.volume (ground arith) refl
          | inr (((a, next), t), h) ↦ elim (Result-cases (sealed_state env s.key next t)) [
            | inl (e, k) ↦ Outcome.refused e s.volume (ground arith) refl
            | inr ((sealed, u), k) ↦
                let q : update env w s change ≡ commit w.faults s a next sealed = ground arith in
                rw q (commit-Outcome change a next sealed w.tape t t u (rw (← copy≡) h) k)
          ]
        ]
  ]

  -- After an update that succeeds, opening the volume anew gives the state that it made, when that
  -- state has the current version.
  pub load-update :
      (change : State → Draw (A × State)) (now : ℕ) (a : A) (s' : Store)
      → update env w s change ≡ (ok a, s')
      → s'.state.version ≡ state_version
      → load env now s'.key s'.volume ≡ ok s'.state
  load-update change now a s' h current = go (update-Outcome change)
    where
      go :
          Outcome env s change (update env w s change) → load env now s'.key s'.volume ≡ ok s'.state
      go (refused e v p same) = absurd (ground (arith, h, p))
      go (written b next sealed t t' u u' c k p) =
          let s≡ : s' ≡ record s {
            state = next;
            volume = record s.volume { file = some sealed; flushed = true };
          } =
            ground (arith, h, p) in
          rw s≡ (
            load-sealed env laws now s.key next s.volume sealed u u'
              (ap (λ (x : Store). x.state.version) (sym s≡) ∙ current) k)

  -- After an update that fails, the state is the old one, and opening the volume anew gives what it
  -- gave before.
  pub load-update_err :
      (change : State → Draw (A × State)) (now : ℕ) (e : Error) (s' : Store)
      → update env w s change ≡ (err e, s')
      → (s'.state ≡ s.state) × (load env now s'.key s'.volume ≡ load env now s.key s.volume)
  unfolding load
  load-update_err change now e s' h = go (update-Outcome change)
    where
      go :
          Outcome env s change (update env w s change)
          → (s'.state ≡ s.state) × (load env now s'.key s'.volume ≡ load env now s.key s.volume)
      go (refused x v p same) =
          let s≡ : s' ≡ record s { volume = v } = ground (arith, h, p) in rw (s≡, same) (refl, refl)
      go (written b next sealed t t' u u' c k p) = absurd (ground (arith, h, p))

  -- An update that succeeds has made its change of the state.
  pub update-ok :
      (change : State → Draw (A × State)) (a : A) (s' : Store)
      → update env w s change ≡ (ok a, s')
      → (t : Bytes) × (t' : Bytes) × (change s.state t ≡ ok ((a, s'.state), t'))
  update-ok change a s' h = go (update-Outcome change)
    where
      go :
          Outcome env s change (update env w s change)
          → (t : Bytes) × (t' : Bytes) × (change s.state t ≡ ok ((a, s'.state), t'))
      go (refused e v p same) = absurd (ground (arith, h, p))
      go (written b next sealed t t' u u' c k p) =
          let a≡ : b ≡ a = ground (arith, h, p) in
          let s≡ : next ≡ s'.state = ground (arith, h, p) in (t, t', rw (a≡, s≡) at c)

-- Any state can be stored in that world: it can be marshalled and sealed, and no call fails.
abbrev pub CanStore : Env → World → Store → Type 0
CanStore env w s = (next : State) → (update env w s (λ st. pure (tt, next))).0 ≡ ok tt

landed-ok :
    {A : Type 0} (s : Store) (a : A) (next : State) (x : Result (Unit {0}) × Volume)
    → (landed s tt next x).0 ≡ ok tt
    → (after : Store) × (landed s a next x ≡ (ok a, after)) × (after.state ≡ next)
landed-ok s a next (ok done, v) h = (record s { volume = v; state = next }, refl, refl)
landed-ok s a next (err e, v) h = absurd (ground arith)

-- Where any state can be stored, an update whose change succeeds without random bytes succeeds.
pub update-CanStore :
    {A : Type 0} (env : Env) (laws : IsLawful env) (w : World) (s : Store)
    (change : State → Draw (A × State)) (a : A) (next : State)
    → CanStore env w s
    → ((t : Bytes) → change s.state t ≡ ok ((a, next), t))
    → (after : Store) × (update env w s change ≡ (ok a, after)) × (after.state ≡ next)
unfolding update
update-CanStore env laws w s change a next stores goes =
    let stored = stores next in
    elim (Result-cases (clone_state env s.state)) [
      | inl (e, c) ↦ absurd (ground (arith, stored))
      | inr (copy, c) ↦
          let copy≡ = clone_state-ok env laws s.state copy c in
          let h : change copy w.tape ≡ ok ((a, next), w.tape) =
            ap (λ x. change x w.tape) copy≡ ∙ goes w.tape in
          elim (Result-cases (sealed_state env s.key next w.tape)) [
            | inl (e, k) ↦ absurd (ground (arith, stored))
            | inr ((sealed, u), k) ↦
                let written = write_atomic w.faults sealed s.volume in
                let idle : (landed s tt next written).0 ≡ ok tt = ground (arith, stored) in
                let (after, p, n) = landed-ok s a next written idle in
                let q : update env w s change ≡ landed s a next written = ground arith in
                (after, q ∙ p, n)
          ]
    ]
