-- ===== src/Store/Replacement.antt =====
-- internal/store/store.go, writeAtomic: what becomes of the state file, whichever calls fail.
use carrel.Prelude.{
  Bool, Bool-cases, true, false, ◌||◌, ◌⊎◌, ◌≡◌, refl, inl, inr, some, List, [], ◌∷◌, All, take,
  arith,
}
use carrel.Errors.{Error, Result, ok, err, write_failed}
use carrel.Random.{Bytes}
use carrel.Store.Volume.{
  Volume, TempFile, Disk, Faults, call, unchanged, rename_temp, cleanup, write_calls, write_atomic,
  create, chmod, write, sync, close, rename, remove,
}

-- Some call of writeAtomic fails, other than the removal of the temporary file.
abbrev pub fails_any : Faults → Bool
fails_any f =
    f.fails create
    || f.fails chmod
    || f.fails write
    || f.fails sync
    || f.fails close
    || f.fails rename

-- Nothing is left over, or a temporary file that could not be removed.
abbrev pub LeftOver : Faults → Volume → Volume → Type 0
LeftOver f v v' =
    (v'.temps ≡ v.temps) ⊎ ((f.fails remove ≡ true) × ((t : TempFile) × (v'.temps ≡ t ∷ v.temps)))

-- What became of a replacement of the state file.
pub data Replaced (f : Faults) (b : Bytes) (v : Volume) (r : Result (Unit {0}) × Volume)
    : Type 0 where
  replaced :
      fails_any f ≡ false
      → r ≡ (ok tt, record v { file = some b; flushed = true })
      → Replaced f b v r
  kept :
      (e : Error) (v' : Volume)
      → fails_any f ≡ true
      → r ≡ (err e, v')
      → v'.file ≡ v.file
      → v'.flushed ≡ v.flushed
      → LeftOver f v v'
      → Replaced f b v r

-- A volume whose state file is the old one, or the new one, whole and flushed.
abbrev pub IsWhole : Bytes → Volume → Volume → Type 0
IsWhole b v x =
    ((x.file ≡ v.file) × (x.flushed ≡ v.flushed)) ⊎ ((x.file ≡ some b) × (x.flushed ≡ true))

-- What the volume is at the end, and was before each call.
abbrev pub points : Disk → List Volume
points d = d.volume ∷ d.past

-- The removal before an error is returned changes nothing of the state file.
cleanup-Replaced :
    (f : Faults) (b : Bytes) (v : Volume) (t : TempFile) (past : List Volume)
    → fails_any f ≡ true
    → All (IsWhole b v) past
    → let d : Disk = record { volume = record v { temps = t ∷ v.temps }; past = past } in
      Replaced f b v ((cleanup f d).0, (cleanup f d).1.volume)
      × All (IsWhole b v) (points (cleanup f d).1)
cleanup-Replaced f b v t past n h =
    let same : IsWhole b v v = inl (refl, refl) in
    let beside : IsWhole b v (record v { temps = t ∷ v.temps }) = inl (refl, refl) in
    elim (Bool-cases (f.fails remove)) [
      | inl e ↦ rw e (
        Replaced.kept write_failed (record v { temps = t ∷ v.temps }) n refl refl refl
            (inr (e, (t, refl))),
        (beside, h),
      )
      | inr e ↦ rw e (Replaced.kept write_failed v n refl refl refl (inl refl), (same, (beside, h)))
    ]

-- What is left once the new content has been flushed: the temporary file is closed and renamed.
closed-Replaced :
    (f : Faults) (b : Bytes) (v : Volume) (past : List Volume)
    → (f.fails create ≡ false)
      × (f.fails chmod ≡ false)
      × (f.fails write ≡ false)
      × (f.fails sync ≡ false)
    → All (IsWhole b v) past
    → let full : Volume = record v { temps = record { content = b; flushed = false } ∷ v.temps } in
      let safe : Volume = record v { temps = record { content = b; flushed = true } ∷ v.temps } in
      let r =
        call f close unchanged
          (cleanup f)
          (call f rename rename_temp (cleanup f) (λ d. (ok tt, d)))
          (record { volume = safe; past = full ∷ past }) in
      Replaced f b v (r.0, r.1.volume) × All (IsWhole b v) (points r.1)
closed-Replaced f b v past (e1, e2, e3, e4) h =
    let safe : TempFile = record { content = b; flushed = true } in
    let full : Volume = record v { temps = record { content = b; flushed = false } ∷ v.temps } in
    let ready : Volume = record v { temps = safe ∷ v.temps } in
    let old : IsWhole b v full = inl (refl, refl) in
    let still : IsWhole b v ready = inl (refl, refl) in
    elim (Bool-cases (f.fails close)) [
      | inl e5 ↦ rw e5 (cleanup-Replaced f b v safe (full ∷ past) (ground (arith, e5)) (old, h))
      | inr e5 ↦ elim (Bool-cases (f.fails rename)) [
        | inl e6 ↦
            rw (e5, e6)
              (cleanup-Replaced f b v safe (ready ∷ full ∷ past) (ground (arith, e6))
                (still, (old, h)))
        | inr e6 ↦
            rw (e5, e6)
              (
                Replaced.replaced (ground (arith, e1, e2, e3, e4, e5, e6)) refl,
                (inr (refl, refl), (still, (still, (old, h)))),
              )
      ]
    ]

-- When no call fails, the state file has the new content, flushed, and no new temporary file is left.
-- When any call other than the removal fails, whichever it is, an error is returned and the state file
-- is the old one; a new temporary file is left only when its removal fails too. At every point on the
-- way the state file is the whole old one or the whole new one, flushed.
pub write_atomic-Replaced :
    (f : Faults) (b : Bytes) (v : Volume)
    → Replaced f b v (write_atomic f b v)
      × All (IsWhole b v) (points (write_calls f b (record { volume = v; past = [] })).1)
unfolding write_atomic write_calls
write_atomic-Replaced f b v =
    let empty : TempFile = record { content = []; flushed = false } in
    let part : TempFile = record { content = take f.written b; flushed = false } in
    let full : TempFile = record { content = b; flushed = false } in
    let with_temp : TempFile → Volume = λ t. record v { temps = t ∷ v.temps } in
    let old : (t : TempFile) → IsWhole b v (with_temp t) = λ t. inl (refl, refl) in
    let start : IsWhole b v v = inl (refl, refl) in
    elim (Bool-cases (f.fails create)) [
      | inl e1 ↦
          rw e1 (
            Replaced.kept write_failed v (ground (arith, e1)) refl refl refl (inl refl),
            (start, tt),
          )
      | inr e1 ↦ elim (Bool-cases (f.fails chmod)) [
        | inl e2 ↦
            rw (e1, e2) (cleanup-Replaced f b v empty (v ∷ []) (ground (arith, e2)) (start, tt))
        | inr e2 ↦ elim (Bool-cases (f.fails write)) [
          | inl e3 ↦
              rw (e1, e2, e3)
                (cleanup-Replaced f b v part (with_temp empty ∷ with_temp empty ∷ v ∷ [])
                  (ground (arith, e3)) (old empty, (old empty, (start, tt))))
          | inr e3 ↦ elim (Bool-cases (f.fails sync)) [
            | inl e4 ↦
                rw (e1, e2, e3, e4)
                  (cleanup-Replaced f b v full (with_temp empty ∷ with_temp empty ∷ v ∷ [])
                    (ground (arith, e4)) (old empty, (old empty, (start, tt))))
            | inr e4 ↦
                rw (e1, e2, e3, e4)
                  (closed-Replaced f b v (with_temp empty ∷ with_temp empty ∷ v ∷ [])
                    (e1, e2, e3, e4) (old empty, (old empty, (start, tt))))
          ]
        ]
      ]
    ]
