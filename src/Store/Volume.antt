-- ===== src/Store/Volume.antt =====
-- internal/store/store.go, writeAtomic: the state file is replaced in one step.
use carrel.Prelude.{ℕ, Bool, true, false, Option, some, List, [], ◌∷◌, if◌then◌else◌, take}
use carrel.Errors.{Result, ok, err, write_failed}
use carrel.Random.{Bytes}

-- A temporary file: what is in it, and whether that has been flushed to the disk.
pub record TempFile : Type 0 where
  pub content : Bytes
  pub flushed : Bool

-- The state file, whether it has been flushed, and the temporary files beside it, the last one made
-- first: their names are random, and none has the name of another.
pub record Volume : Type 0 where
  pub file : Option Bytes
  pub flushed : Bool
  pub temps : List TempFile

pub data Stage : Type 0 where
  create chmod write sync close rename remove : Stage

-- The system calls that fail, and how much a failing write has written. A `Chmod` that the system
-- does not support is no failure.
pub record Faults : Type 0 where
  pub fails : Stage → Bool
  pub written : ℕ

-- The volume, and what it was before each call that changed it, the last first.
pub record Disk : Type 0 where
  pub volume : Volume
  pub past : List Volume

-- What the system calls do to the volume when they succeed.
abbrev pub make_temp : Volume → Volume
make_temp v = record v { temps = record { content = []; flushed = false } ∷ v.temps }

abbrev pub on_temp : (TempFile → TempFile) → List TempFile → List TempFile
on_temp f [] = []
on_temp f (t ∷ ts) = f t ∷ ts

abbrev pub write_temp : Bytes → Volume → Volume
write_temp b v = record v {
  temps = on_temp (λ t. record t { content = b; flushed = false }) v.temps;
}

abbrev pub sync_temp : Volume → Volume
sync_temp v = record v { temps = on_temp (λ t. record t { flushed = true }) v.temps }

abbrev pub others : List TempFile → List TempFile
others [] = []
others (t ∷ ts) = ts

abbrev pub remove_temp : Volume → Volume
remove_temp v = record v { temps = others v.temps }

abbrev pub rename_from : List TempFile → Volume → Volume
rename_from [] v = v
rename_from (t ∷ ts) v = record v { file = some t.content; flushed = t.flushed; temps = ts }

abbrev pub rename_temp : Volume → Volume
rename_temp v = rename_from v.temps v

abbrev pub unchanged : Volume → Volume
unchanged v = v

abbrev pub act : (Volume → Volume) → Disk → Disk
act change d = record { volume = change d.volume; past = d.volume ∷ d.past }

abbrev pub Ending : Type 0
Ending = Result (Unit {0}) × Disk

-- `if err := call; err != nil { return … }`, and what comes after it.
abbrev pub call :
    Faults → Stage → (Volume → Volume) → (Disk → Ending) → (Disk → Ending) → Disk → Ending
call f stage change failed next d = if f.fails stage then failed d else next (act change d)

abbrev pub refused : Disk → Ending
refused d = (err write_failed, d)

-- os.Remove(tmpName), its error ignored, before the error is returned.
abbrev pub cleanup : Faults → Disk → Ending
cleanup f d = (err write_failed, if f.fails remove then d else act remove_temp d)

unfoldable pub write_calls : Faults → Bytes → Disk → Ending
write_calls f data' = call f create make_temp refused (
    call f chmod unchanged (cleanup f) (
      call f write (write_temp data') (λ d. cleanup f (act (write_temp (take f.written data')) d))
        (call f sync sync_temp (cleanup f) (
          call f close unchanged (cleanup f)
            (call f rename rename_temp (cleanup f) (λ d. (ok tt, d)))))))

unfoldable pub write_atomic : Faults → Bytes → Volume → Result (Unit {0}) × Volume
unfolding write_calls
write_atomic f data' v =
    let (r, d) = write_calls f data' (record { volume = v; past = [] }) in (r, d.volume)
