-- ===== src/Session/Scratch.antt =====
-- internal/session/scratch.go: the drafts of a session. A call returns the files it removes.
use carrel.Prelude.{
  Option, none, some, List, [], ◌∷◌, ◌++◌, if◌then◌else◌, nat_eq, length, Text, text_eq, ◌==◌,
}
use carrel.Prelude.Map
use carrel.Session.Types.{
  Session, ConflictDraft, Crop, PhotoDraft, ImportDraft, Effect, removed_file,
}

-- d, ok := m[key]; if ok { delete(m, key) }
abbrev pub taken : {A : Type 0} → Text → Map.Map Text A → Option A × Map.Map Text A
taken key m = (Map.lookup key m, Map.delete key m)

unfoldable pub put_conflict : ConflictDraft → Session → Session
put_conflict d s = record s { conflicts = Map.put d.key d s.conflicts }

unfoldable pub take_conflict : Text → Session → Option ConflictDraft × Session
take_conflict key s = let (d, rest) = taken key s.conflicts in (d, record s { conflicts = rest })

unfoldable pub peek_conflict : Text → Session → Option ConflictDraft
peek_conflict key s = Map.lookup key s.conflicts

unfoldable pub clear_conflict : Text → Session → Session
clear_conflict key s = record s { conflicts = Map.delete key s.conflicts }

-- os.Remove, unless there is no path.
abbrev pub removal : Text → List Effect
removal path = if nat_eq (length path) 0 then [] else removed_file path ∷ []

abbrev pub replaced_file : Text → Option PhotoDraft → List Effect
replaced_file path none = []
replaced_file path (some old) = if old.path == path then [] else removal old.path

unfoldable pub put_photo_draft : PhotoDraft → Session → List Effect × Session
put_photo_draft d s = (
  replaced_file d.path (Map.lookup d.key s.photos),
  record s { photos = Map.put d.key d s.photos },
)

unfoldable pub photo_draft : Text → Session → Option PhotoDraft
photo_draft key s = Map.lookup key s.photos

unfoldable pub update_photo_draft : Text → Crop → Session → Option PhotoDraft × Session
update_photo_draft key crop s = elim (Map.lookup key s.photos) [
  | none ↦ (none, s)
  | some d ↦
      let d' : PhotoDraft = record d { crop = crop } in
      (some d', record s { photos = Map.put key d' s.photos })
]

unfoldable pub take_photo_draft : Text → Session → Option PhotoDraft × Session
take_photo_draft key s = let (d, rest) = taken key s.photos in (d, record s { photos = rest })

abbrev pub file_of : Option PhotoDraft → List Effect
file_of none = []
file_of (some d) = removal d.path

unfoldable pub clear_photo_draft : Text → Session → List Effect × Session
clear_photo_draft key s =
    (file_of (Map.lookup key s.photos), record s { photos = Map.delete key s.photos })

unfoldable pub put_import : ImportDraft → Session → Session
put_import d s = record s { imports = Map.put d.key d s.imports }

unfoldable pub peek_import : Text → Session → Option ImportDraft
peek_import key s = Map.lookup key s.imports

unfoldable pub take_import : Text → Session → Option ImportDraft × Session
take_import key s = let (d, rest) = taken key s.imports in (d, record s { imports = rest })

unfoldable pub clear_import : Text → Session → Session
clear_import key s = record s { imports = Map.delete key s.imports }

abbrev pub removals : Map.Map Text PhotoDraft → List Effect
removals [] = []
removals ((k, d) ∷ photos) = removal d.path ++ removals photos

unfoldable pub wipe_scratch : Session → List Effect × Session
wipe_scratch s =
    (removals s.photos, record s { photos = []; conflicts = []; imports = []; losses = none })
