-- ===== src/Session/Endings.antt =====
-- internal/session/session.go: the methods of the manager that end or mark several sessions, and those
-- that list them. Ranging over a map while entries are deleted from it visits the entries there were
-- at first.
use carrel.Prelude.{
  ℕ, ◌+◌, Bool, false, ◌&&◌, ◌||◌, not, Option, none, some, List, [], ◌∷◌, if◌then◌else◌, nat_eq,
  length, Text, text_eq, ◌==◌,
}
use carrel.Prelude.Map
use carrel.Session.Types.{Session, Manager}
use carrel.Session.Manager.{ids_of, expired, remove}

abbrev pub remove_entry : Option Session → Manager → ℕ × Manager
remove_entry none m = (0, m)
remove_entry (some s) m = (1, remove s m)

unfoldable pub destroy : Text → Manager → Manager
unfolding remove
destroy id m = (remove_entry (Map.lookup id m.sessions) m).1

-- The loop of DestroyUser, with its count.
unfoldable pub destroy_ids : List Text → Manager → ℕ × Manager
unfolding remove
destroy_ids [] m = (0, m)
destroy_ids (id ∷ ids) m =
    let (one, m') = remove_entry (Map.lookup id m.sessions) m in
    let (n, m'') = destroy_ids ids m' in (one + n, m'')

unfoldable pub destroy_user : Text → Manager → ℕ × Manager
unfolding destroy_ids
destroy_user user m = destroy_ids (ids_of (Map.lookup user m.by_user)) m

-- The loop of sweepLocked over the entries.
unfoldable pub sweep_entries : ℕ → Map.Map Text Session → Manager → ℕ × Manager
unfolding expired remove
sweep_entries now [] m = (0, m)
sweep_entries now ((k, s) ∷ es) m =
    let gone = sweep_entries now es (remove s m) in
    let kept = sweep_entries now es m in if expired now m s then (gone.0 + 1, gone.1) else kept

unfoldable pub sweep : ℕ → Manager → ℕ × Manager
unfolding sweep_entries
sweep now m = sweep_entries now m.sessions m

unfoldable pub count : Text → ℕ → Manager → ℕ × Manager
unfolding sweep
count user now m =
    let swept = (sweep now m).1 in (length (ids_of (Map.lookup user swept.by_user)), swept)

pub record Info : Type 0 where
  pub id : Text
  pub user_id : Text
  pub login : Text
  pub created_at : ℕ
  pub last_seen : ℕ
  pub expires_at : ℕ

abbrev pub infos : List Text → Map.Map Text Session → List Info
infos [] sessions = []
infos (id ∷ ids) sessions =
    let rest = infos ids sessions in
    elim (Map.lookup id sessions) [
      | none ↦ rest
      | some s ↦
          record {
            id = s.id;
            user_id = s.user_id;
            login = s.login;
            created_at = s.created_at;
            last_seen = s.last_seen;
            expires_at = s.deadline;
          }
          ∷ rest
    ]

-- (*Manager).Sessions
unfoldable pub sessions_of : Text → ℕ → Manager → List Info × Manager
unfolding sweep
sessions_of user now m =
    let swept = (sweep now m).1 in
    (infos (ids_of (Map.lookup user swept.by_user)) swept.sessions, swept)

abbrev pub mark_entry : Bool → Option Session → Manager → Manager
mark_entry must none m = m
mark_entry must (some s) m = record m {
  sessions = Map.put s.id (record s { must_change = must }) m.sessions;
}

unfoldable pub mark_ids : Bool → List Text → Manager → Manager
mark_ids must [] m = m
mark_ids must (id ∷ ids) m = mark_ids must ids (mark_entry must (Map.lookup id m.sessions) m)

unfoldable pub set_must_change_password : Text → Bool → Manager → Manager
unfolding mark_ids
set_must_change_password user must m = mark_ids must (ids_of (Map.lookup user m.by_user)) m

unfoldable pub close_entries : Map.Map Text Session → Manager → Manager
unfolding remove
close_entries [] m = m
close_entries ((k, s) ∷ es) m = close_entries es (remove s m)

unfoldable pub close : Manager → Manager
unfolding close_entries
close m = close_entries m.sessions m

unfoldable pub len : Manager → ℕ
len m = length m.sessions

unfoldable pub check_csrf : Option Session → Text → Bool
check_csrf none token = false
check_csrf (some s) token =
    not (nat_eq (length s.csrf) 0 || nat_eq (length token) 0) && s.csrf == token
