-- ===== src/Session/Runs.antt =====
-- internal/session/session.go: every sequence of calls.
use carrel.Prelude.{
  ℕ, ◌≡◌, refl, ap, inl, inr, Bool, Bool-cases, false, Option, none, some, List, [], ◌∷◌, Text,
  text_eq, ◌==◌, ==_iff, ==_refl, arith,
}
use carrel.Prelude.Map
use carrel.Prelude.Map.{Distinct}
use carrel.Random.{Bytes}
use carrel.Session.Types.{Session, Manager}
use carrel.Session.Manager.{remove, expired, get_entry}
use carrel.Session.Endings.{
  remove_entry, destroy_ids, sweep_entries, mark_entry, mark_ids, close_entries,
}
use carrel.Session.Index.{lookup-remove}
use carrel.Session.Keyring.{Login}
use carrel.Session.Sound.{IsSound, remove-IsSound, touched-IsSound}

-- Entries that the manager has, each once.
abbrev pub Live : List (Text × Session) → Manager → Type 0
Live [] m = Unit
Live ((k, s) ∷ es) m =
    (Map.lookup k m.sessions ≡ some s) × (s.id ≡ k) × (Map.lookup k es ≡ none) × Live es m

not_later :
    (k i : Text) (t : Session) (es : Map.Map Text Session)
    → Map.lookup k ((i, t) ∷ es) ≡ none
    → ((i == k) ≡ false) × (Map.lookup k es ≡ none)
unfolding Map.lookup
not_later k i t es h = ground arith

remove-Live :
    (k : Text) (s : Session) (m : Manager) (es : Map.Map Text Session)
    → s.id ≡ k
    → Map.lookup k es ≡ none
    → Live es m
    → Live es (remove s m)
remove-Live k s m [] id≡ h l = tt
remove-Live k s m ((i, t) ∷ es) id≡ h (here, own, once, l) =
    let (ne, h') = not_later k i t es h in
    let same : (s.id == i) ≡ (k == i) = ap (λ x. x == i) id≡ in
    (
      ground (arith, lookup-remove s m i, same, ne, here, ==_iff i k, ==_iff k i),
      own,
      once,
      remove-Live k s m es id≡ h' l,
    )

Distinct-Live :
    (m : Manager) (es : Map.Map Text Session)
    → Distinct es
    → ((k : Text) (s : Session)
        → Map.lookup k es ≡ some s
        → (Map.lookup k m.sessions ≡ some s) × (s.id ≡ k))
    → Live es m
unfolding Map.lookup
Distinct-Live m [] d f = tt
Distinct-Live m ((i, s) ∷ es) d f =
    let (here, own) = f i s (ground (arith, ==_refl i)) in
    (here, own, d.0, Distinct-Live m es d.1 (λ k t h. later k t h))
  where
    later :
        (k : Text) (t : Session)
        → Map.lookup k es ≡ some t
        → (Map.lookup k m.sessions ≡ some t) × (t.id ≡ k)
    later k t h = elim (Bool-cases (i == k)) [
      | inl e ↦
          let there = ap (λ x. Map.lookup x es) ((==_iff i k).0 e) in
          absurd (ground (arith, d.0, there, h))
      | inr e ↦ f k t (rw e h)
    ]

module _ (start : ℕ → Bytes) (g : List Login) where
  pub remove_entry-IsSound :
      (id : Text) (m : Manager) (o : Option Session)
      → Map.lookup id m.sessions ≡ o
      → IsSound start g m
      → IsSound start g (remove_entry o m).1
  remove_entry-IsSound id m none h k = k
  remove_entry-IsSound id m (some s) h k = remove-IsSound start g id s m h k

  pub destroy_ids-IsSound :
      (ids : List Text) (m : Manager) → IsSound start g m → IsSound start g (destroy_ids ids m).1
  unfolding destroy_ids
  destroy_ids-IsSound [] m k = k
  destroy_ids-IsSound (id ∷ ids) m k =
      let m' = (remove_entry (Map.lookup id m.sessions) m).1 in
      destroy_ids-IsSound ids m' (remove_entry-IsSound id m (Map.lookup id m.sessions) refl k)

  pub sweep_entries-IsSound :
      (now : ℕ) (es : Map.Map Text Session) (m : Manager)
      → Live es m
      → IsSound start g m
      → IsSound start g (sweep_entries now es m).1
  unfolding sweep_entries
  sweep_entries-IsSound now [] m l k = k
  sweep_entries-IsSound now ((i, s) ∷ es) m (here, own, once, l) k =
      elim (Bool-cases (expired now m s)) [
        | inl e ↦ rw e (
            sweep_entries-IsSound now es (remove s m) (remove-Live i s m es own once l)
              (remove-IsSound start g i s m here k))
        | inr e ↦ rw e (sweep_entries-IsSound now es m l k)
      ]

  pub close_entries-IsSound :
      (es : Map.Map Text Session) (m : Manager)
      → Live es m
      → IsSound start g m
      → IsSound start g (close_entries es m)
  unfolding close_entries
  close_entries-IsSound [] m l k = k
  close_entries-IsSound ((i, s) ∷ es) m (here, own, once, l) k =
      close_entries-IsSound es (remove s m) (remove-Live i s m es own once l)
        (remove-IsSound start g i s m here k)

  pub all-Live : (m : Manager) → IsSound start g m → Live m.sessions m
  all-Live m k = Distinct-Live m m.sessions k.distinct (λ i s h. (h, k.keyring.keyed i s h))

  pub get_entry-IsSound :
      (id : Text) (now : ℕ) (m : Manager) (o : Option Session)
      → Map.lookup id m.sessions ≡ o
      → IsSound start g m
      → IsSound start g (get_entry now m o).1
  get_entry-IsSound id now m none h k = k
  get_entry-IsSound id now m (some s) h k = elim (Bool-cases (expired now m s)) [
    | inl e ↦ rw e (remove-IsSound start g id s m h k)
    | inr e ↦ rw e (
        touched-IsSound start g id s (record s { last_seen = now }) m h refl refl refl
          (k.timely id s h) k)
  ]

  mark_entry-IsSound :
      (id : Text) (must : Bool) (m : Manager) (o : Option Session)
      → Map.lookup id m.sessions ≡ o
      → IsSound start g m
      → IsSound start g (mark_entry must o m)
  mark_entry-IsSound id must m none h k = k
  mark_entry-IsSound id must m (some s) h k =
      touched-IsSound start g id s (record s { must_change = must }) m h refl refl refl
        (k.timely id s h) k

  pub mark_ids-IsSound :
      (must : Bool) (ids : List Text) (m : Manager)
      → IsSound start g m
      → IsSound start g (mark_ids must ids m)
  unfolding mark_ids
  mark_ids-IsSound must [] m k = k
  mark_ids-IsSound must (id ∷ ids) m k =
      mark_ids-IsSound must ids (mark_entry must (Map.lookup id m.sessions) m)
        (mark_entry-IsSound id must m (Map.lookup id m.sessions) refl k)
