-- ===== src/Session/Lifetimes.antt =====
-- internal/session/session.go: keys, index and lifetimes after any calls.
use carrel.Prelude.{
  ℕ, ◌+◌, ◌<◌, ◌≡◌, ◌⊎◌, refl, sym, ap, ◌∙◌, inl, inr, Bool, Bool-cases, true, false, Option, All,
  none, some, List, [], ◌∷◌, if◌then◌else◌, nat_eq, length, Text, text_eq, arith,
}
use carrel.Prelude.Map
use carrel.Random.{Bytes}
use carrel.Session.Types.{User, Session, Options, Manager, ConflictDraft, PhotoDraft, ImportDraft}
use carrel.Session.Manager.{new, create_with, rotate_with, expired, get, get_entry, zeroed, ids_of}
use carrel.Session.Endings.{destroy, destroy_user, sweep, set_must_change_password, close}
use carrel.Session.Index.{in_index, owns}
use carrel.Session.Ended.{destroy_user-owns, sweep-expired, is_expired}
use carrel.Session.Keyring.{Login, login_of, given, Held, some_injective}
use carrel.Session.Moves.{touched}
use carrel.Session.Sound.{
  IsSound, IsShell, touched-IsSound, create_with-IsSound, rotate_with-IsSound,
}
use carrel.Session.Runs.{
  remove_entry-IsSound, destroy_ids-IsSound, sweep_entries-IsSound, close_entries-IsSound, all-Live,
  get_entry-IsSound, mark_ids-IsSound,
}

-- The managers that calls lead to, with the logins, the last first. A login gives a new
-- buffer, and an identifier that is drawn is not in use. Between the calls a request may change what
-- is its session's own: the drafts, the registry of losses and the notice.
pub data Reached (start : ℕ → Bytes) : List Login → Manager → Type 0 where
  made : (o : Options) → Reached start [] (new o start)
  created :
      {g : List Login} {m : Manager} (id csrf : Text) (u : User) (dek now : ℕ)
      → Map.lookup id m.sessions ≡ none
      → given dek g ≡ false
      → Reached start g m
      → Reached start
          (record { buffer = dek; time = now; user_id = u.id } ∷ g)
          (create_with id csrf u dek now m).1
  got :
      {g : List Login} {m : Manager} (id : Text) (now : ℕ)
      → Reached start g m
      → Reached start g (get id now m).1
  rotated :
      {g : List Login} {m : Manager} (id next : Text) (now : ℕ) (old : Session)
      → Map.lookup id m.sessions ≡ some old
      → Map.lookup next m.sessions ≡ none
      → Reached start g m
      → Reached start g (rotate_with next now old m).1
  destroyed :
      {g : List Login} {m : Manager} (id : Text)
      → Reached start g m
      → Reached start g (destroy id m)
  destroyed_user :
      {g : List Login} {m : Manager} (user : Text)
      → Reached start g m
      → Reached start g (destroy_user user m).1
  swept :
      {g : List Login} {m : Manager} (now : ℕ) → Reached start g m → Reached start g (sweep now m).1
  marked :
      {g : List Login} {m : Manager} (user : Text) (must : Bool)
      → Reached start g m
      → Reached start g (set_must_change_password user must m)
  drafted :
      {g : List Login} {m : Manager} (id : Text) (s : Session) (c : Map.Map Text ConflictDraft)
      (p : Map.Map Text PhotoDraft) (i : Map.Map Text ImportDraft) (l : Option ℕ) (n : Bool)
      → Map.lookup id m.sessions ≡ some s
      → Reached start g m
      → Reached start g (
          touched
            (record s { conflicts = c; photos = p; imports = i; losses = l; escrow_notice = n })
            m)
  closed : {g : List Login} {m : Manager} → Reached start g m → Reached start g (close m)

new-IsSound : (start : ℕ → Bytes) (o : Options) → IsSound start [] (new o start)
unfolding new Map.lookup
new-IsSound start o = record {
  keyring = record {
    keyed = λ i s h. absurd (ground arith);
    holds = λ i s h. absurd (ground arith);
    apart = λ i j s t b h. absurd (ground arith);
    guarded = λ b h. absurd (ground arith);
    untouched = λ b h. refl;
  };
  indexed = λ user id. refl;
  distinct = tt;
  timely = λ i s h. absurd (ground arith);
  shells = tt;
}

module _ (start : ℕ → Bytes) where
  get-IsSound :
      (g : List Login) (id : Text) (now : ℕ) (m : Manager)
      → IsSound start g m
      → IsSound start g (get id now m).1
  unfolding get
  get-IsSound g id now m k = elim (Bool-cases (nat_eq (length id) 0)) [
    | inl e ↦ rw e k
    | inr e ↦ rw e (get_entry-IsSound start g id now m (Map.lookup id m.sessions) refl k)
  ]

  pub Reached-IsSound : (g : List Login) (m : Manager) → Reached start g m → IsSound start g m
  unfolding destroy destroy_user sweep set_must_change_password close
  Reached-IsSound _ _ (made o) = new-IsSound start o
  Reached-IsSound _ _ (created {g} {m} id csrf u dek now f n r) =
      create_with-IsSound start g id csrf u dek now m f n (Reached-IsSound g m r)
  Reached-IsSound _ _ (got {g} {m} id now r) = get-IsSound g id now m (Reached-IsSound g m r)
  Reached-IsSound _ _ (rotated {g} {m} id next now old h f r) =
      rotate_with-IsSound start g id next now old m h f (Reached-IsSound g m r)
  Reached-IsSound _ _ (destroyed {g} {m} id r) =
      remove_entry-IsSound start g id m (Map.lookup id m.sessions) refl (Reached-IsSound g m r)
  Reached-IsSound _ _ (destroyed_user {g} {m} user r) =
      destroy_ids-IsSound start g (ids_of (Map.lookup user m.by_user)) m (Reached-IsSound g m r)
  Reached-IsSound _ _ (swept {g} {m} now r) =
      let k = Reached-IsSound g m r in
      sweep_entries-IsSound start g now m.sessions m (all-Live start g m k) k
  Reached-IsSound _ _ (marked {g} {m} user must r) =
      mark_ids-IsSound start g must (ids_of (Map.lookup user m.by_user)) m (Reached-IsSound g m r)
  Reached-IsSound _ _ (drafted {g} {m} id s c p i l n h r) =
      let k = Reached-IsSound g m r in
      touched-IsSound start g id s
        (record s { conflicts = c; photos = p; imports = i; losses = l; escrow_notice = n }) m h
        refl refl refl (k.timely id s h) k
  Reached-IsSound _ _ (closed {g} {m} r) =
      let k = Reached-IsSound g m r in
      close_entries-IsSound start g m.sessions m (all-Live start g m k) k

-- After any calls, every buffer of a key that a login gave either belongs to a live session and has
-- what was in it, or is zeroed; and no session that has ended has one.
pub Reached-wiped :
    (start : ℕ → Bytes) (g : List Login) (m : Manager)
    → Reached start g m
    → ((b : ℕ)
        → given b g ≡ true
        → (Held b m × (m.keys b ≡ start b)) ⊎ (m.keys b ≡ zeroed (start b)))
      × All IsShell m.shells
Reached-wiped start g m r =
    let k = (Reached-IsSound start g m r).keyring in
    (
      λ b gb. elim (k.guarded b gb) [
        | inr z ↦ inr z
        | inl (i, s, h, e) ↦
            let (c, d, _, kc) = k.holds i s h in
            let c≡ : c ≡ b = ground arith in
            inl ((i, s, h, e), sym (ap m.keys c≡) ∙ kc ∙ ap start c≡)
      ],
      (Reached-IsSound start g m r).shells,
    )

-- After any calls, the set of a user has exactly the identifiers of the user's live sessions, and
-- ending them leaves none of these and every other session as it is.
pub Reached-destroy_user :
    (start : ℕ → Bytes) (g : List Login) (m : Manager) (user id : Text)
    → Reached start g m
    → (in_index user id m ≡ owns user (Map.lookup id m.sessions))
      × (Map.lookup id (destroy_user user m).1.sessions
          ≡ (if owns user (Map.lookup id m.sessions) then none else Map.lookup id m.sessions))
Reached-destroy_user start g m user id r =
    let k = Reached-IsSound start g m r in
    (k.indexed user id, destroy_user-owns user m id k.keyring.keyed k.indexed)

-- After any calls, a sweep ends exactly the sessions that have expired.
pub Reached-sweep :
    (start : ℕ → Bytes) (g : List Login) (m : Manager) (now : ℕ) (id : Text)
    → Reached start g m
    → Map.lookup id (sweep now m).1.sessions
      ≡ (if is_expired now m (Map.lookup id m.sessions) then none else Map.lookup id m.sessions)
Reached-sweep start g m now id r =
    let k = Reached-IsSound start g m r in sweep-expired now m id k.keyring.keyed k.distinct

before_deadline : (now : ℕ) (m : Manager) (s : Session) → expired now m s ≡ false → now < s.deadline
unfolding expired
before_deadline now m s h = ground arith

-- After any calls, rotations among them, a session that is handed out comes from a login: it is that
-- user's and has the key that the login gave, as it was, and less than the absolute time has passed
-- since the login.
pub Reached-get :
    (start : ℕ → Bytes) (g : List Login) (m : Manager) (id : Text) (now : ℕ) (s : Session)
    → Reached start g m
    → (get id now m).0 ≡ some s
    → (a : Login) × (s.dek ≡ some a.buffer)
      × (login_of a.buffer g ≡ some a)
      × (s.user_id ≡ a.user_id)
      × (now < a.time + m.opts.absolute)
      × (m.keys a.buffer ≡ start a.buffer)
unfolding get
Reached-get start g m id now s r h = elim (Bool-cases (nat_eq (length id) 0)) [
  | inl e ↦ absurd (ground arith)
  | inr e ↦ entry (Map.lookup id m.sessions) refl (rw e at h)
]
  where
    entry :
        (o : Option Session)
        → Map.lookup id m.sessions ≡ o
        → (get_entry now m o).0 ≡ some s
        → (a : Login) × (s.dek ≡ some a.buffer)
          × (login_of a.buffer g ≡ some a)
          × (s.user_id ≡ a.user_id)
          × (now < a.time + m.opts.absolute)
          × (m.keys a.buffer ≡ start a.buffer)
    entry none l p = absurd (ground arith)
    entry (some t) l p = elim (Bool-cases (expired now m t)) [
      | inl x ↦ absurd (ground (arith, x))
      | inr x ↦
          let s≡ : record t { last_seen = now } ≡ s = some_injective (rw x at p) in
          let soon = before_deadline now m t x in
          let k = Reached-IsSound start g m r in
          let (a, d, la, ua, late) = (k.timely id t l).1 in
          let (b, e, gb, kb) = k.keyring.holds id t l in
          let b≡ : b ≡ a.buffer = some_injective (sym e ∙ d) in
          let key = sym (ap m.keys b≡) ∙ kb ∙ ap start b≡ in
          rw (sym s≡) (a, d, la, ua, omega (arith, soon, late), key)
    ]
