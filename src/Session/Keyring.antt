-- ===== src/Session/Keyring.antt =====
-- internal/session/session.go: who holds the buffer of a key, and what is in it.
use carrel.Prelude.{
  Option, ℕ, ◌≡◌, ◌⊎◌, refl, sym, ap, ◌∙◌, inl, inr, Bool, Bool-cases, true, false, some, List,
  if◌then◌else◌, nat_eq, nat_eq_iff, exists, find, Text, text_eq, ◌==◌, ==_iff, arith,
}
use carrel.Prelude.Map
use carrel.Prelude.Map.{lookup-put}
use carrel.Random.{Bytes}
use carrel.Session.Types.{Session, Manager}
use carrel.Session.Manager.{zeroed, zero_key, remove}
use carrel.Session.Index.{IsKeyed, lookup-remove}
use carrel.Session.Ended.{remove-IsKeyed}

-- A login: the buffer of the key that it gave, its time, and whose it was.
pub record Login : Type 0 where
  pub buffer : ℕ
  pub time : ℕ
  pub user_id : Text

abbrev pub given : ℕ → List Login → Bool
given b = exists (λ (a : Login). nat_eq b a.buffer)

-- The last login that gave the buffer.
abbrev pub login_of : ℕ → List Login → Option Login
login_of b = find (λ (a : Login). nat_eq b a.buffer)

-- A live session has the buffer.
abbrev pub Held : ℕ → Manager → Type 0
Held b m = (i : Text) × (s : Session) × (Map.lookup i m.sessions ≡ some s) × (s.dek ≡ some b)

-- Of the buffers that logins have given, with what was in them: every live session has one, which is
-- as it was, no two have the same, and one that no session has is zeroed.
pub record IsKeyring (start : ℕ → Bytes) (g : List Login) (m : Manager) : Type 0 where
  pub keyed : IsKeyed m
  pub holds :
      (i : Text) (s : Session)
      → Map.lookup i m.sessions ≡ some s
      → (b : ℕ) × (s.dek ≡ some b) × (given b g ≡ true) × (m.keys b ≡ start b)
  pub apart :
      (i j : Text) (s t : Session) (b : ℕ)
      → Map.lookup i m.sessions ≡ some s
      → Map.lookup j m.sessions ≡ some t
      → s.dek ≡ some b
      → t.dek ≡ some b
      → i ≡ j
  pub guarded : (b : ℕ) → given b g ≡ true → Held b m ⊎ (m.keys b ≡ zeroed (start b))
  pub untouched : (b : ℕ) → given b g ≡ false → m.keys b ≡ start b

pub some_injective : {A : Type 0} {a b : A} → some a ≡ some b → a ≡ b
some_injective h = ground arith

keys-remove : (s : Session) (m : Manager) (b : ℕ) → (remove s m).keys b ≡ zero_key s.dek m.keys b
unfolding remove
keys-remove s m b = refl

-- What a map without the entry of a session has, the map had.
left_over :
    (s : Session) (m : Manager) (i : Text) (t : Session)
    → Map.lookup i (remove s m).sessions ≡ some t
    → ((s.id == i) ≡ false) × (Map.lookup i m.sessions ≡ some t)
left_over s m i t h = ground (arith, lookup-remove s m i)

module _ (start : ℕ → Bytes) (g : List Login) where
  pub remove-IsKeyring :
      (id : Text) (s : Session) (m : Manager)
      → Map.lookup id m.sessions ≡ some s
      → IsKeyring start g m
      → IsKeyring start g (remove s m)
  remove-IsKeyring id s m here k =
      let (a, d, ga, ka) = k.holds id s here in
      let id≡ = k.keyed id s here in
      let keys' : (b : ℕ)
          → (remove s m).keys b ≡ (if nat_eq b a then zeroed (m.keys b) else m.keys b) =
        λ b. keys-remove s m b ∙ ap (λ o. zero_key o m.keys b) d in
      record {
        keyed = remove-IsKeyed s m k.keyed;
        holds = λ i t h.
            let (ne, h') = left_over s m i t h in
            let (b, e, gb, kb) = k.holds i t h' in
            (
              b,
              e,
              gb,
              elim (Bool-cases (nat_eq b a)) [
                | inl q ↦
                    let b≡ : b ≡ a = (nat_eq_iff b a).0 q in
                    let i≡ = k.apart id i s t a here h' d (e ∙ ap (λ n. some n) b≡) in
                    absurd (ground (arith, ne, ==_iff s.id i, id≡ ∙ i≡))
                | inr q ↦ ground (arith, q, keys' b, kb)
              ],
            );
        apart = λ i j t u b h l. k.apart i j t u b (left_over s m i t h).1 (left_over s m j u l).1;
        guarded = λ b gb. elim (Bool-cases (nat_eq b a)) [
          | inl q ↦
              let b≡ : b ≡ a = (nat_eq_iff b a).0 q in
              let kb : m.keys b ≡ start b = ap m.keys b≡ ∙ ka ∙ ap start (sym b≡) in
              inr (ground (arith, q, keys' b) ∙ ap zeroed kb)
          | inr q ↦ elim (k.guarded b gb) [
            | inr z ↦ inr (ground (arith, q, keys' b, z))
            | inl (i, t, h, e) ↦ elim (Bool-cases (s.id == i)) [
              | inl r ↦
                  let i≡ : s.id ≡ i = (==_iff s.id i).0 r in
                  let same : some s ≡ some t =
                    sym here ∙ ap (λ x. Map.lookup x m.sessions) (sym id≡ ∙ i≡) ∙ h in
                  let s≡ : s ≡ t = some_injective same in
                  let a≡ : a ≡ b = some_injective (sym d ∙ ap (λ x. x.dek) s≡ ∙ e) in
                  absurd (ground (arith, q, (nat_eq_iff b a).1 (sym a≡)))
              | inr r ↦ inl (i, t, ground (arith, r, lookup-remove s m i, h), e)
            ]
          ]
        ];
        untouched = λ b n. elim (Bool-cases (nat_eq b a)) [
          | inl q ↦
              let b≡ : b ≡ a = (nat_eq_iff b a).0 q in
              absurd (ground (arith, n, ga, ap (λ x. given x g) b≡))
          | inr q ↦ ground (arith, q, keys' b, k.untouched b n)
        ];
      }
