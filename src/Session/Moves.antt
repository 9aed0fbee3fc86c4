-- ===== src/Session/Moves.antt =====
-- internal/session/session.go: the keys when a session starts, gets another identifier or is changed.
use carrel.Prelude.{
  ℕ, ◌≡◌, ◌⊎◌, refl, sym, ap, ◌∙◌, inl, inr, Bool-cases, true, false, Option, none, some, List, ◌∷◌,
  if◌then◌else◌, nat_eq, nat_eq_iff, Text, text_eq, ◌==◌, ==_iff, ==_refl, arith,
}
use carrel.Prelude.Map
use carrel.Prelude.Map.{lookup-put}
use carrel.Random.{Bytes}
use carrel.Session.Types.{User, Session, Manager}
use carrel.Session.Manager.{insert, create_with}
use carrel.Session.Keyring.{Login, given, IsKeyring, some_injective}

-- The entry of an identifier is replaced by a session with the same key.
abbrev pub touched : Session → Manager → Manager
touched s m = record m { sessions = Map.put s.id s m.sessions }

-- What is found under an identifier after a session was put there.
pub found :
    (id : Text) (s : Session) (o : Option Session) (i : Text) (t : Session)
    → (if id == i then some s else o) ≡ some t
    → ((id ≡ i) × (s ≡ t)) ⊎ (((id == i) ≡ false) × (o ≡ some t))
found id s o i t h = elim (Bool-cases (id == i)) [
  | inl e ↦ inl ((==_iff id i).0 e, some_injective (ground arith))
  | inr e ↦ inr (e, ground arith)
]

module _ (start : ℕ → Bytes) (g : List Login) where
  pub touched-IsKeyring :
      (id : Text) (s s' : Session) (m : Manager)
      → Map.lookup id m.sessions ≡ some s
      → s'.id ≡ s.id
      → s'.dek ≡ s.dek
      → IsKeyring start g m
      → IsKeyring start g (touched s' m)
  touched-IsKeyring id s s' m here same_id same_dek k =
      let id≡ : s'.id ≡ id = same_id ∙ k.keyed id s here in
      let look : (i : Text)
          → Map.lookup i (touched s' m).sessions
            ≡ (if s'.id == i then some s' else Map.lookup i m.sessions) =
        λ i. lookup-put s'.id i s' m.sessions in
      let before : (i : Text) (t : Session)
          → Map.lookup i (touched s' m).sessions ≡ some t
          → (u : Session) × (Map.lookup i m.sessions ≡ some u) × (u.dek ≡ t.dek) × (t.id ≡ i) =
        λ i t h. elim (found s'.id s' (Map.lookup i m.sessions) i t (sym (look i) ∙ h)) [
          | inl (i≡, t≡) ↦ (
            s,
            ap (λ x. Map.lookup x m.sessions) (sym i≡ ∙ id≡) ∙ here,
            sym same_dek ∙ ap (λ x. x.dek) t≡,
            ap (λ x. x.id) (sym t≡) ∙ i≡,
          )
          | inr (ne, h') ↦ (t, h', refl, k.keyed i t h')
        ] in
      record {
        keyed = λ i t h. let (_, _, _, own) = before i t h in own;
        holds = λ i t h.
            let (u, h', d, _) = before i t h in
            let (b, e, gb, kb) = k.holds i u h' in (b, sym d ∙ e, gb, kb);
        apart = λ i j t u b h l e f.
            let (t', h', d, _) = before i t h in
            let (u', l', c, _) = before j u l in k.apart i j t' u' b h' l' (d ∙ e) (c ∙ f);
        guarded = λ b gb. elim (k.guarded b gb) [
          | inr z ↦ inr z
          | inl (i, t, h, e) ↦ elim (Bool-cases (s'.id == i)) [
            | inl q ↦
                let i≡ : id ≡ i = sym id≡ ∙ (==_iff s'.id i).0 q in
                let s≡ : s ≡ t =
                  some_injective (sym here ∙ ap (λ x. Map.lookup x m.sessions) i≡ ∙ h) in
                inl (i, s', ground (arith, q, look i), same_dek ∙ ap (λ x. x.dek) s≡ ∙ e)
            | inr q ↦ inl (i, t, ground (arith, q, look i, h), e)
          ]
        ];
        untouched = k.untouched;
      }

  lookup-create_with :
      (id csrf : Text) (u : User) (dek now : ℕ) (m : Manager) (i : Text)
      → Map.lookup i (create_with id csrf u dek now m).1.sessions
        ≡ (if id == i then some (create_with id csrf u dek now m).0 else Map.lookup i m.sessions)
  unfolding create_with insert
  lookup-create_with id csrf u dek now m i =
      lookup-put id i (create_with id csrf u dek now m).0 m.sessions

  made_of :
      (id csrf : Text) (u : User) (dek now : ℕ) (m : Manager)
      → ((create_with id csrf u dek now m).0.id ≡ id)
        × ((create_with id csrf u dek now m).0.dek ≡ some dek)
        × ((create_with id csrf u dek now m).1.keys ≡ m.keys)
  unfolding create_with insert
  made_of id csrf u dek now m = (refl, refl, refl)

  pub create_with-IsKeyring :
      (id csrf : Text) (u : User) (dek now : ℕ) (m : Manager)
      → Map.lookup id m.sessions ≡ none
      → given dek g ≡ false
      → IsKeyring start g m
      → IsKeyring start
          (record { buffer = dek; time = now; user_id = u.id } ∷ g)
          (create_with id csrf u dek now m).1
  create_with-IsKeyring id csrf u dek now m fresh new_buffer k =
      let (made_id, made_dek, keys≡) = made_of id csrf u dek now m in
      let s = (create_with id csrf u dek now m).0 in
      let m' = (create_with id csrf u dek now m).1 in
      let look = lookup-create_with id csrf u dek now m in
      let before : (i : Text) (t : Session)
          → Map.lookup i m'.sessions ≡ some t
          → ((id ≡ i) × (s ≡ t)) ⊎ (((id == i) ≡ false) × (Map.lookup i m.sessions ≡ some t)) =
        λ i t h. found id s (Map.lookup i m.sessions) i t (sym (look i) ∙ h) in
      let not_new : (i : Text) (t : Session)
          → Map.lookup i m.sessions ≡ some t
          → t.dek ≡ some dek
          → false ≡ true =
        λ i t h e.
          let (b, d, gb, _) = k.holds i t h in
          let b≡ : b ≡ dek = some_injective (sym d ∙ e) in
          sym new_buffer ∙ ap (λ x. given x g) (sym b≡) ∙ gb in
      record {
        keyed = λ i t h. elim (before i t h) [
          | inl (i≡, t≡) ↦ ap (λ x. x.id) (sym t≡) ∙ made_id ∙ i≡
          | inr (ne, h') ↦ k.keyed i t h'
        ];
        holds = λ i t h. elim (before i t h) [
          | inl (i≡, t≡) ↦ (
            dek,
            ap (λ x. x.dek) (sym t≡) ∙ made_dek,
            ground (arith, (nat_eq_iff dek dek).1 refl),
            ap (λ f. f dek) keys≡ ∙ k.untouched dek new_buffer,
          )
          | inr (ne, h') ↦
              let (b, d, gb, kb) = k.holds i t h' in
              (b, d, ground (arith, gb), ap (λ f. f b) keys≡ ∙ kb)
        ];
        apart = λ i j t u b h l e f. elim (before i t h) [
          | inl (i≡, t≡) ↦ elim (before j u l) [
            | inl (j≡, u≡) ↦ sym i≡ ∙ j≡
            | inr (ne, l') ↦
                let b≡ = some_injective (sym made_dek ∙ ap (λ x. x.dek) t≡ ∙ e) in
                absurd (ground (arith, not_new j u l' (f ∙ ap (λ x. some x) (sym b≡))))
          ]
          | inr (ne, h') ↦ elim (before j u l) [
            | inl (j≡, u≡) ↦
                let b≡ = some_injective (sym made_dek ∙ ap (λ x. x.dek) u≡ ∙ f) in
                absurd (ground (arith, not_new i t h' (e ∙ ap (λ x. some x) (sym b≡))))
            | inr (ne', l') ↦ k.apart i j t u b h' l' e f
          ]
        ];
        guarded = λ b gb. elim (Bool-cases (nat_eq b dek)) [
          | inl q ↦
              let b≡ : b ≡ dek = (nat_eq_iff b dek).0 q in
              inl (id, s, ground (arith, look id, ==_refl id), made_dek ∙ ap (λ x. some x) (sym b≡))
          | inr q ↦ elim (k.guarded b (ground (arith, q, gb))) [
            | inr z ↦ inr (ap (λ f. f b) keys≡ ∙ z)
            | inl (i, t, h, e) ↦ elim (Bool-cases (id == i)) [
              | inl r ↦
                  let there = ap (λ x. Map.lookup x m.sessions) ((==_iff id i).0 r) in
                  absurd (ground (arith, fresh, there, h))
              | inr r ↦ inl (i, t, ground (arith, r, look i, h), e)
            ]
          ]
        ];
        untouched = λ b n. ap (λ f. f b) keys≡ ∙ k.untouched b (ground (arith, n));
      }
