-- ===== src/Session/Rotation.antt =====
-- internal/session/session.go: the key moves to the session's new identifier.
use carrel.Prelude.{
  ℕ, ◌≡◌, ◌⊎◌, refl, sym, ap, ◌∙◌, inl, inr, Bool-cases, false, none, some, List, if◌then◌else◌,
  Text, text_eq, ◌==◌, ==_iff, ==_refl, arith,
}
use carrel.Prelude.Map
use carrel.Prelude.Map.{lookup-put, lookup-delete}
use carrel.Random.{Bytes}
use carrel.Session.Types.{Session, Manager}
use carrel.Session.Manager.{insert, detach, rotate_with, fresh_session}
use carrel.Session.Keyring.{Login, IsKeyring, some_injective}
use carrel.Session.Moves.{found}

pub lookup-rotate_with :
    (next : Text) (now : ℕ) (old : Session) (m : Manager) (i : Text)
    → Map.lookup i (rotate_with next now old m).1.sessions ≡ (
        if next == i
        then some (fresh_session next now old)
        else if old.id == i
        then none
        else Map.lookup i m.sessions)
unfolding rotate_with insert detach
lookup-rotate_with next now old m i = ground (
  arith,
  lookup-put next i (fresh_session next now old) (Map.delete old.id m.sessions),
  lookup-delete old.id i m.sessions,
)

keys-rotate_with :
    (next : Text) (now : ℕ) (old : Session) (m : Manager)
    → (rotate_with next now old m).1.keys ≡ m.keys
unfolding rotate_with insert detach
keys-rotate_with next now old m = refl

module _ (start : ℕ → Bytes) (g : List Login) where
  pub rotate_with-IsKeyring :
      (id next : Text) (now : ℕ) (old : Session) (m : Manager)
      → Map.lookup id m.sessions ≡ some old
      → Map.lookup next m.sessions ≡ none
      → IsKeyring start g m
      → IsKeyring start g (rotate_with next now old m).1
  rotate_with-IsKeyring id next now old m here fresh k =
      let m' = (rotate_with next now old m).1 in
      let new = fresh_session next now old in
      let old≡ : old.id ≡ id = k.keyed id old here in
      let same : (b : ℕ) → m'.keys b ≡ m.keys b =
        λ b. ap (λ f. f b) (keys-rotate_with next now old m) in
      let look = lookup-rotate_with next now old m in
      let before : (i : Text) (t : Session)
          → Map.lookup i m'.sessions ≡ some t
          → ((next ≡ i) × (new ≡ t))
            ⊎ (((old.id == i) ≡ false) × (Map.lookup i m.sessions ≡ some t)) =
        λ i t h.
          elim (found next new (if old.id == i then none else Map.lookup i m.sessions) i t
            (sym (look i) ∙ h)) [
              | inl e ↦ inl e
              | inr (ne, h') ↦ inr (ground arith, ground arith)
            ] in
      record {
        keyed = λ i t h. elim (before i t h) [
          | inl (i≡, t≡) ↦ ap (λ x. x.id) (sym t≡) ∙ i≡
          | inr (ne, h') ↦ k.keyed i t h'
        ];
        holds = λ i t h. elim (before i t h) [
          | inl (i≡, t≡) ↦
              let (b, d, gb, kb) = k.holds id old here in
              (b, ap (λ x. x.dek) (sym t≡) ∙ d, gb, same b ∙ kb)
          | inr (ne, h') ↦ let (b, d, gb, kb) = k.holds i t h' in (b, d, gb, same b ∙ kb)
        ];
        apart = λ i j t u b h l e f. elim (before i t h) [
          | inl (i≡, t≡) ↦ elim (before j u l) [
            | inl (j≡, u≡) ↦ sym i≡ ∙ j≡
            | inr (ne, l') ↦
                let j≡ = k.apart id j old u b here l' (ap (λ x. x.dek) t≡ ∙ e) f in
                absurd (ground (arith, ne, (==_iff old.id j).1 (old≡ ∙ j≡)))
          ]
          | inr (ne, h') ↦ elim (before j u l) [
            | inl (j≡, u≡) ↦
                let i≡ = k.apart id i old t b here h' (ap (λ x. x.dek) u≡ ∙ f) e in
                absurd (ground (arith, ne, (==_iff old.id i).1 (old≡ ∙ i≡)))
            | inr (ne', l') ↦ k.apart i j t u b h' l' e f
          ]
        ];
        guarded = λ b gb. elim (k.guarded b gb) [
          | inr z ↦ inr (same b ∙ z)
          | inl (i, t, h, e) ↦ elim (Bool-cases (old.id == i)) [
            | inl r ↦
                let i≡ : id ≡ i = sym old≡ ∙ (==_iff old.id i).0 r in
                let t≡ : old ≡ t =
                  some_injective (sym here ∙ ap (λ x. Map.lookup x m.sessions) i≡ ∙ h) in
                inl (next, new, ground (arith, look next, ==_refl next), ap (λ x. x.dek) t≡ ∙ e)
            | inr r ↦ elim (Bool-cases (next == i)) [
              | inl n ↦
                  let there = ap (λ x. Map.lookup x m.sessions) ((==_iff next i).0 n) in
                  absurd (ground (arith, fresh, there, h))
              | inr n ↦ inl (i, t, ground (arith, n, r, look i, h), e)
            ]
          ]
        ];
        untouched = λ b n. same b ∙ k.untouched b n;
      }
