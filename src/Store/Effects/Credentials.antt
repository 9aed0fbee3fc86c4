-- ===== src/Store/Effects/Credentials.antt =====
-- internal/store/users.go and escrow.go: what new credentials leave of an account, and the effects of
-- the changes that make them.
use carrel.Prelude.{
  ℕ, ◌≡◌, refl, ap, inl, inr, true, false, not, [], ◌&&◌, Bool-cases, Option-cases, Text, text,
  text_eq, arith, nat_eq, length,
}
use carrel.Errors.{ok, Result-cases}
use carrel.Random.{Bytes, random}
use carrel.Crypto.{hash_password, derive_key, wrap_dek, recover_dek, seal_dek}
use carrel.Store.Types.{State, User, Actor, EscrowSettings, is_some}
use carrel.Store.Base.{Env, find_user, set_user, append_audit, entry_on, entry, is_active_admin}
use carrel.Store.Users.{seal_for, set_credentials, rewrap_dek, unwrap_user_dek, password_matches}
use carrel.Store.Accounts.{change_password_change, reset_password_change}
use carrel.Store.Deposits.{escrow_opt_in_change, escrow_opt_out_change, recover_user_change}
use carrel.Store.Effects.Steps.{Effect}
use carrel.Store.Effects.Accounts.{audited-Effect}

module _ (env : Env) where
  -- A new wrapping of the key changes the verifier, the salt, the costs and the wrapped key.
  pub rewrap_dek-keeps :
      (u : User) (pw : Text) (dek t : Bytes) {v : User} {t' : Bytes}
      → rewrap_dek env u pw dek t ≡ ok (v, t')
      → v ≡ record u {
        auth = v.auth;
        kek_salt = v.kek_salt;
        kek_params = v.kek_params;
        wrapped_dek = v.wrapped_dek;
      }
  unfolding rewrap_dek
  rewrap_dek-keeps u pw dek t h = elim (Result-cases (hash_password env.crypto pw env.auth t)) [
    | inl (x, a) ↦ absurd (ground arith)
    | inr ((auth, t₁), a) ↦ elim (Result-cases (random 16 t₁)) [
      | inl (x, r) ↦ absurd (ground arith)
      | inr ((salt, t₂), r) ↦ elim (Result-cases (derive_key env.crypto pw salt env.kek)) [
        | inl (x, d) ↦ absurd (ground arith)
        | inr (kek, d) ↦ elim (Result-cases (wrap_dek env.crypto kek dek t₂)) [
          | inl (x, w) ↦ absurd (ground arith)
          | inr ((wrapped, t₃), w) ↦ ground arith
        ]
      ]
    ]
  ]

  -- New credentials change those and the deposited copy.
  pub set_credentials-keeps :
      (u : User) (pw : Text) (esc : EscrowSettings) (t : Bytes) {v : User} {t' : Bytes}
      → set_credentials env u pw esc t ≡ ok (v, t')
      → v ≡ record u {
        auth = v.auth;
        kek_salt = v.kek_salt;
        kek_params = v.kek_params;
        wrapped_dek = v.wrapped_dek;
        escrow_dek = v.escrow_dek;
      }
  unfolding set_credentials
  set_credentials-keeps u pw esc t h =
      elim (Result-cases (hash_password env.crypto pw env.auth t)) [
        | inl (x, a) ↦ absurd (ground arith)
        | inr ((auth, t₁), a) ↦ elim (Result-cases (random 16 t₁)) [
          | inl (x, r) ↦ absurd (ground arith)
          | inr ((salt, t₂), r) ↦ elim (Result-cases (derive_key env.crypto pw salt env.kek)) [
            | inl (x, d) ↦ absurd (ground arith)
            | inr (kek, d) ↦ elim (Result-cases (random 32 t₂)) [
              | inl (x, k) ↦ absurd (ground arith)
              | inr ((dek, t₃), k) ↦ elim (Result-cases (wrap_dek env.crypto kek dek t₃)) [
                | inl (x, w) ↦ absurd (ground arith)
                | inr ((wrapped, t₄), w) ↦ elim (Result-cases (seal_for env esc dek t₄)) [
                  | inl (x, s) ↦ absurd (ground arith)
                  | inr ((sealed, t₅), s) ↦ ground arith
                ]
              ]
            ]
          ]
        ]
      ]

  pub change_password-Effect :
      (now : ℕ) (id current next : Text) (st st' : State) (t t' : Bytes)
      → change_password_change env now id current next st t ≡ ok ((tt, st'), t')
      → Effect st st'
  unfolding change_password_change
  change_password-Effect now id current next st st' t t' h = elim (Option-cases (find_user st id)) [
    | inl e ↦ absurd (ground arith)
    | inr (u, e) ↦ elim (Bool-cases (password_matches env u current)) [
      | inr m ↦ absurd (ground arith)
      | inl m ↦ elim (Result-cases (unwrap_user_dek env u current)) [
        | inl (x, d) ↦ absurd (ground arith)
        | inr (dek, d) ↦ elim (Result-cases (rewrap_dek env u next dek t)) [
          | inl (x, r) ↦ absurd (ground arith)
          | inr ((v, t₁), r) ↦
              let w : User = record v { must_change_password = false } in
              let keeps = rewrap_dek-keeps u next dek t r in
              let q : st'
                  ≡ append_audit now
                      (entry (text "password_change") u.id u.login u.id u.login [] [])
                      (set_user id w st) =
                ground arith in
              rw q (
                audited-Effect now _ st id u w e (ap (λ (x : User). x.login) keeps)
                  (inl (ap is_active_admin keeps)))
        ]
      ]
    ]
  ]

  pub reset_password-Effect :
      (now : ℕ) (actor : Actor) (id pw : Text) (st st' : State) (t t' : Bytes)
      → reset_password_change env now actor id pw st t ≡ ok ((tt, st'), t')
      → Effect st st'
  unfolding reset_password_change
  reset_password-Effect now actor id pw st st' t t' h = elim (Option-cases (find_user st id)) [
    | inl e ↦ absurd (ground arith)
    | inr (u, e) ↦
        elim (Bool-cases
          (not (nat_eq (length u.escrow_dek) 0) && is_some st.settings.escrow.config)) [
            | inl covered ↦ absurd (ground arith)
            | inr free ↦ elim (Result-cases (set_credentials env u pw st.settings.escrow t)) [
              | inl (x, c) ↦ absurd (ground arith)
              | inr ((v, t₁), c) ↦
                  let w : User = record v { secrets = []; must_change_password = true } in
                  let keeps = set_credentials-keeps u pw st.settings.escrow t c in
                  let q : st'
                      ≡ append_audit now
                          (entry_on (text "password_reset") actor u (text "connections destroyed"))
                          (set_user id w st) =
                    ground arith in
                  rw q (
                    audited-Effect now _ st id u w e (ap (λ (x : User). x.login) keeps)
                      (inl (ap is_active_admin keeps)))
            ]
          ]
  ]

  pub escrow_opt_out-Effect :
      (now : ℕ) (actor : Actor) (id : Text) (st st' : State) (t t' : Bytes)
      → escrow_opt_out_change now actor id st t ≡ ok ((tt, st'), t')
      → Effect st st'
  unfolding escrow_opt_out_change
  escrow_opt_out-Effect now actor id st st' t t' h = elim (Option-cases (find_user st id)) [
    | inl e ↦ absurd (ground arith)
    | inr (u, e) ↦ elim (Bool-cases (nat_eq (length u.escrow_dek) 0)) [
      | inl bare ↦ absurd (ground arith)
      | inr held ↦
          let w : User = record u { escrow_dek = [] } in
          let q : st'
              ≡ append_audit now (entry_on (text "escrow_opt_out") actor u []) (set_user id w st) =
            ground arith in
          rw q (audited-Effect now _ st id u w e refl (inl refl))
    ]
  ]

  pub escrow_opt_in-Effect :
      (now : ℕ) (actor : Actor) (id pw : Text) (st st' : State) (t t' : Bytes)
      → escrow_opt_in_change env now actor id pw st t ≡ ok ((tt, st'), t')
      → Effect st st'
  unfolding escrow_opt_in_change
  escrow_opt_in-Effect now actor id pw st st' t t' h = elim (Option-cases (find_user st id)) [
    | inl e ↦ absurd (ground arith)
    | inr (u, e) ↦ elim (Result-cases (unwrap_user_dek env u pw)) [
      | inl (x, d) ↦ absurd (ground arith)
      | inr (dek, d) ↦ elim (Option-cases st.settings.escrow.config) [
        | inl c ↦ absurd (ground arith)
        | inr (esc, c) ↦ elim (Result-cases (seal_dek env.crypto esc dek t)) [
          | inl (x, k) ↦ absurd (ground arith)
          | inr ((sealed, t₁), k) ↦
              let w : User = record u { escrow_dek = sealed; escrow_notice_seen = true } in
              let q : st'
                  ≡ append_audit now (entry_on (text "escrow_opt_in") actor u [])
                      (set_user id w st) =
                ground arith in
              rw q (audited-Effect now _ st id u w e refl (inl refl))
        ]
      ]
    ]
  ]

  pub recover_user-Effect :
      (now : ℕ) (actor : Actor) (id mp pw : Text) (st st' : State) (t t' : Bytes) (a : User)
      → recover_user_change env now actor id mp pw st t ≡ ok ((a, st'), t')
      → Effect st st'
  unfolding recover_user_change
  recover_user-Effect now actor id mp pw st st' t t' a h = elim (Option-cases (find_user st id)) [
    | inl e ↦ absurd (ground arith)
    | inr (u, e) ↦ elim (Option-cases st.settings.escrow.config) [
      | inl c ↦ absurd (ground arith)
      | inr (esc, c) ↦ elim (Result-cases (recover_dek env.crypto esc mp u.escrow_dek)) [
        | inl (x, d) ↦ absurd (ground arith)
        | inr (dek, d) ↦ elim (Result-cases (rewrap_dek env u pw dek t)) [
          | inl (x, r) ↦ absurd (ground arith)
          | inr ((v, t₁), r) ↦
              let w : User = record v { must_change_password = true; escrow_recovered_at = now } in
              let keeps = rewrap_dek-keeps u pw dek t r in
              let q : st'
                  ≡ append_audit now (entry_on (text "escrow_recover") actor u [])
                      (set_user id w st) =
                ground arith in
              rw q (
                audited-Effect now _ st id u w e (ap (λ (x : User). x.login) keeps)
                  (inl (ap is_active_admin keeps)))
        ]
      ]
    ]
  ]
