-- ===== src/Store/Access/Passwords.antt =====
-- internal/store/users.go and escrow.go: a new password keeps the data key.
use carrel.Prelude.{
  ◌≡◌, refl, ap, sym, ◌∙◌, inl, inr, Bool, true, false, Bool-cases, Option, Option-cases, none,
  some, List, [], ◌∷◌, find, replace_first, Text, text_eq, ◌==◌, arith, nat_eq, length,
}
use carrel.Errors.{ok, Result-cases}
use carrel.Random.{Bytes}
use carrel.Crypto.{Escrow, recover_dek}
use carrel.Store.Types.{State, User, Actor}
use carrel.Store.Validate.{normalize_login, validate_password}
use carrel.Store.Base.{Env, IsLawful, World, Store, find_user, find_user_by_login, append_audit}
use carrel.Store.Users.{rewrap_dek, unwrap_user_dek, password_matches, admit, authenticate}
use carrel.Store.Accounts.{change_password_change, change_password}
use carrel.Store.Deposits.{recover_user_change, recover_user}
use carrel.Store.Commit.{update-ok}
use carrel.Store.Effects.Credentials.{rewrap_dek-keeps}
use carrel.Store.Invariants.Logins.{HaveUniqueLogins}
use carrel.Store.Access.Credentials.{
  IsOpenedBy, checked-ok, rewrap_dek-IsOpenedBy, admit-IsOpenedBy, find-replace_first,
  authenticate-admit,
}

-- What logging in says of the account.
record IsAdmitted (env : Env) (u : User) (pw : Text) (dek : Bytes) : Type 0 where
  enabled : u.disabled ≡ false
  confirmed : u.unconfirmed ≡ false
  opens : unwrap_user_dek env u pw ≡ ok dek

admit-ok :
    (env : Env) (u v : User) (pw : Text) (dek : Bytes)
    → admit env u pw ≡ ok (v, dek)
    → (u ≡ v) × IsAdmitted env u pw dek
admit-ok env u v pw dek h = elim (Bool-cases (password_matches env u pw)) [
  | inr m ↦ absurd (ground arith)
  | inl m ↦ elim (Bool-cases u.disabled) [
    | inl d ↦ absurd (ground arith)
    | inr d ↦ elim (Bool-cases u.unconfirmed) [
      | inl c ↦ absurd (ground arith)
      | inr c ↦ elim (Result-cases (unwrap_user_dek env u pw)) [
        | inl (e, k) ↦ absurd (ground arith)
        | inr (key, k) ↦ (ground arith, record { enabled = d; confirmed = c; opens = ground arith })
      ]
    ]
  ]
]

module _ (env : Env) (laws : IsLawful env) where
  -- The state after a change of the password.
  change_password_change-state :
      (now : carrel.Prelude.ℕ) (id current next : Text) (st st' : State) (u : User)
      (dek t t' : Bytes)
      → find_user st id ≡ some u
      → unwrap_user_dek env u current ≡ ok dek
      → change_password_change env now id current next st t ≡ ok ((tt, st'), t')
      → (v : User) × (st'.users ≡ replace_first (λ x. x.id == id) v st.users)
        × (IsOpenedBy env v next dek)
        × (v ≡ record u {
          auth = v.auth;
          kek_salt = v.kek_salt;
          kek_params = v.kek_params;
          wrapped_dek = v.wrapped_dek;
          must_change_password = false;
        })
  unfolding change_password_change append_audit unwrap_user_dek
  change_password_change-state now id current next st st' u dek t t' e d h =
      elim (Bool-cases (password_matches env u current)) [
        | inr m ↦ absurd (ground arith)
        | inl m ↦ elim (Result-cases (rewrap_dek env u next dek t)) [
          | inl (x, r) ↦ absurd (ground arith)
          | inr ((v, t₁), r) ↦
              let w : User = record v { must_change_password = false } in
              let o = rewrap_dek-IsOpenedBy env laws u next dek t r in
              (
                w,
                ground arith,
                record { matches = o.matches; opens = o.opens },
                ap (λ (x : User). record x { must_change_password = false })
                    (rewrap_dek-keeps env u next dek t r),
              )
        ]
      ]

  -- A user who logs in with the current password and changes it logs in with the new one, to the
  -- same data key and the same sealed connections. The logins differ and the id is the user's.
  pub change_password-authenticate :
      (w : World) (s s' : Store) (id current next login : Text) (u : User) (dek : Bytes)
      → HaveUniqueLogins s.state.users
      → find_user s.state id ≡ some u
      → normalize_login env.lower login ≡ u.login
      → authenticate env login current s ≡ ok (u, dek)
      → change_password env w id current next s ≡ (ok tt, s')
      → (v : User) × (authenticate env login next s' ≡ ok (v, dek)) × (v.secrets ≡ u.secrets)
  unfolding authenticate change_password
  change_password-authenticate w s s' id current next login u dek unique found same before h =
      elim (Option-cases (find_user_by_login s.state (normalize_login env.lower login))) [
        | inl f ↦ absurd (ground arith)
        | inr (x, f) ↦
            let (x≡, ad) = admit-ok env x u current dek (rw (authenticate, f) at before) in
            let (t, t', c) =
              update-ok env laws w s (change_password_change env w.now id current next) tt s'
                (checked-ok (validate_password next) s _ tt s' h) in
            let opens : unwrap_user_dek env u current ≡ ok dek = rw x≡ at ad.opens in
            let enabled : u.disabled ≡ false = rw x≡ at ad.enabled in
            let confirmed : u.unconfirmed ≡ false = rw x≡ at ad.confirmed in
            let (v, users, opened, keeps) =
              change_password_change-state w.now id current next s.state s'.state u dek t t' found
                opens c in
            let again =
              find-replace_first id s.state.users v unique found
                (ap (λ (y : User). y.login) keeps) in
            (
              v,
              authenticate-admit env s' _ login u.login _ v _ same users again (
                  admit-IsOpenedBy env v next dek opened
                    (ap (λ (y : User). y.disabled) keeps ∙ enabled)
                    (ap (λ (y : User). y.unconfirmed) keeps ∙ confirmed)),
              ap (λ (y : User). y.secrets) keeps,
            )
      ]

  recover_user_change-state :
      (now : carrel.Prelude.ℕ) (actor : Actor) (id mp pw : Text) (st st' : State) (u v : User)
      (esc : Escrow) (dek t t' : Bytes)
      → find_user st id ≡ some u
      → st.settings.escrow.config ≡ some esc
      → recover_dek env.crypto esc mp u.escrow_dek ≡ ok dek
      → recover_user_change env now actor id mp pw st t ≡ ok ((v, st'), t')
      → (st'.users ≡ replace_first (λ x. x.id == id) v st.users)
        × (IsOpenedBy env v pw dek)
        × (v ≡ record u {
          auth = v.auth;
          kek_salt = v.kek_salt;
          kek_params = v.kek_params;
          wrapped_dek = v.wrapped_dek;
          must_change_password = true;
          escrow_recovered_at = now;
        })
  unfolding recover_user_change append_audit unwrap_user_dek
  recover_user_change-state now actor id mp pw st st' u v esc dek t t' e c d h =
      elim (Bool-cases (nat_eq (length u.escrow_dek) 0)) [
        | inl bare ↦ absurd (ground arith)
        | inr held ↦ elim (Result-cases (rewrap_dek env u pw dek t)) [
          | inl (x, r) ↦ absurd (ground arith)
          | inr ((y, t₁), r) ↦
              let o = rewrap_dek-IsOpenedBy env laws u pw dek t r in
              let v≡ : v ≡ record y { must_change_password = true; escrow_recovered_at = now } =
                ground arith in
              (
                ground arith,
                rw v≡ (record { matches = o.matches; opens = o.opens }),
                rw v≡ (
                    ap
                      (λ (x : User). record x {
                        must_change_password = true;
                        escrow_recovered_at = now;
                      })
                      (rewrap_dek-keeps env u pw dek t r)),
              )
        ]
      ]

  -- After a recovery by the master password, the temporary password logs the account in to the data
  -- key that was deposited, with its sealed connections, and must be changed; the account is neither
  -- disabled nor unconfirmed.
  pub recover_user-authenticate :
      (w : World) (s s' : Store) (actor : Actor) (id mp pw login : Text) (u v : User) (esc : Escrow)
      (dek : Bytes)
      → HaveUniqueLogins s.state.users
      → find_user s.state id ≡ some u
      → normalize_login env.lower login ≡ u.login
      → u.disabled ≡ false
      → u.unconfirmed ≡ false
      → s.state.settings.escrow.config ≡ some esc
      → recover_dek env.crypto esc mp u.escrow_dek ≡ ok dek
      → recover_user env w actor id mp pw s ≡ (ok v, s')
      → (authenticate env login pw s' ≡ ok (v, dek))
        × (v.secrets ≡ u.secrets)
        × (v.must_change_password ≡ true)
  unfolding authenticate recover_user
  recover_user-authenticate w s s' actor id mp pw login u v esc dek unique found same d n c k h =
      let (t, t', r) =
        update-ok env laws w s (recover_user_change env w.now actor id mp pw) v s'
          (checked-ok (validate_password pw) s _ v s' h) in
      let (users, opened, keeps) =
        recover_user_change-state w.now actor id mp pw s.state s'.state u v esc dek t t' found c k
          r in
      let again =
        find-replace_first id s.state.users v unique found (ap (λ (y : User). y.login) keeps) in
      (
        authenticate-admit env s' _ login u.login _ v _ same users again (
            admit-IsOpenedBy env v pw dek opened (ap (λ (y : User). y.disabled) keeps ∙ d)
              (ap (λ (y : User). y.unconfirmed) keeps ∙ n)),
        ap (λ (y : User). y.secrets) keeps,
        ap (λ (y : User). y.must_change_password) keeps,
      )
