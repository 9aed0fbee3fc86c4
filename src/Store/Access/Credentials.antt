-- ===== src/Store/Access/Credentials.antt =====
-- internal/store/users.go: what new credentials open, and how the accounts are found again.
use carrel.Prelude.{
  ◌≡◌, refl, ap, sym, ◌∙◌, inl, inr, true, false, Bool-cases, none, some, List, [], ◌∷◌, ◌++◌, find,
  replace_first, Text, text_eq, ◌==◌, ==_refl, ==_iff, arith,
}
use carrel.Errors.{Result, ok, err, Result-cases}
use carrel.Random.{Bytes, random}
use carrel.Crypto.{hash_password, derive_key, wrap_dek}
use carrel.Crypto.Laws.{unwrap_dek-wrap_dek, verify-hash_password}
use carrel.Store.Types.{User, EscrowSettings}
use carrel.Store.Validate.{normalize_login}
use carrel.Store.Base.{Env, IsLawful, Store, checked, find_user_by_login}
use carrel.Store.Users.{
  seal_for, set_credentials, rewrap_dek, unwrap_user_dek, password_matches, admit, authenticate,
}
use carrel.Store.Invariants.Logins.{IsFree, HaveUniqueLogins}

-- The password is the account's, and opens this data key.
pub record IsOpenedBy (env : Env) (u : User) (password : Text) (dek : Bytes) : Type 0 where
  pub matches : password_matches env u password ≡ true
  pub opens : unwrap_user_dek env u password ≡ ok dek

pub checked-ok :
    {A : Type 0} (r : Result (Unit {0})) (s : Store) (x : Result A × Store) (a : A) (s' : Store)
    → checked r s x ≡ (ok a, s')
    → x ≡ (ok a, s')
unfolding checked
checked-ok (ok _) s x a s' h = h
checked-ok (err e) s x a s' h = cc

pub checked-passed :
    {A : Type 0} (r : Result (Unit {0})) (s : Store) (x : Result A × Store) (a : A) (s' : Store)
    → checked r s x ≡ (ok a, s')
    → r ≡ ok tt
unfolding checked
checked-passed (ok tt) s x a s' h = refl
checked-passed (err e) s x a s' h = cc

module _ (env : Env) (laws : IsLawful env) where
  -- A password and a wrapped key that belong together open the key.
  wrapped-IsOpenedBy :
      (u : User) (pw : Text) (dek t₁ t₂ t₃ t₄ : Bytes) {auth : carrel.Crypto.PasswordHash}
      {kek wrapped : Bytes}
      → hash_password env.crypto pw env.auth t₁ ≡ ok (auth, t₂)
      → derive_key env.crypto pw u.kek_salt u.kek_params ≡ ok kek
      → wrap_dek env.crypto kek dek t₃ ≡ ok (wrapped, t₄)
      → u.auth ≡ some auth
      → u.wrapped_dek ≡ wrapped
      → IsOpenedBy env u pw dek
  unfolding unwrap_user_dek
  wrapped-IsOpenedBy u pw dek t₁ t₂ t₃ t₄ {auth} {kek} {wrapped} a d w p q =
      let accepts = verify-hash_password env.crypto laws.crypto pw env.auth t₁ a in
      let unwraps = unwrap_dek-wrap_dek env.crypto laws.crypto kek dek t₃ w in
      record { matches = rw p accepts; opens = ground (arith, d, q, unwraps) }

  pub rewrap_dek-IsOpenedBy :
      (u : User) (pw : Text) (dek t : Bytes) {v : User} {t' : Bytes}
      → rewrap_dek env u pw dek t ≡ ok (v, t')
      → IsOpenedBy env v pw dek
  unfolding rewrap_dek
  rewrap_dek-IsOpenedBy u pw dek t {v} h =
      elim (Result-cases (hash_password env.crypto pw env.auth t)) [
        | inl (x, a) ↦ absurd (ground arith)
        | inr ((auth, t₁), a) ↦ elim (Result-cases (random 16 t₁)) [
          | inl (x, r) ↦ absurd (ground arith)
          | inr ((salt, t₂), r) ↦ elim (Result-cases (derive_key env.crypto pw salt env.kek)) [
            | inl (x, d) ↦ absurd (ground arith)
            | inr (kek, d) ↦ elim (Result-cases (wrap_dek env.crypto kek dek t₂)) [
              | inl (x, w) ↦ absurd (ground arith)
              | inr ((wrapped, t₃), w) ↦
                  let v≡ : v ≡ record u {
                    auth = some auth;
                    kek_salt = salt;
                    kek_params = env.kek;
                    wrapped_dek = wrapped;
                  } =
                    ground arith in
                  rw v≡ (wrapped-IsOpenedBy _ pw dek t t₁ t₂ t₃ a d w refl refl)
            ]
          ]
        ]
      ]

  pub set_credentials-IsOpenedBy :
      (u : User) (pw : Text) (esc : EscrowSettings) (t : Bytes) {v : User} {t' : Bytes}
      → set_credentials env u pw esc t ≡ ok (v, t')
      → (dek : Bytes) × IsOpenedBy env v pw dek
  unfolding set_credentials
  set_credentials-IsOpenedBy u pw esc t {v} h =
      elim (Result-cases (hash_password env.crypto pw env.auth t)) [
        | inl (x, a) ↦ absurd (ground arith)
        | inr ((auth, t₁), a) ↦ elim (Result-cases (random 16 t₁)) [
          | inl (x, r) ↦ absurd (ground arith)
          | inr ((salt, t₂), r) ↦ elim (Result-cases (derive_key env.crypto pw salt env.kek)) [
            | inl (x, d) ↦ absurd (ground arith)
            | inr (kek, d) ↦ elim (Result-cases (random 32 t₂)) [
              | inl (x, k) ↦ absurd (ground arith)
              | inr ((dek, t₃), k) ↦ elim (Result-cases (wrap_dek env.crypto kek dek t₃)) [
                | inl (x, w) ↦ absurd (ground arith)
                | inr ((wrapped, t₄), w) ↦ elim (Result-cases (seal_for env esc dek t₄)) [
                  | inl (x, s) ↦ absurd (ground arith)
                  | inr ((sealed, t₅), s) ↦
                      let v≡ : v ≡ record u {
                        auth = some auth;
                        kek_salt = salt;
                        kek_params = env.kek;
                        wrapped_dek = wrapped;
                        escrow_dek = sealed;
                      } =
                        ground arith in
                      (dek, rw v≡ (wrapped-IsOpenedBy _ pw dek t t₁ t₃ t₄ a d w refl refl))
                ]
              ]
            ]
          ]
        ]
      ]

-- An account that can log in is let in by a password that opens it.
pub admit-IsOpenedBy :
    (env : Env) (u : User) (pw : Text) (dek : Bytes)
    → IsOpenedBy env u pw dek
    → u.disabled ≡ false
    → u.unconfirmed ≡ false
    → admit env u pw ≡ ok (u, dek)
admit-IsOpenedBy env u pw dek h d c = ground (arith, h.matches, d, c, h.opens)

-- The account that is found under the login is let in.
pub authenticate-admit :
    (env : Env) (s : Store) (us : List User) (login l pw : Text) (u : User)
    (r : Result (User × Bytes))
    → normalize_login env.lower login ≡ l
    → s.state.users ≡ us
    → find (λ x. x.login == l) us ≡ some u
    → admit env u pw ≡ r
    → authenticate env login pw s ≡ r
unfolding authenticate
authenticate-admit env s us login l pw u r same users found h =
    let f : find_user_by_login s.state (normalize_login env.lower login) ≡ some u =
      ap (find_user_by_login s.state) same ∙ ap (find (λ (x : User). x.login == l)) users ∙ found in
    rw (authenticate, f) h

-- An account that is found by its id does not have a login that is free.
find-IsFree :
    (id l : Text) (us : List User) {u : User}
    → find (λ x. x.id == id) us ≡ some u
    → IsFree l us
    → (u.login == l) ≡ false
unfolding IsFree
find-IsFree id l [] h f = absurd (ground arith)
find-IsFree id l (x ∷ us) {u} h f = elim (Bool-cases (x.login == l)) [
  | inl q ↦ absurd (ground arith)
  | inr q ↦ elim (Bool-cases (x.id == id)) [
    | inl e ↦ ground arith
    | inr e ↦ find-IsFree id l us (rw e at h) (rw q at f)
  ]
]

-- An account that is replaced under its id is found under its login.
pub find-replace_first :
    (id : Text) (us : List User) {u : User} (v : User)
    → HaveUniqueLogins us
    → find (λ x. x.id == id) us ≡ some u
    → v.login ≡ u.login
    → find (λ x. x.login == u.login) (replace_first (λ x. x.id == id) v us) ≡ some v
unfolding HaveUniqueLogins
find-replace_first id [] v unique h e = absurd (ground arith)
find-replace_first id (x ∷ us) {u} v (f, unique) h e = elim (Bool-cases (x.id == id)) [
  | inl q ↦ rw (q, e, ==_refl u.login) refl
  | inr q ↦
      let rest : find (λ y. y.id == id) us ≡ some u = rw q at h in
      let other = find-IsFree id x.login us rest f in
      elim (Bool-cases (x.login == u.login)) [
        | inl p ↦
            absurd (
              ground
                (arith, other, (==_iff u.login x.login).1 (sym ((==_iff x.login u.login).0 p))))
        | inr p ↦ rw (q, p) (find-replace_first id us v unique rest e)
      ]
]

-- An account that is added under a free login is found under it.
pub find-append :
    (us : List User) (u : User)
    → find (λ x. x.login == u.login) us ≡ none
    → find (λ x. x.login == u.login) (us ++ u ∷ []) ≡ some u
find-append [] u h = rw (==_refl u.login) refl
find-append (x ∷ us) u h = elim (Bool-cases (x.login == u.login)) [
  | inl q ↦ absurd (ground arith)
  | inr q ↦ rw q (find-append us u (rw q at h))
]
