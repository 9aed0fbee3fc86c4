-- ===== src/Store/Access/Arrivals.antt =====
-- internal/store/users.go and invites.go: a new account can log in, and an invitation makes one
-- account only.
use carrel.Prelude.{
  ℕ, ◌<◌, ◌≡◌, refl, ap, sym, inl, inr, Bool, true, false, not, Bool-cases, Option, Option-cases,
  none, some, List, [], ◌∷◌, ◌++◌, find, find_last, replace_last, Text, text_eq, ◌==◌, arith,
  nat_eq, length,
}
use carrel.Errors.{ok, err, Result-cases, check, invite_invalid}
use carrel.Random.{Bytes, random}
use carrel.Crypto.{hash_token}
use carrel.Store.Types.{State, User, Invite, Role, Actor, usable, status, delivery_email}
use carrel.Store.Validate.{normalize_login, normalize_email}
use carrel.Store.Base.{Env, IsLawful, World, Store, find_user_by_login, append_audit}
use carrel.Store.Users.{
  validate_new_user, blank_user, new_user, admit, authenticate, create_user_change,
  create_user_with_password,
}
use carrel.Store.Invites.{
  with_digest, if_usable, lookup_invite, account_email, accept_invite_change, accept_invite,
}
use carrel.Store.Commit.{update-ok}
use carrel.Store.Effects.Credentials.{set_credentials-keeps}
use carrel.Store.Access.Credentials.{
  IsOpenedBy, checked-ok, checked-passed, set_credentials-IsOpenedBy, admit-IsOpenedBy, find-append,
  authenticate-admit,
}

-- An account that has just been made under a login, with a role and a password.
pub record IsNew (env : Env) (login : Text) (role : Role) (pw : Text) (u : User) : Type 0 where
  pub named : u.login ≡ login
  pub ranked : u.role ≡ role
  pub enabled : u.disabled ≡ false
  pub confirmed : u.unconfirmed ≡ false
  pub dek : Bytes
  pub opened : IsOpenedBy env u pw dek

module _ (env : Env) (laws : IsLawful env) where
  pub new_user-IsNew :
      (now : ℕ) (st : State) (login email : Text) (role : Role) (pw by : Text) (t : Bytes)
      {v : User} {t' : Bytes}
      → new_user env now st login email role pw by t ≡ ok (v, t')
      → IsNew env login role pw v
  unfolding new_user
  new_user-IsNew now st login email role pw by t {v} {t'} h = elim (Result-cases (random 16 t)) [
    | inl (x, r) ↦ absurd (ground arith)
    | inr ((id, t₁), r) ↦
        let b = blank_user now (env.crypto.hex id) login email role by in
        let keeps =
          set_credentials-keeps env b pw st.settings.escrow t₁ {v = v} {t' = t'} (ground arith) in
        let (key, o) =
          set_credentials-IsOpenedBy env laws b pw st.settings.escrow t₁ {v = v} {t' = t'}
            (ground arith) in
        record {
          named = ap (λ (x : User). x.login) keeps;
          ranked = ap (λ (x : User). x.role) keeps;
          enabled = ap (λ (x : User). x.disabled) keeps;
          confirmed = ap (λ (x : User). x.unconfirmed) keeps;
          dek = key;
          opened = o;
        }
  ]

  -- The account that was made is let in by the password that it was made with.
  pub added-authenticate :
      (s : Store) (us : List User) (role : Role) (pw login : Text) (u : User)
      → s.state.users ≡ us ++ u ∷ []
      → find (λ (x : User). x.login == normalize_login env.lower login) us ≡ none
      → (n : IsNew env (normalize_login env.lower login) role pw u)
      → authenticate env login pw s ≡ ok (u, n.dek)
  unfolding authenticate
  added-authenticate s us role pw login u users free n =
      let again = find-append us u (rw n.named free) in
      authenticate-admit env s _ login u.login pw u _ (sym n.named) users again
        (admit-IsOpenedBy env u pw n.dek n.opened n.enabled n.confirmed)

  create_user_change-added :
      (now : ℕ) (actor : Actor) (login email : Text) (role : Role) (pw : Text) (st st' : State)
      (a : User) (t t' : Bytes)
      → create_user_change env now actor login email role pw st t ≡ ok ((a, st'), t')
      → (st'.users ≡ st.users ++ a ∷ [])
        × (find (λ (x : User). x.login == login) st.users ≡ none)
        × IsNew env login role pw a
        × (a.must_change_password ≡ true)
  unfolding create_user_change append_audit carrel.Store.Users.unwrap_user_dek
  create_user_change-added now actor login email role pw st st' a t t' h =
      elim (Option-cases (find_user_by_login st login)) [
        | inr (x, f) ↦ absurd (ground arith)
        | inl f ↦ elim (Result-cases (new_user env now st login email role pw actor.id t)) [
          | inl (x, n) ↦ absurd (ground arith)
          | inr ((v, t₁), n) ↦
              let m = new_user-IsNew now st login email role pw actor.id t n in
              let a≡ : a ≡ record v {
                must_change_password = true;
                email_confirmed = not (nat_eq (length email) 0);
              } =
                ground arith in
              (
                ground arith,
                f,
                rw a≡ (record {
                  named = m.named;
                  ranked = m.ranked;
                  enabled = m.enabled;
                  confirmed = m.confirmed;
                  dek = m.dek;
                  opened = record { matches = m.opened.matches; opens = m.opened.opens };
                }),
                rw a≡ refl,
              )
        ]
      ]

  -- A user whom an administrator has created logs in with the temporary password, under the login
  -- as it was typed, with the role that was chosen, and has to change the password.
  pub create_user-authenticate :
      (w : World) (s s' : Store) (actor : Actor) (login email : Text) (role : Role) (pw : Text)
      (u : User)
      → create_user_with_password env w actor login email role pw s ≡ (ok u, s')
      → (dek : Bytes) × (authenticate env login pw s' ≡ ok (u, dek))
        × (u.role ≡ role)
        × (u.must_change_password ≡ true)
  unfolding create_user_with_password
  create_user-authenticate w s s' actor login email role pw u h =
      let name = normalize_login env.lower login in
      let (t, t', c) =
        update-ok env laws w s
          (create_user_change env w.now actor name (normalize_email email) role pw) u s'
          (checked-ok _ s _ u s' (checked-ok _ s _ u s' h)) in
      let (users, free, n, must) =
        create_user_change-added w.now actor name (normalize_email email) role pw s.state s'.state u
          t t' c in
      (n.dek, added-authenticate s' s.state.users role pw login u users free n, n.ranked, must)

-- A replacement that passes the test is the last element that does.
find_last-replace_last :
    (p : Invite → Bool) (i : Invite) (is : List Invite) {j : Invite}
    → find_last p is ≡ some j
    → p i ≡ true
    → find_last p (replace_last p i is) ≡ some i
find_last-replace_last p i [] h q = absurd (ground arith)
find_last-replace_last p i (x ∷ is) {j} h q = elim (Option-cases (find_last p is)) [
  | inl e ↦ elim (Bool-cases (p x)) [
    | inl b ↦ rw (e, replace_last, b, e, q) refl
    | inr b ↦ absurd (ground arith)
  ]
  | inr (y, e) ↦ rw (e, replace_last, find_last-replace_last p i is e q) refl
]

find_last-passes :
    (p : Invite → Bool) (is : List Invite) {j : Invite} → find_last p is ≡ some j → p j ≡ true
find_last-passes p [] h = absurd (ground arith)
find_last-passes p (x ∷ is) {j} h = elim (Option-cases (find_last p is)) [
  | inl e ↦ elim (Bool-cases (p x)) [ inl b ↦ ground arith | inr b ↦ absurd (ground arith) ]
  | inr (y, e) ↦ let y≡ : y ≡ j = ground arith in rw (← y≡) (find_last-passes p is e)
]

if_usable-some : (now : ℕ) (o : Option Invite) (i : Invite) → if_usable now o ≡ ok i → o ≡ some i
if_usable-some now none i h = cc
if_usable-some now (some j) i h = elim (Bool-cases (usable j now)) [
  | inl e ↦ ground arith
  | inr e ↦ absurd (ground arith)
]

module _ (env : Env) (laws : IsLawful env) where
  accept_invite_change-added :
      (now : ℕ) (token login email pw ip : Text) (st st' : State) (a : User) (t t' : Bytes)
      → accept_invite_change env now token login email pw ip st t ≡ ok ((a, st'), t')
      → (i : Invite) × (find_last (with_digest (hash_token env.crypto token)) st.invites ≡ some i)
        × (usable i now ≡ true)
        × (st'.users ≡ st.users ++ a ∷ [])
        × (find (λ (x : User). x.login == login) st.users ≡ none)
        × IsNew env login i.role pw a
        × ((address : Text) × (find_last (with_digest (hash_token env.crypto token)) st'.invites
              ≡ some (record i { accepted_at = now; login = login; email = address })))
  unfolding accept_invite_change append_audit carrel.Store.Users.unwrap_user_dek
  accept_invite_change-added now token login email pw ip st st' a t t' h =
      let digest = hash_token env.crypto token in
      elim (Result-cases (if_usable now (find_last (with_digest digest) st.invites))) [
        | inl (x, f) ↦ absurd (ground arith)
        | inr (inv, f) ↦ elim (Option-cases (find_user_by_login st login)) [
          | inr (x, l) ↦ absurd (ground arith)
          | inl l ↦ elim (Result-cases (account_email env inv email)) [
            | inl (x, m) ↦ absurd (ground arith)
            | inr (address, m) ↦
                let inv' : Invite = record inv {
                  accepted_at = now;
                  login = login;
                  email = address;
                } in
                let is = replace_last (with_digest digest) inv' st.invites in
                elim (Result-cases (
                  new_user env now (record st { invites = is }) login address inv.role pw
                    inv.created_by t)) [
                      | inl (x, n) ↦ absurd (ground arith)
                      | inr ((v, t₁), n) ↦
                          let k =
                            new_user-IsNew env laws now (record st { invites = is }) login address
                              inv.role pw inv.created_by t n in
                          let a≡ : a
                              ≡ record v { email_confirmed = inv.delivery == delivery_email } =
                            ground arith in
                          let found =
                            if_usable-some now (find_last (with_digest digest) st.invites) inv f in
                          let is≡ : st'.invites ≡ is = ground arith in
                          (
                            inv,
                            found,
                            ground (arith, found),
                            ground arith,
                            l,
                            rw a≡ (record {
                              named = k.named;
                              ranked = k.ranked;
                              enabled = k.enabled;
                              confirmed = k.confirmed;
                              dek = k.dek;
                              opened = record {
                                matches = k.opened.matches;
                                opens = k.opened.opens;
                              };
                            }),
                            (
                              address,
                              rw is≡ (
                                  find_last-replace_last (with_digest digest) inv' st.invites found
                                    (find_last-passes (with_digest digest) st.invites found)),
                            ),
                          )
                    ]
          ]
        ]
      ]

  -- An invitation that is accepted makes an account of its role, which logs in with the password
  -- that was chosen; the link is then refused at every later time. The clock is not at Go's zero.
  pub accept_invite-once :
      (w : World) (s s' : Store) (token login email pw ip : Text) (u : User)
      → 0 < w.now
      → accept_invite env w token login email pw ip s ≡ (ok u, s')
      → ((i : Invite) × (lookup_invite env w.now token s ≡ ok i) × (u.role ≡ i.role))
        × ((dek : Bytes) × (authenticate env login pw s' ≡ ok (u, dek)))
        × ((later : ℕ) → lookup_invite env later token s' ≡ err invite_invalid)
  unfolding accept_invite lookup_invite status
  accept_invite-once w s s' token login email pw ip u ticking h =
      let name = normalize_login env.lower login in
      let past = checked-ok _ s _ u s' (checked-ok _ s _ u s' h) in
      let (t, t', c) =
        update-ok env laws w s (accept_invite_change env w.now token name email pw ip) u s'
          (checked-ok _ s _ u s' past) in
      let (i, found, usable_now, users, free, n, (address, used)) =
        accept_invite_change-added w.now token name email pw ip s.state s'.state u t t' c in
      let given : nat_eq (length token) 0 ≡ false = elim (Bool-cases (nat_eq (length token) 0)) [
        | inr e ↦ e
        | inl e ↦
            let passed : check (not (nat_eq (length token) 0)) invite_invalid ≡ ok tt =
              checked-passed _ s _ u s' past in
            absurd (ground (arith, passed, e))
      ] in
      (
        (i, rw (lookup_invite, given, found, usable_now) refl, n.ranked),
        (n.dek, added-authenticate env laws s' s.state.users i.role pw login u users free n),
        λ later. rw (lookup_invite, given, used) (ground arith),
      )
