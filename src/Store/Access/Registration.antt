-- ===== src/Store/Access/Registration.antt =====
-- internal/store/register.go and email_change.go: a registered user is let in once the link that was
-- mailed has been followed.
use carrel.Prelude.{
  ℕ, ◌+◌, ◌<◌, ◌≤◌, ◌≡◌, refl, ap, sym, ◌∙◌, inl, inr, Bool, true, false, none, some, List, [], ◌∷◌,
  ◌++◌, find, find_last, replace_last, Text, text, text_eq, ◌==◌, ==_refl, arith, nat_eq, length,
  ltb,
}
use carrel.Errors.{Result, ok, err, Result-cases, user_unconfirmed}
use carrel.Random.{Bytes, random, pure, length-random, >>=-eq-ok}
use carrel.Crypto.{hash_token, utf8, new_token, token_len}
use carrel.Store.Types.{State, User, role_user}
use carrel.Store.Validate.{normalize_login, normalize_email}
use carrel.Store.Base.{
  Env, IsLawful, World, Store, find_user_by_login, append_audit, drawn, checked, entry,
}
use carrel.Store.Users.{password_matches, new_user, admit, authenticate, validate_new_user}
use carrel.Store.Invites.{with_token}
use carrel.Store.Confirm.{
  default_email_change_ttl, stamp_registration, register_new, register_change, register, awaits,
  confirm_email_change_change, confirm_email_change,
}
use carrel.Store.Commit.{update-ok, CanStore, update-CanStore}
use carrel.Store.Access.Credentials.{checked-ok, checked-passed, authenticate-admit, find-append}
use carrel.Store.Access.Arrivals.{IsNew, new_user-IsNew, added-authenticate}

with_token-ok :
    {A : Type 0} (token given : Text) (x : Result A × Store) (a : A) (s' : Store)
    → with_token token x ≡ (ok (a, given), s')
    → (x ≡ (ok a, s')) × (token ≡ given)
unfolding with_token
with_token-ok token given (ok b, s) a s' h = ground (arith, h)
with_token-ok token given (err e, s) a s' h = cc

drawn-ok :
    {A B : Type 0} (r : Result (B × Bytes)) (s : Store) (f : B → Bytes → Result A × Store) (a : A)
    (s' : Store)
    → drawn r s f ≡ (ok a, s')
    → (b : B) × (rest : Bytes) × (r ≡ ok (b, rest)) × (f b rest ≡ (ok a, s'))
unfolding drawn
drawn-ok (ok (b, rest)) s f a s' h = (b, rest, refl, h)
drawn-ok (err e) s f a s' h = cc

find_last-append :
    (p : User → Bool) (us : List User) (u : User) → p u ≡ true → find_last p (us ++ u ∷ []) ≡ some u
find_last-append p [] u h = rw h refl
find_last-append p (x ∷ us) u h = rw (find_last-append p us u h) refl

replace_last-append :
    (p : User → Bool) (v : User) (us : List User) (u : User)
    → p u ≡ true
    → replace_last p v (us ++ u ∷ []) ≡ us ++ v ∷ []
replace_last-append p v [] u h = rw (replace_last, h) refl
replace_last-append p v (x ∷ us) u h =
    rw (replace_last, find_last-append p us u h, replace_last-append p v us u h) refl

admit-unconfirmed :
    (env : Env) (u : User) (pw : Text)
    → password_matches env u pw ≡ true
    → u.disabled ≡ false
    → u.unconfirmed ≡ true
    → admit env u pw ≡ err user_unconfirmed
admit-unconfirmed env u pw m d c = ground (arith, m, d, c)

module _ (env : Env) (laws : IsLawful env) where
  register_new-added :
      (now : ℕ) (token login email pw ip : Text) (st st' : State) (u : User) (t t' : Bytes)
      → register_new env now token login email pw ip st t ≡ ok ((u, st'), t')
      → (made : User) × (u
          ≡ stamp_registration env email token (now + default_email_change_ttl) made)
        × (st'.users ≡ st.users ++ u ∷ [])
        × IsNew env login role_user pw made
  unfolding register_new append_audit
  register_new-added now token login email pw ip st st' u t t' h =
      elim (Result-cases (new_user env now st login email role_user pw [] t)) [
        | inl (x, n) ↦ absurd (ground arith)
        | inr ((made, t₁), n) ↦ (
          made,
          ground arith,
          ground arith,
          new_user-IsNew env laws now st login email role_user pw [] t n,
        )
      ]

  -- The account as the link leaves it.
  confirmed_user : User → User
  confirmed_user u = record u {
    unconfirmed = false;
    email = u.pending_email;
    email_confirmed = true;
    pending_email = [];
    email_change_token_hash = [];
    email_change_expires = 0;
  }

  confirm-added :
      (later : ℕ) (token : Text) (st : State) (us : List User) (u : User)
      → st.users ≡ us ++ u ∷ []
      → awaits (hash_token env.crypto token) u ≡ true
      → nat_eq (length u.pending_email) 0 ≡ false
      → ltb later u.email_change_expires ≡ true
      → (next : State) × ((t : Bytes)
          → confirm_email_change_change env later token st t
            ≡ ok (((confirmed_user u, u.unconfirmed), next), t))
        × (next.users ≡ us ++ confirmed_user u ∷ [])
  unfolding confirm_email_change_change confirmed_user append_audit
  confirm-added later token st us u users waits pending early =
      let digest = hash_token env.crypto token in
      let found : find_last (awaits digest) st.users ≡ some u =
        ap (find_last (awaits digest)) users ∙ find_last-append (awaits digest) us u waits in
      let replaced : replace_last (awaits digest) (confirmed_user u) st.users
          ≡ us ++ confirmed_user u ∷ [] =
        ap (replace_last (awaits digest) (confirmed_user u)) users
        ∙ replace_last-append (awaits digest) (confirmed_user u) us u waits in
      (
        append_audit later
            (entry (text "email_confirm") u.id u.login u.id u.login [] u.pending_email)
            (record st { users = replace_last (awaits digest) (confirmed_user u) st.users }),
        λ t. ground (arith, found, pending, early),
        replaced,
      )

  stamped-awaits :
      (email token : Text) (expires : ℕ) (made : User)
      → awaits (hash_token env.crypto token) (stamp_registration env email token expires made)
        ≡ true
  unfolding hash_token
  stamped-awaits email token expires made =
      ground
        (arith, laws.crypto.length-sha256 (utf8 token), ==_refl (env.crypto.sha256 (utf8 token)))

  -- The account that waits for its link, and the same account after it.
  stamped-confirm :
      (w' : World) (st : Store) (us : List User) (login email token pw : Text) (expires : ℕ)
      (made u : User)
      → CanStore env w' st
      → nat_eq (length token) 0 ≡ false
      → u ≡ stamp_registration env email token expires made
      → st.state.users ≡ us ++ u ∷ []
      → find (λ (x : User). x.login == normalize_login env.lower login) us ≡ none
      → IsNew env (normalize_login env.lower login) role_user pw made
      → nat_eq (length email) 0 ≡ false
      → ltb w'.now expires ≡ true
      → (authenticate env login pw st ≡ err user_unconfirmed)
        × ((v : User) × (after : Store) × (confirm_email_change env w' token st
              ≡ (ok (v, true), after))
            × (v.email ≡ email)
            × ((dek : Bytes) × (authenticate env login pw after ≡ ok (v, dek))))
  unfolding confirmed_user carrel.Store.Users.unwrap_user_dek confirm_email_change checked
  stamped-confirm w' st us login email token pw expires made u stores given u≡ users free n
        addressed early =
      let w : User = stamp_registration env email token expires made in
      let users_w : st.state.users ≡ us ++ w ∷ [] = users ∙ ap (λ x. us ++ x ∷ []) u≡ in
      let (next, goes, users') =
        confirm-added w'.now token st.state us w users_w (stamped-awaits email token expires made)
          addressed early in
      let change = confirm_email_change_change env w'.now token in
      let (after, followed, is_next) =
        update-CanStore env laws w' st change (confirmed_user w, true) next stores goes in
      let ready : IsNew env (normalize_login env.lower login) role_user pw (confirmed_user w) =
        record {
          named = n.named;
          ranked = n.ranked;
          enabled = n.enabled;
          confirmed = refl;
          dek = n.dek;
          opened = record { matches = n.opened.matches; opens = n.opened.opens };
        } in
      (
        authenticate-admit env st _ login w.login pw w _ (sym n.named) users_w
            (find-append us w (rw n.named free))
            (admit-unconfirmed env w pw n.opened.matches n.enabled refl),
        (
          confirmed_user w,
          after,
          rw given followed,
          refl,
          (
            n.dek,
            added-authenticate env laws after us role_user pw login (confirmed_user w)
                (ap (λ (x : State). x.users) is_next ∙ users') free ready,
          ),
        ),
      )

  new_token-nonempty :
      (tape rest : Bytes) (token : Text)
      → new_token env.crypto tape ≡ ok (token, rest)
      → nat_eq (length token) 0 ≡ false
  unfolding new_token
  new_token-nonempty tape rest token h =
      let (b, more, drew, encoded) =
        >>=-eq-ok (random token_len) (λ x. pure (env.crypto.base64_url x)) h in
      let enough = length-random token_len tape drew in
      let text≡ : env.crypto.base64_url b ≡ token = ground (arith, encoded) in
      let long = laws.crypto.length-base64_url b in
      let long' : length b ≤ length token = rw (← text≡) long in ground (arith, long', enough)

  -- A user who registers under a free login is refused right afterwards. In a world where the state can
  -- be stored, and before the link that was mailed expires, a day after, following the link succeeds
  -- and ends the registration: the account then has the address that was given, and the password logs
  -- it in.
  pub register-confirm :
      (w w' : World) (s s' : Store) (login email pw ip : Text) (u : User) (token : Text)
      → find_user_by_login s.state (normalize_login env.lower login) ≡ none
      → register env w login email pw ip s ≡ (ok (u, token), s')
      → w'.now < w.now + default_email_change_ttl
      → CanStore env w' s'
      → (authenticate env login pw s' ≡ err user_unconfirmed)
        × ((v : User) × (after : Store) × (confirm_email_change env w' token s'
              ≡ (ok (v, true), after))
            × (v.email ≡ normalize_email email)
            × ((dek : Bytes) × (authenticate env login pw after ≡ ok (v, dek))))
  unfolding register register_change
  register-confirm w w' s s' login email pw ip u token free h early stores =
      let name = normalize_login env.lower login in
      let address = normalize_email email in
      let addressed = checked-passed _ s _ (u, token) s' h in
      let (drew, rest, new_one, given) =
        drawn-ok _ s _ (u, token) s'
          (checked-ok _ s _ (u, token) s' (checked-ok _ s _ (u, token) s' h)) in
      let (done, same) = with_token-ok drew token _ u s' given in
      let (t, t', c) =
        update-ok env laws (record w { tape = rest }) s
          (register_change env w.now drew name address pw ip) u s' done in
      let new : register_new env w.now drew name address pw ip s.state t ≡ ok ((u, s'.state), t') =
        ground (arith, free) in
      let (made, u≡, users, n) =
        register_new-added w.now drew name address pw ip s.state s'.state u t t' new in
      let nonempty =
        ap (λ k. nat_eq (length k) 0) (sym same) ∙ new_token-nonempty w.tape rest drew new_one in
      stamped-confirm w' s' s.state.users login address token pw (w.now + default_email_change_ttl)
        made u stores nonempty
        (u≡
          ∙ ap (λ k. stamp_registration env address k (w.now + default_email_change_ttl) made) same)
        users free n (ground (arith, addressed)) (ground (arith, early))
