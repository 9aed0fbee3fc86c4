-- ===== src/Store/Invites.antt =====
-- internal/store/invites.go
use carrel.Prelude.{
  ℕ, ◌+◌, Bool, ◌&&◌, not, Option, none, some, [], ◌∷◌, ◌++◌, if◌then◌else◌, nat_eq, length, Text,
  text, text_eq, ◌==◌, find, find_last, replace_first, replace_last, ℤ, positive_or,
}
use carrel.Errors.{
  Result, ok, err, or_else, check, not_found, invite_invalid, invite_not_by_email, unknown_role,
  unknown_delivery, link_with_email,
}
use carrel.Random.{Bytes, Draw, random, ◌>>=◌, ◌>>◌, pure, lift}
use carrel.Crypto.{new_token, hash_token}
use carrel.Store.Types.{
  State, User, Invite, Role, is_role, is_delivery, delivery_link, delivery_email, usable,
  configured, send_pending, send_not_configured, send_ok, invite_ttl, is_positive, is_zero, Actor,
}
use carrel.Store.Validate.{
  normalize_login, normalize_email, validate_login, validate_email, validate_password,
}
use carrel.Store.Base.{Env, World, Store, update, checked, drawn, add_user, entry, append_audit}
use carrel.Store.Users.{check_login_free, new_user}
use carrel.Store.Accounts.{Change, done, Reply}

abbrev pub find_invite : State → Text → Option Invite
find_invite st id = find (λ i. i.id == id) st.invites

abbrev pub set_invite : Text → Invite → State → State
set_invite id i st = record st { invites = replace_first (λ x. x.id == id) i st.invites }

abbrev pub the_invite : State → Text → Draw Invite
the_invite st id = lift (or_else (find_invite st id) not_found)

-- crypto.Equal(i.TokenHash, digest), in every round of a loop with no early exit
abbrev pub with_digest : Bytes → Invite → Bool
with_digest digest i = i.token_hash == digest

-- `if ttl <= 0 { ttl = state.Settings.InviteTTL() }`
abbrev pub ttl_or_default : ℤ → State → ℕ
ttl_or_default ttl st = positive_or ttl (invite_ttl st.settings)

abbrev pub first_status : Text → State → Text
first_status delivery st =
    if delivery == delivery_email && configured st.settings.smtp
    then send_pending
    else send_not_configured

unfoldable pub create_invite_change :
    Env → ℕ → Actor → Role → Text → Text → ℤ → Text → Text → State → Draw (Invite × State)
create_invite_change env now actor role delivery email ttl token id st = do
  let inv : Invite = record {
    id = id;
    login = [];
    email = email;
    role = role;
    delivery = delivery;
    token_hash = hash_token env.crypto token;
    created_at = now;
    created_by = actor.id;
    expires_at = now + ttl_or_default ttl st;
    accepted_at = 0;
    revoked_at = 0;
    last_sent_at = 0;
    send_status = first_status delivery st;
    send_error = [];
  }
  pure (
    inv,
    append_audit now
        (entry (text "invite_create") actor.id actor.login [] [] actor.ip
          (if delivery == delivery_email then email else []))
        (record st { invites = st.invites ++ inv ∷ [] }),
  )

-- The checks of CreateInvite before it draws the token.
unfoldable pub validate_invite : Env → Role → Text → Text → Result (Unit {0})
validate_invite env role delivery email =
    if not (is_role role)
    then err unknown_role
    else if not (is_delivery delivery)
    then err unknown_delivery
    else if delivery == delivery_link
    then check (nat_eq (length email) 0) link_with_email
    else validate_email env.parses email

-- The token and the id, both drawn before the update.
unfoldable pub draw_invite : Env → Draw (Text × Text)
draw_invite env = do token ← new_token env.crypto; id ← random 16; pure (token, env.crypto.hex id)

unfoldable pub with_token : {A : Type 0} → Text → Result A × Store → Result (A × Text) × Store
with_token token (err e, s) = (err e, s)
with_token token (ok a, s) = (ok (a, token), s)

unfoldable pub create_invite :
    Env → World → Actor → Role → Text → Text → ℤ → Store → Result (Invite × Text) × Store
create_invite env w actor role delivery email' ttl s =
    let email = normalize_email email' in
    checked (validate_invite env role delivery email) s (
      drawn (draw_invite env w.tape) s (λ drew rest. with_token drew.0 (
        update env (record w { tape = rest }) s
          (create_invite_change env w.now actor role delivery email ttl drew.0 drew.1))))

-- The usability check of LookupInvite and AcceptInvite.
abbrev pub if_usable : ℕ → Option Invite → Result Invite
if_usable now none = err invite_invalid
if_usable now (some i) = if usable i now then ok i else err invite_invalid

unfoldable pub lookup_invite : Env → ℕ → Text → Store → Result Invite
lookup_invite env now token s =
    if nat_eq (length token) 0
    then err invite_invalid
    else if_usable now (find_last (with_digest (hash_token env.crypto token)) s.state.invites)

-- The address of the account: the invitation's if it was emailed, else the bearer's.
abbrev pub account_email : Env → Invite → Text → Result Text
account_email env inv email =
    if inv.delivery == delivery_email
    then ok inv.email
    else elim (validate_email env.parses (normalize_email email)) [
      | err e ↦ err e
      | ok _ ↦ ok (normalize_email email)
    ]

unfoldable pub accept_invite_change :
    Env → ℕ → Text → Text → Text → Text → Text → State → Draw (User × State)
accept_invite_change env now token login email password ip st = do
  let digest = hash_token env.crypto token
  inv ← lift (if_usable now (find_last (with_digest digest) st.invites))
  lift (check_login_free st login)
  address ← lift (account_email env inv email)
  let inv' : Invite = record inv { accepted_at = now; login = login; email = address }
  let st' : State = record st { invites = replace_last (with_digest digest) inv' st.invites }
  made ← new_user env now st' login address inv.role password inv.created_by
  let u : User = record made { email_confirmed = inv.delivery == delivery_email }
  pure (
    u,
    append_audit now (entry (text "invite_accept") u.id u.login u.id u.login ip [])
        (add_user u st'),
  )

unfoldable pub accept_invite :
    Env → World → Text → Text → Text → Text → Text → Store → Result User × Store
accept_invite env w token login' email password ip s =
    let login = normalize_login env.lower login' in
    checked (validate_login login) s (
      checked (validate_password password) s (
        checked (check (not (nat_eq (length token) 0)) invite_invalid) s
          (update env w s (accept_invite_change env w.now token login email password ip))))

-- What an actor did to an invitation.
abbrev pub entry_invite : Text → Actor → Invite → Text → Text → carrel.Store.Types.AuditEntry
entry_invite action actor i detail ip = entry action actor.id actor.login [] i.login ip detail

unfoldable pub revoke_invite_change : ℕ → Actor → Text → Change
revoke_invite_change now actor id st = do
  inv ← the_invite st id
  lift (check (usable inv now) invite_invalid)
  done (
      append_audit now (entry_invite (text "invite_revoke") actor inv [] actor.ip)
        (set_invite id (record inv { revoked_at = now }) st))

unfoldable pub extend_invite_change : ℕ → Actor → Text → ℤ → Change
extend_invite_change now actor id ttl st = do
  inv ← the_invite st id
  lift (check (is_zero inv.accepted_at && is_zero inv.revoked_at) invite_invalid)
  done (
      append_audit now (entry_invite (text "invite_extend") actor inv [] actor.ip)
        (set_invite id (record inv { expires_at = now + ttl_or_default ttl st }) st))

unfoldable pub resend_invite_change : Env → ℕ → Actor → Text → Text → Change
resend_invite_change env now actor id token st = do
  inv ← the_invite st id
  lift (check (usable inv now) invite_invalid)
  lift (check (inv.delivery == delivery_email) invite_not_by_email)
  done (
      append_audit now (entry_invite (text "invite_resend") actor inv inv.email actor.ip) (
        set_invite id
          (record inv {
            token_hash = hash_token env.crypto token;
            send_status = if configured st.settings.smtp then send_pending else send_not_configured;
            send_error = [];
          })
          st))

unfoldable pub record_invite_send_change : ℕ → Text → Text → Text → Change
record_invite_send_change now id sent failure st = do
  inv ← the_invite st id
  let inv' : Invite = record inv {
    send_status = sent;
    send_error = if sent == send_ok then [] else failure;
    last_sent_at = if sent == send_ok then now else inv.last_sent_at;
  }
  done (
      append_audit now (entry (text "invite_send") [] [] [] inv.login [] sent)
        (set_invite id inv' st))

unfoldable pub revoke_invite : Env → World → Actor → Text → Store → Reply
revoke_invite env w actor id s = update env w s (revoke_invite_change w.now actor id)

unfoldable pub extend_invite : Env → World → Actor → Text → ℤ → Store → Reply
extend_invite env w actor id ttl s = update env w s (extend_invite_change w.now actor id ttl)

unfoldable pub resend_invite : Env → World → Actor → Text → Store → Result (Unit {0} × Text) × Store
resend_invite env w actor id s = drawn (new_token env.crypto w.tape) s (λ token rest.
    with_token token
      (update env (record w { tape = rest }) s (resend_invite_change env w.now actor id token)))

unfoldable pub record_invite_send : Env → World → Text → Text → Text → Store → Reply
record_invite_send env w id sent failure s =
    update env w s (record_invite_send_change w.now id sent failure)
