-- ===== src/Store/Effects/Settings.antt =====
-- internal/store/invites.go, escrow.go and audit.go: the effects of the changes that leave the
-- accounts alone.
use carrel.Prelude.{
  ℕ, ◌+◌, ◌≡◌, refl, inl, inr, true, false, some, [], ◌∷◌, ◌++◌, ◌&&◌, Bool-cases, Option-cases,
  Text, text, text_eq, ◌==◌, arith, if◌then◌else◌, ℤ, nat_eq, length,
}
use carrel.Errors.{ok, Result-cases}
use carrel.Random.{Bytes}
use carrel.Crypto.{
  Escrow, hash_token, check_master_password, change_master_password, seal, utf8, aad_state,
}
use carrel.Store.Types.{
  State, Settings, Invite, AuditEntry, Actor, usable, is_zero, delivery_email, configured,
  send_pending, send_not_configured, send_ok,
}
use carrel.Store.Base.{Env, append_audit, entry, log_change}
use carrel.Store.Invites.{
  create_invite_change, find_invite, set_invite, revoke_invite_change, extend_invite_change,
  resend_invite_change, record_invite_send_change, entry_invite, ttl_or_default,
}
use carrel.Store.Deposits.{
  enable_escrow_change, resume_escrow_change, disable_escrow_change,
  change_escrow_master_password_change, set_escrow, entry_by,
}
use carrel.Store.Preferences.{
  validate_settings, protect, update_settings_change, set_password, set_smtp_password_change,
}
use carrel.Store.Effects.Steps.{UsersStep, AuditStep, Effect}

logged-Effect :
    (now : ℕ) (e : AuditEntry) (st st₁ : State)
    → st₁.users ≡ st.users
    → st₁.audit ≡ st.audit
    → st₁.audit_seq ≡ st.audit_seq
    → Effect st (append_audit now e st₁)
unfolding append_audit
logged-Effect now e st st₁ us log seq = record {
  users = UsersStep.same us;
  audit = AuditStep.logged now e (rw (log, seq) refl) (rw seq refl);
}

pub log-Effect :
    (now : ℕ) (e : AuditEntry) (st st' : State) (t t' : Bytes)
    → log_change now e st t ≡ ok ((tt, st'), t')
    → Effect st st'
unfolding log_change
log-Effect now e st st' t t' h =
    let q : st' ≡ append_audit now e st = ground arith in
    rw q (logged-Effect now e st st refl refl refl)

pub create_invite-Effect :
    (env : Env) (now : ℕ) (actor : Actor) (role delivery email : Text) (ttl : ℤ) (token id : Text)
    (st st' : State) (a : Invite) (t t' : Bytes)
    → create_invite_change env now actor role delivery email ttl token id st t ≡ ok ((a, st'), t')
    → Effect st st'
unfolding create_invite_change
create_invite-Effect env now actor role delivery email ttl token id st st' a t t' h =
    let q : st'
        ≡ append_audit now
            (entry (text "invite_create") actor.id actor.login [] [] actor.ip
              (if delivery == delivery_email then email else []))
            (record st { invites = st.invites ++ a ∷ [] }) =
      ground arith in
    rw q (logged-Effect now _ st (record st { invites = st.invites ++ a ∷ [] }) refl refl refl)

pub revoke_invite-Effect :
    (now : ℕ) (actor : Actor) (id : Text) (st st' : State) (t t' : Bytes)
    → revoke_invite_change now actor id st t ≡ ok ((tt, st'), t')
    → Effect st st'
unfolding revoke_invite_change
revoke_invite-Effect now actor id st st' t t' h = elim (Option-cases (find_invite st id)) [
  | inl e ↦ absurd (ground arith)
  | inr (i, e) ↦ elim (Bool-cases (usable i now)) [
    | inr stale ↦ absurd (ground arith)
    | inl fine ↦
        let q : st'
            ≡ append_audit now (entry_invite (text "invite_revoke") actor i [] actor.ip)
                (set_invite id (record i { revoked_at = now }) st) =
          ground arith in
        rw q (logged-Effect now _ st _ refl refl refl)
  ]
]

pub extend_invite-Effect :
    (now : ℕ) (actor : Actor) (id : Text) (ttl : ℤ) (st st' : State) (t t' : Bytes)
    → extend_invite_change now actor id ttl st t ≡ ok ((tt, st'), t')
    → Effect st st'
unfolding extend_invite_change
extend_invite-Effect now actor id ttl st st' t t' h = elim (Option-cases (find_invite st id)) [
  | inl e ↦ absurd (ground arith)
  | inr (i, e) ↦ elim (Bool-cases (is_zero i.accepted_at && is_zero i.revoked_at)) [
    | inr stale ↦ absurd (ground arith)
    | inl fine ↦
        let q : st'
            ≡ append_audit now (entry_invite (text "invite_extend") actor i [] actor.ip)
                (set_invite id (record i { expires_at = now + ttl_or_default ttl st }) st) =
          ground arith in
        rw q (logged-Effect now _ st _ refl refl refl)
  ]
]

pub resend_invite-Effect :
    (env : Env) (now : ℕ) (actor : Actor) (id token : Text) (st st' : State) (t t' : Bytes)
    → resend_invite_change env now actor id token st t ≡ ok ((tt, st'), t')
    → Effect st st'
unfolding resend_invite_change
resend_invite-Effect env now actor id token st st' t t' h =
    elim (Option-cases (find_invite st id)) [
      | inl e ↦ absurd (ground arith)
      | inr (i, e) ↦ elim (Bool-cases (usable i now)) [
        | inr stale ↦ absurd (ground arith)
        | inl fine ↦ elim (Bool-cases (i.delivery == delivery_email)) [
          | inr link ↦ absurd (ground arith)
          | inl mailed ↦
              let i' : Invite = record i {
                token_hash = hash_token env.crypto token;
                send_status =
                    if configured st.settings.smtp then send_pending else send_not_configured;
                send_error = [];
              } in
              let q : st'
                  ≡ append_audit now (entry_invite (text "invite_resend") actor i i.email actor.ip)
                      (set_invite id i' st) =
                ground arith in
              rw q (logged-Effect now _ st _ refl refl refl)
        ]
      ]
    ]

pub record_invite_send-Effect :
    (now : ℕ) (id sent failure : Text) (st st' : State) (t t' : Bytes)
    → record_invite_send_change now id sent failure st t ≡ ok ((tt, st'), t')
    → Effect st st'
unfolding record_invite_send_change
record_invite_send-Effect now id sent failure st st' t t' h =
    elim (Option-cases (find_invite st id)) [
      | inl e ↦ absurd (ground arith)
      | inr (i, e) ↦
          let i' : Invite = record i {
            send_status = sent;
            send_error = if sent == send_ok then [] else failure;
            last_sent_at = if sent == send_ok then now else i.last_sent_at;
          } in
          let q : st'
              ≡ append_audit now (entry (text "invite_send") [] [] [] i.login [] sent)
                  (set_invite id i' st) =
            ground arith in
          rw q (logged-Effect now _ st _ refl refl refl)
    ]

pub enable_escrow-Effect :
    (now : ℕ) (actor : Actor) (esc : Escrow) (st st' : State) (t t' : Bytes)
    → enable_escrow_change now actor esc st t ≡ ok ((tt, st'), t')
    → Effect st st'
unfolding enable_escrow_change
enable_escrow-Effect now actor esc st st' t t' h = elim (Option-cases st.settings.escrow.config) [
  | inr (x, e) ↦ absurd (ground arith)
  | inl e ↦
      let q : st'
          ≡ append_audit now (entry_by (text "escrow_enable") actor [])
              (set_escrow (record (st.settings.escrow) { enabled = true; config = some esc }) st) =
        ground arith in
      rw q (logged-Effect now _ st _ refl refl refl)
]

pub resume_escrow-Effect :
    (env : Env) (now : ℕ) (actor : Actor) (mp : Text) (st st' : State) (t t' : Bytes)
    → resume_escrow_change env now actor mp st t ≡ ok ((tt, st'), t')
    → Effect st st'
unfolding resume_escrow_change
resume_escrow-Effect env now actor mp st st' t t' h =
    elim (Option-cases st.settings.escrow.config) [
      | inl e ↦ absurd (ground arith)
      | inr (esc, e) ↦ elim (Bool-cases (check_master_password env.crypto esc mp)) [
        | inr wrong ↦ absurd (ground arith)
        | inl right ↦ elim (Bool-cases st.settings.escrow.enabled) [
          | inl on ↦
              let q : st' ≡ st = ground arith in
              rw q (record { users = UsersStep.same refl; audit = AuditStep.quiet refl refl })
          | inr off ↦
              let q : st'
                  ≡ append_audit now
                      (entry_by (text "escrow_enable") actor (text "existing key pair"))
                      (set_escrow (record (st.settings.escrow) { enabled = true }) st) =
                ground arith in
              rw q (logged-Effect now _ st _ refl refl refl)
        ]
      ]
    ]

pub disable_escrow-Effect :
    (now : ℕ) (actor : Actor) (st st' : State) (t t' : Bytes)
    → disable_escrow_change now actor st t ≡ ok ((tt, st'), t')
    → Effect st st'
unfolding disable_escrow_change
disable_escrow-Effect now actor st st' t t' h =
    let q : st'
        ≡ append_audit now (entry_by (text "escrow_disable") actor [])
            (set_escrow (record (st.settings.escrow) { enabled = false }) st) =
      ground arith in
    rw q (logged-Effect now _ st _ refl refl refl)

pub change_escrow_master_password-Effect :
    (env : Env) (now : ℕ) (actor : Actor) (old new : Text) (st st' : State) (t t' : Bytes)
    → change_escrow_master_password_change env now actor old new st t ≡ ok ((tt, st'), t')
    → Effect st st'
unfolding change_escrow_master_password_change
change_escrow_master_password-Effect env now actor old new st st' t t' h =
    elim (Option-cases st.settings.escrow.config) [
      | inl e ↦ absurd (ground arith)
      | inr (esc, e) ↦ elim (Result-cases (change_master_password env.crypto esc old new t)) [
        | inl (x, c) ↦ absurd (ground arith)
        | inr ((esc', t₁), c) ↦
            let q : st'
                ≡ append_audit now
                    (entry_by (text "settings_update") actor (text "escrow master password"))
                    (set_escrow (record (st.settings.escrow) { config = some esc' }) st) =
              ground arith in
            rw q (logged-Effect now _ st _ refl refl refl)
      ]
    ]

pub update_settings-Effect :
    (env : Env) (now : ℕ) (actor : Actor) (fn : Settings → Settings) (st st' : State) (t t' : Bytes)
    → update_settings_change env now actor fn st t ≡ ok ((tt, st'), t')
    → Effect st st'
unfolding update_settings_change
update_settings-Effect env now actor fn st st' t t' h =
    elim (Result-cases (validate_settings env (fn st.settings))) [
      | inl (x, e) ↦ absurd (ground arith)
      | inr (x, e) ↦
          let q : st'
              ≡ append_audit now (entry_by (text "settings_update") actor [])
                  (record st { settings = protect st.settings (fn st.settings) }) =
            ground arith in
          rw q (logged-Effect now _ st _ refl refl refl)
    ]

pub set_smtp_password-Effect :
    (env : Env) (key : Bytes) (now : ℕ) (actor : Actor) (pw : Text) (st st' : State) (t t' : Bytes)
    → set_smtp_password_change env key now actor pw st t ≡ ok ((tt, st'), t')
    → Effect st st'
unfolding set_smtp_password_change
set_smtp_password-Effect env key now actor pw st st' t t' h =
    elim (Bool-cases (nat_eq (length pw) 0)) [
      | inl clear ↦
          let q : st' ≡ set_password [] st = ground arith in
          rw q (record { users = UsersStep.same refl; audit = AuditStep.quiet refl refl })
      | inr given ↦ elim (Result-cases (seal env.crypto key (utf8 pw) aad_state t)) [
        | inl (x, s) ↦ absurd (ground arith)
        | inr ((sealed, t₁), s) ↦
            let q : st'
                ≡ append_audit now (entry_by (text "settings_update") actor (text "smtp password"))
                    (set_password sealed st) =
              ground arith in
            rw q (logged-Effect now _ st _ refl refl refl)
      ]
    ]
