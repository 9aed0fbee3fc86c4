-- ===== src/Store/Effects/Requests.antt =====
-- internal/store: every call has an effect on the state, whether it succeeds or not.
use carrel.Store.Base.{Env, IsLawful, World, Store}
use carrel.Store.Service.{
  Request, handle, creates_first_admin, creates_user, records_login, changes_password,
  resets_password, sets_disabled, sets_role, sets_display_name, sets_email, deletes_user,
  sets_week_start, sets_contact_sort, sets_note_sort, marks_escrow_notice_seen, creates_invite,
  accepts_invite, revokes_invite, extends_invite, resends_invite, records_invite_send, registers,
  requests_email_change, confirms_email_change, enables_escrow, resumes_escrow, disables_escrow,
  changes_master_password, opts_in, opts_out, recovers_user, updates_settings, sets_smtp_password,
  logs,
}
use carrel.Store.Effects.Steps.{Effect}
use carrel.Store.Effects.Methods.{
  create_first_admin-Kept, create_user_with_password-Kept, record_login-Kept, change_password-Kept,
  reset_password-Kept, set_disabled-Kept, set_role-Kept, set_display_name-Kept, set_email-Kept,
  delete_user-Kept, set_week_start-Kept, set_contact_sort-Kept, set_note_sort-Kept,
  mark_escrow_notice_seen-Kept, create_invite-Kept, accept_invite-Kept, revoke_invite-Kept,
  extend_invite-Kept, resend_invite-Kept, record_invite_send-Kept, register-Kept,
  request_email_change-Kept, confirm_email_change-Kept, enable_escrow-Kept, resume_escrow-Kept,
  disable_escrow-Kept, change_escrow_master_password-Kept, escrow_opt_in-Kept, escrow_opt_out-Kept,
  recover_user-Kept, update_settings-Kept, set_smtp_password-Kept, log-Kept,
}

-- Every call, whether it succeeds or is refused, changes the state by an effect.
pub handle-Effect :
    (env : Env) (laws : IsLawful env) (w : World) (r : Request) (s : Store)
    → Effect s.state (handle env w r s).state
unfolding handle
handle-Effect env laws w (creates_first_admin l e p ip) s =
    (create_first_admin-Kept env laws w s l e p ip).effect
handle-Effect env laws w (creates_user x l e r p) s =
    (create_user_with_password-Kept env laws w s x l e r p).effect
handle-Effect env laws w (records_login x) s = (record_login-Kept env laws w s x).effect
handle-Effect env laws w (changes_password id c p) s =
    (change_password-Kept env laws w s id c p).effect
handle-Effect env laws w (resets_password x id p) s =
    (reset_password-Kept env laws w s x id p).effect
handle-Effect env laws w (sets_disabled x id d) s = (set_disabled-Kept env laws w s x id d).effect
handle-Effect env laws w (sets_role x id r) s = (set_role-Kept env laws w s x id r).effect
handle-Effect env laws w (sets_display_name id v) s =
    (set_display_name-Kept env laws w s id v).effect
handle-Effect env laws w (sets_email x id e) s = (set_email-Kept env laws w s x id e).effect
handle-Effect env laws w (deletes_user x id) s = (delete_user-Kept env laws w s x id).effect
handle-Effect env laws w (sets_week_start id v) s = (set_week_start-Kept env laws w s id v).effect
handle-Effect env laws w (sets_contact_sort id v) s =
    (set_contact_sort-Kept env laws w s id v).effect
handle-Effect env laws w (sets_note_sort id v) s = (set_note_sort-Kept env laws w s id v).effect
handle-Effect env laws w (marks_escrow_notice_seen id) s =
    (mark_escrow_notice_seen-Kept env laws w s id).effect
handle-Effect env laws w (creates_invite x r d e ttl) s =
    (create_invite-Kept env laws w s x r d e ttl).effect
handle-Effect env laws w (accepts_invite k l e p ip) s =
    (accept_invite-Kept env laws w s k l e p ip).effect
handle-Effect env laws w (revokes_invite x id) s = (revoke_invite-Kept env laws w s x id).effect
handle-Effect env laws w (extends_invite x id ttl) s =
    (extend_invite-Kept env laws w s x id ttl).effect
handle-Effect env laws w (resends_invite x id) s = (resend_invite-Kept env laws w s x id).effect
handle-Effect env laws w (records_invite_send id k e) s =
    (record_invite_send-Kept env laws w s id k e).effect
handle-Effect env laws w (registers l e p ip) s = (register-Kept env laws w s l e p ip).effect
handle-Effect env laws w (requests_email_change x id e ttl) s =
    (request_email_change-Kept env laws w s x id e ttl).effect
handle-Effect env laws w (confirms_email_change k) s =
    (confirm_email_change-Kept env laws w s k).effect
handle-Effect env laws w (enables_escrow x mp) s = (enable_escrow-Kept env laws w s x mp).effect
handle-Effect env laws w (resumes_escrow x mp) s = (resume_escrow-Kept env laws w s x mp).effect
handle-Effect env laws w (disables_escrow x) s = (disable_escrow-Kept env laws w s x).effect
handle-Effect env laws w (changes_master_password x c p) s =
    (change_escrow_master_password-Kept env laws w s x c p).effect
handle-Effect env laws w (opts_in x id p) s = (escrow_opt_in-Kept env laws w s x id p).effect
handle-Effect env laws w (opts_out x id) s = (escrow_opt_out-Kept env laws w s x id).effect
handle-Effect env laws w (recovers_user x id mp p) s =
    (recover_user-Kept env laws w s x id mp p).effect
handle-Effect env laws w (updates_settings x fn) s = (update_settings-Kept env laws w s x fn).effect
handle-Effect env laws w (sets_smtp_password x p) s =
    (set_smtp_password-Kept env laws w s x p).effect
handle-Effect env laws w (logs e) s = (log-Kept env laws w s e).effect
