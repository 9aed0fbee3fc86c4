-- ===== src/Store/Service.antt =====
-- internal/store: every call that may change the store, as data, and sequences of such calls.
use carrel.Prelude.{Bool, List, [], ◌∷◌, Text, ℤ}
use carrel.Store.Types.{Role, Actor, AuditEntry, Settings}
use carrel.Store.Base.{Env, World, Store, log}
use carrel.Store.Users.{create_first_admin, create_user_with_password}
use carrel.Store.Accounts.{
  record_login, change_password, reset_password, set_disabled, set_role, set_display_name,
  set_email, delete_user, set_week_start, set_contact_sort, set_note_sort, mark_escrow_notice_seen,
}
use carrel.Store.Invites.{
  create_invite, accept_invite, revoke_invite, extend_invite, resend_invite, record_invite_send,
}
use carrel.Store.Confirm.{register, request_email_change, confirm_email_change}
use carrel.Store.Deposits.{
  enable_escrow, resume_escrow, disable_escrow, change_escrow_master_password, escrow_opt_in,
  escrow_opt_out, recover_user,
}
use carrel.Store.Preferences.{update_settings, set_smtp_password}

-- The arguments of a method, in its order.
pub data Request : Type 0 where
  creates_first_admin : Text → Text → Text → Text → Request
  creates_user : Actor → Text → Text → Role → Text → Request
  records_login : Actor → Request
  changes_password : Text → Text → Text → Request
  resets_password : Actor → Text → Text → Request
  sets_disabled : Actor → Text → Bool → Request
  sets_role : Actor → Text → Role → Request
  sets_display_name : Text → Text → Request
  sets_email : Actor → Text → Text → Request
  deletes_user : Actor → Text → Request
  sets_week_start sets_contact_sort sets_note_sort : Text → Text → Request
  marks_escrow_notice_seen : Text → Request
  creates_invite : Actor → Role → Text → Text → ℤ → Request
  accepts_invite : Text → Text → Text → Text → Text → Request
  revokes_invite : Actor → Text → Request
  extends_invite : Actor → Text → ℤ → Request
  resends_invite : Actor → Text → Request
  records_invite_send : Text → Text → Text → Request
  registers : Text → Text → Text → Text → Request
  requests_email_change : Actor → Text → Text → ℤ → Request
  confirms_email_change : Text → Request
  enables_escrow resumes_escrow : Actor → Text → Request
  disables_escrow : Actor → Request
  changes_master_password : Actor → Text → Text → Request
  opts_in : Actor → Text → Text → Request
  opts_out : Actor → Text → Request
  recovers_user : Actor → Text → Text → Text → Request
  updates_settings : Actor → (Settings → Settings) → Request
  sets_smtp_password : Actor → Text → Request
  logs : AuditEntry → Request

unfoldable pub handle : Env → World → Request → Store → Store
handle env w (creates_first_admin l e p ip) s = (create_first_admin env w l e p ip s).1
handle env w (creates_user a l e r p) s = (create_user_with_password env w a l e r p s).1
handle env w (records_login a) s = (record_login env w a s).1
handle env w (changes_password id c n) s = (change_password env w id c n s).1
handle env w (resets_password a id p) s = (reset_password env w a id p s).1
handle env w (sets_disabled a id d) s = (set_disabled env w a id d s).1
handle env w (sets_role a id r) s = (set_role env w a id r s).1
handle env w (sets_display_name id n) s = (set_display_name env w id n s).1
handle env w (sets_email a id e) s = (set_email env w a id e s).1
handle env w (deletes_user a id) s = (delete_user env w a id s).1
handle env w (sets_week_start id v) s = (set_week_start env w id v s).1
handle env w (sets_contact_sort id v) s = (set_contact_sort env w id v s).1
handle env w (sets_note_sort id v) s = (set_note_sort env w id v s).1
handle env w (marks_escrow_notice_seen id) s = (mark_escrow_notice_seen env w id s).1
handle env w (creates_invite a r d e ttl) s = (create_invite env w a r d e ttl s).1
handle env w (accepts_invite t l e p ip) s = (accept_invite env w t l e p ip s).1
handle env w (revokes_invite a id) s = (revoke_invite env w a id s).1
handle env w (extends_invite a id ttl) s = (extend_invite env w a id ttl s).1
handle env w (resends_invite a id) s = (resend_invite env w a id s).1
handle env w (records_invite_send id st e) s = (record_invite_send env w id st e s).1
handle env w (registers l e p ip) s = (register env w l e p ip s).1
handle env w (requests_email_change a id e ttl) s = (request_email_change env w a id e ttl s).1
handle env w (confirms_email_change t) s = (confirm_email_change env w t s).1
handle env w (enables_escrow a mp) s = (enable_escrow env w a mp s).1
handle env w (resumes_escrow a mp) s = (resume_escrow env w a mp s).1
handle env w (disables_escrow a) s = (disable_escrow env w a s).1
handle env w (changes_master_password a c n) s = (change_escrow_master_password env w a c n s).1
handle env w (opts_in a id p) s = (escrow_opt_in env w a id p s).1
handle env w (opts_out a id) s = (escrow_opt_out env w a id s).1
handle env w (recovers_user a id mp p) s = (recover_user env w a id mp p s).1
handle env w (updates_settings a fn) s = (update_settings env w a fn s).1
handle env w (sets_smtp_password a p) s = (set_smtp_password env w a p s).1
handle env w (logs e) s = (log env w e s).1

unfoldable pub serve : Env → List (World × Request) → Store → Store
unfolding handle
serve env [] s = s
serve env ((w, r) ∷ rest) s = serve env rest (handle env w r s)
