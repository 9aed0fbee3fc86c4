-- ===== src/Store/Examples/Sequences.antt =====
-- internal/store: sequences of calls on an instance.
use carrel.Prelude.{◌≡◌, refl, true, List, [], ◌∷◌, text, exists, arith}
use carrel.Store.Types.{role_user}
use carrel.Store.Base.{World, is_active_admin}
use carrel.Store.Service.{Request, serve, sets_disabled, deletes_user, creates_user}
use carrel.Store.Invariants.Admins.{serve-is_active_admin}
use carrel.Store.Invariants.Logins.{IsFree, HaveUniqueLogins, serve-HaveUniqueLogins}
use carrel.Store.Invariants.Log.{
  IsLog, AreNumbered, IsContinuedBy, serve-IsLog, serve-IsContinuedBy,
}
use carrel.Store.Examples.{
  env, env-IsLawful, calm, full_disk, empty, password, founded, root, admin,
}

-- The administrator tries to leave, twice, and then adds an account.
abbrev calls : List (World × Request)
calls =
    (calm 8, sets_disabled admin root.id true)
    ∷ (calm 8, deletes_user admin root.id)
    ∷ (full_disk, creates_user admin (text "bob") [] role_user password)
    ∷ (calm 8, creates_user admin (text "eve") [] role_user password)
    ∷ []

serve-is_active_admin_example :
    exists is_active_admin (serve env calls founded.1).state.users ≡ true
unfolding founded empty
serve-is_active_admin_example = serve-is_active_admin env env-IsLawful calls founded.1 refl

serve-HaveUniqueLogins_example : HaveUniqueLogins (serve env calls founded.1).state.users
unfolding founded empty HaveUniqueLogins IsFree
serve-HaveUniqueLogins_example = serve-HaveUniqueLogins env env-IsLawful calls founded.1 (refl, tt)

founded-IsLog : IsLog founded.1.state.audit founded.1.state.audit_seq
unfolding founded empty AreNumbered
founded-IsLog = record { bound = omega arith; counted = omega arith; numbered = (refl, tt) }

serve-IsLog_example :
    IsLog (serve env calls founded.1).state.audit (serve env calls founded.1).state.audit_seq
serve-IsLog_example = serve-IsLog env env-IsLawful calls founded.1 founded-IsLog

serve-IsContinuedBy_example :
    IsContinuedBy founded.1.state.audit founded.1.state.audit_seq
      (serve env calls founded.1).state.audit
      (serve env calls founded.1).state.audit_seq
serve-IsContinuedBy_example = serve-IsContinuedBy env env-IsLawful calls founded.1 founded-IsLog
