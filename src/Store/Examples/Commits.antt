-- ===== src/Store/Examples/Commits.antt =====
-- internal/store: updates that reach the volume, and one that does not.
use carrel.Store.Accounts.{record_login_change}
use carrel.Prelude.{All, [], ◌≡◌, refl}
use carrel.Errors.{Result, ok}
use carrel.Random.{Bytes, random}
use carrel.Crypto.{seal}
use carrel.Store.Types.{State}
use carrel.Store.Volume.{write_calls, write_atomic}
use carrel.Store.Base.{Store, update, append_audit}
use carrel.Store.Base.{load}
use carrel.Errors.{write_failed}
use carrel.Store.Replacement.{Replaced, IsWhole, points, write_atomic-Replaced}
use carrel.Store.Commit.{Outcome, update-Outcome, load-update, load-update_err}
use carrel.Store.Examples.{env, env-IsLawful, calm, full_disk, empty, founded, admin, fill}

abbrev login : State → carrel.Random.Draw (Unit {0} × State)
login = record_login_change 6 admin

write_atomic-Replaced_example :
    Replaced full_disk.faults
      (fill 40 1)
      founded.1.volume
      (write_atomic full_disk.faults (fill 40 1) founded.1.volume)
    × All (IsWhole (fill 40 1) founded.1.volume) (
        points
          (write_calls full_disk.faults
            (fill 40 1)
            (record { volume = founded.1.volume; past = [] })).1)
write_atomic-Replaced_example = write_atomic-Replaced full_disk.faults (fill 40 1) founded.1.volume

update-Outcome_example : Outcome env founded.1 login (update env full_disk founded.1 login)
update-Outcome_example = update-Outcome env env-IsLawful full_disk founded.1 login

abbrev logged_in : Result (Unit {0}) × Store
unfolding update founded empty record_login_change append_audit seal random write_atomic
logged_in = update env (calm 8) founded.1 login

load-update_example : load env 9 logged_in.1.key logged_in.1.volume ≡ ok logged_in.1.state
unfolding logged_in
load-update_example =
    load-update env env-IsLawful (calm 8) founded.1 login 9 tt logged_in.1 refl refl

abbrev lost : Result (Unit {0}) × Store
unfolding update founded empty record_login_change append_audit seal random write_atomic
lost = update env full_disk founded.1 login

load-update_err_example :
    (lost.1.state ≡ founded.1.state)
    × (load env 9 lost.1.key lost.1.volume ≡ load env 9 founded.1.key founded.1.volume)
unfolding lost
load-update_err_example =
    load-update_err env env-IsLawful full_disk founded.1 login 9 write_failed lost.1 refl
