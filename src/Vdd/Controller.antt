-- ===== src/Vdd/Controller.antt =====
-- `VddController` with its resident helper, which runs beside it. The helper's part of an exchange is
-- carried out within the call that waits for it.
use zpenflow.Base.{ℕ, ◌==◌, Bool, true, false, ◌&&◌, List, Option, none, some, if◌then◌else◌}
use zpenflow.Vdd.Host.{
  Host, Action, not_started, VddResult, ok, err, shell_execute, helper_exited_non_zero,
  enable_and_verify, disable_and_verify,
}
use zpenflow.Vdd.Helper.{
  Request, enable_it, disable_it, helper_main, Resident, waiting, ended, resident_start,
  resident_end,
}

-- The parent's hold on the helper: the helper is waiting, or has ended.
pub record VddController : Type 0 where
  pub enabled : Bool
  pub resident : Option Resident

unfoldable pub for_instance : VddController
for_instance = record { enabled = false; resident = none }

pub data ShutdownOutcome : Type 0 where
  clean : ShutdownOutcome
  timeout : ShutdownOutcome
  non_zero : ℕ → ShutdownOutcome

unfoldable pub outcome_of : ℕ → ShutdownOutcome
outcome_of code = if code == 0 then clean else non_zero code

-- Where the exit code cannot be read, it stays 0.
unfoldable pub read_outcome : Bool → ℕ → ShutdownOutcome
unfolding outcome_of
read_outcome true code = outcome_of code
read_outcome false code = non_zero 0

unfoldable pub shutdown : Host → Resident → List Action → ShutdownOutcome × List Action
unfolding read_outcome resident_end
shutdown host (ended code) log = (read_outcome (host.reads_exit_code log) code, log)
shutdown host waiting log =
    let r = resident_end host log in
    (if host.in_time log then read_outcome (host.reads_exit_code log) r.0 else timeout, r.1)

unfoldable pub exited_result : ℕ → VddResult Unit
exited_result code = if code == 0 then ok tt else err (helper_exited_non_zero code)

-- The error of the reading is thrown away.
unfoldable pub read_code : Bool → ℕ → ℕ
read_code true code = code
read_code false code = 0

unfoldable pub run_helper_elevated : Host → Request → List Action → VddResult Unit × List Action
unfolding helper_main exited_result read_code
run_helper_elevated host request log =
    if host.launches log
    then (let r = helper_main host 3 request not_started log in
        (exited_result (read_code (host.reads_exit_code log) r.0), r.1))
    else (err shell_execute, log)

-- The parent waits for the event, for the end of the helper, or for thirty seconds, whichever comes
-- first. A helper that it gives up goes on; what it does with devcon stands in the runs all the same.
unfoldable pub launch_resident : Host → List Action → VddResult Resident × List Action
unfolding resident_start
launch_resident host log =
    if host.launches log
    then (let s = resident_start host log in
        (if s.0.1 && host.signals_in_time log then ok s.0.0 else err shell_execute, s.1))
    else (err shell_execute, log)

unfoldable pub spawn_resident_helper : Host → List Action → VddResult Resident × List Action
unfolding launch_resident
spawn_resident_helper host log =
    if host.creates_done_event && host.creates_stop_event
    then launch_resident host log
    else (err shell_execute, log)

-- The controller after its helper was started, or not.
unfoldable pub spawned :
    VddController
    → VddResult Resident × List Action
    → (VddController × VddResult Unit) × List Action
spawned c (err e, log) = ((c, err e), log)
spawned c (ok helper, log) = ((record { enabled = true; resident = some helper }, ok tt), log)

-- The controller after the device was enabled, or not.
unfoldable pub marked :
    Bool
    → VddController
    → VddResult Unit × List Action
    → (VddController × VddResult Unit) × List Action
marked enabled c (err e, log) = ((c, err e), log)
marked enabled c (ok u, log) = ((record c { enabled = enabled }, ok tt), log)

unfoldable pub enable :
    Host → VddController → List Action → (VddController × VddResult Unit) × List Action
unfolding enable_and_verify spawn_resident_helper run_helper_elevated marked spawned
enable host c log =
    if host.is_elevated then marked true c (enable_and_verify host log) else elim c.resident [
      | none ↦ spawned c (spawn_resident_helper host log)
      | some helper ↦ marked true c (run_helper_elevated host enable_it log)
    ]

-- Without a helper, or after one that did not end as it should.
unfoldable pub disable_directly : Host → List Action → VddResult Unit × List Action
unfolding disable_and_verify run_helper_elevated
disable_directly host log =
    if host.is_elevated
    then disable_and_verify host log
    else run_helper_elevated host disable_it log

unfoldable pub after_shutdown : Host → ShutdownOutcome → List Action → VddResult Unit × List Action
unfolding disable_directly
after_shutdown host clean log = (ok tt, log)
after_shutdown host timeout log = disable_directly host log
after_shutdown host (non_zero code) log = disable_directly host log

unfoldable pub disable :
    Host → VddController → List Action → (VddController × VddResult Unit) × List Action
unfolding shutdown after_shutdown disable_directly marked
disable host c log = elim c.resident [
  | none ↦ marked false c (disable_directly host log)
  | some helper ↦
      let s = shutdown host helper log in
      marked false (record c { resident = none }) (after_shutdown host s.0 s.1)
]

-- `Drop`, whose error is thrown away.
unfoldable pub drop_controller : Host → VddController → List Action → List Action
unfolding disable
drop_controller host c log = if c.enabled then (disable host c log).1 else log
