-- ===== src/Vdd/Helper.antt =====
-- The elevated helper: one action, or resident from the display's enabling to its disabling.
use zpenflow.Base.{
  ℕ, ◌==◌, ltb, Bool, true, false, List, [], ◌∷◌, Option, none, some, if◌then◌else◌,
}
use zpenflow.Vdd.Host.{
  Host, Action, enabling, Run, not_started, exited, VddResult, ok, err, devcon_action,
  enable_and_verify, disable_and_verify,
}

-- `ExitCode` of a result.
unfoldable pub exit_code : VddResult Unit → ℕ
exit_code (ok u) = 0
exit_code (err e) = 1

-- The second argument of the helper.
pub data Request : Type 0 where
  enable_it disable_it install_it uninstall_it resident unknown : Request

-- `devcon install` and `devcon remove`, by its exit code.
unfoldable pub install_code : Run → ℕ
install_code not_started = 1
install_code (exited none no_match) = 1
install_code (exited (some code) no_match) = if code == 0 then 0 else if code == 1 then 0 else 1

-- Why the wait of the resident helper ends, or that it does not yet.
pub data Wait : Type 0 where
  stop_signaled parent_ended parent_running parent_unknown wait_failed : Wait
  other_index : ℕ → Wait

unfoldable pub trigger_of : Wait → Option ℕ
trigger_of stop_signaled = some 0
trigger_of parent_ended = some 1
trigger_of parent_running = none
trigger_of parent_unknown = some 2
trigger_of wait_failed = some 2
trigger_of (other_index n) = some n

-- The watchdog over the waits of a second each: what ends it.
unfoldable pub watchdog : List Wait → Option ℕ
unfolding trigger_of
watchdog [] = none
watchdog (w ∷ later) =
    let rest = watchdog later in elim (trigger_of w) [ none ↦ rest | some trigger ↦ some trigger ]

-- The resident helper, up to its wait: that it is waiting, or its exit code, and whether it has set
-- the event for its parent.
pub data Resident : Type 0 where
  waiting : Resident
  ended : ℕ → Resident

unfoldable pub after_enable : VddResult Unit → Resident
after_enable (ok u) = waiting
after_enable (err e) = ended 1

unfoldable pub resident_start : Host → List Action → (Resident × Bool) × List Action
unfolding devcon_action after_enable
resident_start host log =
    if host.opens_done_event
    then if host.opens_stop_event
      then (let enabled = devcon_action host enabling log in
          ((after_enable enabled.0, true), enabled.1))
      else ((ended 2, false), log)
    else ((ended 2, false), log)

-- The end of the resident helper, whatever ended its wait.
unfoldable pub resident_end : Host → List Action → ℕ × List Action
unfolding disable_and_verify exit_code
resident_end host log = let r = disable_and_verify host log in (exit_code r.0, r.1)

-- A helper for one action: `argc` arguments, and the second as a request. `installed` is the run of
-- devcon for a driver. The wait of a resident helper is that of `waits`, which ends.
unfoldable pub helper_main : Host → ℕ → Request → Run → List Action → ℕ × List Action
unfolding enable_and_verify disable_and_verify exit_code install_code resident_start resident_end
helper_main host argc request installed log = if ltb argc 3 then (2, log) else elim request [
  | enable_it ↦ (exit_code (enable_and_verify host log).0, (enable_and_verify host log).1)
  | disable_it ↦ (exit_code (disable_and_verify host log).0, (disable_and_verify host log).1)
  | install_it ↦ (install_code installed, log)
  | uninstall_it ↦ (install_code installed, log)
  | resident ↦
      if ltb argc 5
      then (2, log)
      else (let s = resident_start host log in
          elim s.0.0 [ ended code ↦ (code, s.1) | waiting ↦ resident_end host s.1 ])
  | unknown ↦ (2, log)
]
