-- ===== src/Vdd/Host.antt =====
-- The system under the virtual display, as one device of it: `devcon`, and what the configuration
-- manager says of the device. It is a parameter that answers by the runs of devcon so far, the newest
-- first; a status is asked for at an attempt, counted from 0.
use Prim.Native.Nat.{bit_and}
use zpenflow.Base.{
  ℕ, zero, suc, ◌==◌, Bool, true, false, ◌&&◌, ◌||◌, not, List, ◌∷◌, Option, none, some,
  if◌then◌else◌,
}

-- The texts of an error are left out.
pub data VddError : Type 0 where
  config_manager : ℕ → VddError
  driver_problem : ℕ → ℕ → VddError
  helper_exited_non_zero : ℕ → VddError
  enable_had_no_effect : VddError
  disable_had_no_effect : ℕ → ℕ → VddError
  shell_execute : VddError

pub data VddResult (A : Type 0) : Type 0 where
  ok : A → VddResult A
  err : VddError → VddResult A

pub data Action : Type 0 where
  enabling disabling : Action

-- A run of devcon: it was not started, or it ended with an exit code, if it had one, and it said or
-- did not say that no device matched.
pub data Run : Type 0 where
  not_started : Run
  exited : Option ℕ → Bool → Run

-- `creates_done_event` and `creates_stop_event` are the parent's making of the two events, `launches` the
-- elevated start of the helper, `signals_in_time` whether a helper that sets the event does so within
-- thirty seconds, `in_time` whether the helper ends within the five seconds that it is given,
-- `reads_exit_code` whether the exit code of a helper that has ended can be read, and `attempts` how often the status is asked for after the first time
-- until the deadline.
pub record Host : Type 0 where
  pub is_elevated : Bool
  pub devcon : List Action → Action → Run
  pub status : List Action → ℕ → VddResult (ℕ × ℕ)
  pub attempts : ℕ
  pub creates_done_event : Bool
  pub creates_stop_event : Bool
  pub launches : List Action → Bool
  pub opens_done_event : Bool
  pub opens_stop_event : Bool
  pub signals_in_time : List Action → Bool
  pub in_time : List Action → Bool
  pub reads_exit_code : List Action → Bool

unfoldable pub is_success : Option ℕ → Bool → Bool
is_success none no_match = false
is_success (some code) no_match = code == 0 || (code == 1 && not no_match)

-- The result, and the runs of devcon.
unfoldable pub devcon_action : Host → Action → List Action → VddResult Unit × List Action
unfolding is_success
devcon_action host action log = elim (host.devcon log action) [
  | not_started ↦ (err shell_execute, log)
  | exited code no_match ↦
      (if is_success code no_match then ok tt else err shell_execute, action ∷ log)
]

-- `DN_HAS_PROBLEM` is 0x400, and `CM_PROB_DISABLED` is 22.
unfoldable pub has_problem : ℕ → Bool
has_problem status = not (bit_and status 1024 == 0)

unfoldable pub shows_disabled : ℕ × ℕ → Bool
unfolding has_problem
shows_disabled (status, problem) = has_problem status && problem == 22

unfoldable pub devnode_is_disabled : Host → List Action → ℕ → VddResult Bool
unfolding shows_disabled
devnode_is_disabled host log n = elim (host.status log n) [
  | err e ↦ err e
  | ok answer ↦ ok (shows_disabled answer)
]

-- The error after the deadline, from a status asked for once more.
unfoldable pub no_effect : VddResult (ℕ × ℕ) → VddResult Unit
no_effect (err e) = err e
no_effect (ok (status, problem)) = err (disable_had_no_effect status problem)

-- From the attempt `n` on, with so many attempts left until the deadline.
unfoldable pub poll_disabled : Host → List Action → ℕ → ℕ → VddResult Unit
unfolding no_effect devnode_is_disabled shows_disabled has_problem
poll_disabled host log zero n = elim (devnode_is_disabled host log n) [
  | err e ↦ err e
  | ok true ↦ ok tt
  | ok false ↦ no_effect (host.status log (suc n))
]
poll_disabled host log (suc left) n =
    let later = poll_disabled host log left (suc n) in
    elim (devnode_is_disabled host log n) [ err e ↦ err e | ok true ↦ ok tt | ok false ↦ later ]

unfoldable pub verify_devnode_disabled : Host → List Action → VddResult Unit
unfolding poll_disabled
verify_devnode_disabled host log = poll_disabled host log host.attempts 0

-- What a status says of a device that was enabled.
unfoldable pub started : ℕ × ℕ → VddResult Unit
unfolding has_problem
started (status, problem) =
    if has_problem status
    then (if problem == 22 then err enable_had_no_effect else err (driver_problem status problem))
    else ok tt

unfoldable pub verify_devnode_started : Host → List Action → VddResult Unit
unfolding started
verify_devnode_started host log = elim (host.status log 0) [
  | err e ↦ err e
  | ok answer ↦ started answer
]

-- `and_then` on a result that comes with the runs of devcon.
unfoldable pub verified :
    (List Action → VddResult Unit) → VddResult Unit × List Action → VddResult Unit × List Action
verified verify (err e, log) = (err e, log)
verified verify (ok u, log) = (verify log, log)

unfoldable pub enable_and_verify : Host → List Action → VddResult Unit × List Action
unfolding devcon_action verify_devnode_started verified
enable_and_verify host log =
    verified (verify_devnode_started host) (devcon_action host enabling log)

unfoldable pub disable_and_verify : Host → List Action → VddResult Unit × List Action
unfolding devcon_action verify_devnode_disabled verified
disable_and_verify host log =
    verified (verify_devnode_disabled host) (devcon_action host disabling log)
