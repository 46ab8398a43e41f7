-- ===== src/Vdd/Tests.antt =====
-- Runs on small hosts.
use zpenflow.Base.{ℕ, zero, suc, ◌≡◌, refl, true, false, List, [], ◌∷◌, some}
use zpenflow.Vdd.Host.{
  Host, Action, Run, enabling, disabling, exited, ok, devcon_action, verify_devnode_disabled,
  poll_disabled, devnode_is_disabled, shows_disabled, has_problem, verified, disable_and_verify,
  is_success,
}
use zpenflow.Vdd.Helper.{resident_start, waiting, resident_end, exit_code}
use zpenflow.Vdd.Controller.{
  VddController, for_instance, spawn_resident_helper, launch_resident, spawned, enable, disable,
  drop_controller, shutdown, outcome_of, read_outcome, after_shutdown, marked,
}
use zpenflow.Vdd.Disabled.{Off, disable-Off}
use zpenflow.Vdd.Enabled.{with_device, enable-unchecked}
use zpenflow.Vdd.Dropped.{DisabledLast, drop_controller-DisabledLast}
use zpenflow.Vdd.Detect.{DiscoveredDevice, detect, mttvdd, iddsample}
use zpenflow.Vdd.Preferred.{IsBest, detect-IsBest}

-- The device shows itself disabled at the second attempt after it was disabled.
abbrev status_of : List Action → ℕ → ℕ × ℕ
status_of [] n = (1024, 22)
status_of (enabling ∷ log) n = (8, 0)
status_of (disabling ∷ log) zero = (8, 0)
status_of (disabling ∷ log) (suc n) = (1024, 22)

abbrev host : Host
host = record {
  is_elevated = false;
  devcon = λ log a. exited (some 0) false;
  status = λ log n. ok (status_of log n);
  attempts = 20;
  creates_done_event = true;
  creates_stop_event = true;
  launches = λ log. true;
  opens_done_event = true;
  opens_stop_event = true;
  signals_in_time = λ log. true;
  in_time = λ log. true;
  reads_exit_code = λ log. true;
}

abbrev running : VddController
running = record { enabled = true; resident = some waiting }

disable-Off_example : Off host (disable host running (enabling ∷ []))
unfolding disable shutdown resident_end disable_and_verify devcon_action is_success verified
    verify_devnode_disabled poll_disabled devnode_is_disabled shows_disabled has_problem exit_code
    outcome_of read_outcome after_shutdown marked
disable-Off_example = disable-Off host running (enabling ∷ []) tt (λ log. refl) tt refl

-- devcon refuses everything, and the device has a problem.
abbrev refusing : List Action → Action → Run
refusing log a = exited (some 2) false

enable-unchecked_example :
    let other = enable (with_device refusing (λ log n. ok (1024, 10)) host) for_instance [] in
    (other.0.1 ≡ (enable host for_instance []).0.1)
    × (other.0.0.enabled ≡ (enable host for_instance []).0.0.enabled)
unfolding for_instance
enable-unchecked_example =
    enable-unchecked refusing (λ log n. ok (1024, 10)) host for_instance [] refl refl

-- The display is taken for enabled, and was not.
taken_for_enabled :
    (enable (with_device refusing (λ log n. ok (1024, 10)) host) for_instance []).0.1 ≡ ok tt
unfolding for_instance enable spawn_resident_helper launch_resident resident_start spawned
taken_for_enabled = refl

drop_controller-DisabledLast_example : DisabledLast (drop_controller host running (enabling ∷ []))
drop_controller-DisabledLast_example =
    drop_controller-DisabledLast host running (enabling ∷ [])
      (record { devcon = λ log a. (some 0, false, refl); helper = λ log. refl }) tt refl

abbrev candidates : List DiscoveredDevice
candidates =
    record { instance_id = 1; friendly_name = 110 ∷ 118 ∷ []; is_disabled = true }
    ∷ record { instance_id = 2; friendly_name = iddsample; is_disabled = false }
    ∷ record { instance_id = 3; friendly_name = mttvdd; is_disabled = true }
    ∷ []

detect-IsBest_example : IsBest (λ name. name) candidates (detect (λ name. name) candidates)
detect-IsBest_example = detect-IsBest (λ name. name) candidates
