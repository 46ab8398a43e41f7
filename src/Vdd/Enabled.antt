-- ===== src/Vdd/Enabled.antt =====
-- What `enable` leaves, and what the controller's end makes of it.
use zpenflow.Base.{
  ℕ, ◌≡◌, refl, sym, ap, ◌∙◌, ◌&&◌, Bool, true, false, Bool-cases, inl, inr, List, ◌∷◌, Option,
  none, some, if◌then◌else◌, arith,
}
use mathlib.Core.Path.{subst}
use zpenflow.Vdd.Host.{
  Host, Action, Run, enabling, disabling, exited, VddResult, ok, err, shell_execute, devcon_action,
  verify_devnode_disabled, verified, enable_and_verify, disable_and_verify,
}
use zpenflow.Vdd.Helper.{enable_it, helper_main, Resident, resident_start, after_enable}
use zpenflow.Vdd.Controller.{
  VddController, run_helper_elevated, marked, spawned, launch_resident, spawn_resident_helper,
  enable, disable_directly,
}
use zpenflow.Vdd.Disabled.{Sane}

after_enable-Sane : (r : VddResult Unit) → Sane (some (after_enable r))
unfolding after_enable
after_enable-Sane (ok u) = tt
after_enable-Sane (err e) = omega arith

resident_start-Sane : (host : Host) (log : List Action) → Sane (some (resident_start host log).0.0)
unfolding resident_start
resident_start-Sane host log = elim (Bool-cases host.opens_done_event) [
  | inl d ↦ elim (Bool-cases host.opens_stop_event) [
    | inl s ↦ simp (d, s) (after_enable-Sane (devcon_action host enabling log).0)
    | inr s ↦ simp (d, s) (omega arith)
  ]
  | inr d ↦ simp d (omega arith)
]

spawned-Sane :
    (c : VddController) (r : VddResult Resident × List Action)
    → Sane c.resident
    → ((helper : Resident) → r.0 ≡ ok helper → Sane (some helper))
    → Sane (spawned c r).0.0.resident
unfolding spawned
spawned-Sane c (err e, log) h f = h
spawned-Sane c (ok helper, log) h f = f helper refl

marked-resident :
    (b : Bool) (c : VddController) (r : VddResult Unit × List Action)
    → (marked b c r).0.0.resident ≡ c.resident
unfolding marked
marked-resident b c (err e, log) = refl
marked-resident b c (ok u, log) = refl

signaled :
    (b : Bool) (helper h : Resident)
    → (if b then ok helper else err shell_execute) ≡ ok h
    → helper ≡ h
signaled true helper h e = cc
signaled false helper h e = cc

launch-Sane :
    (host : Host) (log : List Action) (helper : Resident)
    → (launch_resident host log).0 ≡ ok helper
    → Sane (some helper)
unfolding launch_resident
launch-Sane host log helper h = elim (Bool-cases (host.launches log)) [
  | inl e ↦
      let s = resident_start host log in
      let b = s.0.1 && host.signals_in_time log in
      let x : (if b then ok s.0.0 else err shell_execute) ≡ ok helper =
        rw (e, launch_resident) at h in
      subst (λ (r : Resident). Sane (some r)) (signaled b s.0.0 helper x)
        (resident_start-Sane host log)
  | inr e ↦ let x : err shell_execute ≡ ok helper = rw (e, launch_resident) at h in cc
]

spawn-Sane :
    (host : Host) (log : List Action) (helper : Resident)
    → (spawn_resident_helper host log).0 ≡ ok helper
    → Sane (some helper)
unfolding spawn_resident_helper
spawn-Sane host log helper h =
    elim (Bool-cases (host.creates_done_event && host.creates_stop_event)) [
      | inl e ↦
          let x : (launch_resident host log).0 ≡ ok helper = rw (e, spawn_resident_helper) at h in
          launch-Sane host log helper x
      | inr e ↦ let x : err shell_execute ≡ ok helper = rw (e, spawn_resident_helper) at h in cc
    ]

enable_case :
    (host : Host) (c : VddController) (log : List Action) (elevated : Bool)
    (helper : Option Resident)
    → c.resident ≡ helper
    → Sane helper
    → Sane
        (if elevated then marked true c (enable_and_verify host log) else elim helper [
          | none ↦ spawned c (spawn_resident_helper host log)
          | some r ↦ marked true c (run_helper_elevated host enable_it log)
        ]).0.0.resident
enable_case host c log true helper e h =
    subst Sane (sym (marked-resident true c (enable_and_verify host log) ∙ e)) h
enable_case host c log false none e h =
    spawned-Sane c (spawn_resident_helper host log) (subst Sane (sym e) h) (spawn-Sane host log)
enable_case host c log false (some r) e h =
    subst Sane (sym (marked-resident true c (run_helper_elevated host enable_it log) ∙ e)) h

-- A helper that has ended did not end well, after `enable` as before it.
pub enable-Sane :
    (host : Host) (c : VddController) (log : List Action)
    → Sane c.resident
    → Sane (enable host c log).0.0.resident
unfolding enable
enable-Sane host c log h = enable_case host c log host.is_elevated c.resident refl h

-- What `enable` gives, and what the controller then holds the device for.
abbrev answer : (VddController × VddResult Unit) × List Action → VddResult Unit × Bool
answer r = (r.0.1, r.0.0.enabled)

-- A success or the error of the start, and the mark.
abbrev started_if : Bool → VddController → VddResult Unit × Bool
started_if b c = if b then (ok tt, true) else (err shell_execute, c.enabled)

resident_start-signal :
    (host : Host) (log : List Action)
    → (resident_start host log).0.1 ≡ host.opens_done_event && host.opens_stop_event
unfolding resident_start
resident_start-signal host log = elim (Bool-cases host.opens_done_event) [
  | inl d ↦ elim (Bool-cases host.opens_stop_event) [
    | inl s ↦ simp (d, s) refl
    | inr s ↦ simp (d, s) refl
  ]
  | inr d ↦ simp d refl
]

spawned-answer :
    (b : Bool) (c : VddController) (helper : Resident) (log : List Action)
    → answer (spawned c (if b then ok helper else err shell_execute, log)) ≡ started_if b c
unfolding spawned
spawned-answer true c helper log = refl
spawned-answer false c helper log = refl

if-answer :
    (b d : Bool) (c : VddController) (r : VddResult Resident × List Action) (log : List Action)
    → answer (spawned c r) ≡ started_if d c
    → answer (spawned c (if b then r else (err shell_execute, log))) ≡ started_if (b && d) c
unfolding spawned
if-answer true d c r log h = h
if-answer false d c r log h = refl

-- Whether the parent comes to hold a helper. Nothing of it is an answer of devcon.
abbrev ready : Host → List Action → Bool
ready host log =
    (host.creates_done_event && host.creates_stop_event)
    && (host.launches log
        && ((host.opens_done_event && host.opens_stop_event) && host.signals_in_time log))

spawned-ready :
    (host : Host) (c : VddController) (log : List Action)
    → answer (spawned c (spawn_resident_helper host log)) ≡ started_if (ready host log) c
unfolding spawn_resident_helper launch_resident
spawned-ready host c log =
    let s = resident_start host log in
    let b = s.0.1 && host.signals_in_time log in
    if-answer (host.creates_done_event && host.creates_stop_event) _ c _ log (
      if-answer (host.launches log) _ c _ log (
        spawned-answer b c s.0.0 s.1
        ∙ ap (λ d. started_if (d && host.signals_in_time log) c) (resident_start-signal host log)))

enable-ready :
    (host : Host) (c : VddController) (log : List Action)
    → host.is_elevated ≡ false
    → c.resident ≡ none
    → answer (enable host c log) ≡ started_if (ready host log) c
unfolding enable
enable-ready host c log elevated fresh = rw (elevated, fresh) (spawned-ready host c log)

-- The same system but for devcon and for what the configuration manager says of the device.
abbrev pub with_device :
    (List Action → Action → Run) → (List Action → ℕ → VddResult (ℕ × ℕ)) → Host → Host
with_device devcon status host = record host { devcon = devcon; status = status }

-- Without elevation, and with no helper so far, neither the result of `enable` nor whether it takes the
-- device for enabled depends on devcon or on the device: with any others the two are the same, if the
-- rest of the system, with the time that the helper takes, is as before.
pub enable-unchecked :
    (devcon : List Action → Action → Run) (status : List Action → ℕ → VddResult (ℕ × ℕ))
    (host : Host) (c : VddController) (log : List Action)
    → host.is_elevated ≡ false
    → c.resident ≡ none
    → let other = enable (with_device devcon status host) c log in
      (other.0.1 ≡ (enable host c log).0.1) × (other.0.0.enabled ≡ (enable host c log).0.0.enabled)
enable-unchecked devcon status host c log elevated fresh =
    let same =
      enable-ready (with_device devcon status host) c log elevated fresh
      ∙ sym (enable-ready host c log elevated fresh) in
    (ap (λ r. r.0) same, ap (λ r. r.1) same)

-- devcon can be started, and so can the helper.
pub record Startable (host : Host) : Type 0 where
  pub devcon :
      (log : List Action) (a : Action)
      → (code : Option ℕ) × (no_match : Bool) × (host.devcon log a ≡ exited code no_match)
  pub helper : (log : List Action) → host.launches log ≡ true

verified-log :
    (verify : List Action → VddResult Unit) (r : VddResult Unit × List Action)
    → (verified verify r).1 ≡ r.1
unfolding verified
verified-log verify (err e, log) = refl
verified-log verify (ok u, log) = refl

devcon_action-log :
    (host : Host) (a : Action) (log : List Action)
    → Startable host
    → (devcon_action host a log).1 ≡ a ∷ log
unfolding devcon_action
devcon_action-log host a log h =
    let (code, no_match, e) = h.devcon log a in simp (e, devcon_action) refl

pub disable_and_verify-log :
    (host : Host) (log : List Action)
    → Startable host
    → (disable_and_verify host log).1 ≡ disabling ∷ log
unfolding disable_and_verify
disable_and_verify-log host log h =
    verified-log (verify_devnode_disabled host) (devcon_action host disabling log)
    ∙ devcon_action-log host disabling log h

pub disable_directly-log :
    (host : Host) (log : List Action)
    → Startable host
    → (disable_directly host log).1 ≡ disabling ∷ log
unfolding disable_directly run_helper_elevated helper_main
disable_directly-log host log h = elim (Bool-cases host.is_elevated) [
  | inl e ↦ simp e (disable_and_verify-log host log h)
  | inr e ↦ simp (e, h.helper log) (disable_and_verify-log host log h)
]
