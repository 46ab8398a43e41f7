-- ===== src/Vdd/Dropped.antt =====
-- The end of a controller.
use zpenflow.Base.{◌≡◌, refl, ◌∙◌, Bool, true, false, List, ◌∷◌, Option, none, some, arith}
use zpenflow.Vdd.Host.{Host, Action, disabling, VddResult, ok, err}
use zpenflow.Vdd.Helper.{Resident, waiting, ended, resident_end}
use zpenflow.Vdd.Controller.{
  VddController, ShutdownOutcome, clean, timeout, non_zero, shutdown, marked, disable_directly,
  after_shutdown, disable, drop_controller,
}
use zpenflow.Vdd.Disabled.{Sane, read_outcome-clean}
use zpenflow.Vdd.Enabled.{Startable, disable_and_verify-log, disable_directly-log}

-- The last run of devcon was to disable the device.
abbrev pub DisabledLast : List Action → Type 0
DisabledLast log = (before : List Action) × (log ≡ disabling ∷ before)

marked-log :
    (b : Bool) (c : VddController) (r : VddResult Unit × List Action) → (marked b c r).1 ≡ r.1
unfolding marked
marked-log b c (err e, log) = refl
marked-log b c (ok u, log) = refl

after_shutdown-DisabledLast :
    (host : Host) (o : ShutdownOutcome) (log : List Action)
    → Startable host
    → (o ≡ clean → DisabledLast log)
    → DisabledLast (after_shutdown host o log).1
unfolding after_shutdown
after_shutdown-DisabledLast host clean log h f = f refl
after_shutdown-DisabledLast host timeout log h f = (log, disable_directly-log host log h)
after_shutdown-DisabledLast host (non_zero code) log h f = (log, disable_directly-log host log h)

shutdown-DisabledLast :
    (host : Host) (helper : Resident) (log : List Action)
    → Startable host
    → Sane (some helper)
    → (shutdown host helper log).0 ≡ clean
    → DisabledLast (shutdown host helper log).1
unfolding shutdown resident_end
shutdown-DisabledLast host (ended code) log h sane e =
    let x = read_outcome-clean (host.reads_exit_code log) code e in absurd (omega arith)
shutdown-DisabledLast host waiting log h sane e = (log, disable_and_verify-log host log h)

disable-DisabledLast :
    (host : Host) (c : VddController) (helper : Option Resident) (log : List Action)
    → c.resident ≡ helper
    → Startable host
    → Sane helper
    → DisabledLast (disable host c log).1
unfolding disable
disable-DisabledLast host c none log e h sane =
    let r = disable_directly host log in
    simp (e, disable) (log, marked-log false c r ∙ disable_directly-log host log h)
disable-DisabledLast host c (some helper) log e h sane =
    let s = shutdown host helper log in
    let r = after_shutdown host s.0 s.1 in
    let (before, last) =
      after_shutdown-DisabledLast host s.0 s.1 h (shutdown-DisabledLast host helper log h sane) in
    simp (e, disable) (before, marked-log false (record c { resident = none }) r ∙ last)

-- A controller that took its device for enabled does not go without devcon being run to disable it,
-- after everything else, and whatever became of the helper; provided that devcon and the helper can
-- be started, and that a helper that has ended did not end well.
pub drop_controller-DisabledLast :
    (host : Host) (c : VddController) (log : List Action)
    → Startable host
    → Sane c.resident
    → c.enabled ≡ true
    → DisabledLast (drop_controller host c log)
unfolding drop_controller
drop_controller-DisabledLast host c log h sane e =
    simp e (disable-DisabledLast host c c.resident log refl h sane)
