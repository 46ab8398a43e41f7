-- ===== src/Vdd/Disabled.antt =====
-- What a success of `disable` and of `enable` says of the device.
use zpenflow.Base.{
  ℕ, zero, suc, ◌≡◌, refl, Bool, true, false, Bool-cases, inl, inr, List, Option, none, some, ◌⊎◌,
  ◌<◌, if◌then◌else◌, arith,
}
use zpenflow.Vdd.Host.{
  Host, Action, disabling, VddResult, ok, err, VddError, shell_execute, devcon_action,
  devnode_is_disabled, no_effect, poll_disabled, verify_devnode_disabled, verified,
  disable_and_verify,
}
use zpenflow.Vdd.Helper.{disable_it, helper_main, exit_code, Resident, waiting, ended, resident_end}
use zpenflow.Vdd.Controller.{
  VddController, ShutdownOutcome, clean, timeout, non_zero, outcome_of, read_outcome, shutdown,
  exited_result, read_code, run_helper_elevated, marked, disable_directly, after_shutdown, disable,
}

-- Some attempt after the runs of devcon showed the device disabled.
abbrev pub SeenDisabled : Host → List Action → Type 0
SeenDisabled host log = (n : ℕ) × (devnode_is_disabled host log n ≡ ok true)

is_disabled-cases :
    (r : VddResult Bool) → ((e : VddError) × (r ≡ err e)) ⊎ ((r ≡ ok true) ⊎ (r ≡ ok false))
is_disabled-cases (err e) = inl (e, refl)
is_disabled-cases (ok true) = inr (inl refl)
is_disabled-cases (ok false) = inr (inr refl)

no_effect-err : (r : VddResult (ℕ × ℕ)) (u : Unit) → no_effect r ≡ ok u → ⊥
unfolding no_effect
no_effect-err (err e) u h = cc
no_effect-err (ok (status, problem)) u h = cc

poll-SeenDisabled :
    (host : Host) (log : List Action) (left n : ℕ) (u : Unit)
    → poll_disabled host log left n ≡ ok u
    → SeenDisabled host log
unfolding poll_disabled
poll-SeenDisabled host log zero n u h = elim (is_disabled-cases (devnode_is_disabled host log n)) [
  | inl (e, r) ↦ let x : err e ≡ ok u = rw (r, poll_disabled) at h in cc
  | inr (inl r) ↦ (n, r)
  | inr (inr r) ↦
      let x : no_effect (host.status log (suc n)) ≡ ok u = rw (r, poll_disabled) at h in
      absurd (no_effect-err (host.status log (suc n)) u x)
]
poll-SeenDisabled host log (suc left) n u h =
    elim (is_disabled-cases (devnode_is_disabled host log n)) [
      | inl (e, r) ↦ let x : err e ≡ ok u = rw (r, poll_disabled) at h in cc
      | inr (inl r) ↦ (n, r)
      | inr (inr r) ↦
          let x : poll_disabled host log left (suc n) ≡ ok u = rw (r, poll_disabled) at h in
          poll-SeenDisabled host log left (suc n) u x
    ]

verified-ok :
    (verify : List Action → VddResult Unit) (r : VddResult Unit × List Action) (u : Unit)
    → (verified verify r).0 ≡ ok u
    → verify (verified verify r).1 ≡ ok u
unfolding verified
verified-ok verify (err e, log) u h = cc
verified-ok verify (ok v, log) u h = h

disable_and_verify-SeenDisabled :
    (host : Host) (log : List Action) (u : Unit)
    → (disable_and_verify host log).0 ≡ ok u
    → SeenDisabled host (disable_and_verify host log).1
unfolding disable_and_verify verify_devnode_disabled
disable_and_verify-SeenDisabled host log u h =
    let r = devcon_action host disabling log in
    poll-SeenDisabled host (verified (verify_devnode_disabled host) r).1 host.attempts 0 u
      (verified-ok (verify_devnode_disabled host) r u h)

exit_code-ok : (r : VddResult Unit) → exit_code r ≡ 0 → r ≡ ok tt
unfolding exit_code
exit_code-ok (ok u) h = refl
exit_code-ok (err e) h = absurd (omega arith)

resident_end-SeenDisabled :
    (host : Host) (log : List Action)
    → (resident_end host log).0 ≡ 0
    → SeenDisabled host (resident_end host log).1
unfolding resident_end
resident_end-SeenDisabled host log h =
    disable_and_verify-SeenDisabled host log tt (exit_code-ok (disable_and_verify host log).0 h)

exited-ok : (code : ℕ) (u : Unit) → exited_result code ≡ ok u → code ≡ 0
unfolding exited_result
exited-ok code u h = ground arith

-- The exit code of a helper that has ended can be read.
abbrev pub ReadsCodes : Host → Type 0
ReadsCodes host = (log : List Action) → host.reads_exit_code log ≡ true

run_helper-SeenDisabled :
    (host : Host) (log : List Action) (u : Unit)
    → ReadsCodes host
    → (run_helper_elevated host disable_it log).0 ≡ ok u
    → SeenDisabled host (run_helper_elevated host disable_it log).1
unfolding run_helper_elevated helper_main
run_helper-SeenDisabled host log u reads h = elim (Bool-cases (host.launches log)) [
  | inl e ↦
      let r = disable_and_verify host log in
      let x : exited_result (exit_code r.0) ≡ ok u =
        rw (e, reads log, run_helper_elevated, read_code) at h in
      rw (e, run_helper_elevated)
        (disable_and_verify-SeenDisabled host log tt
          (exit_code-ok r.0 (exited-ok (exit_code r.0) u x)))
  | inr e ↦ let x : err shell_execute ≡ ok u = rw (e, run_helper_elevated) at h in cc
]

if-SeenDisabled :
    (host : Host) (b : Bool) (r s : VddResult Unit × List Action) (u : Unit)
    → (r.0 ≡ ok u → SeenDisabled host r.1)
    → (s.0 ≡ ok u → SeenDisabled host s.1)
    → (if b then r else s).0 ≡ ok u
    → SeenDisabled host (if b then r else s).1
if-SeenDisabled host true r s u f g h = f h
if-SeenDisabled host false r s u f g h = g h

directly-SeenDisabled :
    (host : Host) (log : List Action) (u : Unit)
    → ReadsCodes host
    → (disable_directly host log).0 ≡ ok u
    → SeenDisabled host (disable_directly host log).1
unfolding disable_directly
directly-SeenDisabled host log u reads h =
    if-SeenDisabled host host.is_elevated (disable_and_verify host log)
      (run_helper_elevated host disable_it log) u (disable_and_verify-SeenDisabled host log u)
      (run_helper-SeenDisabled host log u reads) h

-- A helper that has ended did not end well: it never came to its wait.
abbrev pub Sane : Option Resident → Type 0
Sane none = Unit
Sane (some waiting) = Unit
Sane (some (ended code)) = 0 < code

pub outcome_of-clean : (code : ℕ) → outcome_of code ≡ clean → code ≡ 0
unfolding outcome_of
outcome_of-clean code h = ground arith

pub read_outcome-clean : (b : Bool) (code : ℕ) → read_outcome b code ≡ clean → code ≡ 0
unfolding read_outcome
read_outcome-clean true code h = outcome_of-clean code h
read_outcome-clean false code h = cc

late : (b : Bool) (o : ShutdownOutcome) → (if b then o else timeout) ≡ clean → o ≡ clean
late true o h = h
late false o h = cc

shutdown-SeenDisabled :
    (host : Host) (helper : Resident) (log : List Action)
    → Sane (some helper)
    → (shutdown host helper log).0 ≡ clean
    → SeenDisabled host (shutdown host helper log).1
unfolding shutdown
shutdown-SeenDisabled host (ended code) log sane h =
    let x = read_outcome-clean (host.reads_exit_code log) code h in absurd (omega arith)
shutdown-SeenDisabled host waiting log sane h =
    let r = resident_end host log in
    resident_end-SeenDisabled host log (
      read_outcome-clean (host.reads_exit_code log) r.0
        (late (host.in_time log) (read_outcome (host.reads_exit_code log) r.0) h))

after_shutdown-SeenDisabled :
    (host : Host) (o : ShutdownOutcome) (log : List Action) (u : Unit)
    → ReadsCodes host
    → (o ≡ clean → SeenDisabled host log)
    → (after_shutdown host o log).0 ≡ ok u
    → SeenDisabled host (after_shutdown host o log).1
unfolding after_shutdown
after_shutdown-SeenDisabled host clean log u reads f h = f refl
after_shutdown-SeenDisabled host timeout log u reads f h = directly-SeenDisabled host log u reads h
after_shutdown-SeenDisabled host (non_zero code) log u reads f h =
    directly-SeenDisabled host log u reads h

-- What a controller knows that has disabled its device.
abbrev pub Off : Host → (VddController × VddResult Unit) × List Action → Type 0
Off host r = (r.0.0.enabled ≡ false) × (r.0.0.resident ≡ none) × SeenDisabled host r.1

marked-Off :
    (host : Host) (c : VddController) (r : VddResult Unit × List Action) (u : Unit)
    → c.resident ≡ none
    → (r.0 ≡ ok u → SeenDisabled host r.1)
    → (marked false c r).0.1 ≡ ok u
    → Off host (marked false c r)
unfolding marked
marked-Off host c (err e, log) u gone f h = cc
marked-Off host c (ok v, log) u gone f h = (refl, gone, f h)

disable_from :
    (host : Host) (c : VddController) (helper : Option Resident) (log : List Action) (u : Unit)
    → ReadsCodes host
    → c.resident ≡ helper
    → Sane helper
    → (disable host c log).0.1 ≡ ok u
    → Off host (disable host c log)
unfolding disable
disable_from host c none log u reads e sane h =
    let h' : (marked false c (disable_directly host log)).0.1 ≡ ok u = rw (e, disable) at h in
    simp (e, disable)
      (marked-Off host c (disable_directly host log) u e (directly-SeenDisabled host log u reads)
        h')
disable_from host c (some helper) log u reads e sane h =
    let s = shutdown host helper log in
    let r = after_shutdown host s.0 s.1 in
    let c1 : VddController = record c { resident = none } in
    let h' : (marked false c1 r).0.1 ≡ ok u = rw (e, disable) at h in
    simp (e, disable)
      (marked-Off host c1 r u refl
        (after_shutdown-SeenDisabled host s.0 s.1 u reads
          (shutdown-SeenDisabled host helper log sane))
        h')

-- When `disable` succeeds, whichever way it went, the device was seen disabled after the last run of
-- devcon, and the controller holds no helper and takes the device for disabled; given that the
-- exit code of a helper can be read, and that a helper that has ended did not end well.
pub disable-Off :
    (host : Host) (c : VddController) (log : List Action) (u : Unit)
    → ReadsCodes host
    → Sane c.resident
    → (disable host c log).0.1 ≡ ok u
    → Off host (disable host c log)
disable-Off host c log u reads sane h = disable_from host c c.resident log u reads refl sane h
