-- ===== src/Inject/Pen/Success.antt =====
-- What a sample of the pen went through when its injection succeeds, and what that leaves held.
use zpenflow.Base.{
  ap, ◌⊎◌, sym, ◌∙◌, Option-cases, ℕ, ◌≡◌, refl, Bool, true, false, ◌&&◌, not, inl, inr, List, ◌∷◌,
  arith, if◌then◌else◌,
}
use mathlib.Core.Path.{subst}
use zpenflow.Inject.Binding.{PenButtonProfile}
use zpenflow.Inject.Os.{Os, Call, Outcome, Switch, done, failed, send, pen_frame, report}
use zpenflow.Inject.Mouse.{Screen, mouse_move}
use zpenflow.Inject.Injector.{PenSample, InputInjector}
use zpenflow.Inject.Buttons.{
  dispatch_pen_buttons, dispatch_progress, dispatched, sync_mouse, sync_mouse_to_pen,
}
use zpenflow.Inject.Vmulti.{VMultiPen}
use zpenflow.Inject.Vmulti
use zpenflow.Inject.Balance.{pressed, released, Balanced}
use zpenflow.Inject.Balance.Dispatch.{send-done, then_do-done, dispatch_slots-done}
use zpenflow.Inject.Pen.{
  write_pen, pen_info, write_synthetic, write_sample, flushed, vmulti_sample, remembered, conclude,
  effective_eraser, after_buttons, inject_pen,
}

conclude-done :
    (sample : PenSample) (eraser : Bool) (g : InputInjector) (o : Outcome) (log' : List Call)
    → (conclude sample eraser g o).1 ≡ done log'
    → (o ≡ done log') × ((conclude sample eraser g o).0 ≡ remembered sample eraser g)
unfolding conclude
conclude-done sample eraser g (done log) log' h = (h, refl)
conclude-done sample eraser g (failed e log) log' h = cc

-- A sample that was injected had its buttons dispatched and its frames written.
abbrev Injected : Os → Screen → PenSample → InputInjector → Outcome → List Call → Type 0
Injected os screen sample g o log' =
    (log1 : List Call) × (o ≡ done log1)
    × ((write_sample os screen sample (effective_eraser sample g) g log1).1 ≡ done log')
    × ((after_buttons os screen sample g o).0
        ≡ remembered sample (effective_eraser sample g)
            (write_sample os screen sample (effective_eraser sample g) g log1).0)

pub after_buttons-done :
    (os : Os) (screen : Screen) (sample : PenSample) (g : InputInjector) (o : Outcome)
    (log' : List Call)
    → (after_buttons os screen sample g o).1 ≡ done log'
    → Injected os screen sample g o log'
unfolding after_buttons
after_buttons-done os screen sample g (failed e log) log' h = cc
after_buttons-done os screen sample g (done log) log' h =
    let eraser = effective_eraser sample g in
    let written = write_sample os screen sample eraser g log in
    let (a, b) = conclude-done sample eraser written.0 written.1 log' h in (log, refl, a, b)

-- The calls that neither press nor release anything.
abbrev Neutral : List Call → List Call → Type 0
Neutral log log' =
    (s : Switch) → (pressed s log' ≡ pressed s log) × (released s log' ≡ released s log)

Neutral-refl : (log log' : List Call) → log ≡ log' → Neutral log log'
Neutral-refl log log' e s =
    subst (λ (l : List Call). (pressed s l ≡ pressed s log) × (released s l ≡ released s log)) e
      (refl, refl)

guarded-done :
    (skip : Bool) (os : Os) (c : Call) (log log' : List Call)
    → (if skip then done log else send os c log) ≡ done log'
    → ((skip ≡ true) × (log' ≡ log)) ⊎ ((skip ≡ false) × (log' ≡ c ∷ log))
guarded-done true os c log log' h = inl (refl, cc)
guarded-done false os c log log' h = inr (refl, send-done os c log log' h)

-- Either there was nothing to write, or one frame was.
pub write_pen-done :
    (os : Os) (screen : Screen) (sample : PenSample) (eraser : Bool) (g : InputInjector)
    (log log' : List Call)
    → write_pen os screen sample eraser g log ≡ done log'
    → ((not g.last_pen_in_range && not sample.in_range ≡ true) × (log' ≡ log))
      ⊎ ((not g.last_pen_in_range && not sample.in_range ≡ false)
          × (log' ≡ pen_frame (pen_info screen sample eraser g) ∷ log))
unfolding write_pen
write_pen-done os screen sample eraser g log log' h =
    guarded-done (not g.last_pen_in_range && not sample.in_range) os
      (pen_frame (pen_info screen sample eraser g)) log log' h

write_pen-Neutral :
    (os : Os) (screen : Screen) (sample : PenSample) (eraser : Bool) (g : InputInjector)
    (log log' : List Call)
    → write_pen os screen sample eraser g log ≡ done log'
    → Neutral log log'
unfolding pressed released
write_pen-Neutral os screen sample eraser g log log' h =
    elim (write_pen-done os screen sample eraser g log log' h) [
      | inl (skip, e) ↦ Neutral-refl log log' (sym e)
      | inr (skip, e) ↦
          let i = pen_info screen sample eraser g in
          subst (λ (l : List Call). Neutral log l) (sym e) (λ s. (refl, refl))
    ]

-- The flush, where there is one.
flush-done :
    (flush : Bool) (o : Outcome) (log log1 : List Call)
    → (if flush then o else done log) ≡ done log1
    → ((flush ≡ true) × (o ≡ done log1)) ⊎ ((flush ≡ false) × (log1 ≡ log))
flush-done true o log log1 h = inl (refl, h)
flush-done false o log log1 h = inr (refl, cc)

-- The end of the pen changes.
abbrev pub flips : Bool → InputInjector → Bool
flips eraser g = if eraser then not g.last_pen_eraser else g.last_pen_eraser

-- The frames of a sample, with those of the flush before where the end of the pen changes in range.
pub write_synthetic-done :
    (os : Os) (screen : Screen) (sample : PenSample) (eraser : Bool) (g : InputInjector)
    (log log' : List Call)
    → write_synthetic os screen sample eraser g log ≡ done log'
    → (log1 : List Call) × (((flips eraser g && g.last_pen_in_range ≡ true)
          × (write_pen os screen (flushed sample) g.last_pen_eraser g log ≡ done log1))
        ⊎ ((flips eraser g && g.last_pen_in_range ≡ false) × (log1 ≡ log)))
      × (write_pen os screen sample eraser g log1 ≡ done log')
unfolding write_synthetic
write_synthetic-done os screen sample eraser g log log' h =
    let old = write_pen os screen (flushed sample) g.last_pen_eraser g log in
    let flush = flips eraser g && g.last_pen_in_range in
    let (log1, a, b) =
      then_do-done (if flush then old else done log) (write_pen os screen sample eraser g) log' h in
    (log1, flush-done flush old log log1 a, b)

Neutral-trans : (a b c : List Call) → Neutral a b → Neutral b c → Neutral a c
Neutral-trans a b c h k s = ((k s).0 ∙ (h s).0, (k s).1 ∙ (h s).1)

write_synthetic-Neutral :
    (os : Os) (screen : Screen) (sample : PenSample) (eraser : Bool) (g : InputInjector)
    (log log' : List Call)
    → write_synthetic os screen sample eraser g log ≡ done log'
    → Neutral log log'
write_synthetic-Neutral os screen sample eraser g log log' h =
    let (log1, a, b) = write_synthetic-done os screen sample eraser g log log' h in
    let first : Neutral log log1 = elim a [
      | inl (f, w) ↦ write_pen-Neutral os screen (flushed sample) g.last_pen_eraser g log log1 w
      | inr (f, e) ↦ Neutral-refl log log1 (sym e)
    ] in
    Neutral-trans log log1 log' first (write_pen-Neutral os screen sample eraser g log1 log' b)

-- The frames of a sample leave the keys and the buttons of the mouse as they were.
abbrev Kept : InputInjector → InputInjector → Type 0
Kept g g' = (g'.pen_profile ≡ g.pen_profile) × (g'.last_pen_buttons ≡ g.last_pen_buttons)

write_report-Neutral :
    (os : Os) (bytes : List ℕ) (log log' : List Call)
    → send os (report bytes) log ≡ done log'
    → Neutral log log'
unfolding pressed released
write_report-Neutral os bytes log log' h =
    subst (λ (l : List Call). Neutral log l) (sym (send-done os (report bytes) log log' h))
      (λ s. (refl, refl))

write_sample-Neutral :
    (os : Os) (screen : Screen) (sample : PenSample) (eraser : Bool) (g : InputInjector)
    (log log' : List Call)
    → (write_sample os screen sample eraser g log).1 ≡ done log'
    → Neutral log log' × Kept g (write_sample os screen sample eraser g log).0
unfolding Vmulti.write_pen write_synthetic write_sample
write_sample-Neutral os screen sample eraser g log log' h = elim (Option-cases g.vmulti) [
  | inl e ↦
      let h' : write_synthetic os screen sample eraser g log ≡ done log' =
        rw (e, write_sample) at h in
      (
        write_synthetic-Neutral os screen sample eraser g log log' h',
        (rw (e, write_sample) refl, rw (e, write_sample) refl),
      )
  | inr (pen, e) ↦
      let h' : (Vmulti.write_pen os (vmulti_sample sample eraser) pen log).1 ≡ done log' =
        rw (e, write_sample) at h in
      (
        write_report-Neutral os _ log log' h',
        (rw (e, write_sample) refl, rw (e, write_sample) refl),
      )
]

sync_mouse-Neutral :
    (os : Os) (screen : Screen) (moved : Bool) (sample : PenSample) (log log' : List Call)
    → sync_mouse os screen moved sample log ≡ done log'
    → Neutral log log'
unfolding sync_mouse pressed released
sync_mouse-Neutral os screen false sample log log' h = Neutral-refl log log' cc
sync_mouse-Neutral os screen true sample log log' h =
    let e = send-done os (mouse_move screen sample.x sample.y) log log' h in
    subst (λ (l : List Call). Neutral log l) (sym e) (λ s. (refl, refl))

dispatched-done :
    (now : ℕ) (g : InputInjector) (o : Outcome) (sticky : Bool) (log : List Call)
    → o ≡ done log
    → ((dispatched now g o sticky).pen_profile ≡ g.pen_profile)
      × ((dispatched now g o sticky).last_pen_buttons ≡ now)
unfolding dispatched
dispatched-done now g (done log') sticky log h = (refl, refl)
dispatched-done now g (failed e log') sticky log h = cc

-- The balance, for a profile and buttons known to be others.
Balanced-move :
    (profile profile' : PenButtonProfile) (buttons buttons' : ℕ) (log : List Call)
    → profile' ≡ profile
    → buttons' ≡ buttons
    → Balanced profile buttons log
    → Balanced profile' buttons' log
Balanced-move profile profile' buttons buttons' log e f h s = rw (e, f) (h s)

dispatch_pen_buttons-Balanced :
    (os : Os) (screen : Screen) (sample : PenSample) (g : InputInjector) (log log' : List Call)
    → Balanced g.pen_profile g.last_pen_buttons log
    → (dispatch_pen_buttons os screen sample g log).1 ≡ done log'
    → Balanced
        (dispatch_pen_buttons os screen sample g log).0.pen_profile
        (dispatch_pen_buttons os screen sample g log).0.last_pen_buttons
        log'
unfolding dispatch_pen_buttons dispatch_progress
dispatch_pen_buttons-Balanced os screen sample g log log' bal h =
    let prev = g.last_pen_buttons in
    let now = sample.buttons in
    let moves = sync_mouse_to_pen g.pen_profile prev now in
    let moved = sync_mouse os screen moves sample log in
    let p = dispatch_progress os screen sample g log in
    let (e, f) = dispatched-done now g p.outcome p.sticky log' h in
    let now_balanced : Balanced g.pen_profile now log' = λ s.
      let (log0, e0, x) =
        dispatch_slots-done s os g.pen_profile prev now moved g.pen_eraser_sticky log' h in
      let (u, v) = sync_mouse-Neutral os screen moves sample log log0 e0 s in
      omega (arith, u, v, x, bal s) in
    Balanced-move g.pen_profile _ now _ log' e f now_balanced

-- When a sample of the pen is injected, every key and every mouse button has been pressed as often
-- as released, and once more for each binding that holds it with its button down; given that this
-- was so before the sample.
pub inject_pen-Balanced :
    (os : Os) (screen : Screen) (sample : PenSample) (g : InputInjector) (log log' : List Call)
    → Balanced g.pen_profile g.last_pen_buttons log
    → (inject_pen os screen sample g log).1 ≡ done log'
    → Balanced
        (inject_pen os screen sample g log).0.pen_profile
        (inject_pen os screen sample g log).0.last_pen_buttons
        log'
unfolding inject_pen remembered
inject_pen-Balanced os screen sample g log log' bal h =
    let (g1, o1) = dispatch_pen_buttons os screen sample g log in
    let (log1, e1, written, result) = after_buttons-done os screen sample g1 o1 log' h in
    let bal1 = dispatch_pen_buttons-Balanced os screen sample g log log1 bal e1 in
    let eraser = effective_eraser sample g1 in
    let (same, kept) = write_sample-Neutral os screen sample eraser g1 log1 log' written in
    let bal2 : Balanced g1.pen_profile g1.last_pen_buttons log' =
      λ s. omega (arith, bal1 s, (same s).0, (same s).1) in
    Balanced-move g1.pen_profile _ g1.last_pen_buttons _ log'
      (ap (λ g. g.pen_profile) result ∙ kept.0) (ap (λ g. g.last_pen_buttons) result ∙ kept.1) bal2
