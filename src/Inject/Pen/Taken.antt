-- ===== src/Inject/Pen/Taken.antt =====
-- Where the system takes every call, no injection fails.
use zpenflow.Base.{
  ℕ, ◌≡◌, refl, Bool, true, false, ◌&&◌, not, inl, inr, List, [], ◌∷◌, Option-cases, none,
  if◌then◌else◌,
}
use zpenflow.Inject.Os.{Os, Call, Outcome, done, failed, send, then_do, send_all, pen_frame}
use zpenflow.Inject.Binding.{Binding, PenButtonProfile}
use zpenflow.Inject.Mouse.{Screen, mouse_move}
use zpenflow.Inject.Injector.{PenSample, InputInjector}
use zpenflow.Inject.Buttons.{
  dispatch_slot, dispatch_slots, dispatch_progress, dispatch_pen_buttons, dispatched, sync_mouse,
  sync_mouse_to_pen, slot_calls,
}
use zpenflow.Inject.Vmulti
use zpenflow.Inject.Pen.{
  write_pen, pen_info, flushed, write_synthetic, write_sample, conclude, effective_eraser,
  after_buttons, inject_pen,
}

abbrev pub Accepting : Os → Type 0
Accepting os = (log : List Call) (c : Call) → os log c ≡ none

abbrev pub IsDone : Outcome → Type 0
IsDone o = (log : List Call) × (o ≡ done log)

module _ (os : Os) (accept : Accepting os) where
  pub send-taken : (c : Call) (log : List Call) → send os c log ≡ done (c ∷ log)
  unfolding send
  send-taken c log = rw (accept log c, send) refl

  then_do-IsDone :
      (o : Outcome) (f : List Call → Outcome)
      → IsDone o
      → ((log : List Call) → IsDone (f log))
      → IsDone (then_do o f)
  then_do-IsDone (done log) f h k = k log
  then_do-IsDone (failed e log) f (log', h) k = cc

  send_all-IsDone : (cs log : List Call) → IsDone (send_all os cs log)
  unfolding send_all
  send_all-IsDone [] log = (log, refl)
  send_all-IsDone (c ∷ cs) log =
      then_do-IsDone (send os c log) (send_all os cs) (c ∷ log, send-taken c log)
        (send_all-IsDone cs)

  dispatch_slot-IsDone :
      (b : Binding) (slot prev now : ℕ) (o : Outcome) (sticky : Bool)
      → IsDone o
      → IsDone (dispatch_slot os b slot prev now (record { outcome = o; sticky = sticky })).outcome
  unfolding dispatch_slot
  dispatch_slot-IsDone b slot prev now (done log) sticky h =
      send_all-IsDone (slot_calls b slot prev now) log
  dispatch_slot-IsDone b slot prev now (failed e log) sticky (log', h) = cc

  dispatch_slots-IsDone :
      (profile : PenButtonProfile) (prev now : ℕ) (o : Outcome) (sticky : Bool)
      → IsDone o
      → IsDone
          (dispatch_slots os profile prev now (record { outcome = o; sticky = sticky })).outcome
  unfolding dispatch_slots
  dispatch_slots-IsDone profile prev now o sticky h =
      let p1 =
        dispatch_slot os profile.barrel_1 0 prev now (record { outcome = o; sticky = sticky }) in
      let p2 = dispatch_slot os profile.barrel_2 1 prev now p1 in
      dispatch_slot-IsDone profile.tertiary 2 prev now p2.outcome p2.sticky (
        dispatch_slot-IsDone profile.barrel_2 1 prev now p1.outcome p1.sticky
          (dispatch_slot-IsDone profile.barrel_1 0 prev now o sticky h))

  sync_mouse-IsDone :
      (screen : Screen) (moved : Bool) (sample : PenSample) (log : List Call)
      → IsDone (sync_mouse os screen moved sample log)
  unfolding sync_mouse
  sync_mouse-IsDone screen false sample log = (log, refl)
  sync_mouse-IsDone screen true sample log =
      (_, send-taken (mouse_move screen sample.x sample.y) log)

  either-IsDone : (b : Bool) (o p : Outcome) → IsDone o → IsDone p → IsDone (if b then o else p)
  either-IsDone true o p h k = h
  either-IsDone false o p h k = k

  write_pen-IsDone :
      (screen : Screen) (sample : PenSample) (eraser : Bool) (g : InputInjector) (log : List Call)
      → IsDone (write_pen os screen sample eraser g log)
  unfolding write_pen
  write_pen-IsDone screen sample eraser g log =
      let c = pen_frame (pen_info screen sample eraser g) in
      either-IsDone (not g.last_pen_in_range && not sample.in_range) (done log) (send os c log)
        (log, refl) (c ∷ log, send-taken c log)

  write_synthetic-IsDone :
      (screen : Screen) (sample : PenSample) (eraser : Bool) (g : InputInjector) (log : List Call)
      → IsDone (write_synthetic os screen sample eraser g log)
  unfolding write_synthetic
  write_synthetic-IsDone screen sample eraser g log =
      let flip =
        (if eraser then not g.last_pen_eraser else g.last_pen_eraser) && g.last_pen_in_range in
      let old = write_pen os screen (flushed sample) g.last_pen_eraser g log in
      then_do-IsDone (if flip then old else done log) (write_pen os screen sample eraser g)
        (either-IsDone flip old (done log)
          (write_pen-IsDone screen (flushed sample) g.last_pen_eraser g log) (log, refl))
        (write_pen-IsDone screen sample eraser g)

  write_sample-IsDone :
      (screen : Screen) (sample : PenSample) (eraser : Bool) (g : InputInjector) (log : List Call)
      → IsDone (write_sample os screen sample eraser g log).1
  unfolding write_sample Vmulti.write_pen
  write_sample-IsDone screen sample eraser g log = elim (Option-cases g.vmulti) [
    | inl e ↦ rw (e, write_sample) (write_synthetic-IsDone screen sample eraser g log)
    | inr (pen, e) ↦ rw (e, write_sample, Vmulti.write_pen) (_, send-taken _ log)
  ]

  conclude-IsDone :
      (sample : PenSample) (eraser : Bool) (g : InputInjector) (o : Outcome)
      → IsDone o
      → IsDone (conclude sample eraser g o).1
  unfolding conclude
  conclude-IsDone sample eraser g (done log) h = (log, refl)
  conclude-IsDone sample eraser g (failed e log) (log', h) = cc

  after_buttons-IsDone :
      (screen : Screen) (sample : PenSample) (g : InputInjector) (o : Outcome)
      → IsDone o
      → IsDone (after_buttons os screen sample g o).1
  unfolding after_buttons
  after_buttons-IsDone screen sample g (failed e log) (log', h) = cc
  after_buttons-IsDone screen sample g (done log) h =
      let eraser = effective_eraser sample g in
      let written = write_sample os screen sample eraser g log in
      conclude-IsDone sample eraser written.0 written.1
        (write_sample-IsDone screen sample eraser g log)

  -- Where the system takes every call, every sample is injected.
  pub inject_pen-IsDone :
      (screen : Screen) (sample : PenSample) (g : InputInjector) (log : List Call)
      → IsDone (inject_pen os screen sample g log).1
  unfolding inject_pen dispatch_pen_buttons dispatch_progress
  inject_pen-IsDone screen sample g log =
      let prev = g.last_pen_buttons in
      let now = sample.buttons in
      let moves = sync_mouse_to_pen g.pen_profile prev now in
      let p = dispatch_progress os screen sample g log in
      after_buttons-IsDone screen sample (dispatched now g p.outcome p.sticky) p.outcome (
        dispatch_slots-IsDone g.pen_profile prev now (sync_mouse os screen moves sample log)
          g.pen_eraser_sticky (sync_mouse-IsDone screen moves sample log))
