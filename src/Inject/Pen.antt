-- ===== src/Inject/Pen.antt =====
-- crates/penflow-core/src/inject/win_ink.rs: one sample of the pen.
pub mod Success
pub mod Failure
pub mod Following
pub mod Taken
use zpenflow.Base.{
  ℕ, ◌+◌, ◌-◌, ◌%◌, ◌^◌, ◌==◌, leb, ltb, Bool, true, false, ◌&&◌, ◌||◌, not, List, [], ◌∷◌, Option,
  none, some, min, if◌then◌else◌,
}
use zpenflow.Inject.Os.{Os, Call, Outcome, done, failed, pen_frame, PenInfo, send, then_do}
use zpenflow.Inject.Flags.{pen_pointer_flags}
use zpenflow.Inject.Pressure.{level}
use zpenflow.Inject.Mouse.{Screen}
use zpenflow.Inject.Injector.{PenSample, InputInjector, i32_sub}
use zpenflow.Inject.Buttons.{dispatch_pen_buttons}
use zpenflow.Inject.Vmulti.{VMultiPen, VMultiPenSample}
use zpenflow.Inject.Vmulti

-- `clamp(-90, 90)` on an i32
unfoldable pub clamp_tilt : ℕ → ℕ
clamp_tilt t = if leb (2 ^ 31) t then (if ltb t (2 ^ 32 - 90) then 2 ^ 32 - 90 else t) else min t 90

unfoldable pub pen_info : Screen → PenSample → Bool → InputInjector → PenInfo
unfolding clamp_tilt
pen_info screen sample eraser g = record {
  flags =
      pen_pointer_flags g.last_pen_in_range g.last_pen_in_contact sample.in_range sample.in_contact;
  x = i32_sub sample.x screen.vx;
  y = i32_sub sample.y screen.vy;
  inverted = eraser;
  pressure = level 1024 sample.pressure;
  tilt_x = clamp_tilt sample.tilt_x_deg;
  tilt_y = clamp_tilt sample.tilt_y_deg;
}

unfoldable pub write_pen : Os → Screen → PenSample → Bool → InputInjector → List Call → Outcome
unfolding pen_info send
write_pen os screen sample eraser g log =
    if not g.last_pen_in_range && not sample.in_range
    then done log
    else send os (pen_frame (pen_info screen sample eraser g)) log

unfoldable pub vmulti_sample : PenSample → Bool → VMultiPenSample
unfolding clamp_tilt
vmulti_sample sample eraser = record {
  x = sample.x_logical;
  y = sample.y_logical;
  pressure = level 16383 sample.pressure;
  tilt_x_deg = clamp_tilt sample.tilt_x_deg % 256;
  tilt_y_deg = clamp_tilt sample.tilt_y_deg % 256;
  tip_down = sample.in_contact;
  barrel = false;
  eraser = eraser;
  inverted = eraser;
  in_range = sample.in_range;
}

-- The frame that takes the pen away before the eraser changes.
unfoldable pub flushed : PenSample → PenSample
flushed sample = record sample { in_range = false; in_contact = false; pressure = 0 }

-- Without the digitizer: the pen leaves with its old end before it comes back with the other.
unfoldable pub write_synthetic :
    Os → Screen → PenSample → Bool → InputInjector → List Call → Outcome
unfolding write_pen flushed
write_synthetic os screen sample eraser g log =
    let changed = if eraser then not g.last_pen_eraser else g.last_pen_eraser in
    let flush =
      if changed && g.last_pen_in_range
      then write_pen os screen (flushed sample) g.last_pen_eraser g log
      else done log in
    then_do flush (write_pen os screen sample eraser g)

-- The frames of a sample once its buttons are done, by the digitizer where there is one.
unfoldable pub write_sample :
    Os → Screen → PenSample → Bool → InputInjector → List Call → InputInjector × Outcome
unfolding write_synthetic vmulti_sample Vmulti.write_pen
write_sample os screen sample eraser g log = elim g.vmulti [
  | none ↦ (g, write_synthetic os screen sample eraser g log)
  | some pen ↦
      let (pen', o) = Vmulti.write_pen os (vmulti_sample sample eraser) pen log in
      (record g { vmulti = some pen' }, o)
]

-- What the injector remembers of a sample that went through.
unfoldable pub remembered : PenSample → Bool → InputInjector → InputInjector
remembered sample eraser g = record g {
  last_pen_eraser = eraser;
  last_pen_in_range = sample.in_range;
  last_pen_in_contact = sample.in_contact;
}

-- The end of `inject_pen`.
unfoldable pub conclude : PenSample → Bool → InputInjector → Outcome → InputInjector × Outcome
unfolding remembered
conclude sample eraser g (failed e log) = (g, failed e log)
conclude sample eraser g (done log) = (remembered sample eraser g, done log)

unfoldable pub effective_eraser : PenSample → InputInjector → Bool
effective_eraser sample g = sample.eraser || g.pen_eraser_sticky

-- `inject_pen` from the calls for the buttons on.
unfoldable pub after_buttons :
    Os → Screen → PenSample → InputInjector → Outcome → InputInjector × Outcome
unfolding write_sample conclude effective_eraser
after_buttons os screen sample g (failed e log) = (g, failed e log)
after_buttons os screen sample g (done log) =
    let eraser = effective_eraser sample g in
    let written = write_sample os screen sample eraser g log in
    conclude sample eraser written.0 written.1

unfoldable pub inject_pen :
    Os → Screen → PenSample → InputInjector → List Call → InputInjector × Outcome
unfolding dispatch_pen_buttons after_buttons
inject_pen os screen sample g log =
    let dispatched = dispatch_pen_buttons os screen sample g log in
    after_buttons os screen sample dispatched.0 dispatched.1
