-- ===== src/Session/Sample.antt =====
-- What a session makes of the client's events before it injects them.
use zpenflow.Base.{
  ℕ, ◌-◌, ◌*◌, ◌/◌, ◌%◌, ◌^◌, ◌==◌, ◌≡◌, leb, ltb, true, ◌||◌, not, List, [], ◌∷◌, min,
  if◌then◌else◌, arith,
}
use zpenflow.Protocol.PenEvent.{PenEvent}
use zpenflow.Protocol.TouchEvent.{TouchContact}
use zpenflow.Inject.Injector.{PenSample, TouchPoint}
use zpenflow.Inject.Pressure.{is_nan, is_negative, exponent, significand}

-- The client's coordinates on the screen, in pixels and in the units of the virtual digitizer.
pub record Coords : Type 0 where
  pub map_to_pixel : ℕ → ℕ → ℕ × ℕ
  pub map_to_vmulti : ℕ → ℕ → ℕ × ℕ

-- The whole part of an f32's size, up to the size of an i32.
unfoldable pub whole_part : ℕ → ℕ
unfolding exponent significand
whole_part bits =
    let e = exponent bits in
    if ltb e 127
    then 0
    else if leb 158 e
    then 2 ^ 31
    else if leb 150 e
    then significand bits * 2 ^ (e - 150)
    else significand bits / 2 ^ (150 - e)

-- `as i32` on an f32
unfoldable pub to_i32 : ℕ → ℕ
unfolding is_nan is_negative exponent whole_part significand
to_i32 bits =
    if is_nan bits
    then 0
    else if is_negative bits
    then (2 ^ 32 - whole_part bits) % 2 ^ 32
    else min (whole_part bits) (2 ^ 31 - 1)

unfoldable pub pen_sample : Coords → PenEvent → PenSample
unfolding to_i32
pen_sample coords pe =
    let at = coords.map_to_pixel pe.x_norm pe.y_norm in
    let logical = coords.map_to_vmulti pe.x_norm pe.y_norm in
    record {
      x = at.0;
      y = at.1;
      x_logical = logical.0;
      y_logical = logical.1;
      pressure = pe.pressure;
      tilt_x_deg = to_i32 pe.tilt_x;
      tilt_y_deg = to_i32 pe.tilt_y;
      in_range = not (pe.phase == 4);
      in_contact = pe.phase == 1 || pe.phase == 2;
      eraser = pe.tool == 1;
      buttons = pe.buttons;
    }

unfoldable pub touch_points : Coords → List TouchContact → List TouchPoint
touch_points coords [] = []
touch_points coords (c ∷ contacts) =
    let at = coords.map_to_pixel c.x_norm c.y_norm in
    record { id = c.pointer_id; x = at.0; y = at.1 } ∷ touch_points coords contacts

phase_range : (p : ℕ) → p == 1 || p == 2 ≡ true → not (p == 4) ≡ true
phase_range p h = ground arith

-- Of whatever event, the sample of a pen that touches is in range.
pub pen_sample-Sensible :
    (coords : Coords) (pe : PenEvent)
    → (pen_sample coords pe).in_contact ≡ true
    → (pen_sample coords pe).in_range ≡ true
unfolding pen_sample
pen_sample-Sensible coords pe h = phase_range pe.phase h
