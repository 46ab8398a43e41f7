-- ===== src/Inject/Tests.antt =====
-- Runs of the injection on small inputs.
use zpenflow.Base.{ℕ, ◌≡◌, refl, Bool, true, false, List, [], ◌∷◌, ◌++◌, none, some}
use zpenflow.Engine.{win32}
use zpenflow.Inject.Binding.{default_profile, key_hold, eraser_toggle, mouse_button, right}
use zpenflow.Inject.Os.{Os, Call, key, press, pen_frame, done, failed, send, send_all}
use zpenflow.Inject.Flags.{pen_pointer_flags}
use zpenflow.Inject.Pressure.{
  level, rounded, bit_length, nearest_even, is_nan, is_negative, exponent, significand,
}
use zpenflow.Inject.Mouse.{Screen, normalize_absolute_mouse_coord, mouse_move}
use zpenflow.Inject.Injector.{InputInjector, PenSample, TouchPoint}
use zpenflow.Inject.Vmulti.{VMultiPenSample, payload, read_report, clamped, read-payload}
use zpenflow.Inject.Buttons.{
  has_button, pressed_now, released_now, presses, calls_on_press, calls_on_release, is_mouse_button,
  is_eraser_toggle, slot_calls, dispatch_slot, dispatch_slots, moves_mouse, sync_mouse_to_pen,
  sync_mouse, dispatched, dispatch_progress, dispatch_pen_buttons, set_pen_profile,
}
use zpenflow.Inject.Balance.{pressed, released, held, slot_holds, Balanced}
use zpenflow.Inject.Balance.Dispatch.{set_pen_profile-released}
use zpenflow.Inject.Pen.{
  pen_info, write_pen, flushed, write_synthetic, write_sample, conclude, effective_eraser,
  after_buttons, inject_pen,
}
use zpenflow.Inject.Pen.Success.{inject_pen-Balanced}
use zpenflow.Inject.Pen.Following.{
  followed, place, IsLost, write_synthetic-followed, flipped-IsLost,
}
use zpenflow.Inject.Touch.{
  contains_key, has_id, present, lost, touch_infos, is_empty, settle, inject_touch,
}
use zpenflow.Inject.Touch.Contacts.{DistinctPoints, DistinctKeys, digitize, touch_infos-digitized}
use zpenflow.Inject.Touch.Table.{Agrees, inject_touch-Agrees}

-- 0.5 and 0.3 of 1024 and of 16383
half_level : level 1024 0x3f000000 ≡ 512
unfolding level rounded bit_length nearest_even is_nan is_negative exponent significand
half_level = refl

third_level : level 16383 0x3e99999a ≡ 4915
unfolding level rounded bit_length nearest_even is_nan is_negative exponent significand
third_level = refl

abbrev taking : Os
taking = λ log c. none

-- It takes five calls.
abbrev refusing : Os
refusing (a ∷ b ∷ c ∷ d ∷ e ∷ log) call = some 5
refusing [] call = none
refusing (a ∷ []) call = none
refusing (a ∷ b ∷ []) call = none
refusing (a ∷ b ∷ c ∷ []) call = none
refusing (a ∷ b ∷ c ∷ d ∷ []) call = none

abbrev screen : Screen
screen = record { vx = 0; vy = 0; vw = 1920; vh = 1080 }

-- The right edge of the screen.
right_edge : normalize_absolute_mouse_coord 1919 0 1920 ≡ 65535
unfolding normalize_absolute_mouse_coord
right_edge = refl

abbrev fresh : InputInjector
fresh = record {
  last_pen_eraser = false;
  last_pen_in_range = false;
  last_pen_in_contact = false;
  pen_profile = record {
    barrel_1 = key_hold (17 ∷ 16 ∷ []);
    barrel_2 = mouse_button right;
    tertiary = eraser_toggle;
    tip_threshold = 0;
  };
  last_pen_buttons = 0;
  pen_eraser_sticky = false;
  last_touch_pos = [];
  vmulti = none;
}

-- A pen that hovers, with its first button down.
abbrev hover : PenSample
hover = record {
  x = 100;
  y = 200;
  x_logical = 1000;
  y_logical = 2000;
  pressure = 0;
  tilt_x_deg = 10;
  tilt_y_deg = 4294967276;
  in_range = true;
  in_contact = false;
  eraser = false;
  buttons = 1;
}

fresh-Balanced : Balanced fresh.pen_profile fresh.last_pen_buttons []
unfolding pressed released held slot_holds has_button
fresh-Balanced = λ s. refl

abbrev after_hover : InputInjector × List Call
after_hover = (
  (inject_pen taking screen hover fresh []).0,
  pen_frame (pen_info screen hover false fresh) ∷ press (key 16) ∷ press (key 17) ∷ [],
)

hover_done : (inject_pen taking screen hover fresh []).1 ≡ done after_hover.1
unfolding inject_pen dispatch_pen_buttons dispatch_progress sync_mouse_to_pen moves_mouse
    is_mouse_button has_button released_now pressed_now sync_mouse dispatch_slots dispatch_slot
    slot_calls calls_on_press calls_on_release presses send_all send dispatched after_buttons
    effective_eraser write_sample write_synthetic write_pen conclude is_eraser_toggle
hover_done = refl

-- The profile changes while the first button is down.
set_pen_profile-released_example :
    pressed (key 17) (set_pen_profile taking default_profile after_hover.0 after_hover.1).1
    ≡ released (key 17) (set_pen_profile taking default_profile after_hover.0 after_hover.1).1
set_pen_profile-released_example =
    set_pen_profile-released taking default_profile after_hover.0 after_hover.1 (λ log c. refl)
      (inject_pen-Balanced taking screen hover fresh [] after_hover.1 fresh-Balanced hover_done)
      (key 17)

-- The system refuses the frame of a second pen sample that presses two buttons more.
abbrev all_down : PenSample
all_down = record hover { buttons = 7 }

abbrev five_calls : List Call
five_calls = press (key 1) ∷ press (key 2) ∷ press (key 3) ∷ press (key 4) ∷ press (key 5) ∷ []

refused : (inject_pen refusing screen all_down fresh five_calls).1 ≡ failed (win32 5) five_calls
unfolding inject_pen dispatch_pen_buttons dispatch_progress sync_mouse_to_pen moves_mouse
    is_mouse_button has_button released_now pressed_now sync_mouse dispatch_slots dispatch_slot
    slot_calls calls_on_press calls_on_release presses send_all send dispatched after_buttons
    mouse_move
refused = refl

-- A pen that touches, after one that hovered.
abbrev hovering_pen : InputInjector
hovering_pen = record fresh { last_pen_in_range = true }

abbrev hovered : List Call
hovered = pen_frame (pen_info screen hover false fresh) ∷ []

abbrev touch_down : PenSample
touch_down = record hover { in_contact = true; pressure = 0x3f000000 }

hovered-Tracked : followed hovered ≡ some (place true false)
unfolding followed pen_info pen_pointer_flags
hovered-Tracked = refl

write_synthetic-followed_example :
    followed (pen_frame (pen_info screen touch_down false hovering_pen) ∷ hovered)
    ≡ some (place true true)
unfolding write_synthetic write_pen send
write_synthetic-followed_example =
    write_synthetic-followed taking screen touch_down false hovering_pen hovered
      (pen_frame (pen_info screen touch_down false hovering_pen) ∷ hovered) (λ e. refl)
      hovered-Tracked refl refl

flipped-IsLost_example : IsLost hovered (
    pen_frame (pen_info screen hover true hovering_pen)
    ∷ pen_frame (pen_info screen (flushed hover) false hovering_pen)
    ∷ hovered)
unfolding write_synthetic write_pen send flushed
flipped-IsLost_example =
    flipped-IsLost taking screen hover true hovering_pen hovered
      (pen_frame (pen_info screen hover true hovering_pen)
        ∷ pen_frame (pen_info screen (flushed hover) false hovering_pen)
        ∷ hovered)
      (λ e. refl) hovered-Tracked refl refl refl refl

-- Two fingers, of which the second stays and a third comes.
abbrev two_fingers : InputInjector
two_fingers = record fresh {
  last_touch_pos = record { id = 1; x = 10; y = 10 } ∷ record { id = 2; x = 20; y = 20 } ∷ [];
}

abbrev new_fingers : List TouchPoint
new_fingers = record { id = 2; x = 21; y = 21 } ∷ record { id = 3; x = 30; y = 30 } ∷ []

touch_infos-digitized_example :
    (on' : ℕ → Bool) × (digitize
        (touch_infos screen new_fingers two_fingers.last_touch_pos)
        (λ id. contains_key id two_fingers.last_touch_pos)
      ≡ some on')
    × ((id : ℕ) → on' id ≡ has_id id new_fingers)
unfolding DistinctPoints DistinctKeys contains_key has_id
touch_infos-digitized_example =
    touch_infos-digitized screen new_fingers two_fingers.last_touch_pos
      (λ id. contains_key id two_fingers.last_touch_pos) (refl, (refl, tt)) (refl, (refl, tt))
      (λ id. refl)

inject_touch-Agrees_example :
    Agrees new_fingers (inject_touch taking screen new_fingers two_fingers []).0.last_touch_pos
unfolding DistinctPoints DistinctKeys contains_key has_id inject_touch is_empty touch_infos present
    lost send settle
inject_touch-Agrees_example =
    inject_touch-Agrees taking screen new_fingers two_fingers [] _ (refl, (refl, tt)) refl

abbrev digitizer_sample : VMultiPenSample
digitizer_sample = record {
  x = 40000;
  y = 12345;
  pressure = 16000;
  tilt_x_deg = 10;
  tilt_y_deg = 236;
  tip_down = true;
  barrel = false;
  eraser = true;
  inverted = true;
  in_range = true;
}

read-payload_example :
    read_report (payload digitizer_sample ++ (0 ∷ 0 ∷ [])) ≡ clamped digitizer_sample
read-payload_example = read-payload digitizer_sample (0 ∷ 0 ∷ [])
