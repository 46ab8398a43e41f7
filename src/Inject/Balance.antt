-- ===== src/Inject/Balance.antt =====
-- The keys and mouse buttons that the buttons of the pen hold down, counted in the calls made.
pub mod Dispatch
use zpenflow.Base.{
  ℕ, zero, suc, ◌+◌, ◌==◌, ◌≡◌, refl, sym, ◌∙◌, Bool, true, false, ◌&&◌, not, Bool-cases, inl, inr,
  List, [], ◌∷◌, ◌++◌, none, some, Option-cases, if◌then◌else◌, arith,
}
use zpenflow.Engine.{win32}
use zpenflow.Inject.Binding.{
  Binding, PenButtonProfile, MouseButtonKind, left, right, middle, nothing, key_tap, key_hold,
  key_chord, mouse_button, eraser_toggle,
}
use zpenflow.Inject.Os.{
  Os, Call, Outcome, Switch, key, mouse, press, release, move_to, pen_frame, touch_frame, report,
  done, failed, send, then_do, send_all, try_all, try_send,
}
use zpenflow.Inject.Buttons.{
  has_button, pressed_now, released_now, presses, releases, calls_on_press, calls_on_release,
  slot_calls, is_eraser_toggle, Progress, dispatch_slot, dispatch_slots,
}

abbrev pub same_kind : MouseButtonKind → MouseButtonKind → Bool
same_kind left left = true
same_kind left right = false
same_kind left middle = false
same_kind right left = false
same_kind right right = true
same_kind right middle = false
same_kind middle left = false
same_kind middle right = false
same_kind middle middle = true

abbrev pub same : Switch → Switch → Bool
same (key a) (key b) = a == b
same (key a) (mouse k) = false
same (mouse j) (key b) = false
same (mouse j) (mouse k) = same_kind j k

abbrev pub one_if : Bool → ℕ
one_if b = if b then 1 else 0

-- How often the calls press a key or button, and how often they release it.
unfoldable pub pressed : Switch → List Call → ℕ
pressed s [] = 0
pressed s (press t ∷ log) = one_if (same s t) + pressed s log
pressed s (release t ∷ log) = pressed s log
pressed s (move_to x y ∷ log) = pressed s log
pressed s (pen_frame i ∷ log) = pressed s log
pressed s (touch_frame is ∷ log) = pressed s log
pressed s (report bytes ∷ log) = pressed s log

unfoldable pub released : Switch → List Call → ℕ
released s [] = 0
released s (press t ∷ log) = released s log
released s (release t ∷ log) = one_if (same s t) + released s log
released s (move_to x y ∷ log) = released s log
released s (pen_frame i ∷ log) = released s log
released s (touch_frame is ∷ log) = released s log
released s (report bytes ∷ log) = released s log

-- How often a button's binding holds it while the button is down.
unfoldable pub keys_held : Switch → List ℕ → ℕ
keys_held s [] = 0
keys_held s (vk ∷ keys) = one_if (same s (key vk)) + keys_held s keys

unfoldable pub binding_holds : Switch → Binding → ℕ
unfolding keys_held
binding_holds s nothing = 0
binding_holds s (key_tap vk) = 0
binding_holds s (key_hold keys) = keys_held s keys
binding_holds s (key_chord keys) = 0
binding_holds s (mouse_button kind) = one_if (same s (mouse kind))
binding_holds s eraser_toggle = 0

unfoldable pub slot_holds : Switch → Binding → ℕ → ℕ → ℕ
unfolding binding_holds has_button
slot_holds s binding slot buttons = if has_button slot buttons then binding_holds s binding else 0

unfoldable pub held : Switch → PenButtonProfile → ℕ → ℕ
unfolding slot_holds
held s profile buttons =
    slot_holds s profile.barrel_1 0 buttons
    + slot_holds s profile.barrel_2 1 buttons
    + slot_holds s profile.tertiary 2 buttons

-- The log leaves exactly what the profile's buttons hold.
abbrev pub Balanced : PenButtonProfile → ℕ → List Call → Type 0
Balanced profile buttons log =
    (s : Switch) → pressed s log ≡ released s log + held s profile buttons

pub pressed-append :
    (s : Switch) (cs ds : List Call) → pressed s (cs ++ ds) ≡ pressed s cs + pressed s ds
unfolding pressed
pressed-append s [] ds = omega arith
pressed-append s (press t ∷ cs) ds = omega (arith, pressed-append s cs ds)
pressed-append s (release t ∷ cs) ds = pressed-append s cs ds
pressed-append s (move_to x y ∷ cs) ds = pressed-append s cs ds
pressed-append s (pen_frame i ∷ cs) ds = pressed-append s cs ds
pressed-append s (touch_frame is ∷ cs) ds = pressed-append s cs ds
pressed-append s (report bytes ∷ cs) ds = pressed-append s cs ds

pub released-append :
    (s : Switch) (cs ds : List Call) → released s (cs ++ ds) ≡ released s cs + released s ds
unfolding released
released-append s [] ds = omega arith
released-append s (press t ∷ cs) ds = released-append s cs ds
released-append s (release t ∷ cs) ds = omega (arith, released-append s cs ds)
released-append s (move_to x y ∷ cs) ds = released-append s cs ds
released-append s (pen_frame i ∷ cs) ds = released-append s cs ds
released-append s (touch_frame is ∷ cs) ds = released-append s cs ds
released-append s (report bytes ∷ cs) ds = released-append s cs ds

pressed-presses : (s : Switch) (keys : List ℕ) → pressed s (presses keys) ≡ keys_held s keys
unfolding pressed presses keys_held
pressed-presses s [] = refl
pressed-presses s (vk ∷ keys) = omega (arith, pressed-presses s keys)

released-presses : (s : Switch) (keys : List ℕ) → released s (presses keys) ≡ 0
unfolding released presses
released-presses s [] = refl
released-presses s (vk ∷ keys) = released-presses s keys

released-releases : (s : Switch) (keys : List ℕ) → released s (releases keys) ≡ keys_held s keys
unfolding released releases keys_held
released-releases s [] = refl
released-releases s (vk ∷ keys) =
    omega
      (arith, released-append s (releases keys) (release (key vk) ∷ []), released-releases s keys)

pressed-releases : (s : Switch) (keys : List ℕ) → pressed s (releases keys) ≡ 0
unfolding pressed releases
pressed-releases s [] = refl
pressed-releases s (vk ∷ keys) =
    omega (arith, pressed-append s (releases keys) (release (key vk) ∷ []), pressed-releases s keys)

-- What a press leaves down, and what a release takes up.
pub press_balance :
    (s : Switch) (b : Binding)
    → pressed s (calls_on_press b) ≡ released s (calls_on_press b) + binding_holds s b
unfolding pressed released calls_on_press binding_holds
press_balance s nothing = refl
press_balance s (key_tap vk) = omega arith
press_balance s (key_hold keys) = omega (arith, pressed-presses s keys, released-presses s keys)
press_balance s (key_chord keys) = omega (
  arith,
  pressed-append s (presses keys) (releases keys),
  released-append s (presses keys) (releases keys),
  pressed-presses s keys,
  released-presses s keys,
  pressed-releases s keys,
  released-releases s keys,
)
press_balance s (mouse_button kind) = omega arith
press_balance s eraser_toggle = refl

pub release_balance :
    (s : Switch) (b : Binding)
    → pressed s (calls_on_release b) + binding_holds s b ≡ released s (calls_on_release b)
unfolding pressed released calls_on_release binding_holds
release_balance s nothing = refl
release_balance s (key_tap vk) = refl
release_balance s (key_hold keys) = omega (arith, pressed-releases s keys, released-releases s keys)
release_balance s (key_chord keys) = refl
release_balance s (mouse_button kind) = omega arith
release_balance s eraser_toggle = refl
