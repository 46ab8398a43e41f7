-- ===== src/Inject/Buttons.antt =====
-- crates/penflow-core/src/inject/win_ink.rs: the buttons of the pen, as the active profile binds them.
use zpenflow.Base.{ℕ, ◌==◌, Bool, true, false, ◌&&◌, ◌||◌, not, List, [], ◌∷◌, ◌++◌, if◌then◌else◌}
use zpenflow.Base.Words.{bit_at}
use zpenflow.Inject.Binding.{
  Binding, PenButtonProfile, nothing, key_tap, key_hold, key_chord, mouse_button, eraser_toggle,
}
use zpenflow.Inject.Os.{
  Os, Call, Outcome, key, mouse, press, release, done, failed, send, send_all, try_all, try_send,
}
use zpenflow.Inject.Injector.{PenSample, InputInjector}
use zpenflow.Inject.Mouse.{Screen, mouse_move, normalize_absolute_mouse_coord}

-- `buttons & (1 << slot) != 0`
unfoldable pub has_button : ℕ → ℕ → Bool
has_button slot buttons = bit_at buttons slot == 1

unfoldable pub pressed_now : ℕ → ℕ → ℕ → Bool
unfolding has_button
pressed_now slot prev now = not (has_button slot prev) && has_button slot now

unfoldable pub released_now : ℕ → ℕ → ℕ → Bool
unfolding has_button
released_now slot prev now = has_button slot prev && not (has_button slot now)

-- The calls for a key down, and for a key up.
unfoldable pub presses : List ℕ → List Call
presses [] = []
presses (vk ∷ keys) = press (key vk) ∷ presses keys

-- In the opposite order.
unfoldable pub releases : List ℕ → List Call
releases [] = []
releases (vk ∷ keys) = releases keys ++ (release (key vk) ∷ [])

unfoldable pub calls_on_press : Binding → List Call
unfolding presses releases
calls_on_press nothing = []
calls_on_press (key_tap vk) = press (key vk) ∷ release (key vk) ∷ []
calls_on_press (key_hold keys) = presses keys
calls_on_press (key_chord keys) = presses keys ++ releases keys
calls_on_press (mouse_button kind) = press (mouse kind) ∷ []
calls_on_press eraser_toggle = []

unfoldable pub calls_on_release : Binding → List Call
unfolding releases
calls_on_release nothing = []
calls_on_release (key_tap vk) = []
calls_on_release (key_hold keys) = releases keys
calls_on_release (key_chord keys) = []
calls_on_release (mouse_button kind) = release (mouse kind) ∷ []
calls_on_release eraser_toggle = []

unfoldable pub is_mouse_button : Binding → Bool
is_mouse_button (mouse_button kind) = true
is_mouse_button nothing = false
is_mouse_button (key_tap vk) = false
is_mouse_button (key_hold keys) = false
is_mouse_button (key_chord keys) = false
is_mouse_button eraser_toggle = false

unfoldable pub is_eraser_toggle : Binding → Bool
is_eraser_toggle eraser_toggle = true
is_eraser_toggle nothing = false
is_eraser_toggle (key_tap vk) = false
is_eraser_toggle (key_hold keys) = false
is_eraser_toggle (key_chord keys) = false
is_eraser_toggle (mouse_button kind) = false

-- The calls of one slot for the buttons before and the buttons now.
unfoldable pub slot_calls : Binding → ℕ → ℕ → ℕ → List Call
unfolding pressed_now released_now calls_on_press calls_on_release
slot_calls binding slot prev now =
    (if pressed_now slot prev now then calls_on_press binding else [])
    ++ (if released_now slot prev now then calls_on_release binding else [])

-- The loop over the slots: how the calls went, and the toggle.
pub record Progress : Type 0 where
  pub outcome : Outcome
  pub sticky : Bool

unfoldable pub dispatch_slot : Os → Binding → ℕ → ℕ → ℕ → Progress → Progress
unfolding pressed_now slot_calls is_eraser_toggle send_all send
dispatch_slot os binding slot prev now p = elim p.outcome [
  | failed e log ↦ p
  | done log ↦ record {
    outcome = send_all os (slot_calls binding slot prev now) log;
    sticky =
        if pressed_now slot prev now && is_eraser_toggle binding then not p.sticky else p.sticky;
  }
]

unfoldable pub dispatch_slots : Os → PenButtonProfile → ℕ → ℕ → Progress → Progress
unfolding dispatch_slot
dispatch_slots os profile prev now p =
    dispatch_slot os profile.tertiary 2 prev now (
      dispatch_slot os profile.barrel_2 1 prev now (dispatch_slot os profile.barrel_1 0 prev now p))

-- A mouse button is held in the slot, or released in it.
unfoldable pub moves_mouse : Binding → ℕ → ℕ → ℕ → Bool
unfolding is_mouse_button has_button released_now
moves_mouse binding slot prev now =
    is_mouse_button binding && (has_button slot now || released_now slot prev now)

unfoldable pub sync_mouse_to_pen : PenButtonProfile → ℕ → ℕ → Bool
unfolding moves_mouse
sync_mouse_to_pen profile prev now =
    moves_mouse profile.barrel_1 0 prev now
    || moves_mouse profile.barrel_2 1 prev now
    || moves_mouse profile.tertiary 2 prev now

-- The mouse goes to the tip of the pen.
unfoldable pub sync_mouse : Os → Screen → Bool → PenSample → List Call → Outcome
unfolding send mouse_move normalize_absolute_mouse_coord
sync_mouse os screen moved sample log =
    if moved then send os (mouse_move screen sample.x sample.y) log else done log

-- What the injector remembers of the loop: the toggle always, the buttons where it went through.
unfoldable pub dispatched : ℕ → InputInjector → Outcome → Bool → InputInjector
dispatched now g (done log) sticky = record g { pen_eraser_sticky = sticky; last_pen_buttons = now }
dispatched now g (failed e log) sticky = record g { pen_eraser_sticky = sticky }

-- The loop over the slots, after the mouse was moved.
unfoldable pub dispatch_progress : Os → Screen → PenSample → InputInjector → List Call → Progress
unfolding sync_mouse_to_pen sync_mouse dispatch_slots
dispatch_progress os screen sample g log =
    let prev = g.last_pen_buttons in
    let now = sample.buttons in
    let moved = sync_mouse os screen (sync_mouse_to_pen g.pen_profile prev now) sample log in
    dispatch_slots os g.pen_profile prev now
      (record { outcome = moved; sticky = g.pen_eraser_sticky })

unfoldable pub dispatch_pen_buttons :
    Os → Screen → PenSample → InputInjector → List Call → InputInjector × Outcome
unfolding dispatch_progress dispatched
dispatch_pen_buttons os screen sample g log =
    let p = dispatch_progress os screen sample g log in
    (dispatched sample.buttons g p.outcome p.sticky, p.outcome)

unfoldable pub release_slot : Os → Binding → ℕ → ℕ → List Call → List Call
unfolding has_button calls_on_release try_all try_send
release_slot os binding slot buttons log =
    if has_button slot buttons then try_all os (calls_on_release binding) log else log

unfoldable pub set_pen_profile :
    Os → PenButtonProfile → InputInjector → List Call → InputInjector × List Call
unfolding release_slot
set_pen_profile os profile g log =
    let held = g.last_pen_buttons in
    (
      record g { last_pen_buttons = 0; pen_profile = profile },
      release_slot os g.pen_profile.tertiary 2 held (
          release_slot os g.pen_profile.barrel_2 1 held
            (release_slot os g.pen_profile.barrel_1 0 held log)),
    )
