-- ===== src/Inject/Balance/Dispatch.antt =====
-- The keys and mouse buttons held, from one sample of the pen to the next.
use zpenflow.Base.{
  ℕ, ◌+◌, ◌≡◌, refl, Bool, true, false, ◌&&◌, not, Bool-cases, inl, inr, List, [], ◌∷◌, ◌++◌, none,
  Option-cases, if◌then◌else◌, arith,
}
use mathlib.Core.Path.{subst}
use zpenflow.Engine.{win32}
use zpenflow.Inject.Binding.{Binding, PenButtonProfile}
use zpenflow.Inject.Os.{
  Os, Call, Outcome, Switch, done, failed, send, then_do, send_all, try_all, try_send,
}
use zpenflow.Inject.Buttons.{
  has_button, pressed_now, released_now, calls_on_press, calls_on_release, slot_calls, Progress,
  dispatch_slot, dispatch_slots, release_slot, set_pen_profile,
}
use zpenflow.Inject.Injector.{InputInjector}
use zpenflow.Inject.Balance.{
  pressed, released, binding_holds, slot_holds, held, Balanced, pressed-append, released-append,
  press_balance, release_balance,
}

-- A log and what calls made of it.
abbrev Extended : Switch → List Call → List Call → List Call → Type 0
Extended s cs log log' =
    (pressed s log' ≡ pressed s cs + pressed s log)
    × (released s log' ≡ released s cs + released s log)

pub send-done :
    (os : Os) (c : Call) (log log' : List Call) → send os c log ≡ done log' → log' ≡ c ∷ log
unfolding send
send-done os c log log' h = elim (Option-cases (os log c)) [
  | inl e ↦ let h' : done (c ∷ log) ≡ done log' = rw (e, send) at h in cc
  | inr (code, e) ↦ let h' : failed (win32 code) log ≡ done log' = rw (e, send) at h in cc
]

pub then_do-done :
    (o : Outcome) (f : List Call → Outcome) (log' : List Call)
    → then_do o f ≡ done log'
    → (log : List Call) × (o ≡ done log) × (f log ≡ done log')
then_do-done (done log) f log' h = (log, refl, h)
then_do-done (failed e log) f log' h = cc

send_all-done :
    (s : Switch) (os : Os) (cs log log' : List Call)
    → send_all os cs log ≡ done log'
    → Extended s cs log log'
unfolding send_all pressed released
send_all-done s os [] log log' h =
    let e : log ≡ log' = cc in
    subst (λ (l : List Call). Extended s [] log l) e (omega arith, omega arith)
send_all-done s os (c ∷ cs) log log' h =
    let (log1, h1, h2) = then_do-done (send os c log) (send_all os cs) log' h in
    let h3 = send_all-done s os cs log1 log' h2 in
    let h4 : Extended s cs (c ∷ log) log' =
      subst (λ (l : List Call). Extended s cs l log') (send-done os c log log1 h1) h3 in
    (
      omega (arith, h4.0, pressed-append s (c ∷ []) log, pressed-append s (c ∷ []) cs),
      omega (arith, h4.1, released-append s (c ∷ []) log, released-append s (c ∷ []) cs),
    )

slot_case :
    (s : Switch) (b : Binding) (was is : Bool)
    → let cs =
        (if not was && is then calls_on_press b else [])
        ++ (if was && not is then calls_on_release b else []) in
      pressed s cs + (if was then binding_holds s b else 0)
      ≡ released s cs + (if is then binding_holds s b else 0)
unfolding pressed released
slot_case s b true true = refl
slot_case s b true false = omega (arith, release_balance s b)
slot_case s b false true = omega (
  arith,
  press_balance s b,
  pressed-append s (calls_on_press b) [],
  released-append s (calls_on_press b) [],
)
slot_case s b false false = refl

slot_balance :
    (s : Switch) (b : Binding) (slot prev now : ℕ)
    → pressed s (slot_calls b slot prev now) + slot_holds s b slot prev
      ≡ released s (slot_calls b slot prev now) + slot_holds s b slot now
unfolding slot_calls slot_holds pressed_now released_now
slot_balance s b slot prev now = slot_case s b (has_button slot prev) (has_button slot now)

-- One slot changes from what it held to what it holds.
abbrev Changed : Switch → Binding → ℕ → ℕ → ℕ → List Call → List Call → Type 0
Changed s b slot prev now log log' =
    pressed s log' + released s log + slot_holds s b slot prev
    ≡ released s log' + pressed s log + slot_holds s b slot now

dispatch_slot-done :
    (s : Switch) (os : Os) (b : Binding) (slot prev now : ℕ) (o : Outcome) (sticky : Bool)
    (log' : List Call)
    → (dispatch_slot os b slot prev now (record { outcome = o; sticky = sticky })).outcome
      ≡ done log'
    → (log : List Call) × (o ≡ done log) × Changed s b slot prev now log log'
unfolding dispatch_slot
dispatch_slot-done s os b slot prev now (failed e log) sticky log' h = cc
dispatch_slot-done s os b slot prev now (done log) sticky log' h =
    let x = send_all-done s os (slot_calls b slot prev now) log log' h in
    (log, refl, omega (arith, x.0, x.1, slot_balance s b slot prev now))

pub dispatch_slots-done :
    (s : Switch) (os : Os) (profile : PenButtonProfile) (prev now : ℕ) (o : Outcome) (sticky : Bool)
    (log' : List Call)
    → (dispatch_slots os profile prev now (record { outcome = o; sticky = sticky })).outcome
      ≡ done log'
    → (log : List Call) × (o ≡ done log)
      × (pressed s log' + released s log + held s profile prev
          ≡ released s log' + pressed s log + held s profile now)
unfolding dispatch_slots held
dispatch_slots-done s os profile prev now o sticky log' h =
    let p0 : Progress = record { outcome = o; sticky = sticky } in
    let p1 = dispatch_slot os profile.barrel_1 0 prev now p0 in
    let p2 = dispatch_slot os profile.barrel_2 1 prev now p1 in
    let (log2, e2, x2) =
      dispatch_slot-done s os profile.tertiary 2 prev now p2.outcome p2.sticky log' h in
    let (log1, e1, x1) =
      dispatch_slot-done s os profile.barrel_2 1 prev now p1.outcome p1.sticky log2 e2 in
    let (log0, e0, x0) = dispatch_slot-done s os profile.barrel_1 0 prev now o sticky log1 e1 in
    (log0, e0, omega (arith, x0, x1, x2))

try_all-taken :
    (os : Os) (cs log : List Call)
    → ((log : List Call) (c : Call) → os log c ≡ none)
    → send_all os cs log ≡ done (try_all os cs log)
unfolding send_all try_all send try_send
try_all-taken os [] log h = refl
try_all-taken os (c ∷ cs) log h = rw (h log c, send, try_send) (try_all-taken os cs (c ∷ log) h)

release_slot-taken :
    (s : Switch) (os : Os) (b : Binding) (slot buttons : ℕ) (log : List Call)
    → ((log : List Call) (c : Call) → os log c ≡ none)
    → pressed s (release_slot os b slot buttons log) + released s log + slot_holds s b slot buttons
      ≡ released s (release_slot os b slot buttons log) + pressed s log
unfolding release_slot slot_holds
release_slot-taken s os b slot buttons log h = elim (Bool-cases (has_button slot buttons)) [
  | inl e ↦
      let x =
        send_all-done s os (calls_on_release b) log (try_all os (calls_on_release b) log)
          (try_all-taken os (calls_on_release b) log h) in
      rw e (omega (arith, x.0, x.1, release_balance s b))
  | inr e ↦ rw e (omega arith)
]

-- Where the system takes every call, a new profile finds each key and each mouse button pressed as
-- often as released, given that those of the profile before were balanced.
pub set_pen_profile-released :
    (os : Os) (profile : PenButtonProfile) (g : InputInjector) (log : List Call)
    → ((log : List Call) (c : Call) → os log c ≡ none)
    → Balanced g.pen_profile g.last_pen_buttons log
    → (s : Switch)
    → pressed s (set_pen_profile os profile g log).1
      ≡ released s (set_pen_profile os profile g log).1
unfolding set_pen_profile held
set_pen_profile-released os profile g log h bal s =
    let held = g.last_pen_buttons in
    let log1 = release_slot os g.pen_profile.barrel_1 0 held log in
    let log2 = release_slot os g.pen_profile.barrel_2 1 held log1 in
    omega (
      arith,
      bal s,
      release_slot-taken s os g.pen_profile.barrel_1 0 held log h,
      release_slot-taken s os g.pen_profile.barrel_2 1 held log1 h,
      release_slot-taken s os g.pen_profile.tertiary 2 held log2 h,
    )
