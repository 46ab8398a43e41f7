-- ===== src/Inject/Pen/Following.antt =====
-- A receiver that follows the pen by the flags of its frames.
use zpenflow.Base.{
  ◌≡◌, refl, sym, ap, ◌∙◌, Bool, true, false, ◌&&◌, not, inl, inr, List, [], ◌∷◌, Option, none,
  some, if◌then◌else◌,
}
use mathlib.Core.Path.{subst}
use zpenflow.Inject.Os.{
  Os, Call, press, release, move_to, pen_frame, touch_frame, report, done, PenInfo,
}
use zpenflow.Inject.Flags.{PointerFlags, pen_pointer_flags}
use zpenflow.Inject.Mouse.{Screen}
use zpenflow.Inject.Injector.{PenSample, InputInjector}
use zpenflow.Inject.Pen.{write_pen, pen_info, write_synthetic, flushed}
use zpenflow.Inject.Pen.Success.{write_pen-done, write_synthetic-done, flips}

pub data Place : Type 0 where
  away hovering touching : Place

abbrev pub place : Bool → Bool → Place
place in_range in_contact = if in_range then (if in_contact then touching else hovering) else away

abbrev pub is_away : Place → Bool
is_away away = true
is_away hovering = false
is_away touching = false

abbrev pub is_touching : Place → Bool
is_touching away = false
is_touching hovering = false
is_touching touching = true

abbrev agrees : Bool → Bool → Bool
agrees a b = if a then b else not b

-- A frame is understood when it lifts a pen that is there, or when it announces a pen exactly where
-- it was away, puts it down exactly where it did not touch, and lifts it exactly where it did.
abbrev pub understood : Place → PointerFlags → Bool
understood p f =
    if f.in_range
    then agrees f.is_new (is_away p)
      && (if f.in_contact
          then agrees f.down (not (is_touching p)) && agrees f.update (is_touching p) && not f.up
          else agrees f.up (is_touching p) && agrees f.update (not (is_touching p)) && not f.down)
    else f.up && not (is_away p)

abbrev pub follow : PointerFlags → Option Place → Option Place
follow f none = none
follow f (some p) = if understood p f then some (place f.in_range f.in_contact) else none

-- Where the frames have left the pen, the newest first; `none` where one was not understood.
unfoldable pub followed : List Call → Option Place
followed [] = some away
followed (pen_frame i ∷ log) = follow i.flags (followed log)
followed (press s ∷ log) = followed log
followed (release s ∷ log) = followed log
followed (move_to x y ∷ log) = followed log
followed (touch_frame is ∷ log) = followed log
followed (report bytes ∷ log) = followed log

-- A pen that touches is in range.
abbrev pub Sensible : Bool → Bool → Type 0
Sensible in_range in_contact = in_contact ≡ true → in_range ≡ true

follow-flags :
    (was_in_range was_in_contact in_range in_contact : Bool)
    → Sensible was_in_range was_in_contact
    → not was_in_range && not in_range ≡ false
    → follow
        (pen_pointer_flags was_in_range was_in_contact in_range in_contact)
        (some (place was_in_range was_in_contact))
      ≡ some (place in_range in_contact)
unfolding pen_pointer_flags
follow-flags true true true true h k = refl
follow-flags true true true false h k = refl
follow-flags true true false c h k = refl
follow-flags true false true true h k = refl
follow-flags true false true false h k = refl
follow-flags true false false c h k = refl
follow-flags false false true true h k = refl
follow-flags false false true false h k = refl
follow-flags false true i c h k = let e : false ≡ true = h refl in cc
follow-flags false false false c h k = cc

-- Out of range, before and after.
place-out : (was is c d : Bool) → not was && not is ≡ true → place was c ≡ place is d
place-out false false c d h = refl
place-out false true c d h = cc
place-out true is c d h = cc

-- The receiver has the pen where the injector remembers it.
abbrev pub Tracked : InputInjector → List Call → Type 0
Tracked g log = followed log ≡ some (place g.last_pen_in_range g.last_pen_in_contact)

pub write_pen-followed :
    (os : Os) (screen : Screen) (sample : PenSample) (eraser : Bool) (g : InputInjector)
    (log log' : List Call)
    → Sensible g.last_pen_in_range g.last_pen_in_contact
    → Tracked g log
    → write_pen os screen sample eraser g log ≡ done log'
    → followed log' ≡ some (place sample.in_range sample.in_contact)
unfolding followed pen_info
write_pen-followed os screen sample eraser g log log' sensible tracked h =
    let at_sample = place sample.in_range sample.in_contact in
    elim (write_pen-done os screen sample eraser g log log' h) [
      | inl (skip, e) ↦
          ap followed e
          ∙ tracked
          ∙ ap some (
              place-out g.last_pen_in_range sample.in_range g.last_pen_in_contact sample.in_contact
                skip)
      | inr (skip, e) ↦
          ap followed e
          ∙ ap (follow (pen_info screen sample eraser g).flags) tracked
          ∙ follow-flags g.last_pen_in_range g.last_pen_in_contact sample.in_range sample.in_contact
              sensible skip
    ]

-- While the end of the pen in use stays the same, a receiver that knows the pen where the injector
-- remembers it understands the frames of the next sample, and has the pen where the sample has it;
-- provided that the calls are taken and a pen that touches is in range.
pub write_synthetic-followed :
    (os : Os) (screen : Screen) (sample : PenSample) (eraser : Bool) (g : InputInjector)
    (log log' : List Call)
    → Sensible g.last_pen_in_range g.last_pen_in_contact
    → Tracked g log
    → flips eraser g && g.last_pen_in_range ≡ false
    → write_synthetic os screen sample eraser g log ≡ done log'
    → followed log' ≡ some (place sample.in_range sample.in_contact)
write_synthetic-followed os screen sample eraser g log log' sensible tracked same h =
    let (log1, a, b) = write_synthetic-done os screen sample eraser g log log' h in
    elim a [
      | inl (flip, w) ↦ cc
      | inr (f, e) ↦
          write_pen-followed os screen sample eraser g log1 log' sensible
            (subst (λ (l : List Call). Tracked g l) (sym e) tracked) b
    ]

-- Two frames were sent: the receiver understands the first, which takes the pen away, and not the
-- second, which has it in range but does not announce it.
abbrev pub IsLost : List Call → List Call → Type 0
IsLost log log' =
    (first second : PenInfo) × (log' ≡ pen_frame second ∷ pen_frame first ∷ log)
    × (followed (pen_frame first ∷ log) ≡ some away)
    × (second.flags.in_range ≡ true)
    × (second.flags.is_new ≡ false)
    × (followed log' ≡ none)

-- When the end of the pen in use changes in range, the receiver understands the frame that takes the
-- pen away, but not the one that follows, which does not announce the pen again; provided that the
-- calls are taken, that a pen that touches is in range, and that the receiver knew the pen before.
pub flipped-IsLost :
    (os : Os) (screen : Screen) (sample : PenSample) (eraser : Bool) (g : InputInjector)
    (log log' : List Call)
    → Sensible g.last_pen_in_range g.last_pen_in_contact
    → Tracked g log
    → flips eraser g ≡ true
    → g.last_pen_in_range ≡ true
    → sample.in_range ≡ true
    → write_synthetic os screen sample eraser g log ≡ done log'
    → IsLost log log'
unfolding followed pen_info flushed pen_pointer_flags
flipped-IsLost os screen sample eraser g log log' sensible tracked flip was is h =
    let (log1, a, b) = write_synthetic-done os screen sample eraser g log log' h in
    elim a [
      | inr (f, e) ↦ let x : true && true ≡ false = rw (flip, was) at f in cc
      | inl (f, w) ↦
          let gone =
            write_pen-followed os screen (flushed sample) g.last_pen_eraser g log log1 sensible
              tracked w in
          elim (write_pen-done os screen (flushed sample) g.last_pen_eraser g log log1 w) [
            | inl (skip, e) ↦ let x : false ≡ true = rw was at skip in cc
            | inr (skip1, e1) ↦ elim (write_pen-done os screen sample eraser g log1 log' b) [
              | inl (skip, e) ↦ let x : false ≡ true = rw was at skip in cc
              | inr (skip, e) ↦ (
                pen_info screen (flushed sample) g.last_pen_eraser g,
                pen_info screen sample eraser g,
                e ∙ ap (λ (l : List Call). pen_frame (pen_info screen sample eraser g) ∷ l) e1,
                sym (ap followed e1) ∙ gone,
                rw (was, is) refl,
                rw (was, is) refl,
                ap followed e
                    ∙ ap (follow (pen_info screen sample eraser g).flags) gone
                    ∙ rw (was, is) refl,
              )
            ]
          ]
    ]
