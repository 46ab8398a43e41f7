-- ===== src/Inject/Pen/Failure.antt =====
-- What the injector remembers of a sample that it could not inject.
use mathlib.Core.Path.{subst}
use zpenflow.Base.{◌≡◌, refl, sym, ℕ, ◌∙◌, Bool, List, Option-cases, inl, inr}
use zpenflow.Engine.{EngineError}
use zpenflow.Inject.Os.{Os, Call, Outcome, done, failed}
use zpenflow.Inject.Mouse.{Screen}
use zpenflow.Inject.Injector.{PenSample, InputInjector}
use zpenflow.Inject.Buttons.{dispatch_pen_buttons, dispatch_progress, dispatched}
use zpenflow.Inject.Pen.{write_sample, conclude, effective_eraser, after_buttons, inject_pen}

-- The pen, the fingers and the profile are remembered as they were.
pub record Unmoved (g g' : InputInjector) : Type 0 where
  pub eraser : g'.last_pen_eraser ≡ g.last_pen_eraser
  pub in_range : g'.last_pen_in_range ≡ g.last_pen_in_range
  pub in_contact : g'.last_pen_in_contact ≡ g.last_pen_in_contact
  pub profile : g'.pen_profile ≡ g.pen_profile
  pub touches : g'.last_touch_pos ≡ g.last_touch_pos

dispatched-Unmoved :
    (now : ℕ) (g : InputInjector) (o : Outcome) (sticky : Bool)
    → Unmoved g (dispatched now g o sticky)
unfolding dispatched
dispatched-Unmoved now g (done log) sticky = record {
  eraser = refl;
  in_range = refl;
  in_contact = refl;
  profile = refl;
  touches = refl;
}
dispatched-Unmoved now g (failed e log) sticky = record {
  eraser = refl;
  in_range = refl;
  in_contact = refl;
  profile = refl;
  touches = refl;
}

write_sample-Unmoved :
    (os : Os) (screen : Screen) (sample : PenSample) (eraser : Bool) (g : InputInjector)
    (log : List Call)
    → Unmoved g (write_sample os screen sample eraser g log).0
unfolding write_sample
write_sample-Unmoved os screen sample eraser g log = elim (Option-cases g.vmulti) [
  | inl e ↦
      rw (e, write_sample)
        (record {
          eraser = refl;
          in_range = refl;
          in_contact = refl;
          profile = refl;
          touches = refl;
        })
  | inr (pen, e) ↦
      rw (e, write_sample)
        (record {
          eraser = refl;
          in_range = refl;
          in_contact = refl;
          profile = refl;
          touches = refl;
        })
]

Unmoved-trans : (a b c : InputInjector) → Unmoved a b → Unmoved b c → Unmoved a c
Unmoved-trans a b c h k = record {
  eraser = k.eraser ∙ h.eraser;
  in_range = k.in_range ∙ h.in_range;
  in_contact = k.in_contact ∙ h.in_contact;
  profile = k.profile ∙ h.profile;
  touches = k.touches ∙ h.touches;
}

-- `conclude` changes nothing where the frames failed.
conclude-failed :
    (sample : PenSample) (eraser : Bool) (g : InputInjector) (o : Outcome) (e : EngineError)
    (log' : List Call)
    → (conclude sample eraser g o).1 ≡ failed e log'
    → (conclude sample eraser g o).0 ≡ g
unfolding conclude
conclude-failed sample eraser g (failed e' log) e log' h = refl
conclude-failed sample eraser g (done log) e log' h = cc

after_buttons-failed :
    (os : Os) (screen : Screen) (sample : PenSample) (g : InputInjector) (o : Outcome)
    (e : EngineError) (log' : List Call)
    → (after_buttons os screen sample g o).1 ≡ failed e log'
    → Unmoved g (after_buttons os screen sample g o).0
unfolding after_buttons
after_buttons-failed os screen sample g (failed e' log) e log' h = record {
  eraser = refl;
  in_range = refl;
  in_contact = refl;
  profile = refl;
  touches = refl;
}
after_buttons-failed os screen sample g (done log) e log' h =
    let eraser = effective_eraser sample g in
    let written = write_sample os screen sample eraser g log in
    subst (λ (g' : InputInjector). Unmoved g g')
      (sym (conclude-failed sample eraser written.0 written.1 e log' h))
      (write_sample-Unmoved os screen sample eraser g log)

-- When the injection of a sample fails, the injector still has the pen's place and end, the profile
-- and the fingers of the sample before.
pub inject_pen-failed :
    (os : Os) (screen : Screen) (sample : PenSample) (g : InputInjector) (log log' : List Call)
    (e : EngineError)
    → (inject_pen os screen sample g log).1 ≡ failed e log'
    → Unmoved g (inject_pen os screen sample g log).0
unfolding inject_pen dispatch_pen_buttons
inject_pen-failed os screen sample g log log' e h =
    let p = dispatch_progress os screen sample g log in
    let g1 = dispatched sample.buttons g p.outcome p.sticky in
    Unmoved-trans g g1 _ (dispatched-Unmoved sample.buttons g p.outcome p.sticky)
      (after_buttons-failed os screen sample g1 p.outcome e log' h)
