-- ===== src/Inject/Injector.antt =====
-- crates/penflow-core/src/inject/mod.rs and win_ink.rs: the samples, and the state of the injector.
-- An i32 is its two's complement pattern and an f32 its bit pattern. The table of the last touch
-- positions is a list of its entries, in the order in which their keys were inserted.
use zpenflow.Base.{ℕ, ◌+◌, ◌-◌, ◌%◌, ◌^◌, Bool, true, false, List, [], ◌∷◌, Option, none, some}
use zpenflow.Engine.{EngineResult, ok, err}
use zpenflow.Inject.Binding.{PenButtonProfile, default_profile}
use zpenflow.Inject.Vmulti.{VMultiPen}

pub record PenSample : Type 0 where
  pub x : ℕ
  pub y : ℕ
  pub x_logical : ℕ
  pub y_logical : ℕ
  pub pressure : ℕ
  pub tilt_x_deg : ℕ
  pub tilt_y_deg : ℕ
  pub in_range : Bool
  pub in_contact : Bool
  pub eraser : Bool
  pub buttons : ℕ

pub record TouchPoint : Type 0 where
  pub id : ℕ
  pub x : ℕ
  pub y : ℕ

-- The identifier of a contact, and where it was.
pub record LastPos : Type 0 where
  pub id : ℕ
  pub x : ℕ
  pub y : ℕ

pub record InputInjector : Type 0 where
  pub last_pen_eraser : Bool
  pub last_pen_in_range : Bool
  pub last_pen_in_contact : Bool
  pub pen_profile : PenButtonProfile
  pub last_pen_buttons : ℕ
  pub pen_eraser_sticky : Bool
  pub last_touch_pos : List LastPos
  pub vmulti : Option VMultiPen

-- The injector that the devices' creation and the probe for the digitizer lead to, and the devices
-- destroyed on the way.
unfoldable pub new :
    EngineResult ℕ → EngineResult ℕ → Option VMultiPen → EngineResult InputInjector × List ℕ
unfolding default_profile
new pen_device touch_device vmulti = elim pen_device [
  | err e ↦ (err e, [])
  | ok pen ↦ elim touch_device [
    | err e ↦ (err e, pen ∷ [])
    | ok touch ↦ (
      ok (record {
        last_pen_eraser = false;
        last_pen_in_range = false;
        last_pen_in_contact = false;
        pen_profile = default_profile;
        last_pen_buttons = 0;
        pen_eraser_sticky = false;
        last_touch_pos = [];
        vmulti = vmulti;
      }),
      [],
    )
  ]
]

unfoldable pub using_vmulti : InputInjector → Bool
using_vmulti g = elim g.vmulti [ none ↦ false | some pen ↦ true ]

-- The difference of two i32, as it wraps.
abbrev pub i32_sub : ℕ → ℕ → ℕ
i32_sub a b = (a + 2 ^ 32 - b) % 2 ^ 32
