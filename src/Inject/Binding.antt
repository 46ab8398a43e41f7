-- ===== src/Inject/Binding.antt =====
-- crates/penflow-core/src/inject/binding.rs: what a button of the pen does. A virtual key code is
-- its number, and the threshold is the bit pattern of an f32.
use zpenflow.Base.{ℕ, List, [], ◌∷◌}

pub data MouseButtonKind : Type 0 where
  left right middle : MouseButtonKind

pub data Binding : Type 0 where
  nothing : Binding
  key_tap : ℕ → Binding
  key_hold : List ℕ → Binding
  key_chord : List ℕ → Binding
  mouse_button : MouseButtonKind → Binding
  eraser_toggle : Binding

pub record PenButtonProfile : Type 0 where
  pub barrel_1 : Binding
  pub barrel_2 : Binding
  pub tertiary : Binding
  pub tip_threshold : ℕ

-- `VK_SHIFT`, `VK_CONTROL` and `VK_E` are 16, 17 and 69.
unfoldable pub predecessor_compat : PenButtonProfile
predecessor_compat = record {
  barrel_1 = key_hold (17 ∷ []);
  barrel_2 = key_hold (16 ∷ []);
  tertiary = key_tap 69;
  tip_threshold = 0;
}

-- `Default::default`
unfoldable pub default_profile : PenButtonProfile
default_profile = record {
  barrel_1 = key_hold (17 ∷ []);
  barrel_2 = key_hold (16 ∷ []);
  tertiary = key_tap 69;
  tip_threshold = 0;
}
