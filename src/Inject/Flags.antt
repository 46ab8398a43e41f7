-- ===== src/Inject/Flags.antt =====
-- crates/penflow-core/src/inject/win_ink.rs: `pen_pointer_flags`, the transition bits of a pen frame,
-- and a receiver that follows the pen by them.
use zpenflow.Base.{Bool, true, false, if◌then◌else◌}

-- The `POINTER_FLAG_…` bits that the injector sets.
pub record PointerFlags : Type 0 where
  pub is_new : Bool
  pub in_range : Bool
  pub in_contact : Bool
  pub first_button : Bool
  pub primary : Bool
  pub down : Bool
  pub update : Bool
  pub up : Bool

unfoldable pub pen_pointer_flags : Bool → Bool → Bool → Bool → PointerFlags
pen_pointer_flags was_in_range was_in_contact in_range in_contact = elim in_range [
  | false ↦ record {
    is_new = false;
    in_range = false;
    in_contact = false;
    first_button = false;
    primary = true;
    down = false;
    update = false;
    up = true;
  }
  | true ↦ record {
    is_new = if was_in_range then false else true;
    in_range = true;
    in_contact = in_contact;
    first_button = in_contact;
    primary = true;
    down = if in_contact then if was_in_contact then false else true else false;
    update = if in_contact then was_in_contact else if was_in_contact then false else true;
    up = if in_contact then false else was_in_contact;
  }
]
