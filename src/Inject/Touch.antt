-- ===== src/Inject/Touch.antt =====
-- crates/penflow-core/src/inject/win_ink.rs: a snapshot of the fingers, against the one before.
pub mod Contacts
pub mod Table
use zpenflow.Base.{
  ℕ, zero, suc, ◌+◌, ◌==◌, Bool, true, false, ◌&&◌, not, List, [], ◌∷◌, ◌++◌, if◌then◌else◌,
}
use zpenflow.Inject.Os.{Os, Call, Outcome, done, failed, touch_frame, TouchInfo, send}
use zpenflow.Inject.Flags.{PointerFlags}
use zpenflow.Inject.Mouse.{Screen}
use zpenflow.Inject.Injector.{TouchPoint, LastPos, InputInjector, i32_sub}

-- `last_touch_pos.contains_key`
unfoldable pub contains_key : ℕ → List LastPos → Bool
contains_key id [] = false
contains_key id (e ∷ table) = let rest = contains_key id table in if e.id == id then true else rest

-- `last_touch_pos.insert`
unfoldable pub insert : LastPos → List LastPos → List LastPos
insert e [] = e ∷ []
insert e (f ∷ table) = let rest = insert e table in if f.id == e.id then e ∷ table else f ∷ rest

-- `current_ids.contains`, of the snapshot's identifiers.
unfoldable pub has_id : ℕ → List TouchPoint → Bool
has_id id [] = false
has_id id (tp ∷ snapshot) = let rest = has_id id snapshot in if tp.id == id then true else rest

-- The flags of a finger that is on the panel, and of one that has left it.
unfoldable pub touching : Bool → Bool → PointerFlags
touching first was_down = record {
  is_new = not was_down;
  in_range = true;
  in_contact = true;
  first_button = true;
  primary = first;
  down = not was_down;
  update = was_down;
  up = false;
}

unfoldable pub lifted : PointerFlags
lifted = record {
  is_new = false;
  in_range = false;
  in_contact = false;
  first_button = false;
  primary = false;
  down = false;
  update = false;
  up = true;
}

unfoldable pub make_touch_info : Screen → ℕ → ℕ → ℕ → PointerFlags → TouchInfo
make_touch_info screen id x y flags = record {
  id = id;
  flags = flags;
  x = i32_sub x screen.vx;
  y = i32_sub y screen.vy;
}

-- The fingers of the snapshot, the first of them marked.
unfoldable pub present : Screen → List LastPos → Bool → List TouchPoint → List TouchInfo
unfolding make_touch_info touching contains_key
present screen table first [] = []
present screen table first (tp ∷ snapshot) =
    make_touch_info screen tp.id tp.x tp.y (touching first (contains_key tp.id table))
    ∷ present screen table false snapshot

-- The fingers that have left, where they were last.
unfoldable pub lost : Screen → List TouchPoint → List LastPos → List TouchInfo
unfolding make_touch_info has_id lifted
lost screen snapshot [] = []
lost screen snapshot (e ∷ table) =
    let rest = lost screen snapshot table in
    if has_id e.id snapshot then rest else make_touch_info screen e.id e.x e.y lifted ∷ rest

unfoldable pub touch_infos : Screen → List TouchPoint → List LastPos → List TouchInfo
unfolding present lost
touch_infos screen snapshot table = present screen table true snapshot ++ lost screen snapshot table

-- The table of a snapshot.
unfoldable pub positions : List TouchPoint → List LastPos → List LastPos
unfolding insert
positions [] table = table
positions (tp ∷ snapshot) table =
    positions snapshot (insert (record { id = tp.id; x = tp.x; y = tp.y }) table)

unfoldable pub is_empty {ℓ} : {A : Type ℓ} → List A → Bool
is_empty [] = true
is_empty (x ∷ xs) = false

-- The end of `inject_touch`.
unfoldable pub settle : List TouchPoint → InputInjector → Outcome → InputInjector × Outcome
unfolding positions
settle snapshot g (failed e log) = (g, failed e log)
settle snapshot g (done log) = (record g { last_touch_pos = positions snapshot [] }, done log)

unfoldable pub inject_touch :
    Os → Screen → List TouchPoint → InputInjector → List Call → InputInjector × Outcome
unfolding touch_infos settle is_empty send
inject_touch os screen snapshot g log =
    if is_empty snapshot && is_empty g.last_touch_pos
    then (g, done log)
    else let infos = touch_infos screen snapshot g.last_touch_pos in
      if is_empty infos then (g, done log) else settle snapshot g (send os (touch_frame infos) log)
