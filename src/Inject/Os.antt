-- ===== src/Inject/Os.antt =====
-- The calls that the injector makes of the system, and what it knows of them afterwards. The system
-- itself is a parameter: from the calls it took so far and the one at hand it tells whether it takes
-- that one, or with which error code it refuses it.
use zpenflow.Base.{ℕ, Bool, List, [], ◌∷◌, Option, none, some}
use zpenflow.Engine.{EngineError, win32}
use zpenflow.Inject.Binding.{MouseButtonKind}
use zpenflow.Inject.Flags.{PointerFlags}

-- A key or a mouse button, which is down from a press to a release.
pub data Switch : Type 0 where
  key : ℕ → Switch
  mouse : MouseButtonKind → Switch

-- `POINTER_TYPE_INFO` for the pen: an i32 is its two's complement pattern.
pub record PenInfo : Type 0 where
  pub flags : PointerFlags
  pub x : ℕ
  pub y : ℕ
  pub inverted : Bool
  pub pressure : ℕ
  pub tilt_x : ℕ
  pub tilt_y : ℕ

-- `POINTER_TYPE_INFO` for a finger, whose contact area is the one pixel at its position.
pub record TouchInfo : Type 0 where
  pub id : ℕ
  pub flags : PointerFlags
  pub x : ℕ
  pub y : ℕ

pub data Call : Type 0 where
  press : Switch → Call
  release : Switch → Call
  move_to : ℕ → ℕ → Call
  pen_frame : PenInfo → Call
  touch_frame : List TouchInfo → Call
  report : List ℕ → Call

abbrev pub Os : Type 0
Os = List Call → Call → Option ℕ

-- The calls that were taken, the newest first, and the error that ended them, if one did.
pub data Outcome : Type 0 where
  done : List Call → Outcome
  failed : EngineError → List Call → Outcome

unfoldable pub send : Os → Call → List Call → Outcome
send os c log = elim (os log c) [ none ↦ done (c ∷ log) | some code ↦ failed (win32 code) log ]

-- What follows a call under `?`.
abbrev pub then_do : Outcome → (List Call → Outcome) → Outcome
then_do (done log) f = f log
then_do (failed e log) f = failed e log

-- Calls under `?`, one after the other.
unfoldable pub send_all : Os → List Call → List Call → Outcome
send_all os [] log = done log
send_all os (c ∷ cs) log = then_do (send os c log) (send_all os cs)

-- A call whose result is thrown away.
unfoldable pub try_send : Os → Call → List Call → List Call
try_send os c log = elim (os log c) [ none ↦ c ∷ log | some code ↦ log ]

unfoldable pub try_all : Os → List Call → List Call → List Call
try_all os [] log = log
try_all os (c ∷ cs) log = try_all os cs (try_send os c log)
