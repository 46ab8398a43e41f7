-- ===== src/Pipeline/Calls.antt =====
-- The frames and the cursors among the calls of a pass.
use zpenflow.Base.{
  ℕ, ◌≡◌, refl, ap, ◌∙◌, Bool, true, false, Bool-cases, inl, inr, List, [], ◌∷◌, ◌++◌, Option, none,
  some, if◌then◌else◌,
}
use zpenflow.Cursor.{CursorShape}
use zpenflow.Engine.{EngineError, EngineResult, ok, err}
use zpenflow.Pipeline.{
  PointerPosition, Frame, GraphicsCall, copy_resource, tonemap_convert, update_shape, composite,
  color_convert, submit_frame, Built, is_bgra8, tonemap_calls, move_pixels, shape_calls, or_last,
  composite_calls, frame_calls,
}
use zpenflow.Pipeline.Inversion.{reported, seen_calls}

-- The frames that the encoder was given: the time of each, and whether it must be a key frame.
unfoldable pub frames_of : List GraphicsCall → List (ℕ × Bool)
frames_of [] = []
frames_of (submit_frame pts force_idr ∷ calls) = (pts, force_idr) ∷ frames_of calls
frames_of (copy_resource ∷ calls) = frames_of calls
frames_of (tonemap_convert fmt ∷ calls) = frames_of calls
frames_of (update_shape shape ∷ calls) = frames_of calls
frames_of (composite x y ∷ calls) = frames_of calls
frames_of (color_convert ∷ calls) = frames_of calls

-- Where the cursor was drawn.
unfoldable pub cursors_of : List GraphicsCall → List (ℕ × ℕ)
cursors_of [] = []
cursors_of (composite x y ∷ calls) = (x, y) ∷ cursors_of calls
cursors_of (submit_frame pts force_idr ∷ calls) = cursors_of calls
cursors_of (copy_resource ∷ calls) = cursors_of calls
cursors_of (tonemap_convert fmt ∷ calls) = cursors_of calls
cursors_of (update_shape shape ∷ calls) = cursors_of calls
cursors_of (color_convert ∷ calls) = cursors_of calls

-- A captured frame shows the cursor where it was last reported, if it is visible there.
unfoldable pub cursor_on : Option Frame → Option PointerPosition → List (ℕ × ℕ)
cursor_on none pos = []
cursor_on (some frame) none = []
cursor_on (some frame) (some pos) = if pos.visible then (pos.x, pos.y) ∷ [] else []

pub frames_of-append : (l m : List GraphicsCall) → frames_of (l ++ m) ≡ frames_of l ++ frames_of m
unfolding frames_of
frames_of-append [] m = refl
frames_of-append (submit_frame pts b ∷ l) m = ap (λ r. (pts, b) ∷ r) (frames_of-append l m)
frames_of-append (copy_resource ∷ l) m = frames_of-append l m
frames_of-append (tonemap_convert fmt ∷ l) m = frames_of-append l m
frames_of-append (update_shape shape ∷ l) m = frames_of-append l m
frames_of-append (composite x y ∷ l) m = frames_of-append l m
frames_of-append (color_convert ∷ l) m = frames_of-append l m

pub cursors_of-append :
    (l m : List GraphicsCall) → cursors_of (l ++ m) ≡ cursors_of l ++ cursors_of m
unfolding cursors_of
cursors_of-append [] m = refl
cursors_of-append (composite x y ∷ l) m = ap (λ r. (x, y) ∷ r) (cursors_of-append l m)
cursors_of-append (submit_frame pts b ∷ l) m = cursors_of-append l m
cursors_of-append (copy_resource ∷ l) m = cursors_of-append l m
cursors_of-append (tonemap_convert fmt ∷ l) m = cursors_of-append l m
cursors_of-append (update_shape shape ∷ l) m = cursors_of-append l m
cursors_of-append (color_convert ∷ l) m = cursors_of-append l m

-- The pixels and the shape are no frame for the encoder, and no cursor.
abbrev Quiet : List GraphicsCall → Type 0
Quiet calls = (frames_of calls ≡ []) × (cursors_of calls ≡ [])

tonemap_calls-Quiet : (fmt : ℕ) (e : Option EngineError) → Quiet (tonemap_calls fmt e)
unfolding tonemap_calls frames_of cursors_of
tonemap_calls-Quiet fmt none = (refl, refl)
tonemap_calls-Quiet fmt (some e) = (refl, refl)

if-Quiet : (b : Bool) (l m : List GraphicsCall) → Quiet l → Quiet m → Quiet (if b then l else m)
if-Quiet true l m h k = h
if-Quiet false l m h k = k

move_pixels-Quiet : (c : Built) (frame : Frame) → Quiet (move_pixels c frame)
unfolding move_pixels frames_of cursors_of
move_pixels-Quiet c frame =
    if-Quiet (is_bgra8 frame.format) (copy_resource ∷ [])
      (if c.tonemap_blitter
        then tonemap_calls frame.format frame.tonemap_error
        else copy_resource ∷ [])
      (refl, refl)
      (if-Quiet c.tonemap_blitter (tonemap_calls frame.format frame.tonemap_error)
        (copy_resource ∷ []) (tonemap_calls-Quiet frame.format frame.tonemap_error) (refl, refl))

shape_calls-Quiet :
    (b : Bool) (update : EngineResult (Option CursorShape)) → Quiet (shape_calls b update)
unfolding shape_calls frames_of cursors_of
shape_calls-Quiet false update = (refl, refl)
shape_calls-Quiet true (ok (some shape)) = (refl, refl)
shape_calls-Quiet true (ok none) = (refl, refl)
shape_calls-Quiet true (err e) = (refl, refl)

composite_calls-frames :
    (b : Bool) (pos : Option PointerPosition) → frames_of (composite_calls b pos) ≡ []
unfolding composite_calls frames_of
composite_calls-frames false pos = refl
composite_calls-frames true none = refl
composite_calls-frames true (some pos) = elim (Bool-cases pos.visible) [
  | inl e ↦ rw e refl
  | inr e ↦ rw e refl
]

composite_calls-cursors :
    (b : Bool) (frame : Frame) (pos : Option PointerPosition)
    → b ≡ true
    → cursors_of (composite_calls b pos) ≡ cursor_on (some frame) pos
unfolding composite_calls cursors_of cursor_on
composite_calls-cursors false frame pos e = cc
composite_calls-cursors true frame none e = refl
composite_calls-cursors true frame (some pos) e = elim (Bool-cases pos.visible) [
  | inl e ↦ rw e refl
  | inr e ↦ rw e refl
]

frames_of-three :
    (l m n : List GraphicsCall)
    → frames_of l ≡ []
    → frames_of m ≡ []
    → frames_of (l ++ m ++ n) ≡ frames_of n
frames_of-three l m n e f = rw (frames_of-append (l ++ m) n, frames_of-append l m, e, f) refl

cursors_of-three :
    (l m n : List GraphicsCall)
    → cursors_of l ≡ []
    → cursors_of m ≡ []
    → cursors_of (l ++ m ++ n) ≡ cursors_of n
cursors_of-three l m n e f = rw (cursors_of-append (l ++ m) n, cursors_of-append l m, e, f) refl

pub seen_calls-frames :
    (c : Built) (frame : Option Frame) (last : Option PointerPosition)
    → frames_of (seen_calls c frame last) ≡ []
unfolding frame_calls frames_of
seen_calls-frames c none last = refl
seen_calls-frames c (some frame) last =
    let pos = or_last frame.pointer_position last in
    frames_of-three (move_pixels c frame) (shape_calls c.cursor_blitter frame.shape_update)
      (composite_calls c.cursor_blitter pos) (move_pixels-Quiet c frame).0
      (shape_calls-Quiet c.cursor_blitter frame.shape_update).0
    ∙ composite_calls-frames c.cursor_blitter pos

pub seen_calls-cursors :
    (c : Built) (frame : Option Frame) (last : Option PointerPosition)
    → c.cursor_blitter ≡ true
    → cursors_of (seen_calls c frame last) ≡ cursor_on frame (or_last (reported frame) last)
unfolding frame_calls cursors_of cursor_on
seen_calls-cursors c none last e = refl
seen_calls-cursors c (some frame) last e =
    let pos = or_last frame.pointer_position last in
    cursors_of-three (move_pixels c frame) (shape_calls c.cursor_blitter frame.shape_update)
      (composite_calls c.cursor_blitter pos) (move_pixels-Quiet c frame).1
      (shape_calls-Quiet c.cursor_blitter frame.shape_update).1
    ∙ composite_calls-cursors c.cursor_blitter frame pos e
