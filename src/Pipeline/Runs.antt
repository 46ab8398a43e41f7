-- ===== src/Pipeline/Runs.antt =====
-- What the graphics are asked for over a run of the loop that has met no error and no stop.
use zpenflow.Base.{
  ℕ, ◌≡◌, refl, sym, ◌∙◌, Bool, true, false, List, [], ◌∷◌, ◌++◌, Option, none, append_assoc,
  append-nil,
}
use zpenflow.Pipeline.Calls.{
  frames_of, frames_of-append, cursors_of, cursors_of-append, cursor_on, seen_calls-frames,
  seen_calls-cursors,
}
use zpenflow.Pipeline.{
  PointerPosition, Answers, Built, running, Pipeline, start_pipeline, or_last, pts_of, Event,
  request_idr_event, stop_event, close_event, take_event, pass_event, loop_pass, share, on_event,
  on_events,
}
use zpenflow.Pipeline.Inversion.{
  captured, reported, seen_calls, submitted_calls, Ticked, loop_pass-Ticked, on_events-running,
}

-- The frames that a run owes: one for each pass, a key frame where one was requested since the last
-- pass, or before the run.
unfoldable pub owed_frames : Built → Bool → List Event → List (ℕ × Bool)
owed_frames c asked [] = []
owed_frames c asked (request_idr_event ∷ later) = owed_frames c true later
owed_frames c asked (pass_event a ∷ later) = (pts_of c a, asked) ∷ owed_frames c false later
owed_frames c asked (stop_event ∷ later) = owed_frames c asked later
owed_frames c asked (close_event ∷ later) = owed_frames c asked later
owed_frames c asked (take_event expired ∷ later) = owed_frames c asked later

unfoldable pub owed_cursors : Option PointerPosition → List Event → List (ℕ × ℕ)
unfolding cursor_on or_last
owed_cursors last [] = []
owed_cursors last (pass_event a ∷ later) =
    let frame = captured a.acquired in
    let pos = or_last (reported frame) last in cursor_on frame pos ++ owed_cursors pos later
owed_cursors last (request_idr_event ∷ later) = owed_cursors last later
owed_cursors last (stop_event ∷ later) = owed_cursors last later
owed_cursors last (close_event ∷ later) = owed_cursors last later
owed_cursors last (take_event expired ∷ later) = owed_cursors last later

-- The frames and the cursors of a pass after which the loop runs.
Ticked-frames :
    (c : Built) (a : Answers) (s t : Pipeline)
    → Ticked c a s t
    → frames_of t.calls ≡ frames_of s.calls ++ ((pts_of c a, s.idr_request) ∷ [])
unfolding frames_of
Ticked-frames c a s t (p, q, r, _, _) =
    let seen = seen_calls c (captured a.acquired) s.view.last_pointer in
    rw
      (
        p,
        frames_of-append (s.calls ++ seen) (submitted_calls c a s.idr_request),
        frames_of-append s.calls seen,
        seen_calls-frames c (captured a.acquired) s.view.last_pointer,
        append-nil (frames_of s.calls),
      )
      refl

Ticked-cursors :
    (c : Built) (a : Answers) (s t : Pipeline)
    → c.cursor_blitter ≡ true
    → Ticked c a s t
    → cursors_of t.calls ≡ cursors_of s.calls ++ cursor_on (captured a.acquired) t.view.last_pointer
unfolding cursors_of
Ticked-cursors c a s t e (p, q, r, _, _) =
    let seen = seen_calls c (captured a.acquired) s.view.last_pointer in
    rw
      (
        p,
        q,
        cursors_of-append (s.calls ++ seen) (submitted_calls c a s.idr_request),
        cursors_of-append s.calls seen,
        append-nil (cursors_of s.calls ++ cursors_of seen),
        seen_calls-cursors c (captured a.acquired) s.view.last_pointer e,
      )
      refl

Ticked-loop_pass :
    (c : Built) (a : Answers) (s : Pipeline)
    → (loop_pass c a s).thread ≡ running
    → Ticked c a s (loop_pass c a s)
Ticked-loop_pass c a s h = (loop_pass-Ticked c a s h).1

on_events-frames :
    (c : Built) (events : List Event) (s : Pipeline)
    → (on_events c events s).thread ≡ running
    → frames_of (on_events c events s).calls
      ≡ frames_of s.calls ++ owed_frames c s.idr_request events
unfolding on_events on_event share owed_frames
on_events-frames c [] s h = sym (append-nil (frames_of s.calls))
on_events-frames c (request_idr_event ∷ later) s h = on_events-frames c later _ h
on_events-frames c (stop_event ∷ later) s h = on_events-frames c later _ h
on_events-frames c (close_event ∷ later) s h = on_events-frames c later _ h
on_events-frames c (take_event expired ∷ later) s h = on_events-frames c later _ h
on_events-frames c (pass_event a ∷ later) s h =
    let t = loop_pass c a s in
    let ticked = Ticked-loop_pass c a s (on_events-running c later t h) in
    let frame : ℕ × Bool = (pts_of c a, s.idr_request) in
    on_events-frames c later t h
    ∙ rw (Ticked-frames c a s t ticked, ticked.2)
        (append_assoc (frames_of s.calls) (frame ∷ []) (owed_frames c false later))

on_events-cursors :
    (c : Built) (events : List Event) (s : Pipeline)
    → c.cursor_blitter ≡ true
    → (on_events c events s).thread ≡ running
    → cursors_of (on_events c events s).calls
      ≡ cursors_of s.calls ++ owed_cursors s.view.last_pointer events
unfolding on_events on_event share owed_cursors
on_events-cursors c [] s e h = sym (append-nil (cursors_of s.calls))
on_events-cursors c (request_idr_event ∷ later) s e h = on_events-cursors c later _ e h
on_events-cursors c (stop_event ∷ later) s e h = on_events-cursors c later _ e h
on_events-cursors c (close_event ∷ later) s e h = on_events-cursors c later _ e h
on_events-cursors c (take_event expired ∷ later) s e h = on_events-cursors c later _ e h
on_events-cursors c (pass_event a ∷ later) s e h =
    let t = loop_pass c a s in
    let ticked = Ticked-loop_pass c a s (on_events-running c later t h) in
    let pos = or_last (reported (captured a.acquired)) s.view.last_pointer in
    on_events-cursors c later t e h
    ∙ rw (Ticked-cursors c a s t e ticked, ticked.1)
        (append_assoc (cursors_of s.calls) (cursor_on (captured a.acquired) pos)
          (owed_cursors pos later))

-- While the loop runs: the encoder has been given exactly one frame for each pass, in order, with the
-- time since the epoch, captured or kept alive; and it is forced to be a key frame exactly where a
-- request came in since the pass before it.
pub run-frames :
    (c : Built) (capacity : ℕ) (events : List Event)
    → (on_events c events (start_pipeline capacity)).thread ≡ running
    → frames_of (on_events c events (start_pipeline capacity)).calls ≡ owed_frames c false events
unfolding start_pipeline frames_of
run-frames c capacity events h = on_events-frames c events (start_pipeline capacity) h

-- While the loop runs, and if the cursor's blitter was built: each captured frame has the cursor drawn
-- on it once, at the position reported last, by this frame or by one before it, if it is visible
-- there; and no other frame has.
pub run-cursors :
    (c : Built) (capacity : ℕ) (events : List Event)
    → c.cursor_blitter ≡ true
    → (on_events c events (start_pipeline capacity)).thread ≡ running
    → cursors_of (on_events c events (start_pipeline capacity)).calls ≡ owed_cursors none events
unfolding start_pipeline cursors_of
run-cursors c capacity events e h = on_events-cursors c events (start_pipeline capacity) e h
