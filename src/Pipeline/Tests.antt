-- ===== src/Pipeline/Tests.antt =====
-- The loop at two passes with a request for a key frame between them, and at a stop.
use zpenflow.Base.{ℕ, ◌≡◌, refl, true, false, List, [], ◌∷◌, ◌++◌, none, some}
use zpenflow.Queue.{new, run}
use zpenflow.Engine.{ok, err, no_adapter, not_initialized, access_lost_unrecoverable}
use zpenflow.Session.Frames.{EncodedPacket}
use zpenflow.Pipeline.{
  tick, Frame, Answers, Built, drained, poll_failed, polled_packet, running, failed, loop_pass,
  start_pipeline, Event, request_idr_event, close_event, take_event, pass_event, on_events,
}
use zpenflow.Pipeline.Calls.{frames_of, cursors_of}
use zpenflow.Pipeline.Errors.{first_error, pass-fails}
use zpenflow.Pipeline.Packets.{queue_ops, run-queue}
use zpenflow.Pipeline.Runs.{owed_frames, owed_cursors, run-frames, run-cursors}
use zpenflow.Pipeline.Stopped.{set_stop, within, settled, stop-returns}

abbrev blitters : Built
blitters = record { cursor_blitter = true; tonemap_blitter = true; start_instant = 1000 }

abbrev key_packet : EncodedPacket
key_packet = record { bytes = 1 ∷ 2 ∷ []; pts_ns = 40; is_keyframe = true; encode_us = none }

-- A frame of high dynamic range, whose conversion fails, with the cursor at (7, 9).
abbrev hdr_frame : Frame
hdr_frame = record {
  format = 24;
  tonemap_error = some no_adapter;
  shape_update = ok none;
  pointer_position = some (record { x = 7; y = 9; visible = true });
}

-- A frame in which the cursor has not moved.
abbrev still_frame : Frame
still_frame = record {
  format = 87;
  tonemap_error = none;
  shape_update = err no_adapter;
  pointer_position = none;
}

abbrev captured_at : ℕ → Frame → Answers
captured_at now frame = record {
  acquired = ok (some frame);
  now = now;
  convert_error = none;
  submit_error = none;
  polled = polled_packet key_packet drained;
}

abbrev timed_out : Answers
timed_out = record {
  acquired = ok none;
  now = 1080;
  convert_error = none;
  submit_error = none;
  polled = drained;
}

-- The request comes in before the pass that times out, and is met by it.
abbrev session_events : List Event
session_events =
    pass_event (captured_at 1040 hdr_frame)
    ∷ request_idr_event
    ∷ take_event false
    ∷ pass_event timed_out
    ∷ pass_event (captured_at 1120 still_frame)
    ∷ []

session_frames :
    owed_frames blitters false session_events ≡ (40, false) ∷ (80, true) ∷ (120, false) ∷ []
unfolding owed_frames
session_frames = refl

session_cursors : owed_cursors none session_events ≡ (7, 9) ∷ (7, 9) ∷ []
unfolding owed_cursors
session_cursors = refl

session_runs : (on_events blitters session_events (start_pipeline 2)).thread ≡ running
unfolding on_events start_pipeline
session_runs = refl

run-frames_example :
    frames_of (on_events blitters session_events (start_pipeline 2)).calls
    ≡ owed_frames blitters false session_events
run-frames_example = run-frames blitters 2 session_events session_runs

run-cursors_example :
    cursors_of (on_events blitters session_events (start_pipeline 2)).calls
    ≡ owed_cursors none session_events
run-cursors_example = run-cursors blitters 2 session_events refl session_runs

-- The flag is set while the frame is captured; a request and a close come in before the next pass.
stop-returns_example :
    let current = captured_at 1040 hdr_frame in
    let stopped = within blitters (some current) (set_stop (start_pipeline 2)) in
    let end =
      on_events blitters
        ((request_idr_event ∷ close_event ∷ []) ++ (pass_event timed_out ∷ []))
        stopped in
    (stopped ≡ set_stop (within blitters (some current) (start_pipeline 2)))
    × (end.calls ≡ (within blitters (some current) (start_pipeline 2)).calls)
    × (end.thread ≡ settled (within blitters (some current) (start_pipeline 2)).thread)
stop-returns_example =
    stop-returns blitters (some (captured_at 1040 hdr_frame)) (request_idr_event ∷ close_event ∷ [])
      [] timed_out (start_pipeline 2)

tick_carried_out :
    frames_of (within blitters (some (captured_at 1040 hdr_frame)) (start_pipeline 2)).calls
    ≡ (40, false) ∷ []
unfolding within start_pipeline tick frames_of
tick_carried_out = refl

run-queue_example :
    (on_events blitters session_events (start_pipeline 2)).queue
    ≡ (run (queue_ops session_events) (new 2)).1
run-queue_example = run-queue blitters 2 session_events session_runs

-- The tonemap blitter and the cursor's shape fail, with errors of their own.
abbrev odd_frame : Frame
odd_frame = record {
  format = 24;
  tonemap_error = some not_initialized;
  shape_update = err access_lost_unrecoverable;
  pointer_position = none;
}

-- The encoder hands over a packet, and then fails.
abbrev lost_encoder : Answers
lost_encoder = record {
  acquired = ok (some odd_frame);
  now = 1200;
  convert_error = none;
  submit_error = none;
  polled = polled_packet key_packet (poll_failed no_adapter);
}

lost_encoder_error :
    first_error lost_encoder.acquired lost_encoder.convert_error lost_encoder.submit_error
      lost_encoder.polled
    ≡ some no_adapter
unfolding first_error
lost_encoder_error = refl

pass-fails_example :
    ((on_events blitters
        (pass_event lost_encoder ∷ pass_event timed_out ∷ [])
        (start_pipeline 2)).thread
      ≡ failed no_adapter)
    × ((on_events blitters
          (pass_event lost_encoder ∷ pass_event timed_out ∷ [])
          (start_pipeline 2)).calls
        ≡ (loop_pass blitters lost_encoder (start_pipeline 2)).calls)
unfolding start_pipeline
pass-fails_example =
    pass-fails blitters lost_encoder (pass_event timed_out ∷ []) (start_pipeline 2) no_adapter refl
      refl lost_encoder_error
