-- ===== src/Encoder/Tests.antt =====
-- A session that is given two frames, of which the transform fails none, and is asked for two packets;
-- and what the scan finds in small packets.
use zpenflow.Base.{
  ℕ, ◌+◌, ◌≡◌, ◌≤◌, refl, arith, true, false, List, [], if◌then◌else◌, ◌∷◌, ◌++◌, none,
}
use zpenflow.Sps.Packet.{h264, hevc}
use zpenflow.Encoder.{
  sample, MftEvent, need_input, have_output, other_event, no_events_available, Submission, ClientOp,
  submit_op, try_op, new_session, run_session, submit_frame, process_input, pop_packet,
}
use zpenflow.Encoder.Keyframe.{first_nal_is_idr}
use zpenflow.Encoder.Credits.{inputs, needs, run_session-inputs}
use zpenflow.Encoder.Returns.{Submitted, asked, submit_frame-Submitted}
use zpenflow.Encoder.Owed.{measured, owed, accepted}
use zpenflow.Encoder.Order.{run_session-accepted}

abbrev idr_bytes : List ℕ
idr_bytes = 0 ∷ 0 ∷ 0 ∷ 1 ∷ 101 ∷ 7 ∷ []

abbrev slice_bytes : List ℕ
slice_bytes = 0 ∷ 0 ∷ 1 ∷ 65 ∷ 9 ∷ []

-- The output of the first frame comes before the second request, that of the second one late.
abbrev two_outputs : List MftEvent
two_outputs =
    other_event
    ∷ need_input
    ∷ have_output (sample idr_bytes 5000 none)
    ∷ no_events_available
    ∷ need_input
    ∷ need_input
    ∷ no_events_available
    ∷ have_output (sample slice_bytes 9000 none)
    ∷ []

abbrev frame_at : ℕ → Submission
frame_at pts = record {
  pts_ns = pts;
  force_idr = true;
  sample_error = none;
  input_error = none;
  submitted_at = pts + 1;
}

abbrev two_frames : List ClientOp
two_frames = submit_op (frame_at 100) ∷ submit_op (frame_at 200) ∷ try_op ∷ try_op ∷ try_op ∷ []

run_session-inputs_example :
    inputs (run_session two_frames (new_session h264 two_outputs)).1.calls ≤ needs two_outputs
run_session-inputs_example = run_session-inputs h264 two_outputs two_frames

run_session-accepted_example :
    accepted (run_session two_frames (new_session h264 two_outputs)).1.calls
    ≡ measured (run_session two_frames (new_session h264 two_outputs)).0
      ++ owed (run_session two_frames (new_session h264 two_outputs)).1
run_session-accepted_example = run_session-accepted h264 two_outputs two_frames

two_requests : 2 ≤ (if false then 1 else 0) + needs two_outputs
unfolding needs
two_requests = omega arith

submit_frame-Submitted_example :
    Submitted
      ((asked true) ++ (process_input 100 none ∷ []))
      (submit_frame (frame_at 100) (new_session h264 two_outputs))
unfolding new_session needs
submit_frame-Submitted_example =
    submit_frame-Submitted (frame_at 100) (new_session h264 two_outputs) two_requests

two_handed : measured (run_session two_frames (new_session h264 two_outputs)).0 ≡ 100 ∷ 200 ∷ []
unfolding measured run_session new_session pop_packet
two_handed = refl

idr_found : first_nal_is_idr idr_bytes h264 ≡ true
unfolding first_nal_is_idr
idr_found = refl

slice_found : first_nal_is_idr slice_bytes h264 ≡ false
unfolding first_nal_is_idr
slice_found = refl

-- A parameter set of HEVC, then a slice of type 20.
idr_behind_set : first_nal_is_idr (0 ∷ 0 ∷ 1 ∷ 66 ∷ 1 ∷ 5 ∷ 0 ∷ 0 ∷ 1 ∷ 40 ∷ 1 ∷ []) hevc ≡ true
unfolding first_nal_is_idr
idr_behind_set = refl
