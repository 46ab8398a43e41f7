-- ===== src/Encoder.antt =====
-- crates/penflow-core/src/encoder/mf.rs: `MfSession`, between the loop that captures and the packet queue.
-- The transform of Media Foundation is outside: what its event generator and its calls answer is an
-- argument. A call that waits for an event that never comes does not return. A blocking call passes over
-- the moments at which no event is there yet; the other kind stops at the next one. Times are
-- nanoseconds of one clock, an i64 is its bit pattern.
pub mod Keyframe
pub mod Credits
pub mod Owed
pub mod Order
pub mod Returns
pub mod Tests
use zpenflow.Base.{
  ℕ, zero, suc, ◌+◌, ◌-◌, ◌*◌, ◌/◌, ◌%◌, ◌^◌, ◌==◌, min, Bool, true, false, ◌&&◌, ltb, leb, Option,
  none, some, List, [], ◌∷◌, ◌++◌, length, drop, get_or, if◌then◌else◌,
}
use zpenflow.Encoder.Keyframe.{first_nal_is_idr}
use zpenflow.Engine.{EngineError, EngineResult, ok, err}
use zpenflow.Queue.{pop_front}
use zpenflow.Session.Frames.{EncodedPacket}
use zpenflow.Sps.Packet.{
  Codec, h264, hevc, starts_with, start_code_4, start_code_3, header_len, nal_type,
  patch_packet_for_low_latency_dpb,
}

-- What `ProcessOutput` and the reading of its sample come to.
pub data Output : Type 0 where
  output_failed : EngineError → Output
  no_sample : Output
  -- The bytes, the moment, and what `GetSampleTime` answers, in units of 100 ns.
  sample : List ℕ → ℕ → Option ℕ → Output

-- What the event generator answers, in order.
pub data MftEvent : Type 0 where
  need_input : MftEvent
  have_output : Output → MftEvent
  other_event : MftEvent
  no_events_available : MftEvent
  event_failed : EngineError → MftEvent

pub data MftCall : Type 0 where
  force_key_frame : MftCall
  -- With the answer.
  process_input : ℕ → Option EngineError → MftCall

pub record MfSession : Type 0 where
  pub codec : Codec
  pub sequence_header : List ℕ
  pub have_need_input_credit : Bool
  pub output_queue : List EncodedPacket
  pub pending_input_meta : List (ℕ × ℕ)
  -- The events to come, and the calls made.
  pub events : List MftEvent
  pub calls : List MftCall

unfoldable pub new_session : Codec → List MftEvent → MfSession
new_session codec events = record {
  codec = codec;
  sequence_header = [];
  have_need_input_credit = false;
  output_queue = [];
  pending_input_meta = [];
  events = events;
  calls = [];
}

-- A call returns, or fails, or waits for ever.
pub data Returned (A : Type 0) : Type 0 where
  done : A → Returned A
  failed : EngineError → Returned A
  waiting : Returned A

abbrev with_events : List MftEvent → MfSession → MfSession
with_events events s = record s { events = events }

-- The patched bytes, or the raw ones.
unfoldable pub ok_or {ℓ} : {A : Type ℓ} → EngineResult A → A → A
ok_or (ok a) b = a
ok_or (err e) b = b

-- The time stamp, and the microseconds since the submission, at most those of a u32.
unfoldable pub stamp : List (ℕ × ℕ) → ℕ → Option ℕ → ℕ × Option ℕ
stamp ((pts, submitted) ∷ later) finished_at time =
    (pts, some (min ((finished_at - submitted) / 1000) (2 ^ 32 - 1)))
stamp [] finished_at (some t) = (t * 100 % 2 ^ 64, none)
stamp [] finished_at none = (0, none)

unfoldable pub output_packet : Codec → List (ℕ × ℕ) → List ℕ → ℕ → Option ℕ → EncodedPacket
unfolding ok_or stamp first_nal_is_idr
output_packet codec pending raw finished_at time =
    let bytes = ok_or (patch_packet_for_low_latency_dpb codec raw) raw in
    let (pts_ns, encode_us) = stamp pending finished_at time in
    record {
      bytes = bytes;
      pts_ns = pts_ns;
      is_keyframe = first_nal_is_idr bytes codec;
      encode_us = encode_us;
    }

-- A packet that the session has collected, behind those that wait.
unfoldable pub collected : EncodedPacket → MfSession → MfSession
unfolding pop_front
collected pkt s = record {
  codec = s.codec;
  sequence_header =
      if pkt.is_keyframe && (length s.sequence_header == 0) then pkt.bytes else s.sequence_header;
  have_need_input_credit = s.have_need_input_credit;
  output_queue = s.output_queue ++ (pkt ∷ []);
  pending_input_meta = pop_front s.pending_input_meta;
  events = s.events;
  calls = s.calls;
}

-- `collect_output_packet`, and the `push_back` of its callers.
unfoldable pub collect_output_packet : Output → MfSession → EngineResult MfSession
unfolding output_packet collected
collect_output_packet (output_failed e) s = err e
collect_output_packet no_sample s = ok s
collect_output_packet (sample raw finished_at time) s =
    ok (collected (output_packet s.codec s.pending_input_meta raw finished_at time) s)

-- The loop of `wait_for_need_input` over the events to come.
unfoldable pub wait_loop : List MftEvent → MfSession → MfSession × Returned (Unit {0})
unfolding collect_output_packet
wait_loop [] s = (with_events [] s, waiting)
wait_loop (need_input ∷ later) s = (with_events later s, done tt)
wait_loop (event_failed e ∷ later) s = (with_events later s, failed e)
wait_loop (other_event ∷ later) s = wait_loop later s
wait_loop (no_events_available ∷ later) s = wait_loop later s
wait_loop (have_output out ∷ later) s = elim (collect_output_packet out s) [
  | ok s' ↦ wait_loop later s'
  | err e ↦ (with_events later s, failed e)
]

unfoldable pub wait_for_need_input : MfSession → MfSession × Returned (Unit {0})
unfolding wait_loop
wait_for_need_input s = wait_loop s.events s

-- The loop of `drain_events_nowait`. It passes over a `NeedInput`, which is lost.
unfoldable pub drain_loop : List MftEvent → MfSession → MfSession × Returned (Unit {0})
unfolding collect_output_packet
drain_loop [] s = (with_events [] s, done tt)
drain_loop (no_events_available ∷ later) s = (with_events later s, done tt)
drain_loop (event_failed e ∷ later) s = (with_events later s, failed e)
drain_loop (need_input ∷ later) s = drain_loop later s
drain_loop (other_event ∷ later) s = drain_loop later s
drain_loop (have_output out ∷ later) s = elim (collect_output_packet out s) [
  | ok s' ↦ drain_loop later s'
  | err e ↦ (with_events later s, failed e)
]

unfoldable pub drain_events_nowait : MfSession → MfSession × Returned (Unit {0})
unfolding drain_loop
drain_events_nowait s = drain_loop s.events s

-- What follows a call under `?`.
unfoldable pub and_go :
    MfSession × Returned (Unit {0})
    → (MfSession → MfSession × Returned (Unit {0}))
    → MfSession × Returned (Unit {0})
and_go (s, done u) f = f s
and_go (s, failed e) f = (s, failed e)
and_go (s, waiting) f = (s, waiting)

-- A frame to submit, with what the making of its sample and `ProcessInput` answer, and when.
pub record Submission : Type 0 where
  pub pts_ns : ℕ
  pub force_idr : Bool
  pub sample_error : Option EngineError
  pub input_error : Option EngineError
  pub submitted_at : ℕ

unfoldable pub wait_unless : Bool → MfSession → MfSession × Returned (Unit {0})
unfolding wait_for_need_input
wait_unless true s = (s, done tt)
wait_unless false s = wait_for_need_input s

unfoldable pub take_credit : MfSession → MfSession × Returned (Unit {0})
unfolding wait_unless
take_credit s = wait_unless s.have_need_input_credit s

-- The credit is spent, and the key frame asked for.
unfoldable pub forced : Bool → MfSession → MfSession
forced force_idr s = record s {
  have_need_input_credit = false;
  calls = if force_idr then s.calls ++ (force_key_frame ∷ []) else s.calls;
}

unfoldable pub fed : ℕ → Option EngineError → MfSession → MfSession
fed pts_ns answer s = record s { calls = s.calls ++ (process_input pts_ns answer ∷ []) }

unfoldable pub noted : Submission → MfSession → MfSession
noted x s = record s {
  pending_input_meta = s.pending_input_meta ++ ((x.pts_ns, x.submitted_at) ∷ []);
}

-- The credit for the next frame, behind the packets that come before it.
unfoldable pub fetch_credit : MfSession → MfSession × Returned (Unit {0})
unfolding wait_for_need_input and_go
fetch_credit s =
    and_go (wait_for_need_input s) (λ s'. (record s' { have_need_input_credit = true }, done tt))

-- What follows the two answers.
unfoldable pub answered :
    Option EngineError
    → Option EngineError
    → Submission
    → MfSession
    → MfSession × Returned (Unit {0})
unfolding fed noted fetch_credit
answered (some e) input_error x s = (s, failed e)
answered none (some e) x s = (fed x.pts_ns (some e) s, failed e)
answered none none x s = fetch_credit (noted x (fed x.pts_ns none s))

unfoldable pub feed : Submission → MfSession → MfSession × Returned (Unit {0})
unfolding answered
feed x s = answered x.sample_error x.input_error x s

unfoldable pub submit_frame : Submission → MfSession → MfSession × Returned (Unit {0})
unfolding take_credit forced feed and_go
submit_frame x s = and_go (take_credit s) (λ s'. feed x (forced x.force_idr s'))

unfoldable pub first_of : List EncodedPacket → Option EncodedPacket
first_of [] = none
first_of (pkt ∷ pkts) = some pkt

-- The head of the queue, if there is one.
unfoldable pub pop_packet : MfSession → MfSession × Returned (Option EncodedPacket)
unfolding first_of pop_front
pop_packet s =
    (record s { output_queue = pop_front s.output_queue }, done (first_of s.output_queue))

unfoldable pub after_drain :
    MfSession × Returned (Unit {0}) → MfSession × Returned (Option EncodedPacket)
after_drain (s, done u) = pop_packet s
after_drain (s, failed e) = (s, failed e)
after_drain (s, waiting) = (s, waiting)

unfoldable pub try_packet : MfSession → MfSession × Returned (Option EncodedPacket)
unfolding drain_events_nowait after_drain
try_packet s = after_drain (drain_events_nowait s)

-- What the loop does with a session.
pub data ClientOp : Type 0 where
  submit_op : Submission → ClientOp
  try_op : ClientOp

unfoldable pub handed : Returned (Option EncodedPacket) → List EncodedPacket
handed (done (some pkt)) = pkt ∷ []
handed (done none) = []
handed (failed e) = []
handed waiting = []

-- A submission that waits for ever is the last thing done.
unfoldable pub after_submit :
    MfSession × Returned (Unit {0})
    → List EncodedPacket × MfSession
    → List EncodedPacket × MfSession
after_submit (s, done u) rest = rest
after_submit (s, failed e) rest = rest
after_submit (s, waiting) rest = ([], s)

-- The packets handed over, in order, and the session at the end.
unfoldable pub run_session : List ClientOp → MfSession → List EncodedPacket × MfSession
unfolding submit_frame try_packet handed after_submit
run_session [] s = ([], s)
run_session (try_op ∷ later) s =
    let (pkts, end) = run_session later (try_packet s).0 in (handed (try_packet s).1 ++ pkts, end)
run_session (submit_op x ∷ later) s =
    after_submit (submit_frame x s) (run_session later (submit_frame x s).0)
