-- ===== src/Pipeline.antt =====
-- crates/penflow-core/src/pipeline.rs: the loop that captures, converts and encodes, with the flags and
-- the queue that it shares with other threads. The capturer, the converter, the encoder and the two
-- blitters are calls of graphics: what they answer in a tick is an argument, what they are called
-- with is kept in `calls`; logging is left out. A tick reads each flag once, at its start, so a store
-- that comes in while it runs stands after it. Times are nanoseconds of one clock, an i64 is its bit pattern.
pub mod Inversion
pub mod Calls
pub mod Packets
pub mod Errors
pub mod Runs
pub mod Stopped
pub mod Tests
use zpenflow.Base.{
  ℕ, ◌+◌, ◌-◌, ◌%◌, ◌^◌, ◌==◌, Bool, true, false, List, [], ◌∷◌, ◌++◌, Option, none, some,
  if◌then◌else◌,
}
use zpenflow.Cursor.{CursorShape}
use zpenflow.Engine.{EngineError, EngineResult, ok, err}
use zpenflow.Queue.{Inner, new, push, close, pop_timeout_pass}
use zpenflow.Session.Frames.{EncodedPacket}

pub record PointerPosition : Type 0 where
  pub x : ℕ
  pub y : ℕ
  pub visible : Bool

-- A captured frame, with what the tonemap blitter and `take_shape_update` answer for it.
pub record Frame : Type 0 where
  pub format : ℕ
  pub tonemap_error : Option EngineError
  pub shape_update : EngineResult (Option CursorShape)
  pub pointer_position : Option PointerPosition

-- What `try_packet` answers, time after time.
pub data Polled : Type 0 where
  drained : Polled
  poll_failed : EngineError → Polled
  polled_packet : EncodedPacket → Polled → Polled

-- What a tick is answered. An error stands for the call that returns it; `acquired` is `None` where
-- the capture timed out.
pub record Answers : Type 0 where
  pub acquired : EngineResult (Option Frame)
  pub now : ℕ
  pub convert_error : Option EngineError
  pub submit_error : Option EngineError
  pub polled : Polled

pub data GraphicsCall : Type 0 where
  copy_resource : GraphicsCall
  tonemap_convert : ℕ → GraphicsCall
  update_shape : CursorShape → GraphicsCall
  composite : ℕ → ℕ → GraphicsCall
  color_convert : GraphicsCall
  submit_frame : ℕ → Bool → GraphicsCall

-- Which blitters were built, and the epoch.
pub record Built : Type 0 where
  pub cursor_blitter : Bool
  pub tonemap_blitter : Bool
  pub start_instant : ℕ

pub record View : Type 0 where
  pub last_pointer : Option PointerPosition
  pub has_real_frame : Bool
  pub last_dda_format : Option ℕ

pub data Thread : Type 0 where
  running returned : Thread
  failed : EngineError → Thread

pub record Pipeline : Type 0 where
  pub idr_request : Bool
  pub stop : Bool
  pub keepalive_uses : ℕ
  pub queue : Inner EncodedPacket
  pub view : View
  pub calls : List GraphicsCall
  pub thread : Thread

unfoldable pub start_pipeline : ℕ → Pipeline
unfolding new
start_pipeline packet_queue_capacity = record {
  idr_request = false;
  stop = false;
  keepalive_uses = 0;
  queue = new packet_queue_capacity;
  view = record { last_pointer = none; has_real_frame = false; last_dda_format = none };
  calls = [];
  thread = running;
}

-- `DXGI_FORMAT_B8G8R8A8_UNORM`
unfoldable pub is_bgra8 : ℕ → Bool
is_bgra8 fmt = fmt == 87

unfoldable pub tonemap_calls : ℕ → Option EngineError → List GraphicsCall
tonemap_calls fmt none = tonemap_convert fmt ∷ []
tonemap_calls fmt (some e) = tonemap_convert fmt ∷ copy_resource ∷ []

unfoldable pub move_pixels : Built → Frame → List GraphicsCall
unfolding is_bgra8 tonemap_calls
move_pixels c frame =
    if is_bgra8 frame.format
    then copy_resource ∷ []
    else if c.tonemap_blitter
    then tonemap_calls frame.format frame.tonemap_error
    else copy_resource ∷ []

-- What the blitter is given, if it was built; its own errors are only logged.
unfoldable pub shape_calls : Bool → EngineResult (Option CursorShape) → List GraphicsCall
shape_calls false update = []
shape_calls true (ok (some shape)) = update_shape shape ∷ []
shape_calls true (ok none) = []
shape_calls true (err e) = []

unfoldable pub or_last {ℓ} : {A : Type ℓ} → Option A → Option A → Option A
or_last (some pos) last = some pos
or_last none last = last

unfoldable pub composite_calls : Bool → Option PointerPosition → List GraphicsCall
composite_calls false pos = []
composite_calls true none = []
composite_calls true (some pos) = if pos.visible then composite pos.x pos.y ∷ [] else []

-- The calls for a frame, before it is encoded.
unfoldable pub frame_calls : Built → Frame → Option PointerPosition → List GraphicsCall
unfolding move_pixels shape_calls composite_calls or_last
frame_calls c frame last_pointer =
    move_pixels c frame
    ++ shape_calls c.cursor_blitter frame.shape_update
    ++ composite_calls c.cursor_blitter (or_last frame.pointer_position last_pointer)

-- The tick up to the conversion, for what was acquired.
unfoldable pub see : Built → Option Frame → Pipeline → Pipeline
unfolding frame_calls or_last
see c none s = record {
  idr_request = false;
  stop = s.stop;
  keepalive_uses = (s.keepalive_uses + 1) % 2 ^ 64;
  queue = s.queue;
  view = s.view;
  calls = s.calls;
  thread = s.thread;
}
see c (some frame) s = record {
  idr_request = false;
  stop = s.stop;
  keepalive_uses = s.keepalive_uses;
  queue = s.queue;
  view = record {
    last_pointer = or_last frame.pointer_position s.view.last_pointer;
    has_real_frame = true;
    last_dda_format = some frame.format;
  };
  calls = s.calls ++ frame_calls c frame s.view.last_pointer;
  thread = s.thread;
}

-- The state after more calls, with the queue and the loop's outcome replaced.
unfoldable pub after : List GraphicsCall → Inner EncodedPacket → Thread → Pipeline → Pipeline
after calls queue thread s = record {
  idr_request = s.idr_request;
  stop = s.stop;
  keepalive_uses = s.keepalive_uses;
  queue = queue;
  view = s.view;
  calls = s.calls ++ calls;
  thread = thread;
}

unfoldable pub drain : Polled → Inner EncodedPacket → Inner EncodedPacket × Thread
unfolding push
drain drained queue = (queue, running)
drain (poll_failed e) queue = (queue, failed e)
drain (polled_packet pkt later) queue = drain later (push pkt queue).0

abbrev pub pts_of : Built → Answers → ℕ
pts_of c a = (a.now - c.start_instant) % 2 ^ 64

-- The rest of the tick.
unfoldable pub finish_tick : Built → Answers → Bool → Pipeline → Pipeline
unfolding after drain
finish_tick c a force_idr s = elim a.convert_error [
  | some e ↦ after (color_convert ∷ []) s.queue (failed e) s
  | none ↦
      let submitted = color_convert ∷ submit_frame (pts_of c a) force_idr ∷ [] in
      elim a.submit_error [
        | some e ↦ after submitted s.queue (failed e) s
        | none ↦ let (queue, thread) = drain a.polled s.queue in after submitted queue thread s
      ]
]

unfoldable pub tick : Built → Answers → Pipeline → Pipeline
unfolding see finish_tick after
tick c a s = elim a.acquired [
  | err e ↦ record {
    idr_request = false;
    stop = s.stop;
    keepalive_uses = s.keepalive_uses;
    queue = s.queue;
    view = s.view;
    calls = s.calls;
    thread = failed e;
  }
  | ok frame ↦ finish_tick c a s.idr_request (see c frame s)
]

-- What the threads do: `request_idr`, the two halves of `stop` and of `drop`, a consumer that takes a
-- packet, and a pass of the loop.
pub data Event : Type 0 where
  request_idr_event stop_event close_event : Event
  take_event : Bool → Event
  pass_event : Answers → Event

-- A pass of `while !stop { tick()? }`, which the loop makes only while it runs.
unfoldable pub pass_at : Thread → Built → Answers → Pipeline → Pipeline
unfolding tick after
pass_at running c a s = if s.stop then after [] s.queue returned s else tick c a s
pass_at returned c a s = s
pass_at (failed e) c a s = s

unfoldable pub loop_pass : Built → Answers → Pipeline → Pipeline
unfolding pass_at
loop_pass c a s = pass_at s.thread c a s

-- The shared values replaced.
unfoldable pub share : Bool → Bool → Inner EncodedPacket → Pipeline → Pipeline
share idr_request stop queue s = record {
  idr_request = idr_request;
  stop = stop;
  keepalive_uses = s.keepalive_uses;
  queue = queue;
  view = s.view;
  calls = s.calls;
  thread = s.thread;
}

unfoldable pub on_event : Built → Event → Pipeline → Pipeline
unfolding loop_pass share close pop_timeout_pass
on_event c request_idr_event s = share true s.stop s.queue s
on_event c stop_event s = share s.idr_request true s.queue s
on_event c close_event s = share s.idr_request s.stop (close s.queue) s
on_event c (take_event expired) s =
    share s.idr_request s.stop (pop_timeout_pass expired s.queue).1 s
on_event c (pass_event a) s = loop_pass c a s

unfoldable pub on_events : Built → List Event → Pipeline → Pipeline
unfolding on_event
on_events c [] s = s
on_events c (event ∷ later) s = on_events c later (on_event c event s)
