-- ===== src/Session/Tests.antt =====
-- Runs of a session on small inputs.
use zpenflow.Base.{ℕ, ◌+◌, ◌%◌, ◌^◌, ◌≡◌, refl, arith, true, false, List, [], ◌∷◌, none, some}
use zpenflow.Sps.Packet.{hevc}
use zpenflow.Protocol.{ok, msg_video_config}
use zpenflow.Protocol.Framing.{write_frames}
use zpenflow.Protocol.HelloPc
use zpenflow.Protocol.ClientConfig
use zpenflow.Protocol.VideoFrame.{VideoFrame, received}
use zpenflow.Protocol.VideoFrame
use zpenflow.Protocol.Nals.{
  extract_hevc_nals, kept_units, contains, split_hevc_nals, split_nals, units, end_off, find_starts,
  has_prefix,
}
use zpenflow.Protocol.Bytes.{to_be_bytes}
use zpenflow.Inject.Mouse.{Screen}
use zpenflow.Inject.Binding.{default_profile}
use zpenflow.Inject.Buttons.{has_button}
use zpenflow.Inject.Balance.{pressed, released, held, slot_holds}
use zpenflow.Session.Sample.{Coords}
use zpenflow.Session.Reading.{Env, Reading, read_loop}
use zpenflow.Session.Reading.Ends.{IsEnd, state_of, read_loop-IsEnd}
use zpenflow.Session.Reading.Held.{Settled, read_loop-Settled}
use zpenflow.Session.Stats.{encode_us_summary, sorted, insert_sorted, sum, p99_index}
use zpenflow.Session.Frames.{
  EncodedPacket, Pump, video_frame, pump_all, pump_packet, wants_idr, frame_pump, shown,
  decode-video_frame,
}
use zpenflow.Queue.{new, push}
use zpenflow.Session.Waiting.{
  Change, pushing, closing, keyframe, wait_for_keyframe, IsRun, wait_for_keyframe-IsRun,
}
use zpenflow.Session.Telemetry.{
  Sending, frame_sending, telemetry_sending, send_events, reported_frames, frame_sendings,
  send_events-reported,
}
use zpenflow.Session.Frames.Paced.{Apart, frame_pump-Apart}
use zpenflow.Session.Greeting.{
  Offer, success, greeting, meet, meet-greeting, hello_pc, client_cfg, csd0, first_frame,
  is_empty_bytes,
}

abbrev screen : Screen
screen = record { vx = 0; vy = 0; vw = 1920; vh = 1080 }

abbrev coords : Coords
coords = record { map_to_pixel = λ x y. (x, y); map_to_vmulti = λ x y. (x, y) }

abbrev env : Env
env = record {
  os = λ log c. none;
  screen = screen;
  coords = coords;
  takes_reply = λ sent. true;
  clock = λ sent. (1000, 2000);
  disable_touch = false;
}

abbrev start : Reading
start = record {
  injector = record {
    last_pen_eraser = false;
    last_pen_in_range = false;
    last_pen_in_contact = false;
    pen_profile = default_profile;
    last_pen_buttons = 0;
    pen_eraser_sticky = false;
    last_touch_pos = [];
    vmulti = none;
  };
  log = [];
  sent = [];
  idr_requests = 0;
}

-- A request for a key frame, an unknown message, and a goodbye.
abbrev stream : List ℕ
stream = 133 ∷ 0 ∷ 0 ∷ 0 ∷ 0 ∷ 66 ∷ 0 ∷ 0 ∷ 0 ∷ 1 ∷ 9 ∷ 255 ∷ 0 ∷ 0 ∷ 0 ∷ 0 ∷ []

read_loop-IsEnd_example : IsEnd (read_loop env 17 stream start)
read_loop-IsEnd_example = read_loop-IsEnd env 17 stream start (omega arith)

start-Settled : Settled start
unfolding pressed released held slot_holds has_button
start-Settled = λ s. refl

read_loop-Settled_example : Settled (state_of (read_loop env 17 stream start))
read_loop-Settled_example = read_loop-Settled env 17 stream start (λ log c. refl) start-Settled

abbrev ring : List ℕ
ring = 30 ∷ 10 ∷ 20 ∷ []

ring_summary : encode_us_summary ring ≡ (20, 20)
unfolding encode_us_summary sum sorted insert_sorted p99_index
ring_summary = refl

abbrev key_packet : EncodedPacket
key_packet = record {
  bytes = 0 ∷ 0 ∷ 0 ∷ 1 ∷ 64 ∷ 1 ∷ 12 ∷ 0 ∷ 0 ∷ 1 ∷ 38 ∷ 1 ∷ 7 ∷ [];
  pts_ns = 123456789;
  is_keyframe = true;
  encode_us = some 3100;
}

decode-video_frame_example :
    (m : VideoFrame) × (VideoFrame.decode (VideoFrame.encode (video_frame key_packet)) ≡ ok m)
    × (shown m ≡ key_packet)
unfolding VideoFrame.micros
decode-video_frame_example = decode-video_frame key_packet (omega arith) (omega arith)

abbrev delta : EncodedPacket
delta = record key_packet { is_keyframe = false }

abbrev pump : Pump
pump = record {
  last_motion_idr = 0;
  idr_requests = [];
  stats = record { frames = 0; queue_depth = 0; encode_us_ring = [] };
  sent = [];
}

abbrev packets : List (ℕ × ℕ × EncodedPacket)
packets = (300, 0, delta) ∷ (400, 1, delta) ∷ (600, 0, delta) ∷ []

-- The first request comes at once.
frame_pump-Apart_example :
    Apart 250 (frame_pump (some 10) 250 300 packets pump.stats []).idr_requests 300
frame_pump-Apart_example =
    frame_pump-Apart (some 10) 250 300 packets pump.stats [] (omega arith) (omega arith)

frame_pump_requests :
    (frame_pump (some 10) 250 300 packets pump.stats []).idr_requests ≡ 600 ∷ 300 ∷ []
unfolding frame_pump pump_all pump_packet wants_idr
frame_pump_requests = refl

abbrev offer : Offer
offer = record {
  codec = hevc;
  bitrate_bps = 50000000;
  fps = 120;
  hud = true;
  width = 2880;
  height = 1800;
}

abbrev messages : List (ℕ × List ℕ)
messages =
    (1, HelloPc.encode (hello_pc offer))
    ∷ (7, ClientConfig.encode (client_cfg true))
    ∷ (msg_video_config, csd0 hevc key_packet.bytes)
    ∷ (3, VideoFrame.encode (first_frame key_packet))
    ∷ []

greeted : greeting offer key_packet ≡ success messages
unfolding greeting csd0 is_empty_bytes extract_hevc_nals kept_units contains split_hevc_nals
    split_nals units end_off find_starts has_prefix
greeted = refl

meet-greeting_example :
    meet (write_frames [] messages)
    ≡ ok (
      hello_pc offer,
      client_cfg true,
      csd0 hevc key_packet.bytes,
      received (first_frame key_packet),
    )
unfolding HelloPc.encode ClientConfig.encode VideoFrame.encode to_be_bytes first_frame
    VideoFrame.is_extended csd0 extract_hevc_nals kept_units contains split_hevc_nals split_nals
    units end_off find_starts has_prefix
meet-greeting_example =
    meet-greeting offer key_packet messages (omega arith) (omega arith)
      (omega arith, (omega arith, (omega arith, (omega arith, tt)))) greeted

-- Nothing comes in the first round, two packets in the second, and the queue is closed behind them.
abbrev rounds : List (List Change)
rounds = [] ∷ (pushing delta ∷ pushing key_packet ∷ []) ∷ (closing ∷ []) ∷ [] ∷ []

wait_for_keyframe-IsRun_example : IsRun rounds (new 4) (wait_for_keyframe rounds (new 4))
wait_for_keyframe-IsRun_example = wait_for_keyframe-IsRun rounds (new 4)

keyframe_found : (wait_for_keyframe rounds (new 4)).0 ≡ keyframe key_packet
unfolding wait_for_keyframe new push
keyframe_found = refl

-- Two frames, a report, and one more.
abbrev sendings : List Sending
sendings =
    frame_sending 300 0 delta
    ∷ frame_sending 400 1 delta
    ∷ telemetry_sending (new 4)
    ∷ frame_sending 600 0 delta
    ∷ []

send_events-reported_example :
    (reported_frames (send_events (some 10) 250 sendings pump).0
        + (send_events (some 10) 250 sendings pump).1.stats.frames)
      % 2 ^ 32
    ≡ (pump.stats.frames + frame_sendings sendings) % 2 ^ 32
send_events-reported_example = send_events-reported (some 10) 250 sendings pump
