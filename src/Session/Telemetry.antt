-- ===== src/Session/Telemetry.antt =====
-- `telemetry_pump`, beside `frame_pump`: both write to the client under one lock, and both have the
-- counters of the session.
use zpenflow.Base.{
  ℕ, suc, ◌+◌, ◌%◌, ◌^◌, ◌≡◌, min, refl, ap, Bool, true, false, List, [], ◌∷◌, Option, arith,
}
use zpenflow.Protocol.{msg_telemetry}
use zpenflow.Protocol.Framing.{write_frame}
use zpenflow.Protocol.Telemetry.{Telemetry}
use zpenflow.Protocol.Telemetry
use zpenflow.Queue.{Inner, QueueStats, stats}
use zpenflow.Session.Stats.{Stats, encode_us_summary}
use zpenflow.Session.Frames.{EncodedPacket, Pump, pump_packet, wants_idr, requested, counted}

-- The report of a second.
unfoldable pub telemetry : Stats → QueueStats → Telemetry
unfolding encode_us_summary
telemetry stats queue_stats =
    let (encode_us_avg, encode_us_p99) = encode_us_summary stats.encode_us_ring in
    record {
      frames = stats.frames;
      dropped = queue_stats.dropped_overflow % 2 ^ 32;
      capture_us_avg = 0;
      encode_us_avg = encode_us_avg;
      encode_us_p99 = encode_us_p99;
      queue_depth = min queue_stats.depth 255;
    }

-- `swap(0)`, and the report that is written.
unfoldable pub telemetry_tick : Inner EncodedPacket → Pump → Telemetry × Pump
unfolding telemetry stats write_frame Telemetry.encode
telemetry_tick queue p =
    let t = telemetry p.stats (stats queue) in
    (
      t,
      record p {
        stats = record {
          frames = 0;
          queue_depth = p.stats.queue_depth;
          encode_us_ring = p.stats.encode_us_ring;
        };
        sent = write_frame p.sent msg_telemetry (Telemetry.encode t);
      },
    )

-- The two pumps in turn.
pub data Sending : Type 0 where
  -- With the time at which the packet is written, and what the queue then holds.
  frame_sending : ℕ → ℕ → EncodedPacket → Sending
  telemetry_sending : Inner EncodedPacket → Sending

-- The reports, in order, and the state at the end.
unfoldable pub send_events : Option ℕ → ℕ → List Sending → Pump → List Telemetry × Pump
unfolding pump_packet telemetry_tick
send_events threshold interval [] p = ([], p)
send_events threshold interval (frame_sending now depth pkt ∷ later) p =
    send_events threshold interval later (pump_packet threshold interval now depth pkt p)
send_events threshold interval (telemetry_sending queue ∷ later) p =
    let (t, p') = telemetry_tick queue p in
    let (ts, end) = send_events threshold interval later p' in (t ∷ ts, end)

unfoldable pub reported_frames : List Telemetry → ℕ
reported_frames [] = 0
reported_frames (t ∷ ts) = t.frames + reported_frames ts

unfoldable pub frame_sendings : List Sending → ℕ
frame_sendings [] = 0
frame_sendings (frame_sending now depth pkt ∷ later) = suc (frame_sendings later)
frame_sendings (telemetry_sending queue ∷ later) = frame_sendings later

requested-frames :
    (b : Bool) (now : ℕ) (p : Pump) → (requested b now p).stats.frames ≡ p.stats.frames
unfolding requested
requested-frames true now p = refl
requested-frames false now p = refl

pump_packet-frames :
    (threshold : Option ℕ) (interval now depth : ℕ) (pkt : EncodedPacket) (p : Pump)
    → (pump_packet threshold interval now depth pkt p).stats.frames ≡ (p.stats.frames + 1) % 2 ^ 32
unfolding pump_packet counted
pump_packet-frames threshold interval now depth pkt p =
    ap (λ n. (n + 1) % 2 ^ 32)
      (requested-frames (wants_idr threshold interval p.last_motion_idr now pkt) now p)

-- Whatever is sent and whenever it is reported, the frames of all reports, with those counted since the
-- last one, are as many as were sent and counted before, modulo 2^32.
pub send_events-reported :
    (threshold : Option ℕ) (interval : ℕ) (events : List Sending) (p : Pump)
    → (reported_frames (send_events threshold interval events p).0
          + (send_events threshold interval events p).1.stats.frames)
        % 2 ^ 32
      ≡ (p.stats.frames + frame_sendings events) % 2 ^ 32
unfolding send_events telemetry reported_frames frame_sendings telemetry_tick
send_events-reported threshold interval [] p = omega arith
send_events-reported threshold interval (frame_sending now depth pkt ∷ later) p =
    let p' = pump_packet threshold interval now depth pkt p in
    omega (
      arith,
      send_events-reported threshold interval later p',
      pump_packet-frames threshold interval now depth pkt p,
    )
send_events-reported threshold interval (telemetry_sending queue ∷ later) p =
    let r = send_events-reported threshold interval later (telemetry_tick queue p).1 in
    omega (arith, r)
