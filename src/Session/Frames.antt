-- ===== src/Session/Frames.antt =====
-- `frame_pump`: each packet of the queue becomes a frame for the client, and a large one that is no key
-- frame asks the encoder for one. Times are nanoseconds of one clock.
pub mod Paced
use Prim.Native.Nat.{bit_and, bit_or}
use zpenflow.Base.{
  ℕ, zero, suc, ◌+◌, ◌-◌, ◌%◌, ◌^◌, ◌≤◌, ◌<◌, ◌==◌, ◌≡◌, refl, sym, ap, ◌∙◌, leb, leb→le, Bool,
  true, false, ◌&&◌, not, Bool-cases, inl, inr, List, [], ◌∷◌, ◌++◌, length, Option, none, some,
  if◌then◌else◌, arith,
}
use zpenflow.Base.Words.{IsU32, IsU64}
use zpenflow.Protocol.{ok, msg_video_frame, frame_flag_keyframe, frame_flag_extended}
use zpenflow.Protocol.Framing.{write_frame}
use zpenflow.Protocol.VideoFrame.{
  VideoFrame, micros, decode-encode_video_frame, is_extended, received,
}
use zpenflow.Protocol.VideoFrame
use zpenflow.Session.Stats.{Stats, record_encode_us}

pub record EncodedPacket : Type 0 where
  pub bytes : List ℕ
  pub pts_ns : ℕ
  pub is_keyframe : Bool
  pub encode_us : Option ℕ

unfoldable pub is_some {ℓ} : {A : Type ℓ} → Option A → Bool
is_some none = false
is_some (some a) = true

unfoldable pub frame_flags : EncodedPacket → ℕ
unfolding is_some
frame_flags pkt =
    let flags = if pkt.is_keyframe then frame_flag_keyframe else 0 in
    if is_some pkt.encode_us then bit_or flags frame_flag_extended else flags

unfoldable pub video_frame : EncodedPacket → VideoFrame
unfolding frame_flags
video_frame pkt = record {
  pts_ns = pkt.pts_ns;
  flags = frame_flags pkt;
  capture_us = none;
  encode_us = pkt.encode_us;
  coded = pkt.bytes;
}

-- A packet that is large, and no key frame, with the last request far enough back.
unfoldable pub wants_idr : Option ℕ → ℕ → ℕ → ℕ → EncodedPacket → Bool
wants_idr none interval last now pkt = false
wants_idr (some threshold) interval last now pkt =
    not pkt.is_keyframe && leb threshold (length pkt.bytes) && leb interval (now - last)

pub record Pump : Type 0 where
  pub last_motion_idr : ℕ
  pub idr_requests : List ℕ
  pub stats : Stats
  pub sent : List ℕ

-- The counters after a frame.
unfoldable pub counted : Option ℕ → ℕ → Stats → Stats
unfolding record_encode_us
counted encode_us depth stats = record {
  frames = (stats.frames + 1) % 2 ^ 32;
  queue_depth = depth % 2 ^ 32;
  encode_us_ring = elim encode_us [
    | none ↦ stats.encode_us_ring
    | some us ↦ record_encode_us us stats.encode_us_ring
  ];
}

-- The request for a key frame, at the time at which the frame was written.
unfoldable pub requested : Bool → ℕ → Pump → Pump
requested false now p = p
requested true now p = record p { last_motion_idr = now; idr_requests = now ∷ p.idr_requests }

-- One packet, written at `now`, with what the queue then holds.
unfoldable pub pump_packet : Option ℕ → ℕ → ℕ → ℕ → EncodedPacket → Pump → Pump
unfolding video_frame VideoFrame.encode wants_idr requested counted write_frame
pump_packet threshold interval now depth pkt p =
    let sent = write_frame p.sent msg_video_frame (VideoFrame.encode (video_frame pkt)) in
    let p1 = requested (wants_idr threshold interval p.last_motion_idr now pkt) now p in
    record p1 { sent = sent; stats = counted pkt.encode_us depth p1.stats }

-- Packets with their times and the queue's depths.
unfoldable pub pump_all : Option ℕ → ℕ → List (ℕ × ℕ × EncodedPacket) → Pump → Pump
unfolding pump_packet
pump_all threshold interval [] p = p
pump_all threshold interval ((now, depth, pkt) ∷ later) p =
    pump_all threshold interval later (pump_packet threshold interval now depth pkt p)

-- The pump at its start, with the writer and the counters that it shares: it is set as if a request had
-- been made an interval ago. The clock of the source panics where it has not run for so long.
unfoldable pub new_pump : ℕ → ℕ → Stats → List ℕ → Pump
new_pump interval start stats sent = record {
  last_motion_idr = start - interval;
  idr_requests = [];
  stats = stats;
  sent = sent;
}

unfoldable pub frame_pump : Option ℕ → ℕ → ℕ → List (ℕ × ℕ × EncodedPacket) → Stats → List ℕ → Pump
unfolding new_pump pump_all
frame_pump threshold interval start packets stats sent =
    pump_all threshold interval packets (new_pump interval start stats sent)

-- What a client makes of a packet: its time stamp, its bytes, whether it is a key frame, and the
-- encoding time where there is one.
abbrev pub shown : VideoFrame → EncodedPacket
shown m = record {
  bytes = m.coded;
  pts_ns = m.pts_ns;
  is_keyframe = not (bit_and m.flags frame_flag_keyframe == 0);
  encode_us = m.encode_us;
}

shown_case :
    (bytes : List ℕ) (pts_ns : ℕ) (k : Bool) (e : Option ℕ)
    → let pkt : EncodedPacket = record {
      bytes = bytes;
      pts_ns = pts_ns;
      is_keyframe = k;
      encode_us = e;
    } in
      shown (received (video_frame pkt)) ≡ pkt
unfolding received video_frame is_extended micros frame_flags is_some
shown_case bytes pts_ns true none = refl
shown_case bytes pts_ns true (some us) = refl
shown_case bytes pts_ns false none = refl
shown_case bytes pts_ns false (some us) = refl

-- The client decodes from the frame of a packet the bytes and the time stamp of the packet, whether
-- it is a key frame, and its encoding time or that there is none; where those fit their widths.
pub decode-video_frame :
    (pkt : EncodedPacket)
    → IsU64 pkt.pts_ns
    → IsU32 (micros pkt.encode_us)
    → (m : VideoFrame) × (VideoFrame.decode (VideoFrame.encode (video_frame pkt)) ≡ ok m)
      × (shown m ≡ pkt)
unfolding video_frame micros
decode-video_frame pkt h k =
    let m = video_frame pkt in
    (
      received m,
      decode-encode_video_frame m h (omega arith) k,
      shown_case pkt.bytes pkt.pts_ns pkt.is_keyframe pkt.encode_us,
    )
