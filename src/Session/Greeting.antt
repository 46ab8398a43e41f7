-- ===== src/Session/Greeting.antt =====
-- The handshake of `Session::run` and of `Session::run_screen_off`: what the server wants of the
-- client's first message, and what it writes before the pumps start. A duration is in milliseconds.
use Prim.Native.Nat.{bit_or}
use zpenflow.Base.{
  ℕ, ◌≤◌, ◌==◌, ◌≡◌, refl, Bool, true, false, ◌&&◌, Bool-cases, inl, inr, List, [], ◌∷◌, length,
  none, min, not, if◌then◌else◌, append-nil, ◌∙◌, All, arith,
}
use mathlib.Core.Path.{subst}
use zpenflow.Base.Words.{IsU32, IsU64}
use zpenflow.Engine.{EngineError}
use zpenflow.Sps.Packet.{Codec, h264, hevc}
use zpenflow.Protocol.{
  ProtocolError, ProtocolResult, ok, err, and_then, io, msg_hello_pc, msg_client_config,
  msg_video_config, msg_video_frame, msg_hello_android, frame_flag_keyframe, max_payload_len,
}
use zpenflow.Protocol.Framing.{read_frame, read_frames, write_frames, read_frames-write_frames}
use zpenflow.Protocol.HelloPc.{HelloPc, decode-encode_hello_pc}
use zpenflow.Protocol.HelloPc
use zpenflow.Protocol.HelloAndroid.{HelloAndroid}
use zpenflow.Protocol.HelloAndroid
use zpenflow.Protocol.ClientConfig.{
  ClientConfig, hud_enabled, screen_off, decode-encode_client_config,
}
use zpenflow.Protocol.ClientConfig
use zpenflow.Protocol.VideoFrame.{
  VideoFrame, received, is_extended, micros, decode-encode_video_frame,
}
use zpenflow.Protocol.VideoFrame
use zpenflow.Protocol.Nals.{extract_h264_nals, extract_hevc_nals}
use zpenflow.Session.Frames.{EncodedPacket}

-- An error of the transport or of the display driver is its number.
pub data SessionError : Type 0 where
  engine : EngineError → SessionError
  protocol : ProtocolError → SessionError
  transport : ℕ → SessionError
  unexpected_handshake_message : ℕ → SessionError
  no_keyframe : ℕ → SessionError
  vdd : ℕ → SessionError

pub data SessionResult (A : Type 0) : Type 0 where
  success : A → SessionResult A
  failure : SessionError → SessionResult A

-- `HelloAndroid::decode(&payload)?`
unfoldable pub from_protocol : {A : Type 0} → ProtocolResult A → SessionResult A
from_protocol (ok a) = success a
from_protocol (err e) = failure (protocol e)

-- The client's first message.
unfoldable pub read_hello : List ℕ → SessionResult HelloAndroid
unfolding from_protocol
read_hello stream = elim (read_frame stream) [
  | err e ↦ failure (protocol e)
  | ok ((msg_id, payload), rest) ↦
      if not (msg_id == msg_hello_android)
      then failure (unexpected_handshake_message msg_id)
      else from_protocol (HelloAndroid.decode payload)
]

-- The fields of `SessionConfig` that the handshake reads, and the monitor's size.
pub record Offer : Type 0 where
  pub codec : Codec
  pub bitrate_bps : ℕ
  pub fps : ℕ
  pub hud : Bool
  pub width : ℕ
  pub height : ℕ

-- `CODEC_H264` and `CODEC_HEVC`
unfoldable pub codec_wire_id : Codec → ℕ
codec_wire_id h264 = 1
codec_wire_id hevc = 2

unfoldable pub csd0 : Codec → List ℕ → List ℕ
csd0 h264 bytes = extract_h264_nals bytes (7 ∷ 8 ∷ [])
csd0 hevc bytes = extract_hevc_nals bytes (32 ∷ 33 ∷ 34 ∷ [])

unfoldable pub hello_pc : Offer → HelloPc
unfolding codec_wire_id
hello_pc o = record {
  protocol_version = 0;
  width = min o.width 65535;
  height = min o.height 65535;
  codec = codec_wire_id o.codec;
  bitrate_bps = o.bitrate_bps;
  fps = min o.fps 255;
}

unfoldable pub client_cfg : Bool → ClientConfig
client_cfg hud = record { flags = if hud then 1 else 0 }

unfoldable pub client_cfg_screen_off : Bool → ClientConfig
client_cfg_screen_off hud = record { flags = if hud then bit_or 2 1 else 2 }

unfoldable pub first_frame : EncodedPacket → VideoFrame
first_frame pkt = record {
  pts_ns = pkt.pts_ns;
  flags = frame_flag_keyframe;
  capture_us = none;
  encode_us = none;
  coded = pkt.bytes;
}

unfoldable pub is_empty_bytes : List ℕ → Bool
is_empty_bytes [] = true
is_empty_bytes (b ∷ bytes) = false

-- The messages of `run` up to the first key frame.
unfoldable pub greeting : Offer → EncodedPacket → SessionResult (List (ℕ × List ℕ))
unfolding csd0 hello_pc client_cfg first_frame is_empty_bytes HelloPc.encode ClientConfig.encode
    VideoFrame.encode
greeting o pkt =
    let config = csd0 o.codec pkt.bytes in
    if is_empty_bytes config
    then failure (no_keyframe 3000)
    else success (
        (msg_hello_pc, HelloPc.encode (hello_pc o))
        ∷ (msg_client_config, ClientConfig.encode (client_cfg o.hud))
        ∷ (msg_video_config, config)
        ∷ (msg_video_frame, VideoFrame.encode (first_frame pkt))
        ∷ [])

-- The messages of `run_screen_off`, which sends no video.
unfoldable pub greeting_screen_off : Offer → List (ℕ × List ℕ)
unfolding hello_pc client_cfg_screen_off HelloPc.encode ClientConfig.encode
greeting_screen_off o =
    (msg_hello_pc, HelloPc.encode (hello_pc o))
    ∷ (msg_client_config, ClientConfig.encode (client_cfg_screen_off o.hud))
    ∷ []

-- A client's half: four messages, each of the kind that it expects.
unfoldable pub meet_messages :
    List (ℕ × List ℕ) → ProtocolResult (HelloPc × ClientConfig × List ℕ × VideoFrame)
unfolding HelloPc.decode ClientConfig.decode VideoFrame.decode
meet_messages ((i, a) ∷ (j, b) ∷ (k, c) ∷ (l, d) ∷ []) =
    if i == msg_hello_pc && j == msg_client_config && k == msg_video_config && l == msg_video_frame
    then (and_then (HelloPc.decode a) λ hello.
        and_then (ClientConfig.decode b)
          λ cfg. and_then (VideoFrame.decode d) λ frame. ok (hello, cfg, c, frame))
    else err io
meet_messages [] = err io
meet_messages (a ∷ []) = err io
meet_messages (a ∷ b ∷ []) = err io
meet_messages (a ∷ b ∷ c ∷ []) = err io
meet_messages (a ∷ b ∷ c ∷ d ∷ e ∷ ms) = err io

unfoldable pub meet : List ℕ → ProtocolResult (HelloPc × ClientConfig × List ℕ × VideoFrame)
unfolding meet_messages
meet stream = and_then (read_frames 4 stream) λ (ms, rest). meet_messages ms

greeting-cases :
    (o : Offer) (pkt : EncodedPacket) (ms : List (ℕ × List ℕ))
    → greeting o pkt ≡ success ms
    → (msg_hello_pc, HelloPc.encode (hello_pc o))
        ∷ (msg_client_config, ClientConfig.encode (client_cfg o.hud))
        ∷ (msg_video_config, csd0 o.codec pkt.bytes)
        ∷ (msg_video_frame, VideoFrame.encode (first_frame pkt))
        ∷ []
      ≡ ms
unfolding greeting
greeting-cases o pkt ms h = elim (Bool-cases (is_empty_bytes (csd0 o.codec pkt.bytes))) [
  | inl e ↦ let x : failure (no_keyframe 3000) ≡ success ms = rw (e, greeting) at h in cc
  | inr e ↦ let x = rw (e, greeting) at h in cc
]

client_cfg-IsU32 : (hud : Bool) → IsU32 (client_cfg hud).flags
unfolding client_cfg
client_cfg-IsU32 true = omega arith
client_cfg-IsU32 false = omega arith

-- Messages that are framed and read one by one.
meet-framed :
    (ms : List (ℕ × List ℕ))
    → length ms ≡ 4
    → All (λ m. length m.1 ≤ max_payload_len) ms
    → meet (write_frames [] ms) ≡ meet_messages ms
unfolding meet
meet-framed ms four sizes =
    let x : read_frames 4 (write_frames [] ms) ≡ ok (ms, []) =
      rw four at (read_frames-write_frames ms sizes) in
    rw x refl

-- From the bytes of a greeting the client gets the server's hello, the flags, the decoder's
-- configuration and the key frame, as they were sent; where the bit rate and the time stamp fit
-- their widths and no message is longer than the protocol allows.
pub meet-greeting :
    (o : Offer) (pkt : EncodedPacket) (ms : List (ℕ × List ℕ))
    → IsU32 o.bitrate_bps
    → IsU64 pkt.pts_ns
    → All (λ m. length m.1 ≤ max_payload_len) ms
    → greeting o pkt ≡ success ms
    → meet (write_frames [] ms)
      ≡ ok (hello_pc o, client_cfg o.hud, csd0 o.codec pkt.bytes, received (first_frame pkt))
unfolding meet_messages first_frame hello_pc micros
meet-greeting o pkt ms b t sizes h =
    let e = greeting-cases o pkt ms h in
    let a = decode-encode_hello_pc (hello_pc o) (omega arith, omega arith, b) in
    let c : ClientConfig.decode (ClientConfig.encode (client_cfg o.hud)) ≡ ok (client_cfg o.hud) =
      rw (append-nil (ClientConfig.encode (client_cfg o.hud))) at
        (decode-encode_client_config (client_cfg o.hud) [] (client_cfg-IsU32 o.hud)) in
    let d = decode-encode_video_frame (first_frame pkt) t (omega arith) (omega arith) in
    meet-framed ms (subst (λ (l : List (ℕ × List ℕ)). length l ≡ 4) e refl) sizes
    ∙ subst
        (λ (l : List (ℕ × List ℕ)).
          meet_messages l
          ≡ ok (hello_pc o, client_cfg o.hud, csd0 o.codec pkt.bytes, received (first_frame pkt)))
        e (rw (a, c, d) refl)
