-- ===== src/Protocol.antt =====
-- crates/penflow-protocol/src/lib.rs: the wire format between server and client. A payload is a list of
-- bytes; an error carries the message id and the detail of its text.
pub mod Bytes
pub mod Framing
pub mod HelloPc
pub mod HelloAndroid
pub mod ClientConfig
pub mod PenEvent
pub mod TimeSync
pub mod Telemetry
pub mod VideoFrame
pub mod TouchEvent
pub mod Nals
pub mod Tests
use Prim.Native.String.{String}
use zpenflow.Base.{ℕ, ◌*◌}

-- An I/O error is the connection's end.
pub data ProtocolError : Type 0 where
  io : ProtocolError
  payload_too_large : ℕ → ProtocolError
  malformed : ℕ → String → ProtocolError

pub data ProtocolResult {ℓ} (A : Type ℓ) : Type ℓ where
  ok : A → ProtocolResult A
  err : ProtocolError → ProtocolResult A

abbrev pub and_then {ℓ κ} :
    {A : Type ℓ} {B : Type κ} → ProtocolResult A → (A → ProtocolResult B) → ProtocolResult B
and_then (ok a) f = f a
and_then (err e) f = err e

abbrev pub msg_hello_pc : ℕ
msg_hello_pc = 1

abbrev pub msg_video_frame : ℕ
msg_video_frame = 3

abbrev pub msg_client_config : ℕ
msg_client_config = 7

abbrev pub msg_hello_android : ℕ
msg_hello_android = 129

abbrev pub msg_pen_event : ℕ
msg_pen_event = 130

abbrev pub msg_touch_event : ℕ
msg_touch_event = 131

abbrev pub msg_time_sync_req : ℕ
msg_time_sync_req = 132

abbrev pub msg_video_config : ℕ
msg_video_config = 2

abbrev pub msg_telemetry : ℕ
msg_telemetry = 5

abbrev pub msg_time_sync_resp : ℕ
msg_time_sync_resp = 6

abbrev pub msg_pc_goodbye : ℕ
msg_pc_goodbye = 127

abbrev pub msg_request_idr : ℕ
msg_request_idr = 133

abbrev pub msg_android_goodbye : ℕ
msg_android_goodbye = 255

abbrev pub frame_flag_keyframe : ℕ
frame_flag_keyframe = 1

-- `FRAME_FLAG_EXTENDED`, the highest bit of a byte.
abbrev pub frame_flag_extended : ℕ
frame_flag_extended = 128

abbrev pub max_payload_len : ℕ
max_payload_len = 64 * 1024 * 1024
