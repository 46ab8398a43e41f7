-- ===== src/Protocol/VideoFrame.antt =====
-- `VideoFrame`: a header, whose timing fields a flag announces, and the coded bytes. The time stamp is
-- the bit pattern of an i64.
use Prim.Native.Nat.{bit_and}
use zpenflow.Base.{
  ℕ, ◌≡◌, refl, ◌==◌, Bool, false, Bool-cases, inl, inr, ltb, List, ◌∷◌, ◌++◌, length, not, arith,
  get_or, drop, Option, some, none, if◌then◌else◌,
}
use zpenflow.Base.Words.{IsU32, IsU64}
use zpenflow.Protocol.{ProtocolResult, ok, err, malformed, msg_video_frame, frame_flag_extended}
use zpenflow.Protocol.Bytes.{to_be_bytes, from_be_bytes, from_be-to_be, slice, behind_header}

pub record VideoFrame : Type 0 where
  pub pts_ns : ℕ
  pub flags : ℕ
  pub capture_us : Option ℕ
  pub encode_us : Option ℕ
  pub coded : List ℕ

unfoldable pub is_extended : ℕ → Bool
is_extended flags = not (bit_and flags frame_flag_extended == 0)

-- `unwrap_or(0)`
unfoldable pub micros : Option ℕ → ℕ
micros none = 0
micros (some us) = us

unfoldable pub encode : VideoFrame → List ℕ
unfolding micros
encode m =
    to_be_bytes 8 m.pts_ns
    ++ (m.flags
        ∷ (if is_extended m.flags
            then to_be_bytes 4 (micros m.capture_us)
              ++ (to_be_bytes 4 (micros m.encode_us) ++ m.coded)
            else m.coded))

unfoldable pub decode : List ℕ → ProtocolResult VideoFrame
decode payload =
    if ltb (length payload) 9
    then err (malformed msg_video_frame "VIDEO_FRAME header truncated")
    else (if is_extended (get_or payload 8 0)
        then (if ltb (length payload) 17
            then err (malformed msg_video_frame "VIDEO_FRAME extended header truncated")
            else ok (record {
              pts_ns = from_be_bytes (slice 0 8 payload);
              flags = get_or payload 8 0;
              capture_us = some (from_be_bytes (slice 9 13 payload));
              encode_us = some (from_be_bytes (slice 13 17 payload));
              coded = drop 17 payload;
            }))
        else ok (record {
          pts_ns = from_be_bytes (slice 0 8 payload);
          flags = get_or payload 8 0;
          capture_us = none;
          encode_us = none;
          coded = drop 9 payload;
        }))

-- What a receiver makes of a frame: without the flag there are no timings, with it both.
unfoldable pub received : VideoFrame → VideoFrame
unfolding micros
received m = record {
  pts_ns = m.pts_ns;
  flags = m.flags;
  capture_us = if is_extended m.flags then some (micros m.capture_us) else none;
  encode_us = if is_extended m.flags then some (micros m.encode_us) else none;
  coded = m.coded;
}

-- A frame whose fields fit their widths is decoded, with the coded bytes as they were; the timings are
-- there just if the flag says so.
pub decode-encode_video_frame :
    (m : VideoFrame)
    → IsU64 m.pts_ns
    → IsU32 (micros m.capture_us)
    → IsU32 (micros m.encode_us)
    → decode (encode m) ≡ ok (received m)
unfolding decode encode received to_be_bytes
decode-encode_video_frame m p c e = elim (Bool-cases (is_extended m.flags)) [
  | inl x ↦
      let timed =
        to_be_bytes 4 (micros m.capture_us) ++ (to_be_bytes 4 (micros m.encode_us) ++ m.coded) in
      let long : ltb (behind_header timed) 9 ≡ false = ground arith in
      let longer : ltb (behind_header timed) 17 ≡ false = ground arith in
      rw (x, decode)
        (rw
          (
            long,
            longer,
            from_be-to_be 8 m.pts_ns p,
            from_be-to_be 4 (micros m.capture_us) c,
            from_be-to_be 4 (micros m.encode_us) e,
          )
          refl)
  | inr x ↦
      let long : ltb (behind_header m.coded) 9 ≡ false = ground arith in
      rw (x, decode) (rw (long, from_be-to_be 8 m.pts_ns p) refl)
]
