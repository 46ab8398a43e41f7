-- ===== src/Protocol/PenEvent.antt =====
-- `PenEvent`, one sample of the pen. The time stamp is the bit pattern of an i64, and the five measures are those of f32.
use zpenflow.Base.{ℕ, ◌≡◌, refl, ◌==◌, List, [], ◌∷◌, ◌++◌, length, not, if◌then◌else◌, get_or}
use zpenflow.Base.Words.{IsU32, IsU64}
use zpenflow.Protocol.{ProtocolResult, ok, err, malformed, msg_pen_event}
use zpenflow.Protocol.Bytes.{to_be_bytes, from_be_bytes, from_be-to_be, slice}

pub record PenEvent : Type 0 where
  pub ts_ns : ℕ
  pub phase : ℕ
  pub x_norm : ℕ
  pub y_norm : ℕ
  pub pressure : ℕ
  pub tilt_x : ℕ
  pub tilt_y : ℕ
  pub buttons : ℕ
  pub tool : ℕ

-- Each field of more than a byte fits its width.
abbrev pub IsPenEvent : PenEvent → Type 0
IsPenEvent m =
    IsU64 m.ts_ns
    × IsU32 m.x_norm
    × IsU32 m.y_norm
    × IsU32 m.pressure
    × IsU32 m.tilt_x
    × IsU32 m.tilt_y

unfoldable pub encode : PenEvent → List ℕ
encode m =
    to_be_bytes 8 m.ts_ns
    ++ (m.phase ∷ to_be_bytes 4 m.x_norm
        ++ (to_be_bytes 4 m.y_norm
            ++ (to_be_bytes 4 m.pressure
                ++ (to_be_bytes 4 m.tilt_x
                    ++ (to_be_bytes 4 m.tilt_y ++ (m.buttons ∷ m.tool ∷ []))))))

unfoldable pub decode : List ℕ → ProtocolResult PenEvent
decode payload =
    if not (length payload == 31)
    then err (malformed msg_pen_event "PEN_EVENT must be 31 bytes")
    else ok (record {
      ts_ns = from_be_bytes (slice 0 8 payload);
      phase = get_or payload 8 0;
      x_norm = from_be_bytes (slice 9 13 payload);
      y_norm = from_be_bytes (slice 13 17 payload);
      pressure = from_be_bytes (slice 17 21 payload);
      tilt_x = from_be_bytes (slice 21 25 payload);
      tilt_y = from_be_bytes (slice 25 29 payload);
      buttons = get_or payload 29 0;
      tool = get_or payload 30 0;
    })

-- A message whose fields fit their widths is decoded as it was encoded.
pub decode-encode_pen_event : (m : PenEvent) → IsPenEvent m → decode (encode m) ≡ ok m
unfolding decode encode to_be_bytes
decode-encode_pen_event m (h0, h1, h2, h3, h4, h5) =
    rw
      (
        from_be-to_be 8 m.ts_ns h0,
        from_be-to_be 4 m.x_norm h1,
        from_be-to_be 4 m.y_norm h2,
        from_be-to_be 4 m.pressure h3,
        from_be-to_be 4 m.tilt_x h4,
        from_be-to_be 4 m.tilt_y h5,
      )
      refl
