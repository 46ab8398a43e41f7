-- ===== src/Protocol/HelloAndroid.antt =====
-- `HelloAndroid`, the client's half of the handshake. The two tilts are the bit patterns of i16.
use zpenflow.Base.{ℕ, ◌≡◌, refl, ◌==◌, List, [], ◌∷◌, ◌++◌, length, not, if◌then◌else◌, get_or}
use zpenflow.Base.Words.{IsU16}
use zpenflow.Protocol.{ProtocolResult, ok, err, malformed, msg_hello_android}
use zpenflow.Protocol.Bytes.{to_be_bytes, from_be_bytes, from_be-to_be, slice}

pub record HelloAndroid : Type 0 where
  pub protocol_version : ℕ
  pub display_width : ℕ
  pub display_height : ℕ
  pub pen_max_pressure : ℕ
  pub pen_tilt_min_deg : ℕ
  pub pen_tilt_max_deg : ℕ
  pub pen_buttons_count : ℕ
  pub codec_caps : ℕ

-- Each field of more than a byte fits its width.
abbrev pub IsHelloAndroid : HelloAndroid → Type 0
IsHelloAndroid m =
    IsU16 m.display_width
    × IsU16 m.display_height
    × IsU16 m.pen_max_pressure
    × IsU16 m.pen_tilt_min_deg
    × IsU16 m.pen_tilt_max_deg

unfoldable pub encode : HelloAndroid → List ℕ
encode m =
    m.protocol_version ∷ to_be_bytes 2 m.display_width
    ++ (to_be_bytes 2 m.display_height
        ++ (to_be_bytes 2 m.pen_max_pressure
            ++ (to_be_bytes 2 m.pen_tilt_min_deg
                ++ (to_be_bytes 2 m.pen_tilt_max_deg
                    ++ (m.pen_buttons_count ∷ m.codec_caps ∷ [])))))

unfoldable pub decode : List ℕ → ProtocolResult HelloAndroid
decode payload =
    if not (length payload == 13)
    then err (malformed msg_hello_android "HELLO_ANDROID must be 13 bytes")
    else ok (record {
      protocol_version = get_or payload 0 0;
      display_width = from_be_bytes (slice 1 3 payload);
      display_height = from_be_bytes (slice 3 5 payload);
      pen_max_pressure = from_be_bytes (slice 5 7 payload);
      pen_tilt_min_deg = from_be_bytes (slice 7 9 payload);
      pen_tilt_max_deg = from_be_bytes (slice 9 11 payload);
      pen_buttons_count = get_or payload 11 0;
      codec_caps = get_or payload 12 0;
    })

-- A message whose fields fit their widths is decoded as it was encoded.
pub decode-encode_hello_android : (m : HelloAndroid) → IsHelloAndroid m → decode (encode m) ≡ ok m
unfolding decode encode to_be_bytes
decode-encode_hello_android m (h0, h1, h2, h3, h4) =
    rw
      (
        from_be-to_be 2 m.display_width h0,
        from_be-to_be 2 m.display_height h1,
        from_be-to_be 2 m.pen_max_pressure h2,
        from_be-to_be 2 m.pen_tilt_min_deg h3,
        from_be-to_be 2 m.pen_tilt_max_deg h4,
      )
      refl
