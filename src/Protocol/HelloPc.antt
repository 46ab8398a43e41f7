-- ===== src/Protocol/HelloPc.antt =====
-- `HelloPc`, the server's half of the handshake.
use zpenflow.Base.{ℕ, ◌≡◌, refl, ◌==◌, List, [], ◌∷◌, ◌++◌, length, not, if◌then◌else◌, get_or}
use zpenflow.Base.Words.{IsU16, IsU32}
use zpenflow.Protocol.{ProtocolResult, ok, err, malformed, msg_hello_pc}
use zpenflow.Protocol.Bytes.{to_be_bytes, from_be_bytes, from_be-to_be, slice}

pub record HelloPc : Type 0 where
  pub protocol_version : ℕ
  pub width : ℕ
  pub height : ℕ
  pub codec : ℕ
  pub bitrate_bps : ℕ
  pub fps : ℕ

-- Each field of more than a byte fits its width.
abbrev pub IsHelloPc : HelloPc → Type 0
IsHelloPc m = IsU16 m.width × IsU16 m.height × IsU32 m.bitrate_bps

unfoldable pub encode : HelloPc → List ℕ
encode m =
    m.protocol_version ∷ to_be_bytes 2 m.width
    ++ (to_be_bytes 2 m.height ++ (m.codec ∷ to_be_bytes 4 m.bitrate_bps ++ (m.fps ∷ [])))

unfoldable pub decode : List ℕ → ProtocolResult HelloPc
decode payload =
    if not (length payload == 11)
    then err (malformed msg_hello_pc "HELLO_PC must be 11 bytes")
    else ok (record {
      protocol_version = get_or payload 0 0;
      width = from_be_bytes (slice 1 3 payload);
      height = from_be_bytes (slice 3 5 payload);
      codec = get_or payload 5 0;
      bitrate_bps = from_be_bytes (slice 6 10 payload);
      fps = get_or payload 10 0;
    })

-- A message whose fields fit their widths is decoded as it was encoded.
pub decode-encode_hello_pc : (m : HelloPc) → IsHelloPc m → decode (encode m) ≡ ok m
unfolding decode encode to_be_bytes
decode-encode_hello_pc m (h0, h1, h2) =
    rw (from_be-to_be 2 m.width h0, from_be-to_be 2 m.height h1, from_be-to_be 4 m.bitrate_bps h2)
      refl
