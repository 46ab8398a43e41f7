-- ===== src/Protocol/ClientConfig.antt =====
-- `ClientConfig`, the server's preference flags. Bytes behind the flags are left to later versions.
use Prim.Native.Nat.{bit_and}
use zpenflow.Base.{
  ℕ, ◌≡◌, refl, ◌==◌, Bool, false, ltb, List, ◌++◌, length, not, arith, if◌then◌else◌,
}
use zpenflow.Base.Words.{IsU32}
use zpenflow.Protocol.{ProtocolResult, ok, err, malformed, msg_client_config}
use zpenflow.Protocol.Bytes.{to_be_bytes, from_be_bytes, from_be-to_be, slice}

pub record ClientConfig : Type 0 where
  pub flags : ℕ

unfoldable pub encode : ClientConfig → List ℕ
encode m = to_be_bytes 4 m.flags

unfoldable pub decode : List ℕ → ProtocolResult ClientConfig
decode payload =
    if ltb (length payload) 4
    then err (malformed msg_client_config "CLIENT_CONFIG must be at least 4 bytes")
    else ok (record { flags = from_be_bytes (slice 0 4 payload) })

-- `CLIENT_CFG_FLAG_HUD` and `CLIENT_CFG_FLAG_SCREEN_OFF` are the two lowest bits.
unfoldable pub hud_enabled : ClientConfig → Bool
hud_enabled m = not (bit_and m.flags 1 == 0)

unfoldable pub screen_off : ClientConfig → Bool
screen_off m = not (bit_and m.flags 2 == 0)

-- Flags that fit in a u32 are decoded as they were encoded, whatever bytes a later version adds.
pub decode-encode_client_config :
    (m : ClientConfig) (rest : List ℕ) → IsU32 m.flags → decode (encode m ++ rest) ≡ ok m
unfolding decode encode to_be_bytes
decode-encode_client_config m rest h =
    let long : ltb (length (encode m ++ rest)) 4 ≡ false = ground arith in
    rw (long, from_be-to_be 4 m.flags h) refl
