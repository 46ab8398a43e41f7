-- ===== src/Sps/Packet.antt =====
-- `patch_packet_for_low_latency_dpb` of sps_patcher.rs: an Annex-B packet, whose parameter sets are
-- rewritten. The list is what the outer loop has ahead of it, `bytes[i..]`, and offsets count from there.
pub mod Unchanged
use Prim.Native.Nat.{bit_and}
use zpenflow.Base.{
  ℕ, zero, suc, ◌+◌, ◌-◌, ◌/◌, ◌==◌, Bool, true, false, ltb, leb, ◌&&◌, ◌||◌, Option, none, some,
  List, [], ◌∷◌, ◌++◌, length, take, drop, get_or,
}
use zpenflow.Engine.{EngineResult, ok, and_then}
use zpenflow.Sps.H264.{patch_h264_sps_rbsp}
use zpenflow.Sps.Hevc.{patch_hevc_sps_rbsp}
use zpenflow.Sps.Emulation.{rbsp_unescape, rbsp_escape}

pub data Codec : Type 0 where
  h264 : Codec
  hevc : Codec

-- `starts_with`
unfoldable pub starts_with : List ℕ → List ℕ → Bool
starts_with [] bytes = true
starts_with (p ∷ ps) [] = false
starts_with (p ∷ ps) (b ∷ bytes) = (p == b) && starts_with ps bytes

abbrev pub start_code_4 : List ℕ
start_code_4 = 0 ∷ 0 ∷ 0 ∷ 1 ∷ []

abbrev pub start_code_3 : List ℕ
start_code_3 = 0 ∷ 0 ∷ 1 ∷ []

-- An offset that was counted from the next byte.
unfoldable pub shifted : Option (ℕ × ℕ) → Option (ℕ × ℕ)
shifted none = none
shifted (some (sc_len, payload_off)) = some (sc_len, suc payload_off)

unfoldable pub scan_start_code : List ℕ → Option (ℕ × ℕ)
unfolding starts_with shifted
scan_start_code [] = none
scan_start_code (b ∷ bytes) = elim (leb 3 (length (b ∷ bytes))) [
  | false ↦ none
  | true ↦ elim (starts_with start_code_4 (b ∷ bytes)) [
    | true ↦ some (4, 4)
    | false ↦ elim (starts_with start_code_3 (b ∷ bytes)) [
      | true ↦ some (3, 3)
      | false ↦ shifted (scan_start_code bytes)
    ]
  ]
]

-- The inner loop: how far the next start code or the end of the packet is.
unfoldable pub nal_length : List ℕ → ℕ
unfolding starts_with
nal_length [] = 0
nal_length (b ∷ bytes) = elim (ltb (length (b ∷ bytes)) 3) [
  | true ↦ length (b ∷ bytes)
  | false ↦ elim (starts_with start_code_4 (b ∷ bytes) || starts_with start_code_3 (b ∷ bytes)) [
    | true ↦ 0
    | false ↦ suc (nal_length bytes)
  ]
]

unfoldable pub header_len : Codec → ℕ
header_len h264 = 1
header_len hevc = 2

-- The type in the first byte of a NAL header.
unfoldable pub nal_type : Codec → ℕ → ℕ
nal_type h264 b = bit_and b 31
nal_type hevc b = bit_and (b / 2) 63

unfoldable pub is_sps : Codec → ℕ → Bool
unfolding nal_type
is_sps h264 b = nal_type h264 b == 7
is_sps hevc b = nal_type hevc b == 33

unfoldable pub patch_sps_rbsp : Codec → List ℕ → EngineResult (List ℕ)
patch_sps_rbsp h264 rbsp = patch_h264_sps_rbsp rbsp
patch_sps_rbsp hevc rbsp = patch_hevc_sps_rbsp rbsp

-- The payload of a parameter set, rewritten and escaped again.
unfoldable pub patch_escaped : Codec → List ℕ → EngineResult (List ℕ)
unfolding patch_sps_rbsp
patch_escaped codec escaped =
    and_then (patch_sps_rbsp codec (rbsp_unescape escaped)) λ patched. ok (rbsp_escape patched)

-- The outer loop, on fuel: each pass takes a start code at least.
unfoldable pub patch_nals : Codec → ℕ → List ℕ → EngineResult (List ℕ)
unfolding scan_start_code nal_length header_len is_sps patch_escaped
patch_nals codec zero bytes = ok []
patch_nals codec (suc fuel) bytes = elim (length bytes == 0) [
  | true ↦ ok []
  | false ↦ elim (scan_start_code bytes) [
    | none ↦ ok bytes
    | some (sc_len, payload_off) ↦
        let nal_end = payload_off + nal_length (drop payload_off bytes) in
        let header_end = payload_off + header_len codec in
        elim (ltb nal_end header_end) [
          | true ↦ ok bytes
          | false ↦ elim (is_sps codec (get_or bytes payload_off 0)) [
            | false ↦
                and_then (patch_nals codec fuel (drop nal_end bytes))
                  λ rest. ok (take nal_end bytes ++ rest)
            | true ↦
                and_then (patch_escaped codec (take (nal_end - header_end) (drop header_end bytes)))
                  λ patched.
                    and_then (patch_nals codec fuel (drop nal_end bytes))
                      λ rest. ok (take header_end bytes ++ (patched ++ rest))
          ]
        ]
  ]
]

unfoldable pub patch_packet_for_low_latency_dpb : Codec → List ℕ → EngineResult (List ℕ)
unfolding patch_nals
patch_packet_for_low_latency_dpb codec bytes = patch_nals codec (length bytes) bytes
