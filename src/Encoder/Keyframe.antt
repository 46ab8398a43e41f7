-- ===== src/Encoder/Keyframe.antt =====
-- crates/penflow-core/src/encoder/mf.rs: `first_nal_is_idr`.
use zpenflow.Base.{
  ℕ, zero, suc, ◌+◌, ◌==◌, Bool, true, false, ◌&&◌, ltb, leb, Option, none, some, List, length,
  drop, get_or, if◌then◌else◌,
}
use zpenflow.Sps.Packet.{
  Codec, h264, hevc, starts_with, start_code_4, start_code_3, header_len, nal_type,
}

-- Where the NAL of a start code at this place begins.
unfoldable pub code_end : List ℕ → Option ℕ
unfolding starts_with
code_end bytes =
    if starts_with start_code_4 bytes
    then some 4
    else if starts_with start_code_3 bytes
    then some 3
    else none

-- Whether a NAL of this type is a slice, and if so, whether it is one of a key frame.
unfoldable pub slice_is_idr : Codec → ℕ → Option Bool
slice_is_idr h264 t = if leb 1 t && leb t 5 then some (t == 5) else none
slice_is_idr hevc t = if ltb t 32 then some (leb 19 t && leb t 21) else none

-- The loop, on fuel: each round takes a byte at least. The list is what it has ahead, `bytes[i..]`.
unfoldable pub scan_for_idr : Codec → ℕ → List ℕ → Bool
unfolding code_end slice_is_idr nal_type header_len
scan_for_idr codec zero bytes = false
scan_for_idr codec (suc fuel) bytes = elim (ltb 3 (length bytes)) [
  | false ↦ false
  | true ↦ elim (code_end bytes) [
    | none ↦ scan_for_idr codec fuel (drop 1 bytes)
    | some off ↦ elim (leb (length bytes) off) [
      | true ↦ false
      | false ↦ elim (slice_is_idr codec (nal_type codec (get_or bytes off 0))) [
        | some idr ↦ idr
        | none ↦ scan_for_idr codec fuel (drop (off + header_len codec) bytes)
      ]
    ]
  ]
]

unfoldable pub first_nal_is_idr : List ℕ → Codec → Bool
unfolding scan_for_idr
first_nal_is_idr bytes codec = scan_for_idr codec (length bytes) bytes
