-- ===== src/Sps/Tests.antt =====
-- The escaping and the bit codes of sps_patcher.rs at small values.
use zpenflow.Base.{ℕ, ◌≡◌, refl, true, List, [], ◌∷◌}
use zpenflow.Engine.{ok}
use zpenflow.Sps.Emulation.{rbsp_unescape, rbsp_escape}
use zpenflow.Sps.Emulation.Escape.{unescape-escape, start_code_free, escape-start_code_free}
use zpenflow.Sps.Packet.{h264, starts_with, is_sps, nal_type, patch_packet_for_low_latency_dpb}
use zpenflow.Sps.Packet.Unchanged.{sps_free, patch_packet-sps_free}
use zpenflow.Sps.Reader
use zpenflow.Sps.Reader.{BitReader, read_bits, read_ue, read_bits_loop, after_bit, read_zeros}

abbrev zeros : List ℕ
zeros = 1 ∷ 0 ∷ 0 ∷ 0 ∷ 0 ∷ 0 ∷ 3 ∷ 0 ∷ 0 ∷ 4 ∷ []

unescape-escape_example : rbsp_unescape (rbsp_escape zeros) ≡ zeros
unescape-escape_example = unescape-escape zeros

escape-start_code_free_example : start_code_free (rbsp_escape zeros) ≡ true
escape-start_code_free_example = escape-start_code_free zeros

-- The byte 00101100: the code of 4, and three more bits.
abbrev reader : BitReader
reader = Reader.new (44 ∷ [])

read_ue_run : read_ue reader ≡ ok (4, record { bytes = 44 ∷ []; bit_pos = 5 })
unfolding read_ue read_bits_loop read_bits after_bit read_zeros
read_ue_run = refl

-- An access unit delimiter and a slice.
abbrev packet : List ℕ
packet = 0 ∷ 0 ∷ 0 ∷ 1 ∷ 9 ∷ 240 ∷ 0 ∷ 0 ∷ 1 ∷ 101 ∷ 7 ∷ 7 ∷ []

packet-sps_free : sps_free h264 packet ≡ true
unfolding sps_free starts_with is_sps nal_type
packet-sps_free = refl

patch_packet-sps_free_example : patch_packet_for_low_latency_dpb h264 packet ≡ ok packet
patch_packet-sps_free_example = patch_packet-sps_free h264 packet packet-sps_free
