-- ===== src/Sps/Hevc/Head.antt =====
-- The head of an HEVC parameter set, up to the picture buffer sizes.
pub mod Scan
pub mod Log2
use zpenflow.Base.{ℕ, zero, suc, ◌+◌, ◌-◌, ◌==◌, Bool, ltb, List, [], ◌∷◌, if◌then◌else◌}
use zpenflow.Engine.{EngineResult, ok, and_then}
use zpenflow.Sps.Reader
use zpenflow.Sps.Writer
use zpenflow.Sps.Walker.{
  Walk, io, ◌>>=◌, ◌>>◌, pure, get_bits, get_ue, copy_bits, copy_ue, replace_ue, when, repeat,
}
use zpenflow.Sps.Vui.{flagged, copy_flag, copy_four_ue}

unfoldable pub copy_byte : Walk (Unit {0})
copy_byte = do copy_bits 8; pure tt

-- The two flags of each sub-layer. The source keeps them in two arrays of seven, and reads their number
-- from three bits.
unfoldable pub copy_sub_layer_flags : ℕ → Walk (List (Bool × Bool))
copy_sub_layer_flags zero = pure []
copy_sub_layer_flags (suc n) = do
  pp ← copy_bits 1
  lp ← copy_bits 1
  rest ← copy_sub_layer_flags n
  pure ((pp == 1, lp == 1) ∷ rest)

unfoldable pub copy_sub_layers : List (Bool × Bool) → Walk (Unit {0})
copy_sub_layers [] = pure tt
copy_sub_layers ((profile_present, level_present) ∷ rest) = do
  when profile_present (repeat 11 copy_byte)
  when level_present copy_byte
  copy_sub_layers rest

unfoldable pub copy_hevc_profile_tier_level : ℕ → Walk (Unit {0})
unfolding copy_byte copy_sub_layer_flags copy_sub_layers
copy_hevc_profile_tier_level max_num_sub_layers_minus1 = do
  copy_bits 8
  copy_bits 32
  repeat 7 copy_byte
  flags ← copy_sub_layer_flags max_num_sub_layers_minus1
  when (ltb 0 max_num_sub_layers_minus1)
      (repeat (8 - max_num_sub_layers_minus1) (do copy_bits 2; pure tt))
  copy_sub_layers flags

-- The three sizes of one sub-layer.
unfoldable pub replace_dpb_sizes : Walk (Unit {0})
replace_dpb_sizes = do replace_ue 0; replace_ue 0; replace_ue 0

-- From `sps_seq_parameter_set_id` to `log2_max_pic_order_cnt_lsb_minus4`, which it returns.
unfoldable pub copy_hevc_picture : Walk ℕ
copy_hevc_picture = do
  copy_ue
  chroma_format_idc ← copy_ue
  when (chroma_format_idc == 3) copy_flag
  copy_ue
  copy_ue
  flagged copy_four_ue
  copy_ue
  copy_ue
  copy_ue

-- `for _i in i_start..=sps_max_sub_layers_minus1`
unfoldable pub walk_hevc_sps_through_dpb : Walk (Unit {0})
unfolding copy_hevc_picture replace_dpb_sizes
walk_hevc_sps_through_dpb = do
  copy_bits 4
  sps_max_sub_layers_minus1 ← copy_bits 3
  copy_bits 1
  copy_hevc_profile_tier_level sps_max_sub_layers_minus1
  _ ← copy_hevc_picture
  sub_layer_info_present ← copy_bits 1
  let i_start = if sub_layer_info_present == 1 then 0 else sps_max_sub_layers_minus1
  repeat (sps_max_sub_layers_minus1 + 1 - i_start) replace_dpb_sizes

-- The profile is copied into a writer that is thrown away, and nothing else is written.
unfoldable pub read_log2_max_poc : Walk ℕ
read_log2_max_poc = do
  _ ← get_bits 4
  sps_max_sub_layers_minus1 ← get_bits 3
  _ ← get_bits 1
  copy_hevc_profile_tier_level sps_max_sub_layers_minus1
  _ ← get_ue
  chroma_format_idc ← get_ue
  when (chroma_format_idc == 3) (do _ ← get_bits 1; pure tt)
  _ ← get_ue
  _ ← get_ue
  do
    conformance_window ← get_bits 1
    when (conformance_window == 1) (repeat 4 (do _ ← get_ue; pure tt))
  _ ← get_ue
  _ ← get_ue
  get_ue

unfoldable pub walk_hevc_sps_dpb_log2_max_poc : List ℕ → EngineResult ℕ
unfolding read_log2_max_poc
walk_hevc_sps_dpb_log2_max_poc rbsp =
    and_then (read_log2_max_poc (io (Reader.new rbsp) Writer.new))
      λ (log2_max_poc, _). ok log2_max_poc
