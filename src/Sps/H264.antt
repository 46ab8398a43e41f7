-- ===== src/Sps/H264.antt =====
-- The H.264 SPS rewriter of sps_patcher.rs (ITU-T H.264 7.3.2.1.1).
pub mod Restriction
pub mod Scan
pub mod Vui
pub mod Patched
pub mod Tests
use zpenflow.Base.{ℕ, zero, suc, ◌+◌, ◌==◌, ◌||◌, Bool, true, false, List, [], ◌∷◌, if◌then◌else◌}
use zpenflow.Engine.{EngineResult, ok, err, and_then}
use zpenflow.Sps.Reader
use zpenflow.Sps.Writer
use zpenflow.Sps.Walker.{
  Walk, Io, io, ◌>>=◌, ◌>>◌, pure, fail, writing, get_bits, get_ue, put_bits, put_ue, copy_bits,
  copy_ue, copy_se, replace_ue, when, repeat,
}
use zpenflow.Sps.Walker.Rbsp.{rewrite_rbsp}
use zpenflow.Sps.Vui.{
  flagged, copy_aspect_ratio, copy_flag, copy_two_ue, copy_four_ue, replace_video_signal_type,
  write_full_range_bt709_video_signal_type,
}

-- One entry of the coded picture buffer list.
unfoldable pub copy_cpb_entry : Walk (Unit {0})
copy_cpb_entry = do copy_ue; copy_ue; copy_bits 1; pure tt

unfoldable pub copy_h264_hrd_parameters : Walk (Unit {0})
copy_h264_hrd_parameters = do
  cpb_cnt_minus1 ← copy_ue
  copy_bits 4
  copy_bits 4
  repeat (cpb_cnt_minus1 + 1) copy_cpb_entry
  copy_bits 5
  copy_bits 5
  copy_bits 5
  copy_bits 5
  pure tt

unfoldable pub copy_timing_info : Walk (Unit {0})
copy_timing_info = do copy_bits 32; copy_bits 32; copy_bits 1; pure tt

-- The block of the input is read and dropped.
unfoldable pub drop_bitstream_restriction : Walk (Unit {0})
drop_bitstream_restriction = do
  bitstream_restriction ← get_bits 1
  when (bitstream_restriction == 1) (do
    _ ← get_bits 1
    _ ← get_ue
    _ ← get_ue
    _ ← get_ue
    _ ← get_ue
    _ ← get_ue
    _ ← get_ue
    pure tt)

-- One reference frame, no reordering.
unfoldable pub write_bitstream_restriction : Walk (Unit {0})
write_bitstream_restriction = do
  put_bits 1 1
  put_bits 1 1
  put_ue 0
  put_ue 0
  put_ue 16
  put_ue 16
  put_ue 0
  put_ue 1

-- From `chroma_loc_info_present_flag` to `pic_struct_present_flag`.
unfoldable pub copy_h264_vui_middle : Walk (Unit {0})
copy_h264_vui_middle = do
  flagged copy_two_ue
  flagged copy_timing_info
  nal_hrd ← copy_bits 1
  when (nal_hrd == 1) copy_h264_hrd_parameters
  vcl_hrd ← copy_bits 1
  when (vcl_hrd == 1) copy_h264_hrd_parameters
  when (nal_hrd == 1 || vcl_hrd == 1) copy_flag
  copy_flag

unfoldable pub copy_h264_vui_with_patched_bitstream_restriction : Walk (Unit {0})
copy_h264_vui_with_patched_bitstream_restriction = do
  flagged copy_aspect_ratio
  flagged copy_flag
  replace_video_signal_type
  copy_h264_vui_middle
  drop_bitstream_restriction
  write_bitstream_restriction

unfoldable pub emit_minimal_h264_vui : Walk (Unit {0})
emit_minimal_h264_vui = do
  put_bits 0 1
  put_bits 0 1
  write_full_range_bt709_video_signal_type
  put_bits 0 1
  put_bits 0 1
  put_bits 0 1
  put_bits 0 1
  put_bits 0 1
  write_bitstream_restriction

-- `matches!(profile_idc, 100 | 110 | …)`
abbrev pub has_chroma_info : ℕ → Bool
has_chroma_info p =
    p == 100
    || p == 110
    || p == 122
    || p == 244
    || p == 44
    || p == 83
    || p == 86
    || p == 118
    || p == 128
    || p == 138
    || p == 139
    || p == 134
    || p == 135

-- A scaling matrix is refused.
unfoldable pub copy_chroma_info : Walk (Unit {0})
copy_chroma_info = do
  chroma_format_idc ← copy_ue
  when (chroma_format_idc == 3) copy_flag
  copy_ue
  copy_ue
  copy_bits 1
  scaling_present ← copy_bits 1
  when (scaling_present == 1) fail

unfoldable pub copy_poc_cycle : Walk (Unit {0})
copy_poc_cycle = do copy_bits 1; copy_se; copy_se; n ← copy_ue; repeat n (do copy_se; pure tt)

-- `match pic_order_cnt_type`
unfoldable pub copy_poc : ℕ → Walk (Unit {0})
copy_poc pic_order_cnt_type =
    if pic_order_cnt_type == 0
    then (do copy_ue; pure tt)
    else when (pic_order_cnt_type == 1) copy_poc_cycle

-- From `profile_idc` to the picture order count.
unfoldable pub copy_h264_head : Walk (Unit {0})
copy_h264_head = do
  profile_idc ← copy_bits 8
  copy_bits 8
  copy_bits 8
  copy_ue
  when (has_chroma_info profile_idc) copy_chroma_info
  copy_ue
  pic_order_cnt_type ← copy_ue
  copy_poc pic_order_cnt_type

-- From `gaps_in_frame_num_value_allowed_flag` to the cropping window.
unfoldable pub copy_h264_frame : Walk (Unit {0})
copy_h264_frame = do
  copy_bits 1
  copy_ue
  copy_ue
  frame_mbs_only ← copy_bits 1
  when (frame_mbs_only == 0) copy_flag
  copy_bits 1
  flagged copy_four_ue

unfoldable pub replace_h264_vui : Walk (Unit {0})
replace_h264_vui = do
  vui_present ← get_bits 1
  put_bits 1 1
  if vui_present == 1
      then copy_h264_vui_with_patched_bitstream_restriction
      else emit_minimal_h264_vui

-- The fields, without the trailing bits.
unfoldable pub walk_h264_sps : Walk (Unit {0})
walk_h264_sps = do copy_h264_head; replace_ue 1; copy_h264_frame; replace_h264_vui

-- The writer is new and the reader at the first bit; the trailing bits come last.
unfoldable pub patch_h264_sps_rbsp : List ℕ → EngineResult (List ℕ)
patch_h264_sps_rbsp = rewrite_rbsp walk_h264_sps
