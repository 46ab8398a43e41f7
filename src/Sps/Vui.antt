-- ===== src/Sps/Vui.antt =====
-- The parts of the video usability information that the H.264 and the HEVC rewriter of
-- sps_patcher.rs treat alike.
pub mod Signal
pub mod Scan
use zpenflow.Base.{ℕ, ◌==◌}
use zpenflow.Sps.Walker.{
  Walk, ◌>>=◌, ◌>>◌, pure, fail, get_bits, get_ue, put_bits, put_ue, copy_bits, copy_ue, when,
  repeat,
}

-- `let f = r.read_bits(1)?; w.write_bits(f, 1); if f == 1 { … }`
unfoldable pub flagged : Walk (Unit {0}) → Walk (Unit {0})
flagged m = do f ← copy_bits 1; when (f == 1) m

unfoldable pub copy_aspect_ratio : Walk (Unit {0})
copy_aspect_ratio = do
  aspect_ratio_idc ← copy_bits 8
  when (aspect_ratio_idc == 255) (do copy_bits 16; copy_bits 16; pure tt)

unfoldable pub copy_flag : Walk (Unit {0})
copy_flag = do copy_bits 1; pure tt

unfoldable pub copy_two_ue : Walk (Unit {0})
copy_two_ue = do copy_ue; copy_ue; pure tt

unfoldable pub copy_four_ue : Walk (Unit {0})
copy_four_ue = repeat 4 (do copy_ue; pure tt)

-- Full-range BT.709.
unfoldable pub write_full_range_bt709_video_signal_type : Walk (Unit {0})
write_full_range_bt709_video_signal_type = do
  put_bits 1 1
  put_bits 5 3
  put_bits 1 1
  put_bits 1 1
  put_bits 1 8
  put_bits 1 8
  put_bits 1 8

-- The block of the input is read and dropped.
unfoldable pub drop_video_signal_type : Walk (Unit {0})
drop_video_signal_type = do
  video_signal_type_present ← get_bits 1
  when (video_signal_type_present == 1) (do
    _ ← get_bits 3
    _ ← get_bits 1
    colour_desc ← get_bits 1
    when (colour_desc == 1) (do _ ← get_bits 8; _ ← get_bits 8; _ ← get_bits 8; pure tt))

unfoldable pub replace_video_signal_type : Walk (Unit {0})
replace_video_signal_type = do drop_video_signal_type; write_full_range_bt709_video_signal_type
