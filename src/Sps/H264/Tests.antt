-- ===== src/Sps/H264/Tests.antt =====
-- The H.264 rewriter of sps_patcher.rs at a small baseline parameter set.
use zpenflow.Base.{ℕ, ◌≡◌, refl, List, [], ◌∷◌}
use zpenflow.Engine.{ok}
use zpenflow.Sps.Reader.{read_bits_loop, read_bits, after_bit, read_zeros, read_ue}
use zpenflow.Sps.Writer.{
  write_bit, write_bits, leading_zeros, write_zeros, write_ue, pad_to_byte,
  write_rbsp_trailing_bits,
}
use zpenflow.Sps.Walker.{◌>>=◌, pure, reading, writing, copy_bits, copy_ue, replace_ue}
use zpenflow.Sps.Walker.Rbsp.{rewrite_rbsp}
use zpenflow.Sps.Vui.{flagged, write_full_range_bt709_video_signal_type}
use zpenflow.Sps.H264.{
  write_bitstream_restriction, emit_minimal_h264_vui, copy_poc, copy_h264_head, copy_h264_frame,
  replace_h264_vui, walk_h264_sps, patch_h264_sps_rbsp,
}
use zpenflow.Sps.H264.Patched.{
  decode_h264_sps, patched_sps, decode-patch_h264, patch_h264-patch_h264,
}

-- Profile 66, level 3, three reference frames, 320 by 240 pixels, no VUI.
abbrev baseline : List ℕ
baseline = 66 ∷ 0 ∷ 30 ∷ 217 ∷ 1 ∷ 65 ∷ 249 ∷ []

abbrev rewritten : List ℕ
rewritten = 66 ∷ 0 ∷ 30 ∷ 218 ∷ 5 ∷ 7 ∷ 233 ∷ 184 ∷ 8 ∷ 8 ∷ 8 ∷ 60 ∷ 34 ∷ 17 ∷ 168 ∷ []

patch_baseline : patch_h264_sps_rbsp baseline ≡ ok rewritten
unfolding rewrite_rbsp ◌>>=◌ pure reading writing copy_bits copy_ue replace_ue read_bits_loop
    read_bits after_bit read_zeros read_ue write_bit write_bits leading_zeros write_zeros write_ue
    pad_to_byte write_rbsp_trailing_bits flagged write_full_range_bt709_video_signal_type
    write_bitstream_restriction emit_minimal_h264_vui copy_poc copy_h264_head copy_h264_frame
    replace_h264_vui walk_h264_sps patch_h264_sps_rbsp
patch_baseline = refl

decode-patch_h264_example : decode_h264_sps rewritten ≡ ok patched_sps
decode-patch_h264_example = decode-patch_h264 baseline rewritten patch_baseline

patch_h264-patch_h264_example : patch_h264_sps_rbsp rewritten ≡ ok rewritten
patch_h264-patch_h264_example = patch_h264-patch_h264 baseline rewritten patch_baseline
