-- ===== src/Sps/Hevc/Tests.antt =====
-- The HEVC rewriter of sps_patcher.rs at a small parameter set, and at one with an extension.
use zpenflow.Base.{ℕ, ◌≡◌, refl, ◌<◌, arith, true, List, [], ◌∷◌}
use zpenflow.Engine.{ok}
use zpenflow.Sps.Reader.{read_bits_loop, read_bits, after_bit, read_zeros, read_ue}
use zpenflow.Sps.Writer.{
  write_bit, write_bits, leading_zeros, write_zeros, write_ue, pad_to_byte,
  write_rbsp_trailing_bits,
}
use zpenflow.Sps.Walker.{
  ◌>>=◌, pure, reading, writing, copy_bits, copy_ue, replace_ue, repeat, fail,
}
use zpenflow.Sps.Vui.{flagged, write_full_range_bt709_video_signal_type}
use zpenflow.Sps.Hevc.{patch_hevc_sps_full, patch_hevc_sps_dpb_only, or_else, patch_hevc_sps_rbsp}
use zpenflow.Sps.Hevc.Head.{
  copy_byte, copy_sub_layer_flags, copy_sub_layers, copy_hevc_profile_tier_level, copy_hevc_picture,
  replace_dpb_sizes, walk_hevc_sps_through_dpb, read_log2_max_poc, walk_hevc_sps_dpb_log2_max_poc,
}
use zpenflow.Sps.Hevc.Tail.{
  copy_delta_poc, copy_hevc_st_ref_pic_set, copy_st_ref_pic_sets, copy_hevc_tools,
  emit_minimal_hevc_vui, replace_hevc_vui, end_hevc_sps, walk_hevc_sps_tail, copy_remaining_step,
  copy_remaining_loop, copy_remaining_bits,
}
use zpenflow.Sps.Hevc.Full.{decode_hevc_sps, decode_hevc_dpb, patched_sps, decode-patch_full}
use zpenflow.Sps.Hevc.Patched.{decode-patch_hevc}

-- Main profile, 320 by 240 pixels, five pictures in the buffer, two of them reordered, no VUI.
abbrev main_profile : List ℕ
main_profile =
    1 ∷ 1 ∷ 96 ∷ 0 ∷ 0 ∷ 0 ∷ 144 ∷ 0 ∷ 0 ∷ 0 ∷ 0 ∷ 0 ∷ 93 ∷ 160 ∷ 10 ∷ 8 ∷ 15 ∷ 22 ∷ 89 ∷ 94 ∷ 73
    ∷ 54 ∷ 75 ∷ 178 ∷ []

abbrev rewritten : List ℕ
rewritten =
    1 ∷ 1 ∷ 96 ∷ 0 ∷ 0 ∷ 0 ∷ 144 ∷ 0 ∷ 0 ∷ 0 ∷ 0 ∷ 0 ∷ 93 ∷ 160 ∷ 10 ∷ 8 ∷ 15 ∷ 22 ∷ 95 ∷ 146 ∷ 77
    ∷ 146 ∷ 238 ∷ 110 ∷ 2 ∷ 2 ∷ 2 ∷ 1 ∷ []

-- The same with an extension, which the full rewriter refuses.
abbrev extended : List ℕ
extended =
    1 ∷ 1 ∷ 96 ∷ 0 ∷ 0 ∷ 0 ∷ 144 ∷ 0 ∷ 0 ∷ 0 ∷ 0 ∷ 0 ∷ 93 ∷ 160 ∷ 10 ∷ 8 ∷ 15 ∷ 22 ∷ 89 ∷ 94 ∷ 73
    ∷ 54 ∷ 75 ∷ 182 ∷ []

abbrev sizes_replaced : List ℕ
sizes_replaced =
    1 ∷ 1 ∷ 96 ∷ 0 ∷ 0 ∷ 0 ∷ 144 ∷ 0 ∷ 0 ∷ 0 ∷ 0 ∷ 0 ∷ 93 ∷ 160 ∷ 10 ∷ 8 ∷ 15 ∷ 22 ∷ 95 ∷ 146 ∷ 77
    ∷ 146 ∷ 237 ∷ 128 ∷ []

main_profile_log2 : walk_hevc_sps_dpb_log2_max_poc main_profile ≡ ok 4
unfolding patch_hevc_sps_full patch_hevc_sps_dpb_only or_else patch_hevc_sps_rbsp copy_byte
    copy_sub_layer_flags copy_sub_layers copy_hevc_profile_tier_level copy_hevc_picture
    replace_dpb_sizes walk_hevc_sps_through_dpb read_log2_max_poc walk_hevc_sps_dpb_log2_max_poc
    copy_delta_poc copy_hevc_st_ref_pic_set copy_st_ref_pic_sets copy_hevc_tools
    emit_minimal_hevc_vui replace_hevc_vui end_hevc_sps walk_hevc_sps_tail copy_remaining_step
    copy_remaining_loop copy_remaining_bits flagged write_full_range_bt709_video_signal_type ◌>>=◌
    pure reading writing copy_bits copy_ue replace_ue repeat fail read_bits_loop read_bits after_bit
    read_zeros read_ue write_bit write_bits leading_zeros write_zeros write_ue pad_to_byte
    write_rbsp_trailing_bits
main_profile_log2 = refl

extended_log2 : walk_hevc_sps_dpb_log2_max_poc extended ≡ ok 4
unfolding patch_hevc_sps_full patch_hevc_sps_dpb_only or_else patch_hevc_sps_rbsp copy_byte
    copy_sub_layer_flags copy_sub_layers copy_hevc_profile_tier_level copy_hevc_picture
    replace_dpb_sizes walk_hevc_sps_through_dpb read_log2_max_poc walk_hevc_sps_dpb_log2_max_poc
    copy_delta_poc copy_hevc_st_ref_pic_set copy_st_ref_pic_sets copy_hevc_tools
    emit_minimal_hevc_vui replace_hevc_vui end_hevc_sps walk_hevc_sps_tail copy_remaining_step
    copy_remaining_loop copy_remaining_bits flagged write_full_range_bt709_video_signal_type ◌>>=◌
    pure reading writing copy_bits copy_ue replace_ue repeat fail read_bits_loop read_bits after_bit
    read_zeros read_ue write_bit write_bits leading_zeros write_zeros write_ue pad_to_byte
    write_rbsp_trailing_bits
extended_log2 = refl

patch_main_profile : patch_hevc_sps_full main_profile ≡ ok rewritten
unfolding patch_hevc_sps_full patch_hevc_sps_dpb_only or_else patch_hevc_sps_rbsp copy_byte
    copy_sub_layer_flags copy_sub_layers copy_hevc_profile_tier_level copy_hevc_picture
    replace_dpb_sizes walk_hevc_sps_through_dpb read_log2_max_poc walk_hevc_sps_dpb_log2_max_poc
    copy_delta_poc copy_hevc_st_ref_pic_set copy_st_ref_pic_sets copy_hevc_tools
    emit_minimal_hevc_vui replace_hevc_vui end_hevc_sps walk_hevc_sps_tail copy_remaining_step
    copy_remaining_loop copy_remaining_bits flagged write_full_range_bt709_video_signal_type ◌>>=◌
    pure reading writing copy_bits copy_ue replace_ue repeat fail read_bits_loop read_bits after_bit
    read_zeros read_ue write_bit write_bits leading_zeros write_zeros write_ue pad_to_byte
    write_rbsp_trailing_bits
patch_main_profile = refl

patch_extended : patch_hevc_sps_rbsp extended ≡ ok sizes_replaced
unfolding patch_hevc_sps_full patch_hevc_sps_dpb_only or_else patch_hevc_sps_rbsp copy_byte
    copy_sub_layer_flags copy_sub_layers copy_hevc_profile_tier_level copy_hevc_picture
    replace_dpb_sizes walk_hevc_sps_through_dpb read_log2_max_poc walk_hevc_sps_dpb_log2_max_poc
    copy_delta_poc copy_hevc_st_ref_pic_set copy_st_ref_pic_sets copy_hevc_tools
    emit_minimal_hevc_vui replace_hevc_vui end_hevc_sps walk_hevc_sps_tail copy_remaining_step
    copy_remaining_loop copy_remaining_bits flagged write_full_range_bt709_video_signal_type ◌>>=◌
    pure reading writing copy_bits copy_ue replace_ue repeat fail read_bits_loop read_bits after_bit
    read_zeros read_ue write_bit write_bits leading_zeros write_zeros write_ue pad_to_byte
    write_rbsp_trailing_bits
patch_extended = refl

decode-patch_full_example : decode_hevc_sps rewritten ≡ ok patched_sps
decode-patch_full_example =
    decode-patch_full main_profile rewritten 4 main_profile_log2 (omega arith) patch_main_profile

extended_small : (log2 : ℕ) → walk_hevc_sps_dpb_log2_max_poc extended ≡ ok log2 → log2 < 29
extended_small log2 e = let w : 4 ≡ log2 = cc extended_log2 in rw (← w) (omega arith)

decode-patch_hevc_example : decode_hevc_dpb sizes_replaced ≡ ok true
decode-patch_hevc_example = decode-patch_hevc extended sizes_replaced extended_small patch_extended
