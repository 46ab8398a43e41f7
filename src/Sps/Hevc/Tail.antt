-- ===== src/Sps/Hevc/Tail.antt =====
-- What follows the picture buffer sizes in an HEVC parameter set.
pub mod Scan
use zpenflow.Base.{
  ℕ, zero, suc, ◌+◌, ◌-◌, ◌*◌, ◌%◌, ◌^◌, ◌==◌, ◌&&◌, true, false, ltb, leb, Option, none, some,
  List, [], ◌∷◌, ◌++◌, length, get_elem?, get_or, if◌then◌else◌,
}
use zpenflow.Base.Words.{shr, low_bits}
use zpenflow.Engine.{ok, err}
use zpenflow.Sps.Reader
use zpenflow.Sps.Reader.{BitReader}
use zpenflow.Sps.Writer
use zpenflow.Sps.Walker.{
  Walk, Io, io, ◌>>=◌, ◌>>◌, pure, fail, get_bits, put_bits, copy_bits, copy_ue, when, repeat,
}
use zpenflow.Sps.Vui.{
  flagged, copy_aspect_ratio, copy_flag, copy_two_ue, copy_four_ue, replace_video_signal_type,
  write_full_range_bt709_video_signal_type,
}

-- One pass of the loop over the predicting set; the count is a u32.
unfoldable pub count_deltas : ℕ → ℕ → Walk ℕ
count_deltas zero new_num_delta_pocs = pure new_num_delta_pocs
count_deltas (suc n) new_num_delta_pocs = do
  used_by_curr_pic_flag ← copy_bits 1
  use_delta_flag ← if used_by_curr_pic_flag == 0 then copy_bits 1 else pure 1
  count_deltas n
      (if use_delta_flag == 1 then (new_num_delta_pocs + 1) % 2 ^ 32 else new_num_delta_pocs)

unfoldable pub copy_delta_poc : Walk (Unit {0})
copy_delta_poc = do copy_ue; copy_bits 1; pure tt

unfoldable pub ok_or_fail : Option ℕ → Walk ℕ
ok_or_fail none = fail
ok_or_fail (some n_dp) = pure n_dp

-- `num_delta_pocs.get(r_idx).ok_or(…)?`, with `r_idx = st_rps_idx.checked_sub(1)`.
unfoldable pub predicting : ℕ → List ℕ → Walk ℕ
unfolding ok_or_fail
predicting zero num_delta_pocs = fail
predicting (suc r_idx) num_delta_pocs = ok_or_fail (get_elem? num_delta_pocs r_idx)

-- `num_neg + num_pos` wraps, as in a release build.
unfoldable pub copy_hevc_st_ref_pic_set : ℕ → List ℕ → Walk ℕ
unfolding count_deltas copy_delta_poc predicting
copy_hevc_st_ref_pic_set st_rps_idx num_delta_pocs = do
  predicted ← if st_rps_idx == 0 then pure 0 else copy_bits 1
  if predicted == 1
      then (do
        copy_bits 1
        copy_ue
        n_dp ← predicting st_rps_idx num_delta_pocs
        count_deltas (n_dp + 1) 0)
      else (do
        num_neg ← copy_ue
        num_pos ← copy_ue
        repeat num_neg copy_delta_poc
        repeat num_pos copy_delta_poc
        pure ((num_neg + num_pos) % 2 ^ 32))

-- `for st_rps_idx in 0..num_short_term_ref_pic_sets`, with the counts so far.
unfoldable pub copy_st_ref_pic_sets : ℕ → List ℕ → Walk (Unit {0})
copy_st_ref_pic_sets zero num_delta_pocs = pure tt
copy_st_ref_pic_sets (suc n) num_delta_pocs = do
  k ← copy_hevc_st_ref_pic_set (length num_delta_pocs) num_delta_pocs
  copy_st_ref_pic_sets n (num_delta_pocs ++ (k ∷ []))

unfoldable pub copy_hevc_timing_info : Walk (Unit {0})
copy_hevc_timing_info = do
  copy_bits 32
  copy_bits 32
  flagged (do copy_ue; pure tt)
  vui_hrd_present ← get_bits 1
  when (vui_hrd_present == 1) fail
  put_bits 0 1

unfoldable pub copy_hevc_restriction : Walk (Unit {0})
copy_hevc_restriction = do
  copy_bits 1
  copy_bits 1
  copy_bits 1
  copy_ue
  copy_ue
  copy_ue
  copy_ue
  copy_ue
  pure tt

unfoldable pub copy_hevc_vui_with_full_range_bt709 : Walk (Unit {0})
unfolding copy_hevc_timing_info copy_hevc_restriction
copy_hevc_vui_with_full_range_bt709 = do
  flagged copy_aspect_ratio
  flagged copy_flag
  replace_video_signal_type
  flagged copy_two_ue
  copy_bits 1
  copy_bits 1
  copy_bits 1
  flagged copy_four_ue
  flagged copy_hevc_timing_info
  flagged copy_hevc_restriction

unfoldable pub emit_minimal_hevc_vui : Walk (Unit {0})
emit_minimal_hevc_vui = do
  put_bits 0 1
  put_bits 0 1
  write_full_range_bt709_video_signal_type
  put_bits 0 1
  put_bits 0 1
  put_bits 0 1
  put_bits 0 1
  put_bits 0 1
  put_bits 0 1
  put_bits 0 1

unfoldable pub replace_hevc_vui : Walk (Unit {0})
replace_hevc_vui = do
  vui_present ← get_bits 1
  put_bits 1 1
  if vui_present == 1 then copy_hevc_vui_with_full_range_bt709 else emit_minimal_hevc_vui

-- In-band scaling lists are refused.
unfoldable pub copy_scaling_flag : Walk (Unit {0})
copy_scaling_flag = do
  sps_scaling_list_data_present ← copy_bits 1
  when (sps_scaling_list_data_present == 1) fail

unfoldable pub copy_pcm : Walk (Unit {0})
copy_pcm = do copy_bits 4; copy_bits 4; copy_ue; copy_ue; copy_bits 1; pure tt

-- `log2_max_poc + 4` is a u32.
unfoldable pub copy_long_term : ℕ → Walk (Unit {0})
copy_long_term log2_max_poc = do
  num_long_term ← copy_ue
  let lt_lsb_bits = (log2_max_poc + 4) % 2 ^ 32
  repeat num_long_term (do copy_bits lt_lsb_bits; copy_bits 1; pure tt)

-- From the coding block sizes to the last flag before the VUI.
unfoldable pub copy_hevc_tools : ℕ → Walk (Unit {0})
unfolding copy_scaling_flag copy_pcm copy_st_ref_pic_sets copy_long_term
copy_hevc_tools log2_max_poc = do
  copy_ue
  copy_ue
  copy_ue
  copy_ue
  copy_ue
  copy_ue
  flagged copy_scaling_flag
  copy_bits 1
  copy_bits 1
  flagged copy_pcm
  num_short_term_ref_pic_sets ← copy_ue
  copy_st_ref_pic_sets num_short_term_ref_pic_sets []
  flagged (copy_long_term log2_max_poc)
  copy_bits 1
  copy_bits 1
  pure tt

-- An extension is refused.
unfoldable pub end_hevc_sps : Walk (Unit {0})
end_hevc_sps = do
  sps_extension_present ← get_bits 1
  when (sps_extension_present == 1) fail
  put_bits 0 1

unfoldable pub walk_hevc_sps_tail : ℕ → Walk (Unit {0})
unfolding copy_hevc_tools replace_hevc_vui
walk_hevc_sps_tail log2_max_poc = do copy_hevc_tools log2_max_poc; replace_hevc_vui; end_hevc_sps

-- One round of `copy_remaining_bits`: a byte where the reader stands at one, else a bit. The read of
-- a bit below `total_bits` does not fail.
unfoldable pub copy_remaining_step : Io → Io
copy_remaining_step s =
    if low_bits s.reader.bit_pos 3 == 0 && leb 8 (length s.reader.bytes * 8 - s.reader.bit_pos)
    then io (record { bytes = s.reader.bytes; bit_pos = s.reader.bit_pos + 8 })
        (Writer.write_bits (get_or s.reader.bytes (shr s.reader.bit_pos 3) 0) 8 s.writer)
    else elim (Reader.read_bits 1 s.reader) [
      | ok (b, r) ↦ io r (Writer.write_bits b 1 s.writer)
      | err _ ↦ s
    ]

-- `while r.bit_pos < total_bits`, on fuel: each round reads a bit at least.
unfoldable pub copy_remaining_loop : ℕ → Io → Io
unfolding copy_remaining_step
copy_remaining_loop zero s = s
copy_remaining_loop (suc fuel) s = elim (ltb s.reader.bit_pos (length s.reader.bytes * 8)) [
  | false ↦ s
  | true ↦ copy_remaining_loop fuel (copy_remaining_step s)
]

unfoldable pub copy_remaining_bits : Walk (Unit {0})
unfolding copy_remaining_loop
copy_remaining_bits s =
    ok (tt, copy_remaining_loop (length s.reader.bytes * 8 - s.reader.bit_pos) s)
