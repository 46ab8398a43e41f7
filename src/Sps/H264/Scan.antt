-- ===== src/Sps/H264/Scan.antt =====
-- The grammar of what the H.264 rewriter copies.
use zpenflow.Base.{ℕ, ◌+◌, ◌==◌, ◌||◌, arith, Bool, if◌then◌else◌}
use zpenflow.Sps.Walker.{Walk, ◌>>=◌, ◌>>◌, pure, fail, when, repeat}
use zpenflow.Sps.Walker.Replays.{Replays, Replays-repeat, Replays-if, Replays-fail}
use zpenflow.Sps.Walker.Scan.{
  scan_bits, scan_ue, scan_se, Replays-then_bits, Replays-then_ue, Replays-then_se, Replays-then,
  Replays-done, Replays-when,
}
use zpenflow.Sps.Vui.Scan.{
  scan_flagged, scan_flag, scan_two_ue, scan_four_ue, Replays-flagged, Replays-flag, Replays-two_ue,
  Replays-four_ue,
}
use zpenflow.Sps.H264.{
  copy_cpb_entry, copy_h264_hrd_parameters, copy_timing_info, copy_h264_vui_middle, has_chroma_info,
  copy_chroma_info, copy_poc_cycle, copy_poc, copy_h264_head, copy_h264_frame,
}

module _ (mode : Bool) where
  unfoldable pub scan_cpb_entry : Walk (Unit {0})
  scan_cpb_entry = do scan_ue mode; scan_ue mode; scan_bits mode 1; pure tt

  Replays-cpb_entry : Replays mode copy_cpb_entry scan_cpb_entry (λ u. u)
  unfolding copy_cpb_entry scan_cpb_entry
  Replays-cpb_entry =
      Replays-then_ue _ _
        λ _. Replays-then_ue _ _ λ _. Replays-then_bits 1 _ _ (omega arith) λ _. Replays-done mode

  unfoldable pub scan_hrd : Walk (Unit {0})
  unfolding scan_cpb_entry
  scan_hrd = do
    cpb_cnt_minus1 ← scan_ue mode
    scan_bits mode 4
    scan_bits mode 4
    repeat (cpb_cnt_minus1 + 1) scan_cpb_entry
    scan_bits mode 5
    scan_bits mode 5
    scan_bits mode 5
    scan_bits mode 5
    pure tt

  Replays-hrd : Replays mode copy_h264_hrd_parameters scan_hrd (λ u. u)
  unfolding copy_h264_hrd_parameters scan_hrd
  Replays-hrd = Replays-then_ue _ _ λ n. Replays-then_bits 4 _ _ (omega arith) λ _.
      Replays-then_bits 4 _ _ (omega arith) λ _.
        Replays-then _ _ (Replays-repeat (n + 1) Replays-cpb_entry) (
          Replays-then_bits 5 _ _ (omega arith) λ _. Replays-then_bits 5 _ _ (omega arith) λ _.
            Replays-then_bits 5 _ _ (omega arith)
              λ _. Replays-then_bits 5 _ _ (omega arith) λ _. Replays-done mode)

  unfoldable pub scan_timing_info : Walk (Unit {0})
  scan_timing_info = do scan_bits mode 32; scan_bits mode 32; scan_bits mode 1; pure tt

  Replays-timing_info : Replays mode copy_timing_info scan_timing_info (λ u. u)
  unfolding copy_timing_info scan_timing_info
  Replays-timing_info = Replays-then_bits 32 _ _ (omega arith) λ _.
      Replays-then_bits 32 _ _ (omega arith)
        λ _. Replays-then_bits 1 _ _ (omega arith) λ _. Replays-done mode

  unfoldable pub scan_vui_middle : Walk (Unit {0})
  unfolding scan_hrd scan_timing_info scan_flagged scan_two_ue scan_flag
  scan_vui_middle = do
    scan_flagged mode (scan_two_ue mode)
    scan_flagged mode scan_timing_info
    nal_hrd ← scan_bits mode 1
    when (nal_hrd == 1) scan_hrd
    vcl_hrd ← scan_bits mode 1
    when (vcl_hrd == 1) scan_hrd
    when (nal_hrd == 1 || vcl_hrd == 1) (scan_flag mode)
    scan_flag mode

  pub Replays-vui_middle : Replays mode copy_h264_vui_middle scan_vui_middle (λ u. u)
  unfolding copy_h264_vui_middle scan_vui_middle
  Replays-vui_middle = Replays-then _ _ (Replays-flagged mode (Replays-two_ue mode)) (
      Replays-then _ _ (Replays-flagged mode Replays-timing_info) (
        Replays-then_bits 1 _ _ (omega arith) λ nal.
          Replays-then _ _ (Replays-when (nal == 1) Replays-hrd) (
            Replays-then_bits 1 _ _ (omega arith) λ vcl.
              Replays-then _ _ (Replays-when (vcl == 1) Replays-hrd) (
                Replays-then _ _ (Replays-when (nal == 1 || vcl == 1) (Replays-flag mode))
                  (Replays-flag mode)))))

  unfoldable pub scan_chroma_info : Walk (Unit {0})
  unfolding scan_flag
  scan_chroma_info = do
    chroma_format_idc ← scan_ue mode
    when (chroma_format_idc == 3) (scan_flag mode)
    scan_ue mode
    scan_ue mode
    scan_bits mode 1
    scaling_present ← scan_bits mode 1
    when (scaling_present == 1) fail

  Replays-chroma_info : Replays mode copy_chroma_info scan_chroma_info (λ u. u)
  unfolding copy_chroma_info scan_chroma_info
  Replays-chroma_info = Replays-then_ue _ _ λ c.
      Replays-then _ _ (Replays-when (c == 3) (Replays-flag mode)) (
        Replays-then_ue _ _ λ _. Replays-then_ue _ _ λ _. Replays-then_bits 1 _ _ (omega arith) λ _.
          Replays-then_bits 1 _ _ (omega arith)
            λ s. Replays-when (s == 1) (Replays-fail mode fail (λ u. u)))

  unfoldable pub scan_poc_cycle : Walk (Unit {0})
  scan_poc_cycle = do
    scan_bits mode 1
    scan_se mode
    scan_se mode
    n ← scan_ue mode
    repeat n (do scan_se mode; pure tt)

  Replays-poc_cycle : Replays mode copy_poc_cycle scan_poc_cycle (λ u. u)
  unfolding copy_poc_cycle scan_poc_cycle
  Replays-poc_cycle = Replays-then_bits 1 _ _ (omega arith) λ _. Replays-then_se _ _ λ _.
      Replays-then_se _ _
        λ _. Replays-then_ue _ _ λ n. Replays-repeat n (Replays-then_se _ _ λ _. Replays-done mode)

  unfoldable pub scan_poc : ℕ → Walk (Unit {0})
  unfolding scan_poc_cycle
  scan_poc t = if t == 0 then (do scan_ue mode; pure tt) else when (t == 1) scan_poc_cycle

  Replays-poc : (t : ℕ) → Replays mode (copy_poc t) (scan_poc t) (λ u. u)
  unfolding copy_poc scan_poc
  Replays-poc t =
      Replays-if (t == 0) (Replays-then_ue _ _ λ _. Replays-done mode)
        (Replays-when (t == 1) Replays-poc_cycle)

  unfoldable pub scan_head : Walk (Unit {0})
  unfolding scan_chroma_info scan_poc
  scan_head = do
    profile_idc ← scan_bits mode 8
    scan_bits mode 8
    scan_bits mode 8
    scan_ue mode
    when (has_chroma_info profile_idc) scan_chroma_info
    scan_ue mode
    pic_order_cnt_type ← scan_ue mode
    scan_poc pic_order_cnt_type

  pub Replays-head : Replays mode copy_h264_head scan_head (λ u. u)
  unfolding copy_h264_head scan_head
  Replays-head = Replays-then_bits 8 _ _ (omega arith) λ profile_idc.
      Replays-then_bits 8 _ _ (omega arith) λ _. Replays-then_bits 8 _ _ (omega arith) λ _.
        Replays-then_ue _ _ λ _.
          Replays-then _ _ (Replays-when (has_chroma_info profile_idc) Replays-chroma_info)
            (Replays-then_ue _ _ λ _. Replays-then_ue _ _ λ t. Replays-poc t)

  unfoldable pub scan_frame : Walk (Unit {0})
  unfolding scan_flag scan_flagged scan_four_ue
  scan_frame = do
    scan_bits mode 1
    scan_ue mode
    scan_ue mode
    frame_mbs_only ← scan_bits mode 1
    when (frame_mbs_only == 0) (scan_flag mode)
    scan_bits mode 1
    scan_flagged mode (scan_four_ue mode)

  pub Replays-frame : Replays mode copy_h264_frame scan_frame (λ u. u)
  unfolding copy_h264_frame scan_frame
  Replays-frame = Replays-then_bits 1 _ _ (omega arith) λ _. Replays-then_ue _ _ λ _.
      Replays-then_ue _ _ λ _. Replays-then_bits 1 _ _ (omega arith) λ f.
        Replays-then _ _ (Replays-when (f == 0) (Replays-flag mode))
          (Replays-then_bits 1 _ _ (omega arith) λ _. Replays-flagged mode (Replays-four_ue mode))
