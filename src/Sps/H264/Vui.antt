-- ===== src/Sps/H264/Vui.antt =====
-- The VUI of the H.264 rewriter: the input's, patched, or a fresh one.
use zpenflow.Base.{
  ℕ, ◌==◌, arith, List, [], ◌++◌, append-nil, All, Bool, true, false, Option, some, none,
  if◌then◌else◌,
}
use mathlib.Core.Path.{subst}
use zpenflow.Base.Words.{IsBit}
use zpenflow.Sps.Bits.{bits_of}
use zpenflow.Sps.Walker.{Walk, ◌>>=◌, ◌>>◌, pure, get_bits}
use zpenflow.Sps.Walker.Runs.{
  Runs, Runs-pure, Runs-bind, Runs-then_pure, Runs-then_get_bits, Runs-then_put_bits,
}
use zpenflow.Sps.Walker.Scan.{Runs-then_bits, Replays-then}
use zpenflow.Sps.Walker.Replays.{
  Replays, Replays-map, Replays-fixed, Replays-bind, Emits, Emits-bind, Emits-then_put_bits, echo,
}
use zpenflow.Sps.Walker.Forced.{Replays-forced_flag}
use zpenflow.Sps.Vui.{flagged, copy_aspect_ratio, copy_flag, copy_two_ue}
use zpenflow.Sps.Vui.Scan.{
  scan_flagged, scan_aspect_ratio, scan_flag, Replays-flagged, Replays-aspect_ratio, Replays-flag,
  Runs-then_unflagged,
}
use zpenflow.Sps.Vui.Signal.{
  signal_bits, signal_bits-IsBit, Emits-write_signal, Runs-replace_signal, Runs-read_signal,
  Replays-replace_signal, Replays-read_signal, VideoSignal, read_video_signal, full_range_bt709,
}
use zpenflow.Sps.H264.{
  copy_timing_info, copy_h264_hrd_parameters, copy_cpb_entry, copy_h264_vui_middle,
  copy_h264_vui_with_patched_bitstream_restriction, emit_minimal_h264_vui, replace_h264_vui,
}
use zpenflow.Sps.H264.Restriction.{
  replace_bitstream_restriction, restriction_bits, Emits-write_restriction,
  Replays-replace_restriction, Runs-replace, Replays-read_restriction, Runs-read_restriction,
  Restriction, read_bitstream_restriction, one_frame_no_reorder,
}
use zpenflow.Sps.H264.Scan.{scan_vui_middle, Replays-vui_middle}

Replays-copy_vui :
    Replays true copy_h264_vui_with_patched_bitstream_restriction
      copy_h264_vui_with_patched_bitstream_restriction
      (λ u. u)
unfolding copy_h264_vui_with_patched_bitstream_restriction flagged scan_flagged copy_aspect_ratio
    scan_aspect_ratio copy_flag scan_flag copy_h264_vui_middle scan_vui_middle copy_two_ue
    copy_timing_info copy_h264_hrd_parameters copy_cpb_entry
Replays-copy_vui = Replays-then _ _ (Replays-flagged true (Replays-aspect_ratio true)) (
    Replays-then _ _ (Replays-flagged true (Replays-flag true)) (
      Replays-then _ _ Replays-replace_signal
        (Replays-then _ _ (Replays-vui_middle true) Replays-replace_restriction)))

-- What a decoder reads of a VUI.
pub record Vui : Type 0 where
  pub signal : Option VideoSignal
  pub restriction : Option Restriction

pub read_h264_vui : Walk Vui
read_h264_vui = do
  scan_flagged false (scan_aspect_ratio false)
  scan_flagged false (scan_flag false)
  signal ← read_video_signal
  scan_vui_middle false
  restriction ← read_bitstream_restriction
  pure (record { signal = signal; restriction = restriction })

abbrev pub patched_vui : Vui
patched_vui = record { signal = some full_range_bt709; restriction = some one_frame_no_reorder }

Replays-read_vui :
    Replays false copy_h264_vui_with_patched_bitstream_restriction read_h264_vui (λ _. patched_vui)
unfolding copy_h264_vui_with_patched_bitstream_restriction read_h264_vui
Replays-read_vui = Replays-bind _ _ (Replays-flagged false (Replays-aspect_ratio false)) λ _.
    Replays-bind _ _ (Replays-flagged false (Replays-flag false)) λ _.
      Replays-bind _ _ Replays-read_signal λ _. Replays-bind _ _ (Replays-vui_middle false) λ _.
        Replays-map
          (λ (t : Option Restriction). record { signal = some full_range_bt709; restriction = t })
          Replays-read_restriction

-- The fresh VUI: no optional part but the signal and the restriction.
minimal_bits : List ℕ
unfolding bits_of
minimal_bits =
    bits_of 1 0
    ++ (bits_of 1 0
        ++ (signal_bits
            ++ (bits_of 1 0
                ++ (bits_of 1 0
                    ++ (bits_of 1 0 ++ (bits_of 1 0 ++ (bits_of 1 0 ++ restriction_bits)))))))

minimal_bits-IsBit : All IsBit minimal_bits
unfolding minimal_bits signal_bits restriction_bits
minimal_bits-IsBit = omega arith

Emits-minimal : Emits emit_minimal_h264_vui minimal_bits
unfolding emit_minimal_h264_vui minimal_bits
Emits-minimal = Emits-then_put_bits 0 1 _ (
    Emits-then_put_bits 0 1 _ (
      Emits-bind _ Emits-write_signal signal_bits-IsBit λ _. Emits-then_put_bits 0 1 _ (
        Emits-then_put_bits 0 1 _ (
          Emits-then_put_bits 0 1 _
            (Emits-then_put_bits 0 1 _ (Emits-then_put_bits 0 1 _ Emits-write_restriction))))))

module _ (mode : Bool) where
  o : List ℕ
  o = bits_of 1 0

  z : List ℕ
  unfolding o
  z = echo mode o

  Runs-middle_zero :
      Runs
        (scan_vui_middle mode)
        (o ++ (o ++ (o ++ (o ++ (o ++ [])))))
        (z ++ (z ++ (z ++ (z ++ (z ++ [])))))
        tt
  unfolding scan_vui_middle z o
  Runs-middle_zero = Runs-then_unflagged mode _ _ (
      Runs-then_unflagged mode _ _ (
        Runs-then_bits mode 1 0 _ (omega arith) (omega arith) (
          Runs-then_pure tt _ (
            Runs-then_bits mode 1 0 _ (omega arith) (omega arith) (
              Runs-then_pure tt _ (
                Runs-then_pure tt _
                  (Runs-then_bits mode 1 0 _ (omega arith) (omega arith) (Runs-pure tt))))))))

Runs-copy_minimal :
    Runs copy_h264_vui_with_patched_bitstream_restriction minimal_bits minimal_bits tt
unfolding copy_h264_vui_with_patched_bitstream_restriction minimal_bits o z flagged scan_flagged
    copy_aspect_ratio scan_aspect_ratio copy_flag scan_flag copy_h264_vui_middle scan_vui_middle
    copy_two_ue copy_timing_info copy_h264_hrd_parameters copy_cpb_entry
    replace_bitstream_restriction
Runs-copy_minimal = Runs-then_unflagged true _ _ (
    Runs-then_unflagged true _ _ (
      Runs-bind _ Runs-replace_signal signal_bits-IsBit
        (Runs-bind _ (Runs-middle_zero true) (omega arith) Runs-replace)))

abbrev finish : Option Restriction → Vui
finish r = record { signal = some full_range_bt709; restriction = r }

Runs-read_minimal : Runs read_h264_vui minimal_bits [] patched_vui
unfolding read_h264_vui minimal_bits o z
Runs-read_minimal = Runs-then_unflagged false _ _ (
    Runs-then_unflagged false _ _ (
      Runs-bind _ Runs-read_signal tt (
        Runs-bind _ (Runs-middle_zero false) tt (
          subst
            (λ (t : List ℕ).
              Runs (read_bitstream_restriction >>= λ (r : Option Restriction). pure (finish r)) t []
                patched_vui)
            (append-nil restriction_bits)
            (Runs-bind (λ (r : Option Restriction). pure (finish r)) Runs-read_restriction tt
              (Runs-pure patched_vui))))))

-- The rewritten VUI is rewritten to itself.
pub Replays-replace_vui : Replays true replace_h264_vui replace_h264_vui (λ u. u)
unfolding replace_h264_vui bits_of
Replays-replace_vui =
    Replays-forced_flag copy_h264_vui_with_patched_bitstream_restriction Replays-copy_vui
      (Replays-fixed Emits-minimal minimal_bits-IsBit Runs-copy_minimal)
      λ es out a run.
        Runs-then_get_bits 1 1 _ (omega arith) (omega arith) (Runs-then_put_bits 1 1 _ run)

pub read_h264_vui_block : Walk (Option Vui)
read_h264_vui_block = do
  present ← get_bits 1
  if present == 1 then (do v ← read_h264_vui; pure (some v)) else pure none

-- A decoder finds the patched values in it.
pub Replays-read_vui_block :
    Replays false replace_h264_vui read_h264_vui_block (λ _. some patched_vui)
unfolding replace_h264_vui read_h264_vui_block bits_of
Replays-read_vui_block =
    Replays-forced_flag (read_h264_vui >>= λ v. pure (some v)) (Replays-map some Replays-read_vui)
      (Replays-map some (Replays-fixed Emits-minimal minimal_bits-IsBit Runs-read_minimal))
      λ es out a run. Runs-then_get_bits 1 1 _ (omega arith) (omega arith) run
