-- ===== src/Sps/Hevc/Vui.antt =====
-- The VUI of the HEVC rewriter: the input's, with its colours replaced, or a fresh one. Its output has
-- the flag of the VUI set.
use zpenflow.Base.{ℕ, ◌==◌, arith, List, [], ◌++◌, All, false, Option, some, none, if◌then◌else◌}
use zpenflow.Base.Words.{IsBit}
use zpenflow.Sps.Bits.{bits_of, bits_of-IsBit}
use zpenflow.Sps.Walker.{Walk, ◌>>=◌, ◌>>◌, pure, fail, get_bits, get_ue, put_bits, copy_bits, when}
use zpenflow.Sps.Walker.Runs.{Runs, Runs-pure, Runs-bind, Runs-then_get_bits}
use zpenflow.Sps.Walker.Scan.{Replays-then, Replays-then_bits, Replays-then_ue, Replays-done}
use zpenflow.Sps.Walker.Replays.{
  Replays, Replays-map, Replays-fixed, Replays-bind, Emits, Emits-bind, Emits-put_bits,
  Emits-then_put_bits, Emits-then_reading, Emits-if, Emits-fail, Emits-pure,
}
use zpenflow.Sps.Walker.Forced.{Replays-forced_flag}
use zpenflow.Sps.Vui.{flagged, copy_two_ue, copy_four_ue}
use zpenflow.Sps.Vui.Scan.{
  scan_flagged, scan_aspect_ratio, scan_flag, scan_two_ue, scan_four_ue, Replays-flagged,
  Replays-aspect_ratio, Replays-flag, Replays-two_ue, Replays-four_ue, Runs-then_unflagged,
}
use zpenflow.Sps.Vui.Signal.{
  signal_bits, signal_bits-IsBit, Emits-write_signal, Runs-read_signal, Replays-read_signal,
  VideoSignal, read_video_signal, full_range_bt709,
}
use zpenflow.Sps.Hevc.Tail.{
  copy_hevc_timing_info, copy_hevc_restriction, copy_hevc_vui_with_full_range_bt709,
  emit_minimal_hevc_vui, replace_hevc_vui, end_hevc_sps,
}

-- A flag that must be clear, and is written so.
refuse_flag : Walk (Unit {0})
refuse_flag = do v ← get_bits 1; when (v == 1) fail; put_bits 0 1

abbrev read_clear : Walk (Unit {0})
read_clear = do v ← get_bits 1; when (v == 1) fail

Replays-refuse_flag : Replays false refuse_flag read_clear (λ u. u)
unfolding refuse_flag bits_of
Replays-refuse_flag =
    Replays-fixed
      (Emits-then_reading _ _ λ v.
        Emits-bind _ (Emits-if (v == 1) (Emits-fail []) (Emits-pure tt)) tt λ _. Emits-put_bits 0 1)
      (bits_of-IsBit 1 0) (Runs-then_get_bits 1 0 _ (omega arith) (omega arith) (Runs-pure tt))

-- What a decoder reads of the end of a parameter set: no extension.
abbrev pub read_hevc_end : Walk (Unit {0})
read_hevc_end = read_clear

pub Replays-end : Replays false end_hevc_sps read_hevc_end (λ u. u)
unfolding end_hevc_sps refuse_flag
Replays-end = Replays-refuse_flag

read_timing_info : Walk (Unit {0})
read_timing_info = do
  _ ← get_bits 32
  _ ← get_bits 32
  scan_flagged false (do _ ← get_ue; pure tt)
  read_clear

Replays-timing_info : Replays false copy_hevc_timing_info read_timing_info (λ u. u)
unfolding copy_hevc_timing_info read_timing_info refuse_flag
Replays-timing_info = Replays-then_bits 32 _ _ (omega arith) λ _.
    Replays-then_bits 32 _ _ (omega arith) λ _.
      Replays-then _ _ (Replays-flagged false (Replays-then_ue _ _ λ _. Replays-done false))
        Replays-refuse_flag

read_restriction : Walk (Unit {0})
read_restriction = do
  _ ← get_bits 1
  _ ← get_bits 1
  _ ← get_bits 1
  _ ← get_ue
  _ ← get_ue
  _ ← get_ue
  _ ← get_ue
  _ ← get_ue
  pure tt

Replays-restriction : Replays false copy_hevc_restriction read_restriction (λ u. u)
unfolding copy_hevc_restriction read_restriction
Replays-restriction = Replays-then_bits 1 _ _ (omega arith) λ _.
    Replays-then_bits 1 _ _ (omega arith) λ _. Replays-then_bits 1 _ _ (omega arith) λ _.
      Replays-then_ue _ _ λ _. Replays-then_ue _ _ λ _.
        Replays-then_ue _ _
          λ _. Replays-then_ue _ _ λ _. Replays-then_ue _ _ λ _. Replays-done false

-- What follows the colours.
copy_vui_rest : Walk (Unit {0})
copy_vui_rest = do
  flagged copy_two_ue
  copy_bits 1
  copy_bits 1
  copy_bits 1
  flagged copy_four_ue
  flagged copy_hevc_timing_info
  flagged copy_hevc_restriction

read_vui_rest : Walk (Unit {0})
read_vui_rest = do
  scan_flagged false (scan_two_ue false)
  _ ← get_bits 1
  _ ← get_bits 1
  _ ← get_bits 1
  scan_flagged false (scan_four_ue false)
  scan_flagged false read_timing_info
  scan_flagged false read_restriction

Replays-vui_rest : Replays false copy_vui_rest read_vui_rest (λ u. u)
unfolding copy_vui_rest read_vui_rest
Replays-vui_rest = Replays-then _ _ (Replays-flagged false (Replays-two_ue false)) (
    Replays-then_bits 1 _ _ (omega arith) λ _. Replays-then_bits 1 _ _ (omega arith) λ _.
      Replays-then_bits 1 _ _ (omega arith) λ _.
        Replays-then _ _ (Replays-flagged false (Replays-four_ue false)) (
          Replays-then _ _ (Replays-flagged false Replays-timing_info)
            (Replays-flagged false Replays-restriction)))

-- The colours that a decoder reads of a VUI.
read_hevc_vui : Walk (Option VideoSignal)
read_hevc_vui = do
  scan_flagged false (scan_aspect_ratio false)
  scan_flagged false (scan_flag false)
  signal ← read_video_signal
  read_vui_rest
  pure signal

Replays-read_vui :
    Replays false copy_hevc_vui_with_full_range_bt709 read_hevc_vui (λ _. some full_range_bt709)
unfolding copy_hevc_vui_with_full_range_bt709 read_hevc_vui copy_vui_rest
Replays-read_vui = Replays-bind _ _ (Replays-flagged false (Replays-aspect_ratio false)) λ _.
    Replays-bind _ _ (Replays-flagged false (Replays-flag false)) λ _.
      Replays-bind _ _ Replays-read_signal
        λ _. Replays-map (λ (u : Unit {0}). some full_range_bt709) Replays-vui_rest

-- The fresh VUI: no optional part but the signal.
zeros : List ℕ
unfolding bits_of
zeros =
    bits_of 1 0
    ++ (bits_of 1 0
        ++ (bits_of 1 0 ++ (bits_of 1 0 ++ (bits_of 1 0 ++ (bits_of 1 0 ++ bits_of 1 0)))))

minimal_bits : List ℕ
unfolding bits_of zeros
minimal_bits = bits_of 1 0 ++ (bits_of 1 0 ++ (signal_bits ++ zeros))

minimal_bits-IsBit : All IsBit minimal_bits
unfolding minimal_bits signal_bits zeros
minimal_bits-IsBit = omega arith

Emits-minimal : Emits emit_minimal_hevc_vui minimal_bits
unfolding emit_minimal_hevc_vui minimal_bits zeros
Emits-minimal = Emits-then_put_bits 0 1 _ (
    Emits-then_put_bits 0 1 _ (
      Emits-bind _ Emits-write_signal signal_bits-IsBit λ _. Emits-then_put_bits 0 1 _ (
        Emits-then_put_bits 0 1 _ (
          Emits-then_put_bits 0 1 _ (
            Emits-then_put_bits 0 1 _
              (Emits-then_put_bits 0 1 _ (Emits-then_put_bits 0 1 _ (Emits-put_bits 0 1))))))))

Runs-rest : Runs read_vui_rest zeros [] tt
unfolding read_vui_rest zeros scan_flagged bits_of
Runs-rest = Runs-then_unflagged false _ _ (
    Runs-then_get_bits 1 0 _ (omega arith) (omega arith) (
      Runs-then_get_bits 1 0 _ (omega arith) (omega arith) (
        Runs-then_get_bits 1 0 _ (omega arith) (omega arith) (
          Runs-then_unflagged false _ _ (
            Runs-then_unflagged false _ _
              (Runs-then_get_bits 1 0 _ (omega arith) (omega arith) (Runs-pure tt)))))))

Runs-read_minimal : Runs read_hevc_vui minimal_bits [] (some full_range_bt709)
unfolding read_hevc_vui minimal_bits zeros
Runs-read_minimal = Runs-then_unflagged false _ _ (
    Runs-then_unflagged false _ _ (
      Runs-bind _ Runs-read_signal tt
        (Runs-bind _ Runs-rest tt (Runs-pure (some full_range_bt709)))))

pub read_hevc_vui_block : Walk (Option VideoSignal)
read_hevc_vui_block = do present ← get_bits 1; if present == 1 then read_hevc_vui else pure none

-- A decoder finds a VUI with full-range BT.709 colours.
pub Replays-read_vui_block :
    Replays false replace_hevc_vui read_hevc_vui_block (λ _. some full_range_bt709)
unfolding replace_hevc_vui read_hevc_vui_block bits_of
Replays-read_vui_block =
    Replays-forced_flag read_hevc_vui Replays-read_vui
      (Replays-fixed Emits-minimal minimal_bits-IsBit Runs-read_minimal)
      λ es out a run. Runs-then_get_bits 1 1 _ (omega arith) (omega arith) run
