-- ===== src/Sps/Vui/Signal.antt =====
-- The video signal block that both rewriters put in place of the input's.
use zpenflow.Base.{
  ℕ, arith, List, [], ◌++◌, All, append-nil, ◌==◌, true, false, Option, none, some, if◌then◌else◌,
}
use mathlib.Core.Path.{subst}
use zpenflow.Base.Words.{IsBit}
use zpenflow.Sps.Bits.{bits_of}
use zpenflow.Sps.Walker.{Walk, ◌>>=◌, pure, get_bits}
use zpenflow.Sps.Walker.Runs.{
  Runs, Runs-pure, Runs-bind, Runs-put_bits, Runs-then_get_bits, Runs-then_put_bits,
}
use zpenflow.Sps.Walker.Replays.{
  Replays, Replays-fixed, Emits, Emits-bind, Emits-pure, Emits-put_bits, Emits-if,
  Emits-then_reading, Emits-then_put_bits,
}
use zpenflow.Sps.Vui.{
  drop_video_signal_type, write_full_range_bt709_video_signal_type, replace_video_signal_type,
}

-- Format 5, full range, and BT.709 three times.
unfoldable pub signal_bits : List ℕ
unfolding bits_of
signal_bits =
    bits_of 1 1
    ++ (bits_of 3 5
        ++ (bits_of 1 1 ++ (bits_of 1 1 ++ (bits_of 8 1 ++ (bits_of 8 1 ++ bits_of 8 1)))))

pub signal_bits-IsBit : All IsBit signal_bits
unfolding signal_bits
signal_bits-IsBit = omega arith

Emits-drop : Emits drop_video_signal_type []
unfolding drop_video_signal_type
Emits-drop = Emits-then_reading _ _ λ v.
    Emits-if (v == 1)
      (Emits-then_reading _ _ λ _. Emits-then_reading _ _ λ _. Emits-then_reading _ _ λ d.
        Emits-if (d == 1)
          (Emits-then_reading _ _
            λ _. Emits-then_reading _ _ λ _. Emits-then_reading _ _ λ _. Emits-pure tt)
          (Emits-pure tt))
      (Emits-pure tt)

pub Emits-write_signal : Emits write_full_range_bt709_video_signal_type signal_bits
unfolding write_full_range_bt709_video_signal_type signal_bits
Emits-write_signal = Emits-then_put_bits 1 1 _ (
    Emits-then_put_bits 5 3 _ (
      Emits-then_put_bits 1 1 _ (
        Emits-then_put_bits 1 1 _
          (Emits-then_put_bits 1 8 _ (Emits-then_put_bits 1 8 _ (Emits-put_bits 1 8))))))

Emits-replace_signal : Emits replace_video_signal_type signal_bits
unfolding replace_video_signal_type
Emits-replace_signal = Emits-bind _ Emits-drop tt (λ _. Emits-write_signal)

Runs-drop : Runs drop_video_signal_type signal_bits [] tt
unfolding drop_video_signal_type signal_bits
Runs-drop = Runs-then_get_bits 1 1 _ (omega arith) (omega arith) (
    Runs-then_get_bits 3 5 _ (omega arith) (omega arith) (
      Runs-then_get_bits 1 1 _ (omega arith) (omega arith) (
        Runs-then_get_bits 1 1 _ (omega arith) (omega arith) (
          Runs-then_get_bits 8 1 _ (omega arith) (omega arith) (
            Runs-then_get_bits 8 1 _ (omega arith) (omega arith)
              (Runs-then_get_bits 8 1 _ (omega arith) (omega arith) (Runs-pure tt)))))))

pub Runs-write_signal : Runs write_full_range_bt709_video_signal_type [] signal_bits tt
unfolding write_full_range_bt709_video_signal_type signal_bits
Runs-write_signal = Runs-then_put_bits 1 1 _ (
    Runs-then_put_bits 5 3 _ (
      Runs-then_put_bits 1 1 _ (
        Runs-then_put_bits 1 1 _
          (Runs-then_put_bits 1 8 _ (Runs-then_put_bits 1 8 _ (Runs-put_bits 1 8))))))

-- The block is replaced by itself.
pub Runs-replace_signal : Runs replace_video_signal_type signal_bits signal_bits tt
unfolding replace_video_signal_type
Runs-replace_signal =
    subst (λ (t : List ℕ). Runs replace_video_signal_type t signal_bits tt) (append-nil signal_bits)
      (Runs-bind _ Runs-drop tt Runs-write_signal)

pub Replays-replace_signal :
    Replays true replace_video_signal_type replace_video_signal_type (λ u. u)
Replays-replace_signal = Replays-fixed Emits-replace_signal signal_bits-IsBit Runs-replace_signal

-- What a decoder learns from a video signal block (ITU-T H.264 E.1.1, H.265 E.2.1).
pub record ColourDescription : Type 0 where
  pub primaries : ℕ
  pub transfer : ℕ
  pub matrix : ℕ

pub record VideoSignal : Type 0 where
  pub format : ℕ
  pub full_range : ℕ
  pub colour : Option ColourDescription

colour_description : ℕ → Walk (Option ColourDescription)
colour_description colour_desc =
    if colour_desc == 1
    then (do
      primaries ← get_bits 8
      transfer ← get_bits 8
      matrix ← get_bits 8
      pure (some (record { primaries = primaries; transfer = transfer; matrix = matrix })))
    else pure none

pub read_video_signal : Walk (Option VideoSignal)
unfolding colour_description
read_video_signal = do
  present ← get_bits 1
  if present == 1
      then (do
        format ← get_bits 3
        full_range ← get_bits 1
        colour_desc ← get_bits 1
        colour ← colour_description colour_desc
        pure (some (record { format = format; full_range = full_range; colour = colour })))
      else pure none

-- Unspecified format, full range, BT.709.
abbrev pub full_range_bt709 : VideoSignal
full_range_bt709 = record {
  format = 5;
  full_range = 1;
  colour = some (record { primaries = 1; transfer = 1; matrix = 1 });
}

colour_bits : List ℕ
unfolding bits_of
colour_bits = bits_of 8 1 ++ (bits_of 8 1 ++ (bits_of 8 1 ++ []))

Runs-colour_description : Runs (colour_description 1) colour_bits [] full_range_bt709.colour
unfolding colour_description colour_bits
Runs-colour_description = Runs-then_get_bits 8 1 _ (omega arith) (omega arith) (
    Runs-then_get_bits 8 1 _ (omega arith) (omega arith)
      (Runs-then_get_bits 8 1 _ (omega arith) (omega arith) (Runs-pure full_range_bt709.colour)))

pub Runs-read_signal : Runs read_video_signal signal_bits [] (some full_range_bt709)
unfolding read_video_signal signal_bits colour_bits
Runs-read_signal = Runs-then_get_bits 1 1 _ (omega arith) (omega arith) (
    Runs-then_get_bits 3 5 _ (omega arith) (omega arith) (
      Runs-then_get_bits 1 1 _ (omega arith) (omega arith) (
        Runs-then_get_bits 1 1 _ (omega arith) (omega arith)
          (Runs-bind _ Runs-colour_description tt (Runs-pure (some full_range_bt709))))))

-- Whatever the input's block was, a decoder reads full-range BT.709 from the one written.
pub Replays-read_signal :
    Replays false replace_video_signal_type read_video_signal (λ _. some full_range_bt709)
Replays-read_signal = Replays-fixed Emits-replace_signal signal_bits-IsBit Runs-read_signal
