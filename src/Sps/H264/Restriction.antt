-- ===== src/Sps/H264/Restriction.antt =====
-- The bitstream restriction that the H.264 rewriter puts in place of the input's.
use zpenflow.Base.{
  ℕ, arith, List, [], ◌++◌, All, append-nil, ◌==◌, true, false, Option, none, some, if◌then◌else◌,
}
use mathlib.Core.Path.{subst}
use zpenflow.Base.Words.{IsBit}
use zpenflow.Sps.Bits.{bits_of}
use zpenflow.Sps.Writer.Golomb.{ue_code}
use zpenflow.Sps.Walker.{Walk, ◌>>=◌, ◌>>◌, pure, get_bits, get_ue}
use zpenflow.Sps.Walker.Runs.{
  Runs, Runs-pure, Runs-bind, Runs-put_ue, Runs-then_get_bits, Runs-then_get_ue, Runs-then_put_bits,
  Runs-then_put_ue,
}
use zpenflow.Sps.Walker.Replays.{
  Replays, Replays-fixed, Emits, Emits-bind, Emits-pure, Emits-put_ue, Emits-if, Emits-then_reading,
  Emits-then_put_bits, Emits-then_put_ue,
}
use zpenflow.Sps.H264.{drop_bitstream_restriction, write_bitstream_restriction}

unfoldable pub restriction_bits : List ℕ
unfolding bits_of ue_code
restriction_bits =
    bits_of 1 1
    ++ (bits_of 1 1
        ++ (ue_code 0 0
            ++ (ue_code 0 0 ++ (ue_code 4 1 ++ (ue_code 4 1 ++ (ue_code 0 0 ++ ue_code 1 0))))))

pub restriction_bits-IsBit : All IsBit restriction_bits
unfolding restriction_bits
restriction_bits-IsBit = omega arith

unfoldable pub replace_bitstream_restriction : Walk (Unit {0})
replace_bitstream_restriction = do drop_bitstream_restriction; write_bitstream_restriction

Emits-drop : Emits drop_bitstream_restriction []
unfolding drop_bitstream_restriction
Emits-drop = Emits-then_reading _ _ λ v.
    Emits-if (v == 1)
      (Emits-then_reading _ _ λ _. Emits-then_reading _ _ λ _. Emits-then_reading _ _ λ _.
        Emits-then_reading _ _ λ _.
          Emits-then_reading _ _
            λ _. Emits-then_reading _ _ λ _. Emits-then_reading _ _ λ _. Emits-pure tt)
      (Emits-pure tt)

pub Emits-write_restriction : Emits write_bitstream_restriction restriction_bits
unfolding write_bitstream_restriction restriction_bits
Emits-write_restriction = Emits-then_put_bits 1 1 _ (
    Emits-then_put_bits 1 1 _ (
      Emits-then_put_ue 0 0 _ (omega arith) (omega arith) (
        Emits-then_put_ue 0 0 _ (omega arith) (omega arith) (
          Emits-then_put_ue 4 1 _ (omega arith) (omega arith) (
            Emits-then_put_ue 4 1 _ (omega arith) (omega arith) (
              Emits-then_put_ue 0 0 _ (omega arith) (omega arith)
                (Emits-put_ue 1 0 (omega arith) (omega arith))))))))

Emits-replace : Emits replace_bitstream_restriction restriction_bits
unfolding replace_bitstream_restriction
Emits-replace = Emits-bind _ Emits-drop tt (λ _. Emits-write_restriction)

Runs-drop : Runs drop_bitstream_restriction restriction_bits [] tt
unfolding drop_bitstream_restriction restriction_bits
Runs-drop = Runs-then_get_bits 1 1 _ (omega arith) (omega arith) (
    Runs-then_get_bits 1 1 _ (omega arith) (omega arith) (
      Runs-then_get_ue 0 0 _ (omega arith) (omega arith) (
        Runs-then_get_ue 0 0 _ (omega arith) (omega arith) (
          Runs-then_get_ue 4 1 _ (omega arith) (omega arith) (
            Runs-then_get_ue 4 1 _ (omega arith) (omega arith) (
              Runs-then_get_ue 0 0 _ (omega arith) (omega arith)
                (Runs-then_get_ue 1 0 _ (omega arith) (omega arith) (Runs-pure tt))))))))

pub Runs-write_restriction : Runs write_bitstream_restriction [] restriction_bits tt
unfolding write_bitstream_restriction restriction_bits
Runs-write_restriction = Runs-then_put_bits 1 1 _ (
    Runs-then_put_bits 1 1 _ (
      Runs-then_put_ue 0 0 _ (omega arith) (omega arith) (
        Runs-then_put_ue 0 0 _ (omega arith) (omega arith) (
          Runs-then_put_ue 4 1 _ (omega arith) (omega arith) (
            Runs-then_put_ue 4 1 _ (omega arith) (omega arith) (
              Runs-then_put_ue 0 0 _ (omega arith) (omega arith)
                (Runs-put_ue 1 0 (omega arith) (omega arith))))))))

pub Runs-replace : Runs replace_bitstream_restriction restriction_bits restriction_bits tt
unfolding replace_bitstream_restriction
Runs-replace =
    subst (λ (t : List ℕ). Runs replace_bitstream_restriction t restriction_bits tt)
      (append-nil restriction_bits) (Runs-bind _ Runs-drop tt Runs-write_restriction)

-- The block is replaced by itself.
pub Replays-replace_restriction :
    Replays true
      (do drop_bitstream_restriction; write_bitstream_restriction)
      (do drop_bitstream_restriction; write_bitstream_restriction)
      (λ u. u)
unfolding replace_bitstream_restriction
Replays-replace_restriction = Replays-fixed Emits-replace restriction_bits-IsBit Runs-replace

-- What a decoder learns from the block: how many frames it must reorder, and how many it must hold.
pub record Restriction : Type 0 where
  pub max_num_reorder_frames : ℕ
  pub max_dec_frame_buffering : ℕ

pub read_bitstream_restriction : Walk (Option Restriction)
read_bitstream_restriction = do
  present ← get_bits 1
  if present == 1
      then (do
        _ ← get_bits 1
        _ ← get_ue
        _ ← get_ue
        _ ← get_ue
        _ ← get_ue
        reorder ← get_ue
        buffering ← get_ue
        pure (
            some
              (record { max_num_reorder_frames = reorder; max_dec_frame_buffering = buffering })))
      else pure none

abbrev pub one_frame_no_reorder : Restriction
one_frame_no_reorder = record { max_num_reorder_frames = 0; max_dec_frame_buffering = 1 }

pub Runs-read_restriction :
    Runs read_bitstream_restriction restriction_bits [] (some one_frame_no_reorder)
unfolding read_bitstream_restriction restriction_bits
Runs-read_restriction = Runs-then_get_bits 1 1 _ (omega arith) (omega arith) (
    Runs-then_get_bits 1 1 _ (omega arith) (omega arith) (
      Runs-then_get_ue 0 0 _ (omega arith) (omega arith) (
        Runs-then_get_ue 0 0 _ (omega arith) (omega arith) (
          Runs-then_get_ue 4 1 _ (omega arith) (omega arith) (
            Runs-then_get_ue 4 1 _ (omega arith) (omega arith) (
              Runs-then_get_ue 0 0 _ (omega arith) (omega arith) (
                Runs-then_get_ue 1 0 _ (omega arith) (omega arith)
                  (Runs-pure (some one_frame_no_reorder)))))))))

pub Replays-read_restriction :
    Replays false
      (do drop_bitstream_restriction; write_bitstream_restriction)
      read_bitstream_restriction
      (λ _. some one_frame_no_reorder)
unfolding replace_bitstream_restriction
Replays-read_restriction = Replays-fixed Emits-replace restriction_bits-IsBit Runs-read_restriction
