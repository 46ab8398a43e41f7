-- ===== src/Sps/H264/Patched.antt =====
-- The output of the H.264 rewriter: what a decoder reads of it, and that it is left alone.
use zpenflow.Base.{ℕ, ◌≡◌, arith, List, true, false, Option, some}
use zpenflow.Engine.{EngineResult, ok}
use zpenflow.Sps.Walker.{Walk, ◌>>=◌, ◌>>◌, pure, get_ue}
use zpenflow.Sps.Walker.Scan.{Replays-then}
use zpenflow.Sps.Walker.Copies.{Replays-replace_ue, Replays-get_replaced_ue}
use zpenflow.Sps.Walker.Replays.{Replays, Replays-bind, Replays-map}
use zpenflow.Sps.Walker.Rbsp.{decode_rbsp, decode-rewrite, rewrite-rewrite}
use zpenflow.Sps.Vui.{flagged, copy_flag, copy_four_ue}
use zpenflow.Sps.H264.{
  copy_h264_head, copy_h264_frame, copy_chroma_info, copy_poc, copy_poc_cycle, walk_h264_sps,
  patch_h264_sps_rbsp,
}
use zpenflow.Sps.H264.Scan.{scan_head, scan_frame, Replays-head, Replays-frame}
use zpenflow.Sps.H264.Vui.{
  Vui, patched_vui, read_h264_vui_block, Replays-replace_vui, Replays-read_vui_block,
}

-- What a decoder sizes its picture buffer and its colours by.
pub record Sps : Type 0 where
  pub max_num_ref_frames : ℕ
  pub vui : Option Vui

pub read_h264_sps : Walk Sps
read_h264_sps = do
  scan_head false
  max_num_ref_frames ← get_ue
  scan_frame false
  vui ← read_h264_vui_block
  pure (record { max_num_ref_frames = max_num_ref_frames; vui = vui })

pub decode_h264_sps : List ℕ → EngineResult Sps
decode_h264_sps = decode_rbsp read_h264_sps

abbrev pub patched_sps : Sps
patched_sps = record { max_num_ref_frames = 1; vui = some patched_vui }

Replays-read_sps : Replays false walk_h264_sps read_h264_sps (λ _. patched_sps)
unfolding walk_h264_sps read_h264_sps
Replays-read_sps = Replays-bind _ _ (Replays-head false) λ _.
    Replays-bind _ _ (Replays-get_replaced_ue 1 0 (omega arith) (omega arith)) λ _.
      Replays-bind _ _ (Replays-frame false) λ _.
        Replays-map (λ (t : Option Vui). record { max_num_ref_frames = 1; vui = t })
          Replays-read_vui_block

Replays-walk : Replays true walk_h264_sps walk_h264_sps (λ u. u)
unfolding walk_h264_sps copy_h264_head scan_head copy_h264_frame scan_frame copy_chroma_info
    copy_poc copy_poc_cycle flagged copy_flag copy_four_ue
Replays-walk = Replays-then _ _ (Replays-head true) (
    Replays-then _ _ (Replays-replace_ue 1 0 (omega arith) (omega arith))
      (Replays-then _ _ (Replays-frame true) Replays-replace_vui))

-- Whatever parameter set the rewriter accepts, a decoder of the result finds one reference frame, a
-- VUI that allows no reordering and one buffered frame, and full-range BT.709 colours.
pub decode-patch_h264 :
    (x y : List ℕ) → patch_h264_sps_rbsp x ≡ ok y → decode_h264_sps y ≡ ok patched_sps
unfolding patch_h264_sps_rbsp decode_h264_sps
decode-patch_h264 x y e = decode-rewrite x y e read_h264_sps (λ _. patched_sps) Replays-read_sps

-- A parameter set that the rewriter returned is returned unchanged when it is rewritten again.
pub patch_h264-patch_h264 :
    (x y : List ℕ) → patch_h264_sps_rbsp x ≡ ok y → patch_h264_sps_rbsp y ≡ ok y
unfolding patch_h264_sps_rbsp
patch_h264-patch_h264 x y e = rewrite-rewrite x y e Replays-walk
