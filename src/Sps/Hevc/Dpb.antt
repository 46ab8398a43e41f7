-- ===== src/Sps/Hevc/Dpb.antt =====
-- The picture buffer sizes that a decoder reads from a rewritten HEVC parameter set.
use zpenflow.Base.{ℕ, zero, suc, ◌+◌, ◌-◌, ◌==◌, ◌&&◌, arith, Bool, true, false, if◌then◌else◌}
use zpenflow.Sps.Walker.{Walk, ◌>>=◌, ◌>>◌, pure, get_bits, get_ue, repeat}
use zpenflow.Sps.Walker.Replays.{Replays, Replays-bind, Replays-pure, Replays-map}
use zpenflow.Sps.Walker.Scan.{Replays-then_bits}
use zpenflow.Sps.Walker.Copies.{Replays-get_replaced_ue}
use zpenflow.Sps.Hevc.Head.{replace_dpb_sizes}
use zpenflow.Sps.Hevc.Head.Log2.{walk_head}
use zpenflow.Sps.Hevc.Head.Scan.{
  scan_profile_tier_level, scan_picture, Replays-profile_tier_level, Replays-picture,
}

pub record DpbSizes : Type 0 where
  pub max_dec_pic_buffering_minus1 : ℕ
  pub max_num_reorder_pics : ℕ
  pub max_latency_increase_plus1 : ℕ

-- One picture, no reordering, no added latency.
is_smallest : DpbSizes → Bool
is_smallest d =
    (d.max_dec_pic_buffering_minus1 == 0)
    && ((d.max_num_reorder_pics == 0) && (d.max_latency_increase_plus1 == 0))

read_dpb_sizes : Walk DpbSizes
read_dpb_sizes = do
  buffering ← get_ue
  reorder ← get_ue
  latency ← get_ue
  pure (record {
    max_dec_pic_buffering_minus1 = buffering;
    max_num_reorder_pics = reorder;
    max_latency_increase_plus1 = latency;
  })

-- Whether each of the next sub-layers has the smallest sizes.
read_all_smallest : ℕ → Walk Bool
unfolding is_smallest read_dpb_sizes
read_all_smallest zero = pure true
read_all_smallest (suc n) = do
  d ← read_dpb_sizes
  rest ← read_all_smallest n
  pure (is_smallest d && rest)

-- The head: the width of a picture order count, and whether all sub-layers whose sizes the parameter
-- set carries have the smallest.
pub read_hevc_head : Walk (ℕ × Bool)
unfolding read_all_smallest
read_hevc_head = do
  _ ← get_bits 4
  sps_max_sub_layers_minus1 ← get_bits 3
  _ ← get_bits 1
  scan_profile_tier_level false sps_max_sub_layers_minus1
  log2_max_poc ← scan_picture false
  sub_layer_info_present ← get_bits 1
  let i_start = if sub_layer_info_present == 1 then 0 else sps_max_sub_layers_minus1
  all_smallest ← read_all_smallest (sps_max_sub_layers_minus1 + 1 - i_start)
  pure (log2_max_poc, all_smallest)

unfoldable pub read_hevc_dpb : Walk Bool
read_hevc_dpb = do head ← read_hevc_head; pure head.1

smallest : DpbSizes
smallest = record {
  max_dec_pic_buffering_minus1 = 0;
  max_num_reorder_pics = 0;
  max_latency_increase_plus1 = 0;
}

Replays-sizes : Replays false replace_dpb_sizes read_dpb_sizes (λ _. smallest)
unfolding replace_dpb_sizes read_dpb_sizes smallest
Replays-sizes = Replays-bind _ _ (Replays-get_replaced_ue 0 0 (omega arith) (omega arith)) λ _.
    Replays-bind _ _ (Replays-get_replaced_ue 0 0 (omega arith) (omega arith)) λ _.
      Replays-map
        (λ (t : ℕ). record {
          max_dec_pic_buffering_minus1 = 0;
          max_num_reorder_pics = 0;
          max_latency_increase_plus1 = t;
        })
        (Replays-get_replaced_ue 0 0 (omega arith) (omega arith))

Replays-all_sizes :
    (n : ℕ) → Replays false (repeat n replace_dpb_sizes) (read_all_smallest n) (λ _. true)
unfolding read_all_smallest is_smallest smallest repeat replace_dpb_sizes
Replays-all_sizes zero = Replays-pure false (λ _. true) tt
Replays-all_sizes (suc n) =
    Replays-bind _ _ Replays-sizes λ _. Replays-map (λ (t : Bool). t) (Replays-all_sizes n)

-- Whatever head the walk accepts, a decoder finds in what it writes the same width, and for each
-- sub-layer one picture, no reordering and no added latency.
pub walk_head-smallest : Replays false walk_head read_hevc_head (λ log2. (log2, true))
unfolding walk_head read_hevc_head
walk_head-smallest = Replays-then_bits 4 _ _ (omega arith) λ _.
    Replays-then_bits 3 _ _ (omega arith) λ n. Replays-then_bits 1 _ _ (omega arith) λ _.
      Replays-bind _ _ (Replays-profile_tier_level false n) λ _.
        Replays-bind _ _ (Replays-picture false) λ log2.
          Replays-then_bits 1 _ _ (omega arith) λ present.
            Replays-bind _ _ (Replays-all_sizes (n + 1 - (if present == 1 then 0 else n)))
              λ _. Replays-pure false (λ (v : ℕ). (v, true)) log2

pub walk_head-dpb : Replays false walk_head read_hevc_dpb (λ _. true)
unfolding read_hevc_dpb
walk_head-dpb = Replays-map (λ (h : ℕ × Bool). h.1) walk_head-smallest
