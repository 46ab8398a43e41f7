-- ===== src/Sps/Hevc/Tail/Scan.antt =====
-- The grammar of what follows the picture buffer sizes, up to the VUI.
use zpenflow.Base.{
  ℕ, zero, suc, ◌+◌, ◌%◌, ◌^◌, ◌<◌, ◌==◌, arith, Bool, Option, none, some, List, [], ◌∷◌, ◌++◌,
  length, get_elem?, if◌then◌else◌,
}
use zpenflow.Sps.Walker.{Walk, ◌>>=◌, ◌>>◌, pure, fail, when, repeat}
use zpenflow.Sps.Walker.Replays.{
  Replays, Replays-bind, Replays-pure, Replays-repeat, Replays-if, Replays-fail,
}
use zpenflow.Sps.Walker.Scan.{
  scan_bits, scan_ue, Replays-bits, Replays-then_bits, Replays-then_ue, Replays-then, Replays-done,
  Replays-when,
}
use zpenflow.Sps.Vui.Scan.{scan_flagged, Replays-flagged}
use zpenflow.Sps.Hevc.Tail.{
  count_deltas, copy_delta_poc, ok_or_fail, predicting, copy_hevc_st_ref_pic_set,
  copy_st_ref_pic_sets, copy_scaling_flag, copy_pcm, copy_long_term, copy_hevc_tools,
}

module _ (mode : Bool) where
  unfoldable pub scan_deltas : ℕ → ℕ → Walk ℕ
  scan_deltas zero new_num_delta_pocs = pure new_num_delta_pocs
  scan_deltas (suc n) new_num_delta_pocs = do
    used_by_curr_pic_flag ← scan_bits mode 1
    use_delta_flag ← if used_by_curr_pic_flag == 0 then scan_bits mode 1 else pure 1
    scan_deltas n
        (if use_delta_flag == 1 then (new_num_delta_pocs + 1) % 2 ^ 32 else new_num_delta_pocs)

  Replays-deltas : (n k : ℕ) → Replays mode (count_deltas n k) (scan_deltas n k) (λ v. v)
  unfolding count_deltas scan_deltas
  Replays-deltas zero k = Replays-pure mode (λ v. v) k
  Replays-deltas (suc n) k = Replays-then_bits 1 _ _ (omega arith) λ used.
      Replays-bind _ _
        (Replays-if (used == 0) (Replays-bits mode 1 (omega arith)) (Replays-pure mode (λ v. v) 1))
        λ used_delta. Replays-deltas n (if used_delta == 1 then (k + 1) % 2 ^ 32 else k)

  unfoldable pub scan_delta_poc : Walk (Unit {0})
  scan_delta_poc = do scan_ue mode; scan_bits mode 1; pure tt

  Replays-delta_poc : Replays mode copy_delta_poc scan_delta_poc (λ u. u)
  unfolding copy_delta_poc scan_delta_poc
  Replays-delta_poc =
      Replays-then_ue _ _ λ _. Replays-then_bits 1 _ _ (omega arith) λ _. Replays-done mode

  -- The count of the predicting set writes and reads nothing.
  Replays-ok_or_fail : (o : Option ℕ) → Replays mode (ok_or_fail o) (ok_or_fail o) (λ v. v)
  unfolding ok_or_fail
  Replays-ok_or_fail none = Replays-fail mode fail (λ v. v)
  Replays-ok_or_fail (some n) = Replays-pure mode (λ v. v) n

  Replays-predicting :
      (i : ℕ) (counts : List ℕ) → Replays mode (predicting i counts) (predicting i counts) (λ v. v)
  unfolding predicting
  Replays-predicting zero counts = Replays-fail mode fail (λ v. v)
  Replays-predicting (suc i) counts = Replays-ok_or_fail (get_elem? counts i)

  unfoldable pub scan_st_ref_pic_set : ℕ → List ℕ → Walk ℕ
  unfolding scan_deltas scan_delta_poc
  scan_st_ref_pic_set st_rps_idx num_delta_pocs = do
    predicted ← if st_rps_idx == 0 then pure 0 else scan_bits mode 1
    if predicted == 1
        then (do
          scan_bits mode 1
          scan_ue mode
          n_dp ← predicting st_rps_idx num_delta_pocs
          scan_deltas (n_dp + 1) 0)
        else (do
          num_neg ← scan_ue mode
          num_pos ← scan_ue mode
          repeat num_neg scan_delta_poc
          repeat num_pos scan_delta_poc
          pure ((num_neg + num_pos) % 2 ^ 32))

  Replays-st_ref_pic_set :
      (i : ℕ) (counts : List ℕ)
      → Replays mode (copy_hevc_st_ref_pic_set i counts) (scan_st_ref_pic_set i counts) (λ v. v)
  unfolding copy_hevc_st_ref_pic_set scan_st_ref_pic_set
  Replays-st_ref_pic_set i counts =
      Replays-bind _ _
        (Replays-if (i == 0) (Replays-pure mode (λ v. v) 0) (Replays-bits mode 1 (omega arith)))
        λ predicted.
          Replays-if (predicted == 1)
            (Replays-then_bits 1 _ _ (omega arith) λ _.
              Replays-then_ue _ _
                λ _. Replays-bind _ _ (Replays-predicting i counts) λ n. Replays-deltas (n + 1) 0)
            (Replays-then_ue _ _ λ neg. Replays-then_ue _ _ λ pos.
              Replays-then _ _ (Replays-repeat neg Replays-delta_poc) (
                Replays-then _ _ (Replays-repeat pos Replays-delta_poc)
                  (Replays-pure mode (λ v. v) ((neg + pos) % 2 ^ 32))))

  unfoldable pub scan_st_ref_pic_sets : ℕ → List ℕ → Walk (Unit {0})
  unfolding scan_st_ref_pic_set
  scan_st_ref_pic_sets zero num_delta_pocs = pure tt
  scan_st_ref_pic_sets (suc n) num_delta_pocs = do
    k ← scan_st_ref_pic_set (length num_delta_pocs) num_delta_pocs
    scan_st_ref_pic_sets n (num_delta_pocs ++ (k ∷ []))

  Replays-st_ref_pic_sets :
      (n : ℕ) (counts : List ℕ)
      → Replays mode (copy_st_ref_pic_sets n counts) (scan_st_ref_pic_sets n counts) (λ u. u)
  unfolding copy_st_ref_pic_sets scan_st_ref_pic_sets
  Replays-st_ref_pic_sets zero counts = Replays-done mode
  Replays-st_ref_pic_sets (suc n) counts =
      Replays-bind _ _ (Replays-st_ref_pic_set (length counts) counts)
        λ k. Replays-st_ref_pic_sets n (counts ++ (k ∷ []))

  unfoldable pub scan_scaling_flag : Walk (Unit {0})
  scan_scaling_flag = do present ← scan_bits mode 1; when (present == 1) fail

  Replays-scaling_flag : Replays mode copy_scaling_flag scan_scaling_flag (λ u. u)
  unfolding copy_scaling_flag scan_scaling_flag
  Replays-scaling_flag =
      Replays-then_bits 1 _ _ (omega arith)
        λ s. Replays-when (s == 1) (Replays-fail mode fail (λ u. u))

  unfoldable pub scan_pcm : Walk (Unit {0})
  scan_pcm = do
    scan_bits mode 4
    scan_bits mode 4
    scan_ue mode
    scan_ue mode
    scan_bits mode 1
    pure tt

  Replays-pcm : Replays mode copy_pcm scan_pcm (λ u. u)
  unfolding copy_pcm scan_pcm
  Replays-pcm = Replays-then_bits 4 _ _ (omega arith) λ _.
      Replays-then_bits 4 _ _ (omega arith) λ _.
        Replays-then_ue _ _
          λ _. Replays-then_ue _ _ λ _. Replays-then_bits 1 _ _ (omega arith) λ _. Replays-done mode

  unfoldable pub scan_long_term : ℕ → Walk (Unit {0})
  scan_long_term log2_max_poc = do
    num_long_term ← scan_ue mode
    let lt_lsb_bits = (log2_max_poc + 4) % 2 ^ 32
    repeat num_long_term (do scan_bits mode lt_lsb_bits; scan_bits mode 1; pure tt)

  -- The width of a picture order count is one that can be read at once.
  Replays-long_term :
      (log2 : ℕ) → log2 < 29 → Replays mode (copy_long_term log2) (scan_long_term log2) (λ u. u)
  unfolding copy_long_term scan_long_term
  Replays-long_term log2 h = Replays-then_ue _ _ λ n. Replays-repeat n (
      Replays-then_bits ((log2 + 4) % 2 ^ 32) _ _ (omega arith)
        λ _. Replays-then_bits 1 _ _ (omega arith) λ _. Replays-done mode)

  unfoldable pub scan_tools : ℕ → Walk (Unit {0})
  unfolding scan_scaling_flag scan_pcm scan_st_ref_pic_sets scan_long_term scan_flagged
  scan_tools log2_max_poc = do
    scan_ue mode
    scan_ue mode
    scan_ue mode
    scan_ue mode
    scan_ue mode
    scan_ue mode
    scan_flagged mode scan_scaling_flag
    scan_bits mode 1
    scan_bits mode 1
    scan_flagged mode scan_pcm
    num_short_term_ref_pic_sets ← scan_ue mode
    scan_st_ref_pic_sets num_short_term_ref_pic_sets []
    scan_flagged mode (scan_long_term log2_max_poc)
    scan_bits mode 1
    scan_bits mode 1
    pure tt

  pub Replays-tools :
      (log2 : ℕ) → log2 < 29 → Replays mode (copy_hevc_tools log2) (scan_tools log2) (λ u. u)
  unfolding copy_hevc_tools scan_tools
  Replays-tools log2 h = Replays-then_ue _ _ λ _. Replays-then_ue _ _ λ _. Replays-then_ue _ _ λ _.
      Replays-then_ue _ _ λ _. Replays-then_ue _ _ λ _. Replays-then_ue _ _ λ _.
        Replays-then _ _ (Replays-flagged mode Replays-scaling_flag) (
          Replays-then_bits 1 _ _ (omega arith) λ _. Replays-then_bits 1 _ _ (omega arith) λ _.
            Replays-then _ _ (Replays-flagged mode Replays-pcm) (
              Replays-then_ue _ _ λ n. Replays-then _ _ (Replays-st_ref_pic_sets n []) (
                Replays-then _ _ (Replays-flagged mode (Replays-long_term log2 h)) (
                  Replays-then_bits 1 _ _ (omega arith)
                    λ _. Replays-then_bits 1 _ _ (omega arith) λ _. Replays-done mode))))
