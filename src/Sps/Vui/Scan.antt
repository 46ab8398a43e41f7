-- ===== src/Sps/Vui/Scan.antt =====
-- The grammar of the parts that both rewriters copy.
use zpenflow.Base.{ℕ, ◌==◌, List, [], ◌++◌, append-nil, All-append, arith, Bool}
use mathlib.Core.Path.{subst}
use zpenflow.Base.Words.{IsBit}
use zpenflow.Sps.Bits.{bits_of, bits_of-IsBit}
use zpenflow.Sps.Walker.Runs.{Runs, Runs-pure, Runs-bind}
use zpenflow.Sps.Walker.{Walk, ◌>>=◌, ◌>>◌, pure, when, repeat}
use zpenflow.Sps.Walker.Replays.{Replays, Replays-repeat, echo, echo-IsBit}
use zpenflow.Sps.Walker.Scan.{
  scan_bits, scan_ue, Replays-then_bits, Replays-then_ue, Replays-done, Replays-when,
  Runs-then_bits,
}
use zpenflow.Sps.Vui.{flagged, copy_aspect_ratio, copy_flag, copy_two_ue, copy_four_ue}

module _ (mode : Bool) where
  unfoldable pub scan_flagged : Walk (Unit {0}) → Walk (Unit {0})
  scan_flagged m = do f ← scan_bits mode 1; when (f == 1) m

  unfoldable pub scan_aspect_ratio : Walk (Unit {0})
  scan_aspect_ratio = do
    aspect_ratio_idc ← scan_bits mode 8
    when (aspect_ratio_idc == 255) (do scan_bits mode 16; scan_bits mode 16; pure tt)

  unfoldable pub scan_flag : Walk (Unit {0})
  scan_flag = do scan_bits mode 1; pure tt

  unfoldable pub scan_two_ue : Walk (Unit {0})
  scan_two_ue = do scan_ue mode; scan_ue mode; pure tt

  unfoldable pub scan_four_ue : Walk (Unit {0})
  scan_four_ue = repeat 4 (do scan_ue mode; pure tt)

  pub Replays-flagged :
      {m p : Walk (Unit {0})}
      → Replays mode m p (λ u. u)
      → Replays mode (flagged m) (scan_flagged p) (λ u. u)
  unfolding flagged scan_flagged
  Replays-flagged h = Replays-then_bits 1 _ _ (omega arith) (λ f. Replays-when (f == 1) h)

  pub Replays-aspect_ratio : Replays mode copy_aspect_ratio scan_aspect_ratio (λ u. u)
  unfolding copy_aspect_ratio scan_aspect_ratio
  Replays-aspect_ratio = Replays-then_bits 8 _ _ (omega arith) λ v. Replays-when (v == 255) (
      Replays-then_bits 16 _ _ (omega arith)
        λ _. Replays-then_bits 16 _ _ (omega arith) λ _. Replays-done mode)

  pub Replays-flag : Replays mode copy_flag scan_flag (λ u. u)
  unfolding copy_flag scan_flag
  Replays-flag = Replays-then_bits 1 _ _ (omega arith) λ _. Replays-done mode

  pub Replays-two_ue : Replays mode copy_two_ue scan_two_ue (λ u. u)
  unfolding copy_two_ue scan_two_ue
  Replays-two_ue = Replays-then_ue _ _ λ _. Replays-then_ue _ _ λ _. Replays-done mode

  pub Replays-four_ue : Replays mode copy_four_ue scan_four_ue (λ u. u)
  unfolding copy_four_ue scan_four_ue
  Replays-four_ue = Replays-repeat 4 (Replays-then_ue _ _ λ _. Replays-done mode)

  -- A flag that is clear.
  pub Runs-then_unflagged :
      {B : Type 0} {es out : List ℕ} {b : B} (m : Walk (Unit {0})) (k : Unit {0} → Walk B)
      → Runs (k tt) es out b
      → Runs (scan_flagged m >>= k) (bits_of 1 0 ++ es) (echo mode (bits_of 1 0) ++ out) b
  unfolding scan_flagged
  Runs-then_unflagged {es} {out} {b} m k h =
      let z = echo mode (bits_of 1 0) in
      let clear =
        Runs-then_bits mode 1 0 (λ f. when (f == 1) m) (omega arith) (omega arith) (Runs-pure tt) in
      let zb = echo-IsBit mode (bits_of 1 0) (bits_of-IsBit 1 0) in
      subst (λ (t : List ℕ). Runs (scan_flagged m >>= k) (t ++ es) (z ++ out) b)
        (append-nil (bits_of 1 0))
        (subst
          (λ (t : List ℕ). Runs (scan_flagged m >>= k) ((bits_of 1 0 ++ []) ++ es) (t ++ out) b)
          (append-nil z) (Runs-bind k clear (All-append IsBit z [] zb tt) h))
