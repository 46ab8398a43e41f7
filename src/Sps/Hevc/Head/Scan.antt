-- ===== src/Sps/Hevc/Head/Scan.antt =====
-- The grammar of the head of an HEVC parameter set.
use zpenflow.Base.{ℕ, zero, suc, ◌-◌, ◌==◌, ltb, arith, Bool, List, [], ◌∷◌}
use zpenflow.Sps.Walker.{Walk, ◌>>=◌, ◌>>◌, pure, when, repeat}
use zpenflow.Sps.Walker.Replays.{Replays, Replays-bind, Replays-pure, Replays-repeat}
use zpenflow.Sps.Walker.Scan.{
  scan_bits, scan_ue, Replays-then_bits, Replays-then_ue, Replays-then, Replays-done, Replays-when,
  Replays-ue,
}
use zpenflow.Sps.Vui.Scan.{
  scan_flagged, scan_flag, scan_four_ue, Replays-flagged, Replays-flag, Replays-four_ue,
}
use zpenflow.Sps.Hevc.Head.{
  copy_byte, copy_sub_layer_flags, copy_sub_layers, copy_hevc_profile_tier_level, copy_hevc_picture,
}

module _ (mode : Bool) where
  unfoldable pub scan_byte : Walk (Unit {0})
  scan_byte = do scan_bits mode 8; pure tt

  Replays-byte : Replays mode copy_byte scan_byte (λ u. u)
  unfolding copy_byte scan_byte
  Replays-byte = Replays-then_bits 8 _ _ (omega arith) λ _. Replays-done mode

  unfoldable pub scan_sub_layer_flags : ℕ → Walk (List (Bool × Bool))
  scan_sub_layer_flags zero = pure []
  scan_sub_layer_flags (suc n) = do
    pp ← scan_bits mode 1
    lp ← scan_bits mode 1
    rest ← scan_sub_layer_flags n
    pure ((pp == 1, lp == 1) ∷ rest)

  Replays-sub_layer_flags :
      (n : ℕ) → Replays mode (copy_sub_layer_flags n) (scan_sub_layer_flags n) (λ l. l)
  unfolding copy_sub_layer_flags scan_sub_layer_flags
  Replays-sub_layer_flags zero = Replays-pure mode (λ l. l) []
  Replays-sub_layer_flags (suc n) = Replays-then_bits 1 _ _ (omega arith) λ pp.
      Replays-then_bits 1 _ _ (omega arith) λ lp.
        Replays-bind _ _ (Replays-sub_layer_flags n)
          λ rest. Replays-pure mode (λ l. l) ((pp == 1, lp == 1) ∷ rest)

  unfoldable pub scan_sub_layers : List (Bool × Bool) → Walk (Unit {0})
  unfolding scan_byte
  scan_sub_layers [] = pure tt
  scan_sub_layers ((profile_present, level_present) ∷ rest) = do
    when profile_present (repeat 11 scan_byte)
    when level_present scan_byte
    scan_sub_layers rest

  Replays-sub_layers :
      (l : List (Bool × Bool)) → Replays mode (copy_sub_layers l) (scan_sub_layers l) (λ u. u)
  unfolding copy_sub_layers scan_sub_layers
  Replays-sub_layers [] = Replays-done mode
  Replays-sub_layers ((p, l) ∷ rest) =
      Replays-then _ _ (Replays-when p (Replays-repeat 11 Replays-byte))
        (Replays-then _ _ (Replays-when l Replays-byte) (Replays-sub_layers rest))

  unfoldable pub scan_profile_tier_level : ℕ → Walk (Unit {0})
  unfolding scan_byte scan_sub_layer_flags scan_sub_layers
  scan_profile_tier_level n = do
    scan_bits mode 8
    scan_bits mode 32
    repeat 7 scan_byte
    flags ← scan_sub_layer_flags n
    when (ltb 0 n) (repeat (8 - n) (do scan_bits mode 2; pure tt))
    scan_sub_layers flags

  pub Replays-profile_tier_level :
      (n : ℕ) → Replays mode (copy_hevc_profile_tier_level n) (scan_profile_tier_level n) (λ u. u)
  unfolding copy_hevc_profile_tier_level scan_profile_tier_level
  Replays-profile_tier_level n = Replays-then_bits 8 _ _ (omega arith) λ _.
      Replays-then_bits 32 _ _ (omega arith) λ _. Replays-then _ _ (Replays-repeat 7 Replays-byte) (
        Replays-bind _ _ (Replays-sub_layer_flags n) λ flags.
          Replays-then _ _
            (Replays-when (ltb 0 n) (
              Replays-repeat (8 - n)
                (Replays-then_bits 2 _ _ (omega arith) λ _. Replays-done mode)))
            (Replays-sub_layers flags))

  unfoldable pub scan_picture : Walk ℕ
  unfolding scan_flag scan_flagged scan_four_ue
  scan_picture = do
    scan_ue mode
    chroma_format_idc ← scan_ue mode
    when (chroma_format_idc == 3) (scan_flag mode)
    scan_ue mode
    scan_ue mode
    scan_flagged mode (scan_four_ue mode)
    scan_ue mode
    scan_ue mode
    scan_ue mode

  pub Replays-picture : Replays mode copy_hevc_picture scan_picture (λ v. v)
  unfolding copy_hevc_picture scan_picture
  Replays-picture = Replays-then_ue _ _ λ _. Replays-then_ue _ _ λ c.
      Replays-then _ _ (Replays-when (c == 3) (Replays-flag mode)) (
        Replays-then_ue _ _ λ _. Replays-then_ue _ _ λ _.
          Replays-then _ _ (Replays-flagged mode (Replays-four_ue mode))
            (Replays-then_ue _ _ λ _. Replays-then_ue _ _ λ _. Replays-ue mode))
