-- ===== src/Sps/Hevc/Patched.antt =====
-- The output of the HEVC rewriter, whichever way it went: what a decoder reads of its head.
use zpenflow.Base.{ℕ, ◌≡◌, ◌<◌, refl, sym, ap, ◌∙◌, true, List, [], ◌++◌, All-append, append_assoc}
use zpenflow.Base.Words.{IsBit}
use zpenflow.Engine.{EngineResult, ok, err, and_then, and_then-eq-ok}
use zpenflow.Sps.Bits.{to_bits, to_bits-pack_padded}
use zpenflow.Sps.Reader
use zpenflow.Sps.Reader.View.{remaining}
use zpenflow.Sps.Writer
use zpenflow.Sps.Writer.{BitWriter}
use zpenflow.Sps.Writer.Packed.{holding, new-holding, bytes-holding}
use zpenflow.Sps.Walker.{io, ◌>>◌}
use zpenflow.Sps.Walker.Inversion.{bind-eq-ok}
use zpenflow.Sps.Walker.Rbsp.{decode_rbsp, remaining-new}
use zpenflow.Sps.Hevc.{or_else, patch_hevc_sps_full, patch_hevc_sps_dpb_only, patch_hevc_sps_rbsp}
use zpenflow.Sps.Hevc.Head.{walk_hevc_sps_through_dpb, walk_hevc_sps_dpb_log2_max_poc}
use zpenflow.Sps.Hevc.Head.Log2.{walk_head, walk_head-ok}
use zpenflow.Sps.Hevc.Tail.{copy_remaining_bits}
use zpenflow.Sps.Hevc.Dpb.{read_hevc_dpb, walk_head-dpb}
use zpenflow.Sps.Hevc.Full.{decode_hevc_dpb, patch_full-log2, decode-patch_full, decode-dpb_of_sps}
use zpenflow.Sps.Hevc.Remaining.{remaining-IsBit, copy_remaining_bits-holding}

-- The rewriter that only replaces the sizes: a decoder finds the smallest.
decode-patch_dpb_only :
    (x y : List ℕ) → patch_hevc_sps_dpb_only x ≡ ok y → decode_hevc_dpb y ≡ ok true
unfolding patch_hevc_sps_dpb_only decode_hevc_dpb decode_rbsp
decode-patch_dpb_only x y e =
    let start = io (Reader.new x) Writer.new in
    let ((u, s), q, e1) =
      and_then-eq-ok ((do walk_hevc_sps_through_dpb; copy_remaining_bits) start) _ e in
    let (u1, s1, q1, q2) = bind-eq-ok walk_hevc_sps_through_dpb _ start s u q in
    let (log2, head) = walk_head-ok start s1 u1 q1 in
    let (es, w1, bits, run) =
      walk_head-dpb.at (Reader.new x) [] log2 s1 tt
        (ap (λ w. walk_head (io (Reader.new x) w)) (sym new-holding) ∙ head) in
    let left = remaining s1.reader in
    let w2 : s.writer ≡ holding (es ++ left) =
      copy_remaining_bits-holding s1.reader es u s bits
        (ap (λ w. copy_remaining_bits (io s1.reader w)) (sym w1) ∙ q2) in
    let (zs, padded) =
      to_bits-pack_padded (es ++ left)
        (All-append IsBit es left bits (remaining-IsBit s1.reader)) in
    let ey : s.writer.bytes ≡ y = cc e1 in
    let by = sym ey ∙ ap (λ (w : BitWriter). w.bytes) w2 ∙ bytes-holding (es ++ left) in
    let (r1, done, after) =
      run.at (Reader.new y) [] (left ++ zs) tt
        (remaining-new y ∙ ap to_bits by ∙ padded ∙ append_assoc es left zs) in
    ap (λ w. and_then (read_hevc_dpb (io (Reader.new y) w)) λ (a, _). ok a) new-holding
    ∙ ap (λ r. and_then r λ (a, _). ok a) done

-- Whatever HEVC parameter set the rewriter accepts, on either way, if its picture order counts have at
-- most 32 bits: a decoder of the result finds for each sub-layer one picture in the buffer, no
-- reordering and no added latency.
pub decode-patch_hevc :
    (x y : List ℕ)
    → ((log2 : ℕ) → walk_hevc_sps_dpb_log2_max_poc x ≡ ok log2 → log2 < 29)
    → patch_hevc_sps_rbsp x ≡ ok y
    → decode_hevc_dpb y ≡ ok true
unfolding patch_hevc_sps_rbsp or_else
decode-patch_hevc x y small e = either (patch_hevc_sps_full x) refl e
  where
    either :
        (full : EngineResult (List ℕ))
        → patch_hevc_sps_full x ≡ full
        → or_else full (patch_hevc_sps_dpb_only x) ≡ ok y
        → decode_hevc_dpb y ≡ ok true
    either (err _) q e = decode-patch_dpb_only x y e
    either (ok v) q e =
        let (log2, p) = patch_full-log2 x v q in
        decode-dpb_of_sps y (decode-patch_full x y log2 p (small log2 p) (q ∙ e))
