-- ===== src/Sps/Hevc/Full.antt =====
-- The output of the full HEVC rewriter, as a decoder reads it.
use zpenflow.Base.{
  ℕ, ◌<◌, ◌≡◌, ap, ◌∙◌, arith, ltb, Bool, true, false, List, Option, some, if◌then◌else◌,
}
use zpenflow.Engine.{EngineResult, ok, and_then-eq-ok}
use zpenflow.Sps.Reader
use zpenflow.Sps.Writer
use zpenflow.Sps.Walker.{Walk, io, ◌>>=◌, ◌>>◌, pure, fail}
use zpenflow.Sps.Walker.Inversion.{bind-eq-ok, pure-eq-ok}
use zpenflow.Sps.Walker.Replays.{Replays, Replays-bind, Replays-map, Replays-guard}
use zpenflow.Sps.Walker.Rbsp.{rewrite_rbsp, decode_rbsp, decode-rewrite}
use zpenflow.Sps.Vui.Signal.{VideoSignal, full_range_bt709}
use zpenflow.Sps.Hevc.{patch_hevc_sps_full}
use zpenflow.Sps.Hevc.Head.{walk_hevc_sps_through_dpb, walk_hevc_sps_dpb_log2_max_poc}
use zpenflow.Sps.Hevc.Head.Log2.{walk_head, walk_head-log2}
use zpenflow.Sps.Hevc.Tail.{walk_hevc_sps_tail}
use zpenflow.Sps.Hevc.Tail.Scan.{scan_tools, Replays-tools}
use zpenflow.Sps.Hevc.Dpb.{read_hevc_head, read_hevc_dpb, walk_head-smallest}
use zpenflow.Sps.Hevc.Vui.{read_hevc_vui_block, Replays-read_vui_block, read_hevc_end, Replays-end}

-- What a decoder sizes its picture buffer and its colours by.
pub record Sps : Type 0 where
  pub has_smallest_dpb : Bool
  pub signal : Option VideoSignal

pub read_hevc_sps : Walk Sps
read_hevc_sps = do
  head ← read_hevc_head
  scan_tools false head.0
  signal ← read_hevc_vui_block
  read_hevc_end
  pure (record { has_smallest_dpb = head.1; signal = signal })

pub decode_hevc_sps : List ℕ → EngineResult Sps
decode_hevc_sps = decode_rbsp read_hevc_sps

unfoldable pub decode_hevc_dpb : List ℕ → EngineResult Bool
decode_hevc_dpb = decode_rbsp read_hevc_dpb

abbrev pub patched_sps : Sps
patched_sps = record { has_smallest_dpb = true; signal = some full_range_bt709 }

-- Both parses as one walk, where a picture order count has at most 32 bits.
walk_full : Walk (Unit {0})
walk_full = do
  log2_max_poc ← walk_head
  if ltb log2_max_poc 29 then walk_hevc_sps_tail log2_max_poc else fail

Replays-walk_full : Replays false walk_full read_hevc_sps (λ _. patched_sps)
unfolding walk_full read_hevc_sps walk_hevc_sps_tail
Replays-walk_full = Replays-bind _ _ walk_head-smallest λ log2. Replays-guard (ltb log2 29) λ small.
    Replays-bind _ _ (Replays-tools false log2 (ground arith)) λ _.
      Replays-bind _ _ Replays-read_vui_block
        λ _. Replays-map (λ (u : Unit {0}). patched_sps) Replays-end

rewrite_full :
    (x y : List ℕ) (log2 : ℕ)
    → walk_hevc_sps_dpb_log2_max_poc x ≡ ok log2
    → log2 < 29
    → patch_hevc_sps_full x ≡ ok y
    → rewrite_rbsp walk_full x ≡ ok y
unfolding patch_hevc_sps_full rewrite_rbsp walk_full ◌>>=◌
rewrite_full x y log2 p small e =
    let start = io (Reader.new x) Writer.new in
    let ((u, s), q, e1) = and_then-eq-ok (walk_hevc_sps_through_dpb start) _ e in
    let head = walk_head-log2 x s u log2 q p in
    let below : ltb log2 29 ≡ true = ground arith in rw (head, below) (rw p at e1)

-- The full rewriter has found a width.
pub patch_full-log2 :
    (x y : List ℕ)
    → patch_hevc_sps_full x ≡ ok y
    → (log2 : ℕ) × (walk_hevc_sps_dpb_log2_max_poc x ≡ ok log2)
unfolding patch_hevc_sps_full
patch_full-log2 x y e =
    let start = io (Reader.new x) Writer.new in
    let ((u, s), q, e1) = and_then-eq-ok (walk_hevc_sps_through_dpb start) _ e in
    let (log2, p, e2) = and_then-eq-ok (walk_hevc_sps_dpb_log2_max_poc x) _ e1 in (log2, p)

-- Whatever parameter set the full rewriter accepts, if its picture order counts have at most 32 bits: a
-- decoder of the result finds one picture in the buffer, no reordering and no added latency for each
-- sub-layer, and full-range BT.709 colours.
pub decode-patch_full :
    (x y : List ℕ) (log2 : ℕ)
    → walk_hevc_sps_dpb_log2_max_poc x ≡ ok log2
    → log2 < 29
    → patch_hevc_sps_full x ≡ ok y
    → decode_hevc_sps y ≡ ok patched_sps
unfolding decode_hevc_sps
decode-patch_full x y log2 p small e =
    decode-rewrite x y (rewrite_full x y log2 p small e) read_hevc_sps (λ _. patched_sps)
      Replays-walk_full

-- A decoder that finds both finds the sizes.
pub decode-dpb_of_sps :
    (y : List ℕ) → decode_hevc_sps y ≡ ok patched_sps → decode_hevc_dpb y ≡ ok true
unfolding decode_hevc_sps decode_hevc_dpb decode_rbsp read_hevc_sps read_hevc_dpb ◌>>=◌ pure
decode-dpb_of_sps y h =
    let start = io (Reader.new y) Writer.new in
    let ((r, s), q, e1) = and_then-eq-ok (read_hevc_sps start) _ h in
    let (head, s1, q1, e2) = bind-eq-ok read_hevc_head _ start s r q in
    let (u2, s2, q2, e3) = bind-eq-ok (scan_tools false head.0) _ s1 s r e2 in
    let (signal, s3, q3, e4) = bind-eq-ok read_hevc_vui_block _ s2 s r e3 in
    let (u5, s5, q5, e6) = bind-eq-ok read_hevc_end _ s3 s r e4 in
    let found : Sps = record { has_smallest_dpb = head.1; signal = signal } in
    let (pv, ps) = pure-eq-ok found r s5 s e6 in
    let er : r ≡ patched_sps = cc in
    let smallest : head.1 ≡ true = ap (λ (t : Sps). t.has_smallest_dpb) (pv ∙ er) in
    rw q1 (ap ok smallest)
