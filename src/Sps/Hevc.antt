-- ===== src/Sps/Hevc.antt =====
-- The HEVC SPS rewriter of sps_patcher.rs (ITU-T H.265 7.3.2.2.1): its head, up to the picture buffer
-- sizes, and the two rewriters that go on from there.
pub mod Head
pub mod Tail
pub mod Dpb
pub mod Vui
pub mod Full
pub mod Remaining
pub mod Patched
pub mod Tests
use zpenflow.Base.{ℕ, List}
use zpenflow.Engine.{EngineResult, ok, err, and_then}
use zpenflow.Sps.Reader
use zpenflow.Sps.Writer
use zpenflow.Sps.Walker.{Walk, Io, io, ◌>>=◌, ◌>>◌, writing}
use zpenflow.Sps.Hevc.Head.{walk_hevc_sps_through_dpb, walk_hevc_sps_dpb_log2_max_poc}
use zpenflow.Sps.Hevc.Tail.{walk_hevc_sps_tail, copy_remaining_bits}

-- The two mutable borrows outlive the head; the second parse has a reader and a writer of its own.
unfoldable pub patch_hevc_sps_full : List ℕ → EngineResult (List ℕ)
patch_hevc_sps_full rbsp =
    and_then (walk_hevc_sps_through_dpb (io (Reader.new rbsp) Writer.new)) λ (_, s).
      and_then (walk_hevc_sps_dpb_log2_max_poc rbsp) λ log2_max_poc.
        and_then ((do walk_hevc_sps_tail log2_max_poc; writing Writer.write_rbsp_trailing_bits) s)
          λ (_, s'). ok s'.writer.bytes

-- The tail keeps the input's own trailing bits.
unfoldable pub patch_hevc_sps_dpb_only : List ℕ → EngineResult (List ℕ)
patch_hevc_sps_dpb_only rbsp =
    and_then ((do walk_hevc_sps_through_dpb; copy_remaining_bits) (io (Reader.new rbsp) Writer.new))
      λ (_, s). ok s.writer.bytes

unfoldable pub or_else : EngineResult (List ℕ) → EngineResult (List ℕ) → EngineResult (List ℕ)
or_else (ok v) _ = ok v
or_else (err e) other = other

-- `if let Ok(v) = patch_hevc_sps_full(rbsp) { return Ok(v); }`
unfoldable pub patch_hevc_sps_rbsp : List ℕ → EngineResult (List ℕ)
unfolding or_else
patch_hevc_sps_rbsp rbsp = or_else (patch_hevc_sps_full rbsp) (patch_hevc_sps_dpb_only rbsp)
