-- ===== src/Protocol/Telemetry.antt =====
-- `Telemetry`, the sample that the server sends each second. The client decodes it.
use zpenflow.Base.{ℕ, List, [], ◌∷◌, ◌++◌}
use zpenflow.Protocol.Bytes.{to_be_bytes}

pub record Telemetry : Type 0 where
  pub frames : ℕ
  pub dropped : ℕ
  pub capture_us_avg : ℕ
  pub encode_us_avg : ℕ
  pub encode_us_p99 : ℕ
  pub queue_depth : ℕ

unfoldable pub encode : Telemetry → List ℕ
encode m =
    to_be_bytes 4 m.frames
    ++ (to_be_bytes 4 m.dropped
        ++ (to_be_bytes 4 m.capture_us_avg
            ++ (to_be_bytes 4 m.encode_us_avg
                ++ (to_be_bytes 4 m.encode_us_p99 ++ (m.queue_depth ∷ [])))))
