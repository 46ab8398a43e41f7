-- ===== src/Protocol/TimeSync.antt =====
-- `TimeSyncReq` and `TimeSyncResp`, the ping and its reply. The times are the bit patterns of i64.
use zpenflow.Base.{ℕ, ◌==◌, List, ◌++◌, length, not, if◌then◌else◌}
use zpenflow.Protocol.{ProtocolResult, ok, err, malformed, msg_time_sync_req}
use zpenflow.Protocol.Bytes.{to_be_bytes, from_be_bytes, slice}

pub record TimeSyncReq : Type 0 where
  pub android_t1_ns : ℕ

unfoldable pub decode : List ℕ → ProtocolResult TimeSyncReq
decode payload =
    if not (length payload == 8)
    then err (malformed msg_time_sync_req "TIME_SYNC_REQ must be 8 bytes")
    else ok (record { android_t1_ns = from_be_bytes (slice 0 8 payload) })

pub record TimeSyncResp : Type 0 where
  pub android_t1_ns : ℕ
  pub pc_t2_ns : ℕ
  pub pc_t3_ns : ℕ

unfoldable pub encode : TimeSyncResp → List ℕ
encode m = to_be_bytes 8 m.android_t1_ns ++ (to_be_bytes 8 m.pc_t2_ns ++ to_be_bytes 8 m.pc_t3_ns)
