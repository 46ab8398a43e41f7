-- ===== src/Protocol/Tests.antt =====
-- The messages of the wire format at small values.
use zpenflow.Base.{ℕ, ◌≡◌, arith, List, [], ◌∷◌}
use zpenflow.Protocol.{ok}
use zpenflow.Protocol.TouchEvent.{TouchEvent}
use zpenflow.Protocol.Framing.{read_frames, write_frames, read_frames-write_frames}

abbrev fingers : TouchEvent
fingers = record {
  ts_ns = 42;
  contacts =
      record { pointer_id = 0; x_norm = 1048576000; y_norm = 1056964608; pressure = 1065353216 }
      ∷ record { pointer_id = 1; x_norm = 1056964608; y_norm = 1048576000; pressure = 1061158912 }
      ∷ [];
}

abbrev some_payload : List ℕ
some_payload = 7 ∷ 8 ∷ 9 ∷ []

abbrev messages : List (ℕ × List ℕ)
messages = (3, some_payload) ∷ (127, []) ∷ []

read_frames-write_frames_example : read_frames 2 (write_frames [] messages) ≡ ok (messages, [])
read_frames-write_frames_example =
    read_frames-write_frames messages (omega arith, (omega arith, tt))

-- Two units, the first behind a long start code.
abbrev annex_b : List ℕ
annex_b = 0 ∷ 0 ∷ 0 ∷ 1 ∷ 103 ∷ 66 ∷ 0 ∷ 0 ∷ 1 ∷ 104 ∷ []
