-- ===== src/Protocol/Nals/Ranges.antt =====
-- Where the units that `split_nals` returns lie in the packet.
use zpenflow.Base.{
  ℕ, zero, suc, ◌+◌, ◌≤◌, ◌<◌, arith, Bool-cases, inl, inr, leb, leb→le, List, [], ◌∷◌, length,
  drop,
}
use zpenflow.Protocol.Nals.{has_prefix, find_starts, end_off, units, split_nals}

-- Start codes from `lo` on, one behind the other, inside a packet of `len` bytes.
unfoldable pub IsStarts : ℕ → ℕ → List (ℕ × ℕ) → Type 0
IsStarts lo len [] = Unit {0}
IsStarts lo len ((start_off, payload_off) ∷ starts) =
    (lo ≤ start_off)
    × (start_off + 3 ≤ payload_off)
    × (start_off + 3 ≤ len)
    × IsStarts payload_off len starts

-- Units from `lo` on, not empty, one behind the other, inside a packet of `len` bytes.
unfoldable pub AreDisjoint : ℕ → ℕ → List (ℕ × ℕ × ℕ) → Type 0
AreDisjoint lo len [] = Unit {0}
AreDisjoint lo len ((start_off, end_off, nal_type) ∷ nals) =
    (lo ≤ start_off) × (start_off < end_off) × (end_off ≤ len) × AreDisjoint end_off len nals

IsStarts-lower :
    (lo lo' len : ℕ) (starts : List (ℕ × ℕ))
    → lo ≤ lo'
    → IsStarts lo' len starts
    → IsStarts lo len starts
unfolding IsStarts
IsStarts-lower lo lo' len [] h k = tt
IsStarts-lower lo lo' len (s ∷ starts) h (a, b, c, r) = (omega arith, b, c, r)

find_starts-IsStarts :
    (fuel i : ℕ) (bytes : List ℕ) → IsStarts i (length bytes) (find_starts fuel i bytes)
unfolding find_starts IsStarts
find_starts-IsStarts zero i bytes = tt
find_starts-IsStarts (suc fuel) i bytes = elim (Bool-cases (leb (i + 3) (length bytes))) [
  | inr short ↦ rw (short, find_starts) tt
  | inl long ↦
      let room = leb→le (i + 3) (length bytes) long in
      elim (Bool-cases (has_prefix (0 ∷ 0 ∷ 0 ∷ 1 ∷ []) (drop i bytes))) [
        | inl four ↦
            rw (long, four, find_starts)
              (omega arith, omega arith, room, find_starts-IsStarts fuel (i + 4) bytes)
        | inr other ↦ elim (Bool-cases (has_prefix (0 ∷ 0 ∷ 1 ∷ []) (drop i bytes))) [
          | inl three ↦
              rw (long, other, three, find_starts)
                (omega arith, omega arith, room, find_starts-IsStarts fuel (i + 3) bytes)
          | inr neither ↦
              rw (long, other, neither, find_starts)
                (IsStarts-lower i (i + 1) (length bytes) (find_starts fuel (i + 1) bytes)
                  (omega arith) (find_starts-IsStarts fuel (i + 1) bytes))
        ]
      ]
]

-- A unit ends behind its start code, inside the packet, and where the next one begins.
end_off-range :
    (s p len : ℕ) (starts : List (ℕ × ℕ))
    → s + 3 ≤ p
    → s + 3 ≤ len
    → IsStarts p len starts
    → (s < end_off starts len)
      × (end_off starts len ≤ len)
      × IsStarts (end_off starts len) len starts
unfolding end_off IsStarts
end_off-range s p len [] h k r = (omega arith, omega arith, tt)
end_off-range s p len (n ∷ starts) h k (a, b, c, r) =
    (omega arith, omega arith, (omega arith, b, c, r))

units-AreDisjoint :
    (nal_type : ℕ → ℕ) (bytes : List ℕ) (lo : ℕ) (starts : List (ℕ × ℕ))
    → IsStarts lo (length bytes) starts
    → AreDisjoint lo (length bytes) (units nal_type bytes starts)
unfolding units IsStarts AreDisjoint
units-AreDisjoint nal_type bytes lo [] h = tt
units-AreDisjoint nal_type bytes lo ((s, p) ∷ starts) (a, b, c, r) =
    elim (Bool-cases (leb (length bytes) p)) [
      | inl cut ↦
          rw (cut, units)
            (units-AreDisjoint nal_type bytes lo starts
              (IsStarts-lower lo p (length bytes) starts (omega arith) r))
      | inr whole ↦
          let (u, v, w) = end_off-range s p (length bytes) starts b c r in
          rw (whole, units)
            (a, u, v, units-AreDisjoint nal_type bytes (end_off starts (length bytes)) starts w)
    ]

-- The units that are split off lie inside the packet one behind the other: none is empty, and each begins
-- where the one before it ends or later.
pub split_nals-AreDisjoint :
    (nal_type : ℕ → ℕ) (bytes : List ℕ) → AreDisjoint 0 (length bytes) (split_nals nal_type bytes)
unfolding split_nals
split_nals-AreDisjoint nal_type bytes =
    units-AreDisjoint nal_type bytes 0 (find_starts (length bytes) 0 bytes)
      (find_starts-IsStarts (length bytes) 0 bytes)
