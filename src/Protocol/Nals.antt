-- ===== src/Protocol/Nals.antt =====
-- `split_nals` and the extraction of parameter sets from an Annex-B packet. Offsets count from the
-- packet's first byte.
pub mod Ranges
use Prim.Native.Nat.{bit_and}
use zpenflow.Base.{
  ℕ, zero, suc, ◌+◌, ◌-◌, ◌/◌, ◌==◌, Bool, true, false, ltb, leb, List, [], ◌∷◌, ◌++◌, length, take,
  drop, get_or, ◌||◌, ◌&&◌, if◌then◌else◌,
}
use zpenflow.Protocol.Bytes.{slice}

-- `starts_with`
unfoldable pub has_prefix : List ℕ → List ℕ → Bool
has_prefix [] bytes = true
has_prefix (p ∷ ps) [] = false
has_prefix (p ∷ ps) (b ∷ bytes) = (p == b) && has_prefix ps bytes

-- The first loop, on fuel: each round takes a byte at least. It returns the offsets of the start codes and
-- of what follows them.
unfoldable pub find_starts : ℕ → ℕ → List ℕ → List (ℕ × ℕ)
unfolding has_prefix
find_starts zero i bytes = []
find_starts (suc fuel) i bytes = elim (leb (i + 3) (length bytes)) [
  | false ↦ []
  | true ↦ elim (has_prefix (0 ∷ 0 ∷ 0 ∷ 1 ∷ []) (drop i bytes)) [
    | true ↦ (i, i + 4) ∷ find_starts fuel (i + 4) bytes
    | false ↦ elim (has_prefix (0 ∷ 0 ∷ 1 ∷ []) (drop i bytes)) [
      | true ↦ (i, i + 3) ∷ find_starts fuel (i + 3) bytes
      | false ↦ find_starts fuel (i + 1) bytes
    ]
  ]
]

-- `starts[k + 1].0`, or the end of the packet.
unfoldable pub end_off : List (ℕ × ℕ) → ℕ → ℕ
end_off [] len = len
end_off ((start_off, payload_off) ∷ starts) len = start_off

-- The second loop: a unit without a header byte is left out.
unfoldable pub units : (ℕ → ℕ) → List ℕ → List (ℕ × ℕ) → List (ℕ × ℕ × ℕ)
unfolding end_off
units nal_type bytes [] = []
units nal_type bytes ((start_off, payload_off) ∷ starts) =
    let rest = units nal_type bytes starts in
    if leb (length bytes) payload_off
    then rest
    else (start_off, end_off starts (length bytes), nal_type (get_or bytes payload_off 0)) ∷ rest

unfoldable pub split_nals : (ℕ → ℕ) → List ℕ → List (ℕ × ℕ × ℕ)
unfolding find_starts units
split_nals nal_type bytes = units nal_type bytes (find_starts (length bytes) 0 bytes)

unfoldable pub split_hevc_nals : List ℕ → List (ℕ × ℕ × ℕ)
unfolding split_nals
split_hevc_nals bytes = split_nals (λ b. bit_and (b / 2) 63) bytes

unfoldable pub split_h264_nals : List ℕ → List (ℕ × ℕ × ℕ)
unfolding split_nals
split_h264_nals bytes = split_nals (λ b. bit_and b 31) bytes

-- `contains`
unfoldable pub contains : List ℕ → ℕ → Bool
contains [] t = false
contains (k ∷ keep_types) t = (k == t) || contains keep_types t

-- The loop over the units.
unfoldable pub kept_units : List ℕ → List ℕ → List (ℕ × ℕ × ℕ) → List ℕ
unfolding contains
kept_units annex_b keep_types [] = []
kept_units annex_b keep_types ((start_off, end_off, nal_type) ∷ nals) =
    let rest = kept_units annex_b keep_types nals in
    if contains keep_types nal_type then slice start_off end_off annex_b ++ rest else rest

unfoldable pub extract_hevc_nals : List ℕ → List ℕ → List ℕ
unfolding split_hevc_nals kept_units
extract_hevc_nals annex_b keep_types = kept_units annex_b keep_types (split_hevc_nals annex_b)

unfoldable pub extract_h264_nals : List ℕ → List ℕ → List ℕ
unfolding split_h264_nals kept_units
extract_h264_nals annex_b keep_types = kept_units annex_b keep_types (split_h264_nals annex_b)
