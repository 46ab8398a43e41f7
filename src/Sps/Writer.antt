-- ===== src/Sps/Writer.antt =====
-- `BitWriter` of sps_patcher.rs. `usize` positions are unbounded here.
use zpenflow.Base.{
  ℕ, zero, suc, ◌+◌, ◌-◌, ◌*◌, ◌/◌, ◌%◌, ◌^◌, List, [], ◌∷◌, ◌++◌, leb, ltb, ◌==◌, length, set,
  get_or, if◌then◌else◌,
}
use zpenflow.Base.Words.{shr, low_bits}
use zpenflow.Base.Int.{ℤ, pos, negsuc}
use Prim.Native.Nat.{bit_or}
pub mod Packed
pub mod Golomb

pub record BitWriter : Type 0 where
  pub bytes : List ℕ
  pub bit_pos : ℕ

abbrev pub new : BitWriter
new = record { bytes = []; bit_pos = 0 }

-- One round of the loop of `write_bits`: push a byte where the position asks for one, then `|=`.
-- The index is always in range (`Packed`).
unfoldable pub write_bit : ℕ → BitWriter → BitWriter
write_bit bit w =
    let byte_idx = shr w.bit_pos 3 in
    let bit_idx = 7 - low_bits w.bit_pos 3 in
    let bytes = if leb (length w.bytes) byte_idx then w.bytes ++ (0 ∷ []) else w.bytes in
    record {
      bytes = set bytes byte_idx (bit_or (get_or bytes byte_idx 0) (bit * 2 ^ bit_idx));
      bit_pos = w.bit_pos + 1;
    }

-- `for i in (0..n).rev()`
unfoldable pub write_bits : ℕ → ℕ → BitWriter → BitWriter
write_bits value zero w = w
write_bits value (suc i) w = write_bits value i (write_bit (shr value i % 2) w)

-- `u64::leading_zeros`, by the width of the word.
unfoldable pub leading_zeros : ℕ → ℕ → ℕ
leading_zeros zero v = 0
leading_zeros (suc w) v = if v / 2 ^ w == 0 then suc (leading_zeros w v) else 0

-- `for _ in 0..leading_zeros { self.write_bits(0, 1); }`
unfoldable pub write_zeros : ℕ → BitWriter → BitWriter
write_zeros zero w = w
write_zeros (suc n) w = write_zeros n (write_bits 0 1 w)

-- `value + 1` is taken in u32, and `v_plus_1` in u64.
unfoldable pub write_ue : ℕ → BitWriter → BitWriter
write_ue value w =
    let v_plus_1 = value + 1 in
    let zeros = 63 - leading_zeros 64 v_plus_1 in
    let w' = write_bits 1 1 (write_zeros zeros w) in
    if ltb 0 zeros then write_bits ((value + 1) % 2 ^ 32 - 2 ^ zeros) zeros w' else w'

-- The two's complement products stay below 2 ^ 32 for every i32 but the least one.
unfoldable pub write_se : ℤ → BitWriter → BitWriter
write_se (pos zero) w = write_ue 0 w
write_se (pos (suc n)) w = write_ue (suc n * 2 % 2 ^ 32 - 1) w
write_se (negsuc n) w = write_ue (suc n * 2 % 2 ^ 32) w

-- `while self.bit_pos & 7 != 0`, with fuel: seven rounds reach the next byte boundary.
unfoldable pub pad_to_byte : ℕ → BitWriter → BitWriter
pad_to_byte zero w = w
pad_to_byte (suc fuel) w =
    let rest = pad_to_byte fuel (write_bits 0 1 w) in if low_bits w.bit_pos 3 == 0 then w else rest

unfoldable pub write_rbsp_trailing_bits : BitWriter → BitWriter
write_rbsp_trailing_bits w = pad_to_byte 7 (write_bits 1 1 w)
