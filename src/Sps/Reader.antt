-- ===== src/Sps/Reader.antt =====
-- `BitReader` of sps_patcher.rs. A read returns its value and the reader after it; the reader that
-- an `Err` leaves behind is never looked at. `debug_assert!` is off, as in a release build.
use zpenflow.Base.{
  ℕ, zero, suc, ◌+◌, ◌-◌, ◌*◌, ◌/◌, ◌%◌, ◌^◌, ◌<◌, List, Option, none, some, ltb, ◌==◌, get_elem?,
  if◌then◌else◌,
}
use zpenflow.Base.Words.{shr, low_bits}
use zpenflow.Base.Int.{ℤ, pos, neg}
use zpenflow.Engine.{EngineResult, ok, err, not_initialized, and_then}
use Prim.Native.Nat.{bit_or}
pub mod View
pub mod Range
pub mod Golomb

pub record BitReader : Type 0 where
  pub bytes : List ℕ
  pub bit_pos : ℕ

abbrev pub new : List ℕ → BitReader
new bytes = record { bytes = bytes; bit_pos = 0 }

abbrev pub Read : Type 0 → Type 0
Read A = BitReader → EngineResult (A × BitReader)

infixl 5 ◌>>=◌
abbrev pub ◌>>=◌ : {A B : Type 0} → Read A → (A → Read B) → Read B
◌>>=◌ m f r = and_then (m r) (λ (a, r'). f a r')

abbrev pub pure : {A : Type 0} → A → Read A
pure a r = ok (a, r)

abbrev pub fail : {A : Type 0} → Read A
fail r = err not_initialized

-- The rounds of `for _ in 0..n`, with `v` so far.
unfoldable pub read_bits_loop : ℕ → ℕ → Read ℕ
read_bits_loop zero v r = ok (v, r)
read_bits_loop (suc n) v r = elim (get_elem? r.bytes (shr r.bit_pos 3)) [
  | none ↦ err not_initialized
  | some byte ↦
      let bit_idx = 7 - low_bits r.bit_pos 3 in
      let bit = shr byte bit_idx % 2 in
      read_bits_loop n (bit_or (v * 2 % 2 ^ 32) bit) (record r { bit_pos = r.bit_pos + 1 })
]

unfoldable pub read_bits : ℕ → Read ℕ
read_bits n = read_bits_loop n 0

-- What the loop of `read_ue` does with a bit: leave, give up, or count a zero and go on.
unfoldable pub after_bit : ℕ → Read ℕ → ℕ → Read ℕ
after_bit leading_zeros rest b =
    if b == 1 then pure leading_zeros else if ltb 31 (leading_zeros + 1) then fail else rest

-- The loop that counts zeros. It stops by itself at the 32nd, so that 32 rounds of fuel are enough.
unfoldable pub read_zeros : ℕ → ℕ → Read ℕ
unfolding after_bit
read_zeros zero leading_zeros r = err not_initialized
read_zeros (suc fuel) leading_zeros r =
    (read_bits 1 >>= after_bit leading_zeros (λ r'. read_zeros fuel (leading_zeros + 1) r')) r

unfoldable pub read_ue : Read ℕ
read_ue = do
  leading_zeros ← read_zeros 32 0
  suffix ← if leading_zeros == 0 then pure 0 else read_bits leading_zeros
  pure ((2 ^ leading_zeros - 1 + suffix) % 2 ^ 32)

-- No code is above 2 ^ 32 - 2, so that both halves are an i32.
unfoldable pub read_se : Read ℤ
read_se = do
  code ← read_ue
  if low_bits code 1 == 0 then pure (neg (shr code 1)) else pure (pos (shr (code + 1) 1))
