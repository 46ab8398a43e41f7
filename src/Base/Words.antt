-- ===== src/Base/Words.antt =====
-- Machine words as native numbers: ranges, and the laws of `|` on disjoint bits, from the digit
-- recursion that the native operation stands for.
use Prim.Native.Nat.{
  ℕ, zero, suc, ◌+◌, ◌*◌, ◌/◌, ◌%◌, ◌^◌, ◌≤◌, ◌<◌, max, bit_or, digits, bit_or-bitwise,
}
use mathlib.Core.Path.{◌≡◌, refl, ◌∙◌}
use native.Mathlib.Nat.{pow-suc}
use native.Mathlib.Decide.{dec_lt}
use native.Mathlib.Omega.{arith}

abbrev pub IsBit : ℕ → Type 0
IsBit b = b < 2

abbrev pub IsByte : ℕ → Type 0
IsByte b = b < 256

abbrev pub IsU16 : ℕ → Type 0
IsU16 v = v < 65536

abbrev pub IsU32 : ℕ → Type 0
IsU32 v = v < 4294967296

abbrev pub IsU64 : ℕ → Type 0
IsU64 v = v < 18446744073709551616

abbrev or_digits : ℕ → ℕ → ℕ → ℕ
or_digits n a b = digits (λ b. b) max n a b

or_digits_fuel : (n m a b : ℕ) → a ≤ n → a ≤ m → or_digits n a b ≡ or_digits m a b
or_digits_fuel zero zero a b p q = refl
or_digits_fuel zero (suc m) zero b p q = refl
or_digits_fuel zero (suc m) (suc a) b p q = absurd (omega arith)
or_digits_fuel (suc n) zero zero b p q = refl
or_digits_fuel (suc n) zero (suc a) b p q = absurd (omega arith)
or_digits_fuel (suc n) (suc m) zero b p q = refl
or_digits_fuel (suc n) (suc m) (suc a) b p q =
    omega (arith, or_digits_fuel n m (suc a / 2) (b / 2) (omega arith) (omega arith))

zero-bit_or : (b : ℕ) → bit_or 0 b ≡ b
zero-bit_or b = bit_or-bitwise 0 b

-- The law for the lowest digit.
bit_or_step : (a b : ℕ) → bit_or a b ≡ bit_or (a / 2) (b / 2) * 2 + max (a % 2) (b % 2)
bit_or_step zero b = omega (arith, zero-bit_or b, zero-bit_or (b / 2))
bit_or_step (suc a) b = omega (
  arith,
  bit_or-bitwise (suc a) b,
  bit_or-bitwise (suc a / 2) (b / 2),
  or_digits_fuel a (suc a / 2) (suc a / 2) (b / 2) (omega arith) (omega arith),
)

bit_or-zero_fuel : (n a : ℕ) → a ≤ n → bit_or a 0 ≡ a
bit_or-zero_fuel n zero h = refl
bit_or-zero_fuel zero (suc a) h = absurd (omega arith)
bit_or-zero_fuel (suc n) (suc a) h =
    omega (arith, bit_or_step (suc a) 0, bit_or-zero_fuel n (suc a / 2) (omega arith))

bit_or-zero : (a : ℕ) → bit_or a 0 ≡ a
bit_or-zero a = bit_or-zero_fuel a a (omega arith)

-- `|` of a multiple of `2 ^ k` and a number below `2 ^ k` is their sum.
pub bit_or_disjoint : (k q b : ℕ) → b < 2 ^ k → bit_or (q * 2 ^ k) b ≡ q * 2 ^ k + b
bit_or_disjoint zero q b h = let z : b ≡ 0 = omega arith in rw z (bit_or-zero _ ∙ omega arith)
bit_or_disjoint (suc k) q b h =
    let p : 2 ^ suc k ≡ 2 * 2 ^ k = omega (arith, pow-suc 2 k) in
    let m : q * 2 ^ suc k ≡ 2 * (q * 2 ^ k) = rw p (omega arith) in
    let half : q * 2 ^ suc k / 2 ≡ q * 2 ^ k = omega (arith, m) in
    let low : b / 2 < 2 ^ k = omega (arith, p) in
    let s : bit_or (q * 2 ^ suc k / 2) (b / 2) ≡ q * 2 ^ k + b / 2 =
      rw half (bit_or_disjoint k q (b / 2) low) in
    omega (arith, bit_or_step (q * 2 ^ suc k) b, s, m)

-- Shifting a bit in at the low end.
pub bit_or_shift_in : (v b : ℕ) → IsBit b → bit_or (v * 2) b ≡ v * 2 + b
bit_or_shift_in v b h = bit_or_disjoint 1 v b h

-- `x >> k`, and `x & (2 ^ k - 1)`.
abbrev pub shr : ℕ → ℕ → ℕ
shr x k = x / 2 ^ k

abbrev pub low_bits : ℕ → ℕ → ℕ
low_bits x k = x % 2 ^ k

-- `x & (1 << k)`, as the bit that it tests.
abbrev pub bit_at : ℕ → ℕ → ℕ
bit_at x k = x / 2 ^ k % 2

pub pow-pos : (k : ℕ) → 0 < 2 ^ k
pow-pos zero = omega arith
pow-pos (suc k) = omega (arith, pow-suc 2 k, pow-pos k)

pub pow_mono : (j k : ℕ) → j ≤ k → 2 ^ j ≤ 2 ^ k
pow_mono j zero h = let e : j ≡ 0 = omega arith in rw e (omega arith)
pow_mono j (suc k) h = elim (dec_lt k j) [
  | yes p ↦ let e : j ≡ suc k = omega arith in rw e (omega arith)
  | no p ↦ omega (arith, pow-suc 2 k, pow_mono j k (omega arith))
]

pub div_pos : (v p : ℕ) → p ≤ v → 0 < p → 0 < v / p
div_pos v p h hp = grind arith

pub pow_double : (k : ℕ) → 2 ^ suc k ≡ 2 * 2 ^ k
pow_double k = omega (arith, pow-suc 2 k)
