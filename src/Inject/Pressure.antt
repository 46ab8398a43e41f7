-- ===== src/Inject/Pressure.antt =====
-- The arithmetic of f32 in `(pressure.clamp(0.0, 1.0) * scale).round() as u32`: the pressure is the
-- bit pattern of an f32, and the scale a whole number below 2 ^ 24.
use zpenflow.Base.{
  ℕ, zero, suc, ◌+◌, ◌-◌, ◌*◌, ◌/◌, ◌%◌, ◌^◌, ◌==◌, ltb, leb, Bool, true, false, if◌then◌else◌,
}

-- The digits of a number in base two, counted on fuel.
unfoldable pub bit_length : ℕ → ℕ → ℕ
bit_length zero n = 0
bit_length (suc fuel) n = let rest = bit_length fuel (n / 2) in if n == 0 then 0 else suc rest

-- The quotient by 2 ^ s, rounded to the nearest, and to the even one of two that are as near.
unfoldable pub nearest_even : ℕ → ℕ → ℕ
nearest_even s n =
    let q = n / 2 ^ s in
    let r = n % 2 ^ s in
    if ltb (2 * r) (2 ^ s) then q else if ltb (2 ^ s) (2 * r) then suc q else q + q % 2

-- A product of significands, rounded to the 24 digits of an f32.
unfoldable pub rounded : ℕ → ℕ
unfolding bit_length nearest_even
rounded n = let s = bit_length 48 n - 24 in nearest_even s n * 2 ^ s

-- The fields of the bit pattern.
unfoldable pub is_negative : ℕ → Bool
is_negative bits = leb (2 ^ 31) bits

unfoldable pub exponent : ℕ → ℕ
exponent bits = bits / 2 ^ 23 % 256

unfoldable pub significand : ℕ → ℕ
significand bits = 2 ^ 23 + bits % 2 ^ 23

unfoldable pub is_nan : ℕ → Bool
unfolding exponent
is_nan bits = if exponent bits == 255 then (if bits % 2 ^ 23 == 0 then false else true) else false

-- Below 2 ^ -26 the product is less than a half.
unfoldable pub level : ℕ → ℕ → ℕ
unfolding is_nan is_negative exponent significand rounded bit_length nearest_even
level scale bits =
    if is_nan bits
    then 0
    else if is_negative bits
    then 0
    else if leb 127 (exponent bits)
    then scale
    else if ltb (exponent bits) 101
    then 0
    else let shift = 150 - exponent bits in
      (rounded (significand bits * scale) + 2 ^ (shift - 1)) / 2 ^ shift
