-- ===== src/Sps/Reader/View.antt =====
-- What a reader has still to read, and what the reads return on it.
use zpenflow.Base.{
  ℕ, zero, suc, ◌+◌, ◌-◌, ◌*◌, ◌/◌, ◌%◌, ◌^◌, ◌<◌, ◌≡◌, refl, ap, ◌∙◌, arith, List, [], ◌∷◌, ◌++◌,
  some, get_elem?, drop,
}
use zpenflow.Base.Words.{pow-pos, pow_mono, pow_double, IsBit, shr, bit_or_shift_in}
use native.Mathlib.Nat.{div-add-mod, mul-add-mod_self_left, mod-eq_of_lt, mod-lt}
use native.Mathlib.Numerals.{add-one}
use zpenflow.Engine.{ok}
use zpenflow.Sps.Bits.{bits_of, to_bits}
use zpenflow.Sps.Reader.{BitReader, read_bits_loop, read_bits}

-- The bits from the position on.
unfoldable pub remaining : BitReader → List ℕ
remaining r = drop r.bit_pos (to_bits r.bytes)

-- The bit at `p`, and the place where `read_bits` looks for it.
byte_bit :
    (xs : List ℕ) (p b : ℕ) (l : List ℕ)
    → drop p (to_bits xs) ≡ b ∷ l
    → (byte : ℕ) × (get_elem? xs (p / 8) ≡ some byte)
      × (shr byte (7 - p % 8) % 2 ≡ b)
      × (drop (suc p) (to_bits xs) ≡ l)
unfolding to_bits bits_of
byte_bit [] zero b l e = cc
byte_bit [] (suc p) b l e = cc
byte_bit (x ∷ xs) zero b l e = (x, refl, ground arith, ground arith)
byte_bit (x ∷ xs) (suc zero) b l e = (x, refl, ground arith, ground arith)
byte_bit (x ∷ xs) (suc (suc zero)) b l e = (x, refl, ground arith, ground arith)
byte_bit (x ∷ xs) (suc (suc (suc zero))) b l e = (x, refl, ground arith, ground arith)
byte_bit (x ∷ xs) (suc (suc (suc (suc zero)))) b l e = (x, refl, ground arith, ground arith)
byte_bit (x ∷ xs) (suc (suc (suc (suc (suc zero))))) b l e = (x, refl, ground arith, ground arith)
byte_bit (x ∷ xs) (suc (suc (suc (suc (suc (suc zero)))))) b l e =
    (x, refl, ground arith, ground arith)
byte_bit (x ∷ xs) (suc (suc (suc (suc (suc (suc (suc zero))))))) b l e =
    (x, refl, ground arith, ground arith)
byte_bit (x ∷ xs) (suc (suc (suc (suc (suc (suc (suc (suc p)))))))) b l e =
    let (y, g, v, d) = byte_bit xs p b l e in
    let s : suc (suc (suc (suc (suc (suc (suc (suc p))))))) ≡ p + 8 = omega arith in
    let q : (p + 8) / 8 ≡ suc (p / 8) = omega arith in
    let m : (p + 8) % 8 ≡ p % 8 = omega arith in (y, rw (s, q) g, rw (s, m) v, d)

digit_below : (b r p : ℕ) → IsBit b → r < p → b * p + r < 2 * p
digit_below zero r p h lt = omega arith
digit_below (suc zero) r p h lt = omega arith
digit_below (suc (suc b)) r p h lt = absurd (omega arith)

-- The digit of weight `p`.
top_digit : (s p : ℕ) → 0 < p → s % (2 * p) ≡ s / p % 2 * p + s % p
top_digit s p h =
    let y = s / p % 2 * p + s % p in
    let e : s ≡ 2 * p * (s / p / 2) + y =
      omega (arith, div-add-mod s p, ap (λ (t : ℕ). p * t) (div-add-mod (s / p) 2)) in
    let lt : y < 2 * p = digit_below (s / p % 2) (s % p) p (omega arith) (mod-lt s h) in
    ap (λ (t : ℕ). t % (2 * p)) e ∙ mul-add-mod_self_left (2 * p) (s / p / 2) y ∙ mod-eq_of_lt lt

pub read_bits_loop_step :
    (n v b byte : ℕ) (r : BitReader)
    → IsBit b
    → v * 2 + b < 2 ^ 32
    → get_elem? r.bytes (r.bit_pos / 8) ≡ some byte
    → shr byte (7 - r.bit_pos % 8) % 2 ≡ b
    → read_bits_loop (suc n) v r
      ≡ read_bits_loop n (v * 2 + b) (record r { bit_pos = r.bit_pos + 1 })
unfolding read_bits_loop
read_bits_loop_step n v b byte r hb small g bit =
    let m : v * 2 % 2 ^ 32 ≡ v * 2 = mod-eq_of_lt (omega arith) in
    rw (g, read_bits_loop) (rw (bit, m, bit_or_shift_in v b hb))

below_of_product : (a p c : ℕ) → 0 < p → a * p + c < 2 ^ 32 → a < 2 ^ 32
below_of_product a p c h lt = grind arith

read_bits_loop-remaining :
    (n v s : ℕ) (r : BitReader) (rest : List ℕ)
    → remaining r ≡ bits_of n s ++ rest
    → v * 2 ^ n + s % 2 ^ n < 2 ^ 32
    → (r' : BitReader) × (read_bits_loop n v r ≡ ok (v * 2 ^ n + s % 2 ^ n, r'))
      × (remaining r' ≡ rest)
unfolding read_bits_loop remaining bits_of
read_bits_loop-remaining zero v s r rest e h = (r, ap (λ (t : ℕ). ok (t, r)) (omega arith), e)
read_bits_loop-remaining (suc n) v s r rest e h =
    let (byte, g, bit, next) = byte_bit r.bytes r.bit_pos _ _ e in
    let b = s / 2 ^ n % 2 in
    let d : s % 2 ^ suc n ≡ b * 2 ^ n + s % 2 ^ n =
      rw (pow_double n) (top_digit s (2 ^ n) (pow-pos n)) in
    let total : (v * 2 + b) * 2 ^ n + s % 2 ^ n ≡ v * 2 ^ suc n + s % 2 ^ suc n =
      omega (arith, d, ap (λ (t : ℕ). v * t) (pow_double n)) in
    let r1 : BitReader = record r { bit_pos = r.bit_pos + 1 } in
    let at_next : remaining r1 ≡ bits_of n s ++ rest = rw add-one next in
    let (r2, run, left) = read_bits_loop-remaining n (v * 2 + b) s r1 rest at_next (rw total h) in
    let small : v * 2 + b < 2 ^ 32 =
      below_of_product (v * 2 + b) (2 ^ n) (s % 2 ^ n) (pow-pos n) (rw total h) in
    (
      r2,
      read_bits_loop_step n v b byte r (omega arith) small g bit
          ∙ run
          ∙ ap (λ (t : ℕ). ok (t, r2)) total,
      left,
    )

-- The `n` bits that stand next are read as the number they spell.
pub read_bits-remaining :
    (n s : ℕ) (r : BitReader) (rest : List ℕ)
    → n < 33
    → s < 2 ^ n
    → remaining r ≡ bits_of n s ++ rest
    → (r' : BitReader) × (read_bits n r ≡ ok (s, r')) × (remaining r' ≡ rest)
unfolding read_bits
read_bits-remaining n s r rest hn hs e =
    let m : s % 2 ^ n ≡ s = mod-eq_of_lt hs in
    let v : 0 * 2 ^ n + s % 2 ^ n ≡ s = omega arith in
    let (r', run, left) =
      read_bits_loop-remaining n 0 s r rest e (omega (arith, pow_mono n 32 (omega arith))) in
    (r', run ∙ ap (λ (t : ℕ). ok (t, r')) v, left)
