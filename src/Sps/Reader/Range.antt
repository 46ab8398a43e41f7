-- ===== src/Sps/Reader/Range.antt =====
-- The ranges of what `BitReader` returns.
use zpenflow.Base.{
  ℕ, zero, suc, ◌+◌, ◌-◌, ◌*◌, ◌/◌, ◌%◌, ◌^◌, ◌<◌, ◌≤◌, ◌≡◌, refl, sym, ◌∙◌, arith, ltb, ◌==◌,
  get_elem?, if◌then◌else◌, false, Bool-cases, Option-cases, inl, inr,
}
use zpenflow.Base.Words.{IsBit, shr, pow-pos, pow_double, pow_mono}
use native.Mathlib.Nat.{le_trans}
use zpenflow.Engine.{EngineResult, ok, and_then-eq-ok}
use zpenflow.Sps.Reader.{
  BitReader, Read, read_bits_loop, read_bits, after_bit, read_zeros, read_ue, pure,
}
use zpenflow.Sps.Reader.View.{read_bits_loop_step}

factor_below : (a p : ℕ) → 0 < p → (a + 1) * p ≤ 2 ^ 32 → a < 2 ^ 32
factor_below a p h le = grind arith

double_next : (v b p : ℕ) → IsBit b → (v * 2 + b + 1) * p ≤ (v + 1) * (2 * p)
double_next v zero p h = grind arith
double_next v (suc zero) p h = grind arith
double_next v (suc (suc b)) p h = absurd (omega arith)

read_bits_loop-lt :
    (n v x : ℕ) (r r' : BitReader)
    → (v + 1) * 2 ^ n ≤ 2 ^ 32
    → read_bits_loop n v r ≡ ok (x, r')
    → x < (v + 1) * 2 ^ n
unfolding read_bits_loop
read_bits_loop-lt zero v x r r' h e = ground arith
read_bits_loop-lt (suc n) v x r r' h e = elim (Option-cases (get_elem? r.bytes (r.bit_pos / 8))) [
  | inl q ↦ cc (rw (q, read_bits_loop) at e)
  | inr (byte, q) ↦
      let b = shr byte (7 - r.bit_pos % 8) % 2 in
      let hb : IsBit b = omega arith in
      let r1 : BitReader = record r { bit_pos = r.bit_pos + 1 } in
      let d : (v * 2 + b + 1) * 2 ^ n ≤ (v + 1) * 2 ^ suc n =
        rw (pow_double n) (double_next v b (2 ^ n) hb) in
      let small : v * 2 + b < 2 ^ 32 =
        factor_below (v * 2 + b) (2 ^ n) (pow-pos n) (le_trans d h) in
      let step = read_bits_loop_step n v b byte r hb small q refl in
      le_trans (read_bits_loop-lt n (v * 2 + b) x r1 r' (le_trans d h) (sym step ∙ e)) d
]

-- `n` bits make a number below `2 ^ n`.
pub read_bits-lt : (n x : ℕ) (r r' : BitReader) → n < 33 → read_bits n r ≡ ok (x, r') → x < 2 ^ n
unfolding read_bits
read_bits-lt n x r r' h e =
    omega (arith, read_bits_loop-lt n 0 x r r' (omega (arith, pow_mono n 32 (omega arith))) e)

after_bit-lt :
    (n b x : ℕ) (rest : Read ℕ) (r r' : BitReader)
    → n < 32
    → (n + 1 < 32 → rest r ≡ ok (x, r') → x < 32)
    → after_bit n rest b r ≡ ok (x, r')
    → x < 32
unfolding after_bit
after_bit-lt n b x rest r r' h ih e = elim (Bool-cases (b == 1)) [
  | inl one ↦ ok_below n x r r' h (rw one at e)
  | inr other ↦ elim (Bool-cases (ltb 31 (n + 1))) [
    | inl over ↦ cc (rw (other, over) at e)
    | inr more ↦ ih (ground arith) (rw (other, more) at e)
  ]
]
  where
    ok_below :
        (n x : ℕ) (r r' : BitReader)
        → n < 32
        → ◌≡◌ {A = EngineResult (ℕ × BitReader)} (ok (n, r)) (ok (x, r'))
        → x < 32
    ok_below n x r r' h e = ground arith

read_zeros-lt :
    (fuel n x : ℕ) (r r' : BitReader) → n < 32 → read_zeros fuel n r ≡ ok (x, r') → x < 32
unfolding read_zeros
read_zeros-lt zero n x r r' h e = cc
read_zeros-lt (suc fuel) n x r r' h e =
    let ((b, r1), q, e1) = and_then-eq-ok (read_bits 1 r) _ e in
    after_bit-lt n b x (λ t. read_zeros fuel (n + 1) t) r1 r' h
      (λ lt. read_zeros-lt fuel (n + 1) x r1 r' lt) e1

read_ue_bound : (k s : ℕ) → k < 32 → s < 2 ^ k → (2 ^ k - 1 + s) % 2 ^ 32 + 1 < 2 ^ 32
read_ue_bound k s hk hs =
    let fits : 2 ^ k - 1 + s + 1 < 2 ^ 32 = omega (arith, pow_double k, pow_mono (suc k) 32 hk) in
    omega arith

suffix-lt :
    (k s : ℕ) (r r' : BitReader)
    → k < 32
    → (if k == 0 then pure 0 else read_bits k) r ≡ ok (s, r')
    → s < 2 ^ k
suffix-lt zero s r r' hk e = ground arith
suffix-lt (suc k) s r r' hk e =
    let z : (suc k == 0) ≡ false = ground arith in
    read_bits-lt (suc k) s r r' (omega arith) (rw z at e)

-- The largest number that `read_ue` returns is 2 ^ 32 - 2: neither its own sum nor the `value + 1`
-- of `write_ue` wraps.
pub read_ue-lt : (v : ℕ) (r r' : BitReader) → read_ue r ≡ ok (v, r') → v + 1 < 2 ^ 32
unfolding read_ue
read_ue-lt v r r' e =
    let ((k, r1), q, e1) = and_then-eq-ok (read_zeros 32 0 r) _ e in
    let ((s, r2), q2, e2) = and_then-eq-ok ((if k == 0 then pure 0 else read_bits k) r1) _ e1 in
    let hk = read_zeros-lt 32 0 k r r1 (omega arith) q in
    let b = read_ue_bound k s hk (suffix-lt k s r1 r2 hk q2) in ground (arith, b)
