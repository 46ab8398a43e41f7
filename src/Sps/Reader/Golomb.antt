-- ===== src/Sps/Reader/Golomb.antt =====
-- The Exp-Golomb readers of sps_patcher.rs undo its writers.
use zpenflow.Base.{
  ℕ, zero, suc, ◌+◌, ◌%◌, ◌^◌, ◌<◌, ◌≡◌, ap, ◌∙◌, arith, List, ◌∷◌, ◌++◌, ltb, ◌==◌, if◌then◌else◌,
  false, replicate, append_assoc,
}
use zpenflow.Base.Words.{IsBit, pow_double, pow_mono}
use native.Mathlib.Nat.{mod-eq_of_lt}
use zpenflow.Engine.{ok}
use zpenflow.Sps.Bits.{bits_of}
use zpenflow.Sps.Reader.{BitReader, read_bits, read_zeros, after_bit, read_ue, pure}
use zpenflow.Sps.Reader.View.{remaining, read_bits-remaining}
use zpenflow.Sps.Writer.Golomb.{ue_code, ue_value}

read_one_bit :
    (b : ℕ) (r : BitReader) (rest : List ℕ)
    → IsBit b
    → remaining r ≡ b ∷ rest
    → (r' : BitReader) × (read_bits 1 r ≡ ok (b, r')) × (remaining r' ≡ rest)
unfolding bits_of
read_one_bit zero r rest h e = read_bits-remaining 1 0 r rest (omega arith) (omega arith) e
read_one_bit (suc zero) r rest h e = read_bits-remaining 1 1 r rest (omega arith) (omega arith) e
read_one_bit (suc (suc b)) r rest h e = absurd (omega arith)

read_zeros_next :
    (fuel n : ℕ) (r r1 : BitReader)
    → read_bits 1 r ≡ ok (0, r1)
    → n < 31
    → read_zeros (suc fuel) n r ≡ read_zeros fuel (n + 1) r1
unfolding read_zeros after_bit
read_zeros_next fuel n r r1 run h = let g : ltb 31 (n + 1) ≡ false = ground arith in rw run (rw g)

read_zeros-remaining :
    (k fuel n : ℕ) (r : BitReader) (rest : List ℕ)
    → k < fuel
    → n + k < 32
    → remaining r ≡ replicate k 0 ++ (1 ∷ rest)
    → (r' : BitReader) × (read_zeros fuel n r ≡ ok (n + k, r')) × (remaining r' ≡ rest)
unfolding read_zeros
read_zeros-remaining k zero n r rest hf hn e = absurd (omega arith)
read_zeros-remaining zero (suc fuel) n r rest hf hn e =
    let (r1, run, left) = read_one_bit 1 r rest (omega arith) e in
    (r1, rw run (ap (λ (t : ℕ). ok (t, r1)) (omega arith)), left)
read_zeros-remaining (suc k) (suc fuel) n r rest hf hn e =
    let (r1, run, left) = read_one_bit 0 r (replicate k 0 ++ (1 ∷ rest)) (omega arith) e in
    let (r2, run', left') =
      read_zeros-remaining k fuel (n + 1) r1 rest (omega arith) (omega arith) left in
    (
      r2,
      read_zeros_next fuel n r r1 run (omega arith)
          ∙ run'
          ∙ ap (λ (t : ℕ). ok (t, r2)) (omega arith),
      left',
    )

ue_value-fits : (k s : ℕ) → k < 32 → s < 2 ^ k → ue_value k s % 2 ^ 32 ≡ ue_value k s
ue_value-fits k s hk hs = mod-eq_of_lt (omega (arith, pow_double k, pow_mono (suc k) 32 hk))

suc_ne_zero : (k : ℕ) → (suc k == 0) ≡ false
suc_ne_zero k = ground arith

suffix-remaining :
    (k s : ℕ) (r : BitReader) (rest : List ℕ)
    → k < 32
    → s < 2 ^ k
    → remaining r ≡ bits_of k s ++ rest
    → (r' : BitReader) × ((if k == 0 then pure 0 else read_bits k) r ≡ ok (s, r'))
      × (remaining r' ≡ rest)
suffix-remaining zero s r rest hk hs e =
    (r, ap (λ (t : ℕ). ok (t, r)) (omega arith), unfold bits_of in e)
suffix-remaining (suc k) s r rest hk hs e =
    let (r1, run, left) = read_bits-remaining (suc k) s r rest (omega arith) hs e in
    (r1, rw (suc_ne_zero k) run, left)

-- A code that stands next is read as its number.
pub read_ue-remaining :
    (k s : ℕ) (r : BitReader) (rest : List ℕ)
    → k < 32
    → s < 2 ^ k
    → remaining r ≡ ue_code k s ++ rest
    → (r' : BitReader) × (read_ue r ≡ ok (ue_value k s, r')) × (remaining r' ≡ rest)
unfolding read_ue ue_code
read_ue-remaining k s r rest hk hs e =
    let e1 = e ∙ append_assoc (replicate k 0) (1 ∷ bits_of k s) rest in
    let (r1, run1, left1) =
      read_zeros-remaining k 32 0 r (bits_of k s ++ rest) hk (omega arith) e1 in
    let z : 0 + k ≡ k = omega arith in
    let (r2, run2, left2) = suffix-remaining k s r1 rest hk hs left1 in
    (r2, rw (run1, z) (rw run2 (ap (λ (t : ℕ). ok (t, r2)) (ue_value-fits k s hk hs))), left2)
