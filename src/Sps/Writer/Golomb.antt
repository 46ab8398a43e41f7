-- ===== src/Sps/Writer/Golomb.antt =====
-- What the Exp-Golomb writers of sps_patcher.rs write: `ue(v)` of ITU-T H.264 9.1.
use zpenflow.Base.{
  ℕ, zero, suc, ◌+◌, ◌-◌, ◌*◌, ◌/◌, ◌%◌, ◌^◌, ◌<◌, ◌≤◌, ◌≡◌, sym, ap, ◌∙◌, arith, List, [], ◌∷◌,
  ◌++◌, All, All-append, append_assoc, append-nil, replicate, ltb, lt→ltb, if◌then◌else◌,
}
use native.Mathlib.Nat.{pow-suc, div-eq_of_lt}
use native.Mathlib.Decide.{dec_lt}
use zpenflow.Base.Words.{pow-pos, pow_mono, div_pos, IsBit}
use zpenflow.Sps.Bits.{bits_of, bits_of-IsBit}
use zpenflow.Sps.Writer.{write_bits, write_zeros, leading_zeros, write_ue}
use zpenflow.Sps.Writer.Packed.{holding, write_bits-holding}

-- `k` zeros, a one, and the `k` bits of the suffix.
unfoldable pub ue_code : ℕ → ℕ → List ℕ
ue_code k s = replicate k 0 ++ (1 ∷ bits_of k s)

-- The number that the code stands for.
abbrev pub ue_value : ℕ → ℕ → ℕ
ue_value k s = 2 ^ k - 1 + s

leading_zeros_lem : (w k v : ℕ) → k < w → 2 ^ k ≤ v → v < 2 ^ suc k → leading_zeros w v + k + 1 ≡ w
unfolding leading_zeros
leading_zeros_lem zero k v h lo hi = absurd (omega arith)
leading_zeros_lem (suc w) k v h lo hi = elim (dec_lt k w) [
  | yes p ↦
      let q : v / 2 ^ w ≡ 0 = div-eq_of_lt (omega (arith, pow_mono (suc k) w p)) in
      rw q (omega (arith, leading_zeros_lem w k v p lo hi))
  | no p ↦
      let e : k ≡ w = omega arith in
      let q : 0 < v / 2 ^ w = div_pos v (2 ^ w) (rw e at lo) (pow-pos w) in ground (arith, q, e)
]

-- Every number has an order of magnitude.
pub magnitude : (w v : ℕ) → 0 < v → v < 2 ^ w → (k : ℕ) × (k < w) × (2 ^ k ≤ v) × (v < 2 ^ suc k)
magnitude zero v h lt = absurd (omega arith)
magnitude (suc w) v h lt = elim (dec_lt v (2 ^ w)) [
  | yes p ↦ let (k, a, b, c) = magnitude w v h p in (k, omega arith, b, c)
  | no p ↦ (w, omega arith, omega arith, lt)
]

replicate-IsBit : (n : ℕ) → All IsBit (replicate n 0)
replicate-IsBit zero = tt
replicate-IsBit (suc n) = (omega arith, replicate-IsBit n)

pub ue_code-IsBit : (k s : ℕ) → All IsBit (ue_code k s)
unfolding ue_code
ue_code-IsBit k s =
    All-append IsBit (replicate k 0) (1 ∷ bits_of k s) (replicate-IsBit k)
      (omega arith, bits_of-IsBit k s)

write_zeros-holding :
    (n : ℕ) (bs : List ℕ)
    → All IsBit bs
    → write_zeros n (holding bs) ≡ holding (bs ++ replicate n 0)
unfolding write_zeros bits_of
write_zeros-holding zero bs h = ap holding (sym (append-nil bs))
write_zeros-holding (suc n) bs h = rw (write_bits-holding 0 1 bs h) (
    write_zeros-holding n (bs ++ (0 ∷ [])) (All-append IsBit bs (0 ∷ []) h (omega arith, tt))
    ∙ ap holding (append_assoc bs (0 ∷ []) (replicate n 0)))

write_suffix :
    (k s : ℕ) (pre : List ℕ)
    → All IsBit pre
    → (if ltb 0 k then write_bits s k (holding pre) else holding pre) ≡ holding (pre ++ bits_of k s)
write_suffix zero s pre h = unfold bits_of in ap holding (sym (append-nil pre))
write_suffix (suc k) s pre h =
    rw (lt→ltb 0 (suc k) (omega arith)) (write_bits-holding s (suc k) pre h)

ue_code_parts :
    (k s : ℕ) (bs : List ℕ)
    → ((bs ++ replicate k 0) ++ bits_of 1 1) ++ bits_of k s ≡ bs ++ ue_code k s
unfolding ue_code bits_of
ue_code_parts k s bs = simp append_assoc

-- `write_ue` appends the code of its number, if the number plus one is a u32.
pub write_ue-holding :
    (k s : ℕ) (bs : List ℕ)
    → All IsBit bs
    → k < 32
    → s < 2 ^ k
    → write_ue (ue_value k s) (holding bs) ≡ holding (bs ++ ue_code k s)
unfolding write_ue
write_ue-holding k s bs h hk hs =
    let p : 2 ^ suc k ≡ 2 * 2 ^ k = omega (arith, pow-suc 2 k) in
    let z : leading_zeros 64 (ue_value k s + 1) + k + 1 ≡ 64 =
      leading_zeros_lem 64 k (ue_value k s + 1) (omega arith) (omega (arith, pow-pos k))
        (omega (arith, pow-pos k)) in
    let zk : 63 - leading_zeros 64 (ue_value k s + 1) ≡ k = omega arith in
    let sfx : (ue_value k s + 1) % 2 ^ 32 - 2 ^ k ≡ s =
      omega (arith, pow_mono (suc k) 32 hk, pow-pos k) in
    let hz = All-append IsBit bs (replicate k 0) h (replicate-IsBit k) in
    let h1 = All-append IsBit (bs ++ replicate k 0) (bits_of 1 1) hz (bits_of-IsBit 1 1) in
    rw (zk, write_zeros-holding k bs h, write_bits-holding 1 1 (bs ++ replicate k 0) hz, sfx)
      (write_suffix k s _ h1 ∙ ap holding (ue_code_parts k s bs))

-- Every number below 2 ^ 32 - 1 has a code.
pub ue_split :
    (v : ℕ) → v + 1 < 2 ^ 32 → (k : ℕ) × (s : ℕ) × (k < 32) × (s < 2 ^ k) × (v ≡ ue_value k s)
ue_split v h =
    let (k, hk, lo, hi) = magnitude 32 (v + 1) (omega arith) h in
    let p : 2 ^ suc k ≡ 2 * 2 ^ k = omega (arith, pow-suc 2 k) in
    (k, v + 1 - 2 ^ k, hk, omega arith, omega (arith, pow-pos k))
