-- ===== src/Sps/Writer/Packed.antt =====
-- What a writer holds: it is determined by the string of bits written so far, so that every write
-- is an equation.
use zpenflow.Base.{
  ℕ, zero, suc, ◌+◌, ◌-◌, ◌*◌, ◌/◌, ◌%◌, ◌^◌, ◌<◌, ◌≡◌, refl, sym, ap, ◌∙◌, arith, List, [], ◌∷◌,
  ◌++◌, length, length-append, All, All-append, append_assoc, append-nil, set, get_or, leb,
  if◌then◌else◌,
}
use zpenflow.Base.Words.{pow-pos, IsBit, bit_or_disjoint}
use Prim.Native.Nat.{bit_or}
use native.Mathlib.Nat.{pow-suc}
use zpenflow.Sps.Bits.{bits_of, pack}
use zpenflow.Sps.Writer.{BitWriter, new, write_bit, write_bits}

-- The writer after the bits `bs`.
unfoldable pub holding : List ℕ → BitWriter
holding bs = record { bytes = pack bs; bit_pos = length bs }

-- The bytes after one bit, by the byte's index and the bit's place in it.
patched : ℕ → ℕ → ℕ → List ℕ → List ℕ
patched b idx place bytes =
    let grown = if leb (length bytes) idx then bytes ++ (0 ∷ []) else bytes in
    set grown idx (bit_or (get_or grown idx 0) (b * 2 ^ place))

patched_next :
    (b idx place x : ℕ) (xs : List ℕ)
    → patched b (suc idx) place (x ∷ xs) ≡ x ∷ patched b idx place xs
unfolding patched
patched_next b idx place x xs = ground arith

place_below : (b p t : ℕ) → IsBit b → 0 < p → t ≡ 2 * p → b * p < t
place_below zero p t h hp e = omega arith
place_below (suc zero) p t h hp e = omega arith
place_below (suc (suc b)) p t h hp e = absurd (omega arith)

-- Setting a clear bit above `k` clear bits adds it.
bit_or_place :
    (k q b : ℕ) → IsBit b → bit_or (q * 2 ^ suc k) (b * 2 ^ k) ≡ q * 2 ^ suc k + b * 2 ^ k
bit_or_place k q b h =
    let p : 2 ^ suc k ≡ 2 * 2 ^ k = omega (arith, pow-suc 2 k) in
    bit_or_disjoint (suc k) q (b * 2 ^ k) (place_below b (2 ^ k) (2 ^ suc k) h (pow-pos k) p)

last_byte :
    (k q b m n : ℕ)
    → IsBit b
    → m ≡ q * 2 ^ suc k
    → n ≡ q * 2 ^ suc k + b * 2 ^ k
    → ◌≡◌ {A = List ℕ} (bit_or m (b * 2 ^ k) ∷ []) (n ∷ [])
last_byte k q b m n h em en = ap (λ (t : ℕ). ◌∷◌ t []) (rw em (bit_or_place k q b h ∙ sym en))

patched-pack :
    (b : ℕ) (bs : List ℕ)
    → IsBit b
    → All IsBit bs
    → patched b (length bs / 8) (7 - length bs % 8) (pack bs) ≡ pack (bs ++ (b ∷ []))
unfolding patched pack
patched-pack x [] hx h = last_byte 7 (0) x _ _ hx (omega arith) (omega arith)
patched-pack x (a ∷ []) hx h = last_byte 6 (a) x _ _ hx (omega arith) (omega arith)
patched-pack x (a ∷ b ∷ []) hx h = last_byte 5 (a * 2 + b) x _ _ hx (omega arith) (omega arith)
patched-pack x (a ∷ b ∷ c ∷ []) hx h =
    last_byte 4 (a * 4 + b * 2 + c) x _ _ hx (omega arith) (omega arith)
patched-pack x (a ∷ b ∷ c ∷ d ∷ []) hx h =
    last_byte 3 (a * 8 + b * 4 + c * 2 + d) x _ _ hx (omega arith) (omega arith)
patched-pack x (a ∷ b ∷ c ∷ d ∷ e ∷ []) hx h =
    last_byte 2 (a * 16 + b * 8 + c * 4 + d * 2 + e) x _ _ hx (omega arith) (omega arith)
patched-pack x (a ∷ b ∷ c ∷ d ∷ e ∷ f ∷ []) hx h =
    last_byte 1 (a * 32 + b * 16 + c * 8 + d * 4 + e * 2 + f) x _ _ hx (omega arith) (omega arith)
patched-pack x (a ∷ b ∷ c ∷ d ∷ e ∷ f ∷ g ∷ []) hx h =
    last_byte 0 (a * 64 + b * 32 + c * 16 + d * 8 + e * 4 + f * 2 + g) x _ _ hx (omega arith)
      (omega arith)
patched-pack x (a ∷ b ∷ c ∷ d ∷ e ∷ f ∷ g ∷ i ∷ bs) hx
      (pa, (pb, (pc, (pd, (pe, (pf, (pg, (pi, h)))))))) =
    let n = length bs in
    let q : (n + 8) / 8 ≡ suc (n / 8) = omega arith in
    let m : (n + 8) % 8 ≡ n % 8 = omega arith in
    let s : suc (suc (suc (suc (suc (suc (suc (suc n))))))) ≡ n + 8 = omega arith in
    rw (s, q, m, patched_next, patched-pack x bs hx h)

-- A bit is appended, whatever was written before.
pub write_bit-holding :
    (b : ℕ) (bs : List ℕ)
    → IsBit b
    → All IsBit bs
    → write_bit b (holding bs) ≡ holding (bs ++ (b ∷ []))
unfolding write_bit holding patched
write_bit-holding b bs hb h =
    let n : length bs + 1 ≡ length (bs ++ (b ∷ [])) =
      omega (arith, length-append {0} bs (b ∷ [])) in
    λ i. record { bytes = patched-pack b bs hb h i; bit_pos = n i }

pub write_bits-holding :
    (v n : ℕ) (bs : List ℕ)
    → All IsBit bs
    → write_bits v n (holding bs) ≡ holding (bs ++ bits_of n v)
unfolding write_bits bits_of
write_bits-holding v zero bs h = ap holding (sym (append-nil bs))
write_bits-holding v (suc i) bs h =
    let b = v / 2 ^ i % 2 in
    let hb : IsBit b = omega arith in
    rw (write_bit-holding b bs hb h) (
      write_bits-holding v i (bs ++ (b ∷ [])) (All-append IsBit bs (b ∷ []) h (hb, tt))
      ∙ ap holding (append_assoc bs (b ∷ []) (bits_of i v)))

pub new-holding : new ≡ holding []
unfolding holding pack
new-holding = refl

pub bytes-holding : (bs : List ℕ) → (holding bs).bytes ≡ pack bs
unfolding holding
bytes-holding bs = refl

pub bit_pos-holding : (bs : List ℕ) → (holding bs).bit_pos ≡ length bs
unfolding holding
bit_pos-holding bs = refl
