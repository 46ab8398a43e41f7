-- ===== src/Sps/Hevc/Remaining.antt =====
-- `copy_remaining_bits` copies every bit that is left.
use zpenflow.Base.{
  ℕ, zero, suc, ◌+◌, ◌-◌, ◌*◌, ◌/◌, ◌%◌, ◌≤◌, ◌<◌, ◌≡◌, refl, sym, ap, ◌∙◌, arith, leb, ltb, ◌==◌,
  ◌&&◌, Bool-cases, inl, inr, List, [], ◌∷◌, ◌++◌, length, length-append, length-drop, drop, get_or,
  All, All-append, append-nil, append_assoc,
}
use zpenflow.Base.Words.{IsBit, low_bits}
use zpenflow.Engine.{ok}
use zpenflow.Sps.Bits.{bits_of, bits_of-IsBit, to_bits, length-bits_of}
use zpenflow.Sps.Reader
use zpenflow.Sps.Reader.{BitReader}
use zpenflow.Sps.Reader.View.{remaining, read_bits-remaining}
use zpenflow.Sps.Writer
use zpenflow.Sps.Writer.Packed.{holding, write_bits-holding}
use zpenflow.Sps.Walker.{Io, io}
use zpenflow.Sps.Hevc.Tail.{copy_remaining_step, copy_remaining_loop, copy_remaining_bits}

length-to_bits : (xs : List ℕ) → length (to_bits xs) ≡ length xs * 8
unfolding to_bits bits_of
length-to_bits [] = refl
length-to_bits (x ∷ xs) = omega (arith, length-to_bits xs)

-- A byte at a byte boundary.
byte_at :
    (xs : List ℕ) (p : ℕ)
    → p % 8 ≡ 0
    → p + 8 ≤ length xs * 8
    → drop p (to_bits xs) ≡ bits_of 8 (get_or xs (p / 8) 0) ++ drop (p + 8) (to_bits xs)
unfolding to_bits bits_of
byte_at [] p m h = absurd (omega arith)
byte_at (x ∷ xs) zero m h = refl
byte_at (x ∷ xs) (suc (suc (suc (suc (suc (suc (suc (suc p)))))))) m h =
    let s : suc (suc (suc (suc (suc (suc (suc (suc p))))))) ≡ p + 8 = omega arith in
    let q : (p + 8) / 8 ≡ suc (p / 8) = omega arith in
    let t : p + 8 + 8 ≡ suc (suc (suc (suc (suc (suc (suc (suc (p + 8)))))))) = omega arith in
    rw (s, q, t) (byte_at xs p (omega arith) (omega arith))
byte_at (x ∷ xs) (suc p) m h = absurd (omega arith)

to_bits-IsBit : (xs : List ℕ) → All IsBit (to_bits xs)
unfolding to_bits
to_bits-IsBit [] = tt
to_bits-IsBit (x ∷ xs) =
    All-append IsBit (bits_of 8 x) (to_bits xs) (bits_of-IsBit 8 x) (to_bits-IsBit xs)

All-drop : (p : ℕ) (l : List ℕ) → All IsBit l → All IsBit (drop p l)
All-drop zero l h = h
All-drop (suc p) [] h = tt
All-drop (suc p) (b ∷ l) (hb, h) = All-drop p l h

pub remaining-IsBit : (r : BitReader) → All IsBit (remaining r)
unfolding remaining
remaining-IsBit r = All-drop r.bit_pos (to_bits r.bytes) (to_bits-IsBit r.bytes)

-- What is left of bits begins with one, if it is not empty.
drop-cons :
    (p : ℕ) (l : List ℕ)
    → All IsBit l
    → p < length l
    → (b : ℕ) × (rest : List ℕ) × (drop p l ≡ b ∷ rest) × IsBit b
drop-cons p [] h lt = absurd (omega arith)
drop-cons zero (b ∷ l) (hb, h) lt = (b, l, refl, hb)
drop-cons (suc p) (b ∷ l) (hb, h) lt = drop-cons p l h (omega arith)

length-remaining : (r : BitReader) → length (remaining r) ≡ length r.bytes * 8 - r.bit_pos
unfolding remaining
length-remaining r = omega (arith, length-drop r.bit_pos (to_bits r.bytes), length-to_bits r.bytes)

-- One round moves the next bits from the reader to the writer.
Moved : BitReader → List ℕ → Io → Type 0
Moved r bs s =
    (es : List ℕ) × (r' : BitReader) × (s ≡ io r' (holding (bs ++ es)))
    × All IsBit es
    × (remaining r ≡ es ++ remaining r')
    × (0 < length es)

copy_byte-Moved :
    (r : BitReader) (bs : List ℕ)
    → All IsBit bs
    → r.bit_pos % 8 ≡ 0
    → r.bit_pos + 8 ≤ length r.bytes * 8
    → Moved r bs (
        io
          (record { bytes = r.bytes; bit_pos = r.bit_pos + 8 })
          (Writer.write_bits (get_or r.bytes (r.bit_pos / 8) 0) 8 (holding bs)))
unfolding Moved remaining
copy_byte-Moved r bs h aligned room =
    let byte = get_or r.bytes (r.bit_pos / 8) 0 in
    let r' : BitReader = record { bytes = r.bytes; bit_pos = r.bit_pos + 8 } in
    (
      bits_of 8 byte,
      r',
      ap (io r') (write_bits-holding byte 8 bs h),
      bits_of-IsBit 8 byte,
      byte_at r.bytes r.bit_pos aligned room,
      omega (arith, length-bits_of 8 byte),
    )

copy_bit-Moved :
    (r : BitReader) (bs : List ℕ)
    → All IsBit bs
    → r.bit_pos < length r.bytes * 8
    → (b : ℕ) × (r' : BitReader) × (Reader.read_bits 1 r ≡ ok (b, r'))
      × Moved r bs (io r' (Writer.write_bits b 1 (holding bs)))
unfolding Moved remaining bits_of
copy_bit-Moved r bs h lt =
    let (b, rest, e, hb) =
      drop-cons r.bit_pos (to_bits r.bytes) (to_bits-IsBit r.bytes)
        (omega (arith, length-to_bits r.bytes)) in
    let one : b / 1 % 2 ≡ b = omega arith in
    let (r', q, left) =
      read_bits-remaining 1 b r rest (omega arith) (omega arith)
        (e ∙ ap (λ (t : ℕ). t ∷ rest) (sym one)) in
    let byte =
      ap (io r') (write_bits-holding b 1 bs h ∙ ap (λ (t : ℕ). holding (bs ++ (t ∷ []))) one) in
    (b, r', q, (b ∷ [], r', byte, (hb, tt), e ∙ ap (λ (l : List ℕ). b ∷ l) (sym left), omega arith))

copy_remaining_step-Moved :
    (r : BitReader) (bs : List ℕ)
    → All IsBit bs
    → r.bit_pos < length r.bytes * 8
    → Moved r bs (copy_remaining_step (io r (holding bs)))
unfolding copy_remaining_step
copy_remaining_step-Moved r bs h lt =
    let aligned = low_bits r.bit_pos 3 == 0 in
    let room = leb 8 (length r.bytes * 8 - r.bit_pos) in
    elim (Bool-cases (aligned && room)) [
      | inl whole ↦
          rw whole (copy_byte-Moved r bs h (ground (arith, whole)) (ground (arith, whole)))
      | inr single ↦ let (b, r', q, moved) = copy_bit-Moved r bs h lt in rw (single, q) moved
    ]

is_empty : (l : List ℕ) → length l ≤ 0 → l ≡ []
is_empty [] h = refl
is_empty (b ∷ l) h = absurd (omega arith)

holding-end :
    (r : BitReader) (bs : List ℕ)
    → length (remaining r) ≤ 0
    → holding bs ≡ holding (bs ++ remaining r)
holding-end r bs h =
    ap holding (sym (ap (λ (l : List ℕ). bs ++ l) (is_empty (remaining r) h) ∙ append-nil bs))

-- With a round for each bit that is left, the loop copies them all.
copy_remaining_loop-holding :
    (fuel : ℕ) (r : BitReader) (bs : List ℕ)
    → All IsBit bs
    → length (remaining r) ≤ fuel
    → (copy_remaining_loop fuel (io r (holding bs))).writer ≡ holding (bs ++ remaining r)
unfolding copy_remaining_loop Moved
copy_remaining_loop-holding zero r bs h le = holding-end r bs le
copy_remaining_loop-holding (suc fuel) r bs h le =
    elim (Bool-cases (ltb r.bit_pos (length r.bytes * 8))) [
      | inl more ↦
          let (es, r', e, bits, rem, some_bit) =
            copy_remaining_step-Moved r bs h (ground (arith, more)) in
          let size = ap length rem ∙ length-append es (remaining r') in
          let rest =
            copy_remaining_loop-holding fuel r' (bs ++ es) (All-append IsBit bs es h bits)
              (omega (arith, size)) in
          rw (more, copy_remaining_loop, e)
            (rest
              ∙ ap holding
                  (append_assoc bs es (remaining r') ∙ ap (λ (l : List ℕ). bs ++ l) (sym rem)))
      | inr done ↦
          rw (done, copy_remaining_loop) (holding-end r bs (ground (arith, length-remaining r)))
    ]

-- Every bit that is left is copied, up to the end of the input.
pub copy_remaining_bits-holding :
    (r : BitReader) (bs : List ℕ) (u : Unit {0}) (s : Io)
    → All IsBit bs
    → copy_remaining_bits (io r (holding bs)) ≡ ok (u, s)
    → s.writer ≡ holding (bs ++ remaining r)
unfolding copy_remaining_bits
copy_remaining_bits-holding r bs u s h e =
    let fuel = length r.bytes * 8 - r.bit_pos in
    let last : copy_remaining_loop fuel (io r (holding bs)) ≡ s = cc in
    ap (λ (t : Io). t.writer) (sym last)
    ∙ copy_remaining_loop-holding fuel r bs h (omega (arith, length-remaining r))
