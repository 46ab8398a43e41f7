-- ===== src/Sps/Bits.antt =====
-- Bit strings, most significant bit first: the view under which `BitReader` and `BitWriter` are
-- specified. These functions model no code of their own.
use zpenflow.Base.{
  ℕ, zero, suc, ◌+◌, ◌*◌, ◌/◌, ◌%◌, ◌^◌, ◌≡◌, refl, arith, List, [], ◌∷◌, ◌++◌, length, All,
}
use zpenflow.Base.Words.{IsBit}

-- The low `n` bits of `v`.
unfoldable pub bits_of : ℕ → ℕ → List ℕ
bits_of zero v = []
bits_of (suc i) v = (v / 2 ^ i % 2) ∷ bits_of i v

-- The bits of a byte string.
unfoldable pub to_bits : List ℕ → List ℕ
to_bits [] = []
to_bits (x ∷ xs) = bits_of 8 x ++ to_bits xs

abbrev byte_of : (a b c d e f g h : ℕ) → ℕ
byte_of a b c d e f g h = a * 128 + b * 64 + c * 32 + d * 16 + e * 8 + f * 4 + g * 2 + h

-- The byte string that holds a bit string, its last byte padded with zeros.
unfoldable pub pack : List ℕ → List ℕ
pack [] = []
pack (a ∷ []) = byte_of a 0 0 0 0 0 0 0 ∷ []
pack (a ∷ b ∷ []) = byte_of a b 0 0 0 0 0 0 ∷ []
pack (a ∷ b ∷ c ∷ []) = byte_of a b c 0 0 0 0 0 ∷ []
pack (a ∷ b ∷ c ∷ d ∷ []) = byte_of a b c d 0 0 0 0 ∷ []
pack (a ∷ b ∷ c ∷ d ∷ e ∷ []) = byte_of a b c d e 0 0 0 ∷ []
pack (a ∷ b ∷ c ∷ d ∷ e ∷ f ∷ []) = byte_of a b c d e f 0 0 ∷ []
pack (a ∷ b ∷ c ∷ d ∷ e ∷ f ∷ g ∷ []) = byte_of a b c d e f g 0 ∷ []
pack (a ∷ b ∷ c ∷ d ∷ e ∷ f ∷ g ∷ h ∷ bs) = byte_of a b c d e f g h ∷ pack bs

pub bits_of-IsBit : (n v : ℕ) → All IsBit (bits_of n v)
unfolding bits_of
bits_of-IsBit zero v = tt
bits_of-IsBit (suc n) v = (omega arith, bits_of-IsBit n v)

pub length-bits_of : (n v : ℕ) → length (bits_of n v) ≡ n
unfolding bits_of
length-bits_of zero v = refl
length-bits_of (suc n) v = omega (arith, length-bits_of n v)

bits_of-byte_of :
    (a b c d e f g h : ℕ)
    → IsBit a
    → IsBit b
    → IsBit c
    → IsBit d
    → IsBit e
    → IsBit f
    → IsBit g
    → IsBit h
    → bits_of 8 (byte_of a b c d e f g h) ≡ a ∷ b ∷ c ∷ d ∷ e ∷ f ∷ g ∷ h ∷ []
unfolding bits_of
bits_of-byte_of a b c d e f g h pa pb pc pd pe pf pg ph = ground arith

-- Whole bytes are read back as they were packed.
pub to_bits-pack : (k : ℕ) (bs : List ℕ) → All IsBit bs → length bs ≡ k * 8 → to_bits (pack bs) ≡ bs
unfolding pack to_bits
to_bits-pack zero [] h e = refl
to_bits-pack zero (a ∷ bs) h e = absurd (omega arith)
to_bits-pack (suc k) (a ∷ b ∷ c ∷ d ∷ e ∷ f ∷ g ∷ i ∷ bs)
      (pa, (pb, (pc, (pd, (pe, (pf, (pg, (pi, h)))))))) len =
    rw (bits_of-byte_of a b c d e f g i pa pb pc pd pe pf pg pi, to_bits-pack k bs h (omega arith))
to_bits-pack (suc k) _ h e = absurd (omega arith)

-- The last byte may be filled up.
pub to_bits-pack_padded :
    (bs : List ℕ) → All IsBit bs → (zs : List ℕ) × (to_bits (pack bs) ≡ bs ++ zs)
unfolding pack to_bits
to_bits-pack_padded [] h = ([], refl)
to_bits-pack_padded (a ∷ []) (pa, _) = (
  0 ∷ 0 ∷ 0 ∷ 0 ∷ 0 ∷ 0 ∷ 0 ∷ [],
  rw
      (bits_of-byte_of a 0 0 0 0 0 0 0 pa (omega arith) (omega arith) (omega arith) (omega arith)
        (omega arith) (omega arith) (omega arith))
      refl,
)
to_bits-pack_padded (a ∷ b ∷ []) (pa, (pb, _)) = (
  0 ∷ 0 ∷ 0 ∷ 0 ∷ 0 ∷ 0 ∷ [],
  rw
      (bits_of-byte_of a b 0 0 0 0 0 0 pa pb (omega arith) (omega arith) (omega arith) (omega arith)
        (omega arith) (omega arith))
      refl,
)
to_bits-pack_padded (a ∷ b ∷ c ∷ []) (pa, (pb, (pc, _))) = (
  0 ∷ 0 ∷ 0 ∷ 0 ∷ 0 ∷ [],
  rw
      (bits_of-byte_of a b c 0 0 0 0 0 pa pb pc (omega arith) (omega arith) (omega arith)
        (omega arith) (omega arith))
      refl,
)
to_bits-pack_padded (a ∷ b ∷ c ∷ d ∷ []) (pa, (pb, (pc, (pd, _)))) = (
  0 ∷ 0 ∷ 0 ∷ 0 ∷ [],
  rw
      (bits_of-byte_of a b c d 0 0 0 0 pa pb pc pd (omega arith) (omega arith) (omega arith)
        (omega arith))
      refl,
)
to_bits-pack_padded (a ∷ b ∷ c ∷ d ∷ e ∷ []) (pa, (pb, (pc, (pd, (pe, _))))) = (
  0 ∷ 0 ∷ 0 ∷ [],
  rw (bits_of-byte_of a b c d e 0 0 0 pa pb pc pd pe (omega arith) (omega arith) (omega arith))
      refl,
)
to_bits-pack_padded (a ∷ b ∷ c ∷ d ∷ e ∷ f ∷ []) (pa, (pb, (pc, (pd, (pe, (pf, _)))))) = (
  0 ∷ 0 ∷ [],
  rw (bits_of-byte_of a b c d e f 0 0 pa pb pc pd pe pf (omega arith) (omega arith)) refl,
)
to_bits-pack_padded (a ∷ b ∷ c ∷ d ∷ e ∷ f ∷ g ∷ []) (pa, (pb, (pc, (pd, (pe, (pf, (pg, _))))))) =
    (0 ∷ [], rw (bits_of-byte_of a b c d e f g 0 pa pb pc pd pe pf pg (omega arith)) refl)
to_bits-pack_padded (a ∷ b ∷ c ∷ d ∷ e ∷ f ∷ g ∷ i ∷ bs)
      (pa, (pb, (pc, (pd, (pe, (pf, (pg, (pi, h)))))))) =
    let (zs, q) = to_bits-pack_padded bs h in
    (zs, rw (bits_of-byte_of a b c d e f g i pa pb pc pd pe pf pg pi, q) refl)
