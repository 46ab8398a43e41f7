-- ===== src/Protocol/Bytes.antt =====
-- `to_be_bytes` and `from_be_bytes` of the unsigned integers of `n` bytes. Signed integers and floats
-- travel as the bit pattern that these bytes spell, and are modelled by it.
use zpenflow.Base.{
  ℕ, zero, suc, ◌+◌, ◌-◌, ◌*◌, ◌/◌, ◌%◌, ◌^◌, ◌<◌, ◌≡◌, ap, ◌∙◌, arith, List, [], ◌∷◌, length, take,
  drop,
}
use native.Mathlib.Nat.{pow-suc, div-div-eq-div-mul, mod-add-div', div-add-mod', mod-eq_of_lt}

unfoldable pub to_be_bytes : ℕ → ℕ → List ℕ
to_be_bytes zero v = []
to_be_bytes (suc n) v = v / 256 ^ n % 256 ∷ to_be_bytes n v

unfoldable pub from_digits : ℕ → List ℕ → ℕ
from_digits acc [] = acc
from_digits acc (b ∷ bs) = from_digits (acc * 256 + b) bs

unfoldable pub from_be_bytes : List ℕ → ℕ
unfolding from_digits
from_be_bytes bs = from_digits 0 bs

-- `bytes[from..to]`
abbrev pub slice : ℕ → ℕ → List ℕ → List ℕ
slice from to bytes = take (to - from) (drop from bytes)

digits_split :
    (x d r low p q v : ℕ)
    → x + d * (256 * p) ≡ v
    → q * p + low ≡ v
    → q ≡ d * 256 + r
    → x ≡ r * p + low
digits_split x d r low p q v h k e =
    let e1 : q * p ≡ (d * 256 + r) * p = ap (λ t. t * p) e in
    let e2 : (d * 256 + r) * p ≡ d * (256 * p) + r * p = grind arith in omega arith

from_digits-to_be : (n acc v : ℕ) → from_digits acc (to_be_bytes n v) ≡ acc * 256 ^ n + v % 256 ^ n
unfolding from_digits to_be_bytes
from_digits-to_be zero acc v = omega arith
from_digits-to_be (suc n) acc v =
    let p = 256 ^ n in
    let e : 256 ^ suc n ≡ 256 * p = omega (arith, pow-suc 256 n) in
    let d : v / p / 256 ≡ v / (256 * p) =
      div-div-eq-div-mul v p 256 ∙ ap (λ t. v / t) (omega arith) in
    let m : v % (256 * p) ≡ v / p % 256 * p + v % p =
      digits_split (v % (256 * p)) (v / (256 * p)) (v / p % 256) (v % p) p (v / p) v
        (mod-add-div' v (256 * p)) (div-add-mod' v p) (omega (arith, d)) in
    let ih = from_digits-to_be n (acc * 256 + v / 256 ^ n % 256) v in rw e (ih ∙ rw m (grind arith))

-- An integer that fits in its bytes is read back.
pub from_be-to_be : (n v : ℕ) → v < 256 ^ n → from_be_bytes (to_be_bytes n v) ≡ v
unfolding from_be_bytes
from_be-to_be n v h = omega (arith, from_digits-to_be n 0 v, mod-eq_of_lt h)

-- The length of a payload whose first nine bytes are known.
abbrev pub behind_header : List ℕ → ℕ
behind_header bytes = suc (suc (suc (suc (suc (suc (suc (suc (suc (length bytes)))))))))
