-- ===== src/Sps/Emulation/Escape.antt =====
-- Escaped payloads of sps_patcher.rs: they are read back, and hold no start code.
use zpenflow.Base.{ℕ, zero, suc, ◌≡◌, refl, ap, arith, leb, ◌&&◌, List, [], ◌∷◌, Bool, true, false}
use zpenflow.Sps.Emulation.{rbsp_unescape, rbsp_escape}

-- Whether two zero bytes stand before a byte below three.
unfoldable pub start_code_free : List ℕ → Bool
start_code_free [] = true
start_code_free (zero ∷ zero ∷ c ∷ rest) = leb 3 c && start_code_free (zero ∷ c ∷ rest)
start_code_free (b ∷ rest) = start_code_free rest

-- Two zeros and a byte: the byte decides which of the two shorter payloads matters.
unescape_zeros :
    (c : ℕ) (rest : List ℕ)
    → rbsp_unescape (rbsp_escape (c ∷ rest)) ≡ c ∷ rest
    → rbsp_unescape (rbsp_escape (zero ∷ c ∷ rest)) ≡ zero ∷ c ∷ rest
    → rbsp_unescape (rbsp_escape (zero ∷ zero ∷ c ∷ rest)) ≡ zero ∷ zero ∷ c ∷ rest
unfolding rbsp_unescape rbsp_escape
unescape_zeros zero rest h k = ap (λ l. 0 ∷ 0 ∷ l) h
unescape_zeros (suc zero) rest h k = ap (λ l. 0 ∷ 0 ∷ l) h
unescape_zeros (suc (suc zero)) rest h k = ap (λ l. 0 ∷ 0 ∷ l) h
unescape_zeros (suc (suc (suc zero))) rest h k = ap (λ l. 0 ∷ 0 ∷ l) h
unescape_zeros (suc (suc (suc (suc c)))) rest h k =
    let large : leb (suc (suc (suc (suc c)))) 3 ≡ false = ground arith in
    rw (large, rbsp_escape) (ap (λ l. 0 ∷ l) k)

-- Unescaping undoes escaping, on every payload.
pub unescape-escape : (rbsp : List ℕ) → rbsp_unescape (rbsp_escape rbsp) ≡ rbsp
unfolding rbsp_unescape rbsp_escape
unescape-escape [] = refl
unescape-escape (suc b ∷ rest) = ap (λ l. suc b ∷ l) (unescape-escape rest)
unescape-escape (zero ∷ []) = refl
unescape-escape (zero ∷ suc b ∷ rest) = ap (λ l. 0 ∷ l) (unescape-escape (suc b ∷ rest))
unescape-escape (zero ∷ zero ∷ []) = refl
unescape-escape (zero ∷ zero ∷ c ∷ rest) =
    unescape_zeros c rest (unescape-escape (c ∷ rest)) (unescape-escape (zero ∷ c ∷ rest))

start_code_free_zeros :
    (c : ℕ) (rest : List ℕ)
    → start_code_free (rbsp_escape (c ∷ rest)) ≡ true
    → start_code_free (rbsp_escape (zero ∷ c ∷ rest)) ≡ true
    → start_code_free (rbsp_escape (zero ∷ zero ∷ c ∷ rest)) ≡ true
unfolding start_code_free rbsp_escape
start_code_free_zeros zero rest h k = h
start_code_free_zeros (suc zero) rest h k = h
start_code_free_zeros (suc (suc zero)) rest h k = h
start_code_free_zeros (suc (suc (suc zero))) rest h k = h
start_code_free_zeros (suc (suc (suc (suc c)))) rest h k =
    let large : leb (suc (suc (suc (suc c)))) 3 ≡ false = ground arith in
    let above : leb 3 (suc (suc (suc (suc c)))) ≡ true = ground arith in
    rw (large, above, rbsp_escape) k

-- An escaped payload holds no two zero bytes before a byte below three, so no start code.
pub escape-start_code_free : (rbsp : List ℕ) → start_code_free (rbsp_escape rbsp) ≡ true
unfolding start_code_free rbsp_escape
escape-start_code_free [] = refl
escape-start_code_free (suc b ∷ rest) = escape-start_code_free rest
escape-start_code_free (zero ∷ []) = refl
escape-start_code_free (zero ∷ suc b ∷ rest) = escape-start_code_free (suc b ∷ rest)
escape-start_code_free (zero ∷ zero ∷ []) = refl
escape-start_code_free (zero ∷ zero ∷ c ∷ rest) =
    start_code_free_zeros c rest (escape-start_code_free (c ∷ rest))
      (escape-start_code_free (zero ∷ c ∷ rest))
