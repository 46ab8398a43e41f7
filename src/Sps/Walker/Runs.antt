-- ===== src/Sps/Walker/Runs.antt =====
-- What a walker does on an input that begins with known bits.
use zpenflow.Base.{
  ℕ, ◌^◌, ◌<◌, ◌≡◌, sym, ap, ◌∙◌, List, [], ◌++◌, All, All-append, append-nil, append_assoc,
}
use zpenflow.Base.Words.{IsBit}
use zpenflow.Engine.{ok}
use zpenflow.Sps.Bits.{bits_of, bits_of-IsBit}
use zpenflow.Sps.Reader.{BitReader}
use zpenflow.Sps.Reader.View.{remaining, read_bits-remaining}
use zpenflow.Sps.Reader.Golomb.{read_ue-remaining}
use zpenflow.Sps.Writer.Packed.{holding, write_bits-holding}
use zpenflow.Sps.Writer.Golomb.{ue_code, ue_code-IsBit, ue_value, write_ue-holding}
use zpenflow.Sps.Walker.{
  Walk, io, ◌>>=◌, pure, reading, writing, get_bits, get_ue, put_bits, put_ue,
}

-- On the bits `es` the walker returns `b`, has read just those, and has written `out`.
pub record Runs {B : Type 0} (p : Walk B) (es out : List ℕ) (b : B) : Type 0 where
  pub at :
      (r : BitReader) (bs rest : List ℕ)
      → All IsBit bs
      → remaining r ≡ es ++ rest
      → (r' : BitReader) × (p (io r (holding bs)) ≡ ok (b, io r' (holding (bs ++ out))))
        × (remaining r' ≡ rest)

pub Runs-pure : {B : Type 0} (b : B) → Runs (pure b) [] [] b
unfolding pure
Runs-pure b = record {
  at = λ r bs rest h e. (r, ap (λ (t : List ℕ). ok (b, io r (holding t))) (sym (append-nil bs)), e);
}

-- A sequence. The bits that the first part writes are bits.
pub Runs-bind :
    {A B : Type 0} {p : Walk A} (k : A → Walk B) {es1 es2 out1 out2 : List ℕ} {a : A} {b : B}
    → Runs p es1 out1 a
    → All IsBit out1
    → Runs (k a) es2 out2 b
    → Runs (p >>= k) (es1 ++ es2) (out1 ++ out2) b
unfolding ◌>>=◌
Runs-bind k {es1} {es2} {out1} {out2} {a} {b} first hout second = record {
  at = λ r bs rest h e.
      let (r1, run1, left1) = first.at r bs (es2 ++ rest) h (e ∙ append_assoc es1 es2 rest) in
      let (r2, run2, left2) =
        second.at r1 (bs ++ out1) rest (All-append IsBit bs out1 h hout) left1 in
      (
        r2,
        rw run1 (run2 ∙ ap (λ (t : List ℕ). ok (b, io r2 (holding t))) (append_assoc bs out1 out2)),
        left2,
      );
}

pub Runs-get_bits : (n s : ℕ) → n < 33 → s < 2 ^ n → Runs (get_bits n) (bits_of n s) [] s
unfolding reading
Runs-get_bits n s hn hs = record {
  at = λ r bs rest h e.
      let (r1, run, left) = read_bits-remaining n s r rest hn hs e in
      (r1, rw (run, append-nil bs), left);
}

pub Runs-get_ue : (k s : ℕ) → k < 32 → s < 2 ^ k → Runs get_ue (ue_code k s) [] (ue_value k s)
unfolding reading
Runs-get_ue k s hk hs = record {
  at = λ r bs rest h e.
      let (r1, run, left) = read_ue-remaining k s r rest hk hs e in
      (r1, rw (run, append-nil bs), left);
}

pub Runs-put_bits : (v n : ℕ) → Runs (put_bits v n) [] (bits_of n v) tt
unfolding writing
Runs-put_bits v n = record {
  at = λ r bs rest h e. (r, ap (λ t. ok (tt, io r t)) (write_bits-holding v n bs h), e);
}

pub Runs-put_ue : (k s : ℕ) → k < 32 → s < 2 ^ k → Runs (put_ue (ue_value k s)) [] (ue_code k s) tt
unfolding writing
Runs-put_ue k s hk hs = record {
  at = λ r bs rest h e. (r, ap (λ t. ok (tt, io r t)) (write_ue-holding k s bs h hk hs), e);
}

-- The same, as first steps of a sequence.
module _ {B : Type 0} {es out : List ℕ} {b : B} where
  pub Runs-then_get_bits :
      (n s : ℕ) (k : ℕ → Walk B)
      → n < 33
      → s < 2 ^ n
      → Runs (k s) es out b
      → Runs (get_bits n >>= k) (bits_of n s ++ es) out b
  Runs-then_get_bits n s k hn hs h = Runs-bind k (Runs-get_bits n s hn hs) tt h

  pub Runs-then_get_ue :
      (j s : ℕ) (k : ℕ → Walk B)
      → j < 32
      → s < 2 ^ j
      → Runs (k (ue_value j s)) es out b
      → Runs (get_ue >>= k) (ue_code j s ++ es) out b
  Runs-then_get_ue j s k hj hs h = Runs-bind k (Runs-get_ue j s hj hs) tt h

  pub Runs-then_put_bits :
      (v n : ℕ) (k : Unit {0} → Walk B)
      → Runs (k tt) es out b
      → Runs (put_bits v n >>= k) es (bits_of n v ++ out) b
  Runs-then_put_bits v n k h = Runs-bind k (Runs-put_bits v n) (bits_of-IsBit n v) h

  pub Runs-then_put_ue :
      (j s : ℕ) (k : Unit {0} → Walk B)
      → j < 32
      → s < 2 ^ j
      → Runs (k tt) es out b
      → Runs (put_ue (ue_value j s) >>= k) es (ue_code j s ++ out) b
  Runs-then_put_ue j s k hj hs h = Runs-bind k (Runs-put_ue j s hj hs) (ue_code-IsBit j s) h

  pub Runs-then_pure :
      {A : Type 0} (a : A) (k : A → Walk B) → Runs (k a) es out b → Runs (pure a >>= k) es out b
  Runs-then_pure a k h = Runs-bind k (Runs-pure a) tt h
