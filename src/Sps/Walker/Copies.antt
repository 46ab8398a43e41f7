-- ===== src/Sps/Walker/Copies.antt =====
-- The copying steps replay.
pub mod Signed
use zpenflow.Base.{
  ℕ, zero, suc, ◌+◌, ◌*◌, ◌/◌, ◌%◌, ◌^◌, ◌<◌, ◌≡◌, refl, sym, ap, ◌∙◌, arith, List, [], ◌++◌, All,
  append-nil, true, false, Bool-cases, inl, inr, ◌==◌, if◌then◌else◌,
}
use mathlib.Core.Path.{subst}
use zpenflow.Base.Int.{ℤ, pos, neg}
use zpenflow.Base.Words.{IsBit, shr, low_bits}
use zpenflow.Engine.{ok, and_then-eq-ok}
use zpenflow.Sps.Bits.{bits_of, bits_of-IsBit}
use zpenflow.Sps.Reader
use zpenflow.Sps.Reader.{BitReader}
use zpenflow.Sps.Reader.Range.{read_bits-lt, read_ue-lt}
use zpenflow.Sps.Reader.Golomb.{read_ue-remaining}
use zpenflow.Sps.Writer
use zpenflow.Sps.Writer.{BitWriter}
use zpenflow.Sps.Writer.Packed.{holding, write_bits-holding}
use zpenflow.Sps.Writer.Golomb.{ue_code, ue_code-IsBit, ue_value, ue_split, write_ue-holding}
use zpenflow.Sps.Walker.{
  Walk, Io, io, ◌>>=◌, ◌>>◌, pure, reading, writing, get_bits, get_ue, get_se, copy_bits, copy_ue,
  copy_se, replace_ue,
}
use zpenflow.Sps.Walker.Inversion.{bind-eq-ok, pure-eq-ok, reading-eq-ok, writing-eq-ok}
use zpenflow.Sps.Walker.Runs.{
  Runs, Runs-pure, Runs-bind, Runs-get_bits, Runs-put_bits, Runs-get_ue, Runs-put_ue,
}
use zpenflow.Sps.Walker.Replays.{
  Replays, Replays-fixed, Emits, Emits-bind, Emits-reading, Emits-put_ue,
}

-- Reading a value, writing it by `f`, and returning it.
module _ {A : Type 0} (p : Reader.Read A) (f : A → BitWriter → BitWriter) where
  abbrev copying : Walk A
  copying = do v ← reading p; writing (f v); pure v

  copying-eq-ok :
      (r : BitReader) (w : BitWriter) (v : A) (s' : Io)
      → copying (io r w) ≡ ok (v, s')
      → ((r' : BitReader) × (p r ≡ ok (v, r'))) × (s'.writer ≡ f v w)
  copying-eq-ok r w v s' e =
      let (v1, s1, q1, e1) = bind-eq-ok (reading p) _ (io r w) s' v e in
      let (u, s2, q2, e2) = bind-eq-ok (writing (f v1)) _ s1 s' v e1 in
      let (pv, ps) = pure-eq-ok v1 v s2 s' e2 in
      let (rd, w1) = reading-eq-ok p (io r w) s1 v1 q1 in
      let w2 = writing-eq-ok (f v1) s1 s2 u q2 in
      (
        (s1.reader, subst (λ (t : A). p r ≡ ok (t, s1.reader)) pv rd),
        ap (λ (t : Io). t.writer) (sym ps) ∙ w2 ∙ ap (f v1) w1 ∙ ap (λ (t : A). f t w) pv,
      )

  -- `es` is read as `v`, and `v` is written as `es`.
  copying-Runs :
      (v : A) (es : List ℕ)
      → All IsBit es
      → Runs (reading p) es [] v
      → Runs (writing (f v)) [] es tt
      → Runs copying es es v
  copying-Runs v es h get put =
      subst (λ (t : List ℕ). Runs copying t es v) (append-nil es)
        (Runs-bind _ get tt (
          subst (λ (t : List ℕ). Runs (writing (f v) >>= λ _. pure v) [] t v) (append-nil es)
            (Runs-bind _ put h (Runs-pure v))))

  -- The bits that a value is read from, and written as.
  pub Spelled : A → Type 0
  Spelled v =
      (es : List ℕ) × All IsBit es
      × Runs (reading p) es [] v
      × ((bs : List ℕ) → All IsBit bs → f v (holding bs) ≡ holding (bs ++ es))

  put-Runs :
      (v : A) (es : List ℕ)
      → ((bs : List ℕ) → All IsBit bs → f v (holding bs) ≡ holding (bs ++ es))
      → Runs (writing (f v)) [] es tt
  unfolding writing
  put-Runs v es puts = record {
    at = λ r bs rest h e. (r, ap (λ t. ok (tt, io r t)) (puts bs h), e);
  }

  module _ (spelled : (r r' : BitReader) (v : A) → p r ≡ ok (v, r') → Spelled v) where
    copying-Replays : Replays true copying copying (λ v. v)
    unfolding Spelled
    copying-Replays = record {
      at = λ r bs v s' h e.
          let ((r', rd), wr) = copying-eq-ok r (holding bs) v s' e in
          let (es, bits, get, puts) = spelled r r' v rd in
          (es, wr ∙ puts bs h, bits, copying-Runs v es bits get (put-Runs v es puts));
    }

    reading-Replays : Replays false copying (reading p) (λ v. v)
    unfolding Spelled
    reading-Replays = record {
      at = λ r bs v s' h e.
          let ((r', rd), wr) = copying-eq-ok r (holding bs) v s' e in
          let (es, bits, get, puts) = spelled r r' v rd in (es, wr ∙ puts bs h, bits, get);
    }

Spelled-bits :
    (n : ℕ)
    → n < 33
    → (r r' : BitReader) (v : ℕ) → Reader.read_bits n r ≡ ok (v, r')
    → Spelled (Reader.read_bits n) (λ v. Writer.write_bits v n) v
unfolding Spelled
Spelled-bits n hn r r' v e = (
  bits_of n v,
  bits_of-IsBit n v,
  Runs-get_bits n v hn (read_bits-lt n v r r' hn e),
  λ bs h. write_bits-holding v n bs h,
)

Spelled-ue :
    (r r' : BitReader) (v : ℕ)
    → Reader.read_ue r ≡ ok (v, r')
    → Spelled Reader.read_ue Writer.write_ue v
unfolding Spelled
Spelled-ue r r' v e =
    let (k, s, hk, hs, ev) = ue_split v (read_ue-lt v r r' e) in
    (
      ue_code k s,
      ue_code-IsBit k s,
      subst (λ t. Runs get_ue (ue_code k s) [] t) (sym ev) (Runs-get_ue k s hk hs),
      λ bs h. ap (λ t. Writer.write_ue t (holding bs)) ev ∙ write_ue-holding k s bs h hk hs,
    )

pub Replays-copy_bits : (n : ℕ) → n < 33 → Replays true (copy_bits n) (copy_bits n) (λ v. v)
unfolding copy_bits
Replays-copy_bits n h = copying-Replays _ _ (Spelled-bits n h)

pub Replays-get_bits : (n : ℕ) → n < 33 → Replays false (copy_bits n) (get_bits n) (λ v. v)
unfolding copy_bits
Replays-get_bits n h = reading-Replays _ _ (Spelled-bits n h)

pub Replays-copy_ue : Replays true copy_ue copy_ue (λ v. v)
unfolding copy_ue
Replays-copy_ue = copying-Replays _ _ Spelled-ue

pub Replays-get_ue : Replays false copy_ue get_ue (λ v. v)
unfolding copy_ue
Replays-get_ue = reading-Replays _ _ Spelled-ue

pub Emits-replace_ue :
    (k s : ℕ) → k < 32 → s < 2 ^ k → Emits (replace_ue (ue_value k s)) (ue_code k s)
unfolding replace_ue
Emits-replace_ue k s hk hs =
    Emits-bind _ (Emits-reading Reader.read_ue) tt (λ _. Emits-put_ue k s hk hs)

-- A replaced code replays, and is read as the number that replaced it.
pub Replays-replace_ue :
    (k s : ℕ)
    → k < 32
    → s < 2 ^ k
    → Replays true (replace_ue (ue_value k s)) (replace_ue (ue_value k s)) (λ u. u)
unfolding replace_ue
Replays-replace_ue k s hk hs = Replays-fixed (Emits-replace_ue k s hk hs) (ue_code-IsBit k s) (
    subst (λ (t : List ℕ). Runs (replace_ue (ue_value k s)) t (ue_code k s) tt)
      (append-nil (ue_code k s)) (Runs-bind _ (Runs-get_ue k s hk hs) tt (Runs-put_ue k s hk hs)))

pub Replays-get_replaced_ue :
    (k s : ℕ)
    → k < 32
    → s < 2 ^ k
    → Replays false (replace_ue (ue_value k s)) get_ue (λ _. ue_value k s)
Replays-get_replaced_ue k s hk hs =
    Replays-fixed (Emits-replace_ue k s hk hs) (ue_code-IsBit k s) (Runs-get_ue k s hk hs)

pub Runs-copy_bits :
    (n s : ℕ) → n < 33 → s < 2 ^ n → Runs (copy_bits n) (bits_of n s) (bits_of n s) s
unfolding copy_bits
Runs-copy_bits n s hn hs =
    copying-Runs _ _ s (bits_of n s) (bits_of-IsBit n s) (Runs-get_bits n s hn hs)
      (Runs-put_bits s n)
