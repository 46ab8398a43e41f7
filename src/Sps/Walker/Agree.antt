-- ===== src/Sps/Walker/Agree.antt =====
-- Two walkers that read the same and differ in what they write.
use zpenflow.Base.{ℕ, zero, suc, ◌≡◌, refl, sym, ap, ◌∙◌, Bool, true, false}
use mathlib.Core.Path.{subst}
use zpenflow.Engine.{EngineResult, ok}
use zpenflow.Sps.Reader
use zpenflow.Sps.Writer.{BitWriter}
use zpenflow.Sps.Walker.{
  Walk, Io, ◌>>=◌, ◌>>◌, pure, reading, writing, get_bits, get_ue, copy_bits, copy_ue, when, repeat,
}
use zpenflow.Sps.Walker.Inversion.{bind-eq-ok, pure-eq-ok, reading-eq-ok, writing-reader}

-- Where both come to an end, from one place in one input, they have the same value and are at one place.
pub record Agree {A : Type 0} (m p : Walk A) : Type 0 where
  pub at :
      (s t s' t' : Io) (a b : A)
      → s.reader ≡ t.reader
      → m s ≡ ok (a, s')
      → p t ≡ ok (b, t')
      → (a ≡ b) × (s'.reader ≡ t'.reader)

pub Agree-bind :
    {A B : Type 0} {m p : Walk A} (k k' : A → Walk B)
    → Agree m p
    → ((a : A) → Agree (k a) (k' a))
    → Agree (m >>= k) (p >>= k')
Agree-bind {A} {m} {p} k k' first next = record {
  at = λ s t s' t' a b e em ep.
      let (x, s1, q, em1) = bind-eq-ok m k s s' a em in
      let (y, t1, q', ep1) = bind-eq-ok p k' t t' b ep in
      let (xy, r) = first.at s t s1 t1 x y e q q' in
      (next x).at s1 t1 s' t' a b r em1 (subst (λ (z : A). k' z t1 ≡ ok (b, t')) (sym xy) ep1);
}

pub Agree-pure : {A : Type 0} (a : A) → Agree (pure a) (pure a)
Agree-pure a = record {
  at = λ s t s' t' x y e em ep.
      let (ax, ss) = pure-eq-ok a x s s' em in
      let (ay, tt') = pure-eq-ok a y t t' ep in
      (sym ax ∙ ay, ap (λ (u : Io). u.reader) (sym ss) ∙ e ∙ ap (λ (u : Io). u.reader) tt');
}

Agree-reading : {A : Type 0} (p : Reader.Read A) → Agree (reading p) (reading p)
Agree-reading {A} p = record {
  at = λ s t s' t' x y e em ep.
      let (q, w) = reading-eq-ok p s s' x em in
      let (q', w') = reading-eq-ok p t t' y ep in
      let same : ◌≡◌ {A = EngineResult (A × Reader.BitReader)} (ok (x, s'.reader))
          (ok (y, t'.reader)) =
        sym q ∙ ap p e ∙ q' in
      (cc, cc);
}

-- A copy agrees with a mere reading, and so with itself.
module _ {A : Type 0} (p : Reader.Read A) (f : A → BitWriter → BitWriter) where
  abbrev copying : Walk A
  copying = do v ← reading p; writing (f v); pure v

  Agree-copying : Agree copying (reading p)
  Agree-copying = record {
    at = λ s t s' t' x y e em ep.
        let (v, s1, q, em1) = bind-eq-ok (reading p) _ s s' x em in
        let (u, s2, q2, em2) = bind-eq-ok (writing (f v)) _ s1 s' x em1 in
        let (vx, ss) = pure-eq-ok v x s2 s' em2 in
        let (vy, r) = (Agree-reading p).at s t s1 t' v y e q ep in
        (sym vx ∙ vy, ap (λ (u : Io). u.reader) (sym ss) ∙ writing-reader (f v) s1 s2 u q2 ∙ r);
  }

  Agree-copies : Agree copying copying
  Agree-copies =
      Agree-bind _ _ (Agree-reading p) λ v. Agree-bind _ _ (Agree-writings (f v)) λ _. Agree-pure v
    where
      Agree-writings : (g : BitWriter → BitWriter) → Agree (writing g) (writing g)
      Agree-writings g = record {
        at = λ s t s' t' x y e em ep.
            (refl, writing-reader g s s' x em ∙ e ∙ sym (writing-reader g t t' y ep));
      }

pub Agree-copy_bits : (n : ℕ) → Agree (copy_bits n) (get_bits n)
unfolding copy_bits
Agree-copy_bits n = Agree-copying _ _

pub Agree-copy_ue : Agree copy_ue get_ue
unfolding copy_ue
Agree-copy_ue = Agree-copying _ _

pub Agree-bits : (n : ℕ) → Agree (copy_bits n) (copy_bits n)
unfolding copy_bits
Agree-bits n = Agree-copies _ _

pub Agree-when : (b : Bool) {m p : Walk (Unit {0})} → Agree m p → Agree (when b m) (when b p)
Agree-when true h = h
Agree-when false h = Agree-pure tt

pub Agree-repeat : (n : ℕ) {m p : Walk (Unit {0})} → Agree m p → Agree (repeat n m) (repeat n p)
unfolding repeat
Agree-repeat zero h = Agree-pure tt
Agree-repeat (suc n) h = Agree-bind _ _ h λ _. Agree-repeat n h
