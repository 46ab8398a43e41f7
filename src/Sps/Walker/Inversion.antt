-- ===== src/Sps/Walker/Inversion.antt =====
-- What is known of the parts of a walker that came to an end.
use zpenflow.Base.{◌≡◌, sym, ap, ◌∙◌}
use zpenflow.Engine.{EngineResult, ok, and_then-eq-ok}
use zpenflow.Sps.Reader
use zpenflow.Sps.Reader.{BitReader}
use zpenflow.Sps.Writer.{BitWriter}
use zpenflow.Sps.Walker.{Walk, Io, io, ◌>>=◌, pure, reading, writing}

pub bind-eq-ok :
    {A B : Type 0} (m : Walk A) (k : A → Walk B) (s s' : Io) (b : B)
    → (m >>= k) s ≡ ok (b, s')
    → (a : A) × (s1 : Io) × (m s ≡ ok (a, s1)) × (k a s1 ≡ ok (b, s'))
unfolding ◌>>=◌
bind-eq-ok m k s s' b e = let ((a, s1), q, e1) = and_then-eq-ok (m s) _ e in (a, s1, q, e1)

ok_parts :
    {A : Type 0} (a a' : A) (s s' : Io)
    → ◌≡◌ {A = EngineResult (A × Io)} (ok (a, s)) (ok (a', s'))
    → (a ≡ a') × (s ≡ s')
ok_parts a a' s s' e = (cc, cc)

pub pure-eq-ok : {A : Type 0} (a a' : A) (s s' : Io) → pure a s ≡ ok (a', s') → (a ≡ a') × (s ≡ s')
unfolding pure
pure-eq-ok a a' s s' e = ok_parts a a' s s' e

pub reading-eq-ok :
    {A : Type 0} (p : Reader.Read A) (s s' : Io) (a : A)
    → reading p s ≡ ok (a, s')
    → (p s.reader ≡ ok (a, s'.reader)) × (s'.writer ≡ s.writer)
unfolding reading
reading-eq-ok p s s' a e =
    let ((a1, r1), q, e1) = and_then-eq-ok (p s.reader) _ e in
    let (pa, ps) = ok_parts a1 a (io r1 s.writer) s' e1 in
    (q ∙ cc, ap (λ (t : Io). t.writer) (sym ps))

pub writing-eq-ok :
    (f : BitWriter → BitWriter) (s s' : Io) (u : Unit {0})
    → writing f s ≡ ok (u, s')
    → s'.writer ≡ f s.writer
unfolding writing
writing-eq-ok f s s' u e =
    let (pu, ps) = ok_parts tt u (io s.reader (f s.writer)) s' e in
    ap (λ (t : Io). t.writer) (sym ps)

pub writing-reader :
    (f : BitWriter → BitWriter) (s s' : Io) (u : Unit {0})
    → writing f s ≡ ok (u, s')
    → s'.reader ≡ s.reader
unfolding writing
writing-reader f s s' u e =
    let (pu, ps) = ok_parts tt u (io s.reader (f s.writer)) s' e in
    ap (λ (t : Io). t.reader) (sym ps)
