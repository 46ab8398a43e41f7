-- ===== src/Sps/Walker/Replays.antt =====
-- What a walker writes, as input of another walker. `Replays true m m` says that `m` run on its own
-- output repeats itself; `Replays false m p` that `p`, which only reads, understands what `m` wrote.
use zpenflow.Base.{
  ℕ, zero, suc, ◌^◌, ◌<◌, ◌≡◌, refl, sym, ap, ◌∙◌, List, [], ◌++◌, All, All-append, append-nil,
  append_assoc, Bool, true, false, if◌then◌else◌,
}
use mathlib.Core.Path.{subst}
use zpenflow.Base.Words.{IsBit}
use zpenflow.Engine.{ok}
use zpenflow.Sps.Bits.{bits_of, bits_of-IsBit}
use zpenflow.Sps.Reader
use zpenflow.Sps.Reader.{BitReader}
use zpenflow.Sps.Writer.Packed.{holding, write_bits-holding}
use zpenflow.Sps.Writer.Golomb.{ue_code, ue_code-IsBit, ue_value, write_ue-holding}
use zpenflow.Sps.Walker.{Walk, Io, io, ◌>>=◌, pure, reading, put_bits, put_ue, repeat, fail}
use zpenflow.Sps.Walker.Inversion.{bind-eq-ok, pure-eq-ok, reading-eq-ok, writing-eq-ok}
use zpenflow.Sps.Walker.Runs.{Runs, Runs-pure, Runs-bind}

-- What the second walker writes: the same again, or nothing.
abbrev pub echo : Bool → List ℕ → List ℕ
echo true es = es
echo false es = []

pub record Replays {A B : Type 0} (mode : Bool) (m : Walk A) (p : Walk B) (f : A → B) : Type 0 where
  pub at :
      (r : BitReader) (bs : List ℕ) (a : A) (s' : Io)
      → All IsBit bs
      → m (io r (holding bs)) ≡ ok (a, s')
      → (es : List ℕ) × (s'.writer ≡ holding (bs ++ es))
        × All IsBit es
        × Runs p es (echo mode es) (f a)

pub echo-IsBit : (mode : Bool) (es : List ℕ) → All IsBit es → All IsBit (echo mode es)
echo-IsBit true es h = h
echo-IsBit false es h = tt

echo-nil : (mode : Bool) → echo mode [] ≡ []
echo-nil true = refl
echo-nil false = refl

pub echo-append :
    (mode : Bool) (xs ys : List ℕ) → echo mode xs ++ echo mode ys ≡ echo mode (xs ++ ys)
echo-append true xs ys = refl
echo-append false xs ys = refl

pub Replays-pure :
    {A B : Type 0} (mode : Bool) (f : A → B) (a : A) → Replays mode (pure a) (pure (f a)) f
Replays-pure {A} mode f a = record {
  at = λ r bs a' s' h e.
      let (ea, es) = pure-eq-ok a a' (io r (holding bs)) s' e in
      (
        [],
        ap (λ (t : Io). t.writer) (sym es) ∙ ap holding (sym (append-nil bs)),
        tt,
        subst (λ (t : A). Runs (pure (f a)) [] (echo mode []) (f t)) ea
            (rw (echo-nil mode) (Runs-pure (f a))),
      );
}

pub Replays-bind :
    {A B A' B' : Type 0} {mode : Bool} {m : Walk A} {p : Walk A'} {f : A → A'} (k : A → Walk B)
    (k' : A' → Walk B') {g : B → B'}
    → Replays mode m p f
    → ((a : A) → Replays mode (k a) (k' (f a)) g)
    → Replays mode (m >>= k) (p >>= k') g
Replays-bind {mode} {m} {p} {f} k k' {g} first next = record {
  at = λ r bs b s' h e.
      let (a, s1, q, e1) = bind-eq-ok m k (io r (holding bs)) s' b e in
      let (es1, w1, b1, run1) = first.at r bs a s1 h q in
      let e2 : k a (io s1.reader (holding (bs ++ es1))) ≡ ok (b, s') =
        ap (λ w. k a (io s1.reader w)) (sym w1) ∙ e1 in
      let (es2, w2, b2, run2) =
        (next a).at s1.reader (bs ++ es1) b s' (All-append IsBit bs es1 h b1) e2 in
      (
        es1 ++ es2,
        w2 ∙ ap holding (append_assoc bs es1 es2),
        All-append IsBit es1 es2 b1 b2,
        rw (← echo-append mode es1 es2) (Runs-bind k' run1 (echo-IsBit mode es1 b1) run2),
      );
}

-- The second walker may go on to compute with its result.
pub Replays-map :
    {A B C : Type 0} {mode : Bool} {m : Walk A} {p : Walk B} {f : A → B} (h : B → C)
    → Replays mode m p f
    → Replays mode m (p >>= λ x. pure (h x)) (λ a. h (f a))
Replays-map {mode} {p} {f} h first = record {
  at = λ r bs a s' hb e.
      let (es, w, b, run) = first.at r bs a s' hb e in
      let after = p >>= λ x. pure (h x) in
      (
        es,
        w,
        b,
        subst (λ (t : List ℕ). Runs after t (echo mode es) (h (f a))) (append-nil es)
            (subst (λ (t : List ℕ). Runs after (es ++ []) t (h (f a))) (append-nil (echo mode es))
              (Runs-bind _ run (echo-IsBit mode es b) (Runs-pure (h (f a))))),
      );
}

pub Replays-if :
    {A B : Type 0} {mode : Bool} (b : Bool) {m m' : Walk A} {p p' : Walk B} {f : A → B}
    → Replays mode m p f
    → Replays mode m' p' f
    → Replays mode (if b then m else m') (if b then p else p') f
Replays-if true h h' = h
Replays-if false h h' = h'

-- Two branches with one reading.
pub Replays-either :
    {A B : Type 0} {mode : Bool} (b : Bool) {m m' : Walk A} {p : Walk B} {f : A → B}
    → Replays mode m p f
    → Replays mode m' p f
    → Replays mode (if b then m else m') p f
Replays-either true h h' = h
Replays-either false h h' = h'

-- A walker that fails writes nothing to replay.
pub Replays-fail : {A B : Type 0} (mode : Bool) (p : Walk B) (f : A → B) → Replays mode fail p f
unfolding fail
Replays-fail mode p f = record { at = λ r bs a s' h e. cc }

-- What is walked only under a condition may rely on it.
pub Replays-guard :
    {A B : Type 0} {mode : Bool} (b : Bool) {m : Walk A} {p : Walk B} {f : A → B}
    → (b ≡ true → Replays mode m p f)
    → Replays mode (if b then m else fail) p f
Replays-guard true h = h refl
Replays-guard {mode} false {m} {p} {f} h = Replays-fail mode p f

pub Replays-repeat :
    {mode : Bool} (n : ℕ) {m p : Walk (Unit {0})}
    → Replays mode m p (λ u. u)
    → Replays mode (repeat n m) (repeat n p) (λ u. u)
unfolding repeat
Replays-repeat {mode} zero h = Replays-pure mode (λ u. u) tt
Replays-repeat (suc n) {m} {p} h =
    Replays-bind (λ _. repeat n m) (λ _. repeat n p) h (λ u. Replays-repeat n h)

-- A walker that writes `out` whatever it reads.
pub record Emits {A : Type 0} (m : Walk A) (out : List ℕ) : Type 0 where
  pub at :
      (r : BitReader) (bs : List ℕ) (a : A) (s' : Io)
      → All IsBit bs
      → m (io r (holding bs)) ≡ ok (a, s')
      → s'.writer ≡ holding (bs ++ out)

pub Emits-pure : {A : Type 0} (a : A) → Emits (pure a) []
Emits-pure a = record {
  at = λ r bs a' s' h e.
      let (ea, es) = pure-eq-ok a a' (io r (holding bs)) s' e in
      ap (λ (t : Io). t.writer) (sym es) ∙ ap holding (sym (append-nil bs));
}

pub Emits-fail : {A : Type 0} (out : List ℕ) → Emits {A = A} fail out
unfolding fail
Emits-fail out = record { at = λ r bs a s' h e. cc }

pub Emits-reading : {A : Type 0} (p : Reader.Read A) → Emits (reading p) []
Emits-reading p = record {
  at = λ r bs a s' h e.
      (reading-eq-ok p (io r (holding bs)) s' a e).1 ∙ ap holding (sym (append-nil bs));
}

pub Emits-put_bits : (v n : ℕ) → Emits (put_bits v n) (bits_of n v)
Emits-put_bits v n = record {
  at = λ r bs a s' h e. writing-eq-ok _ (io r (holding bs)) s' a e ∙ write_bits-holding v n bs h;
}

pub Emits-put_ue : (k s : ℕ) → k < 32 → s < 2 ^ k → Emits (put_ue (ue_value k s)) (ue_code k s)
Emits-put_ue k s hk hs = record {
  at =
      λ r bs a s' h e. writing-eq-ok _ (io r (holding bs)) s' a e ∙ write_ue-holding k s bs h hk hs;
}

pub Emits-bind :
    {A B : Type 0} {m : Walk A} (k : A → Walk B) {out1 out2 : List ℕ}
    → Emits m out1
    → All IsBit out1
    → ((a : A) → Emits (k a) out2)
    → Emits (m >>= k) (out1 ++ out2)
Emits-bind {m} k {out1} {out2} first h1 next = record {
  at = λ r bs b s' h e.
      let (a, s1, q, e1) = bind-eq-ok m k (io r (holding bs)) s' b e in
      let w1 = first.at r bs a s1 h q in
      let e2 = ap (λ w. k a (io s1.reader w)) (sym w1) ∙ e1 in
      (next a).at s1.reader (bs ++ out1) b s' (All-append IsBit bs out1 h h1) e2
      ∙ ap holding (append_assoc bs out1 out2);
}

pub Emits-if :
    {A : Type 0} (b : Bool) {m m' : Walk A} {out : List ℕ}
    → Emits m out
    → Emits m' out
    → Emits (if b then m else m') out
Emits-if true h h' = h
Emits-if false h h' = h'

pub Emits-then_reading :
    {A B : Type 0} (p : Reader.Read A) (k : A → Walk B) {out : List ℕ}
    → ((a : A) → Emits (k a) out)
    → Emits (reading p >>= k) out
Emits-then_reading p k h = Emits-bind k (Emits-reading p) tt h

pub Emits-then_put_bits :
    {B : Type 0} (v n : ℕ) (k : Unit {0} → Walk B) {out : List ℕ}
    → Emits (k tt) out
    → Emits (put_bits v n >>= k) (bits_of n v ++ out)
Emits-then_put_bits v n k h = Emits-bind k (Emits-put_bits v n) (bits_of-IsBit n v) (λ u. h)

pub Emits-then_put_ue :
    {B : Type 0} (j s : ℕ) (k : Unit {0} → Walk B) {out : List ℕ}
    → j < 32
    → s < 2 ^ j
    → Emits (k tt) out
    → Emits (put_ue (ue_value j s) >>= k) (ue_code j s ++ out)
Emits-then_put_ue j s k hj hs h = Emits-bind k (Emits-put_ue j s hj hs) (ue_code-IsBit j s) (λ u. h)

pub Replays-fixed :
    {A B : Type 0} {mode : Bool} {m : Walk A} {p : Walk B} {out : List ℕ} {b : B}
    → Emits m out
    → All IsBit out
    → Runs p out (echo mode out) b
    → Replays mode m p (λ _. b)
Replays-fixed {out} em h run = record { at = λ r bs a s' hb e. (out, em.at r bs a s' hb e, h, run) }
