-- ===== src/Sps/Walker/Scan.antt =====
-- Steps that either copy a field or only read it, so that a rewriter and a decoder of its output are
-- two readings of one grammar: `true` copies, `false` reads.
use zpenflow.Sps.Bits.{bits_of, bits_of-IsBit}
use zpenflow.Base.{ℕ, ◌<◌, ◌^◌, List, ◌++◌, Bool, true, false}
use zpenflow.Base.Int.{ℤ}
use zpenflow.Sps.Walker.{
  Walk, ◌>>=◌, pure, get_bits, get_ue, get_se, copy_bits, copy_ue, copy_se, when,
}
use zpenflow.Sps.Walker.Runs.{Runs, Runs-bind, Runs-get_bits}
use zpenflow.Sps.Walker.Replays.{echo, echo-IsBit, Replays, Replays-bind, Replays-if, Replays-pure}
use zpenflow.Sps.Walker.Copies.{
  Replays-copy_bits, Replays-get_bits, Replays-copy_ue, Replays-get_ue, Runs-copy_bits,
}
use zpenflow.Sps.Walker.Copies.Signed.{Replays-copy_se, Replays-get_se}

abbrev pub scan_bits : Bool → ℕ → Walk ℕ
scan_bits true n = copy_bits n
scan_bits false n = get_bits n

abbrev pub scan_ue : Bool → Walk ℕ
scan_ue true = copy_ue
scan_ue false = get_ue

abbrev pub scan_se : Bool → Walk ℤ
scan_se true = copy_se
scan_se false = get_se

pub Replays-bits :
    (mode : Bool) (n : ℕ) → n < 33 → Replays mode (copy_bits n) (scan_bits mode n) (λ v. v)
Replays-bits true n h = Replays-copy_bits n h
Replays-bits false n h = Replays-get_bits n h

pub Replays-ue : (mode : Bool) → Replays mode copy_ue (scan_ue mode) (λ v. v)
Replays-ue true = Replays-copy_ue
Replays-ue false = Replays-get_ue

pub Replays-se : (mode : Bool) → Replays mode copy_se (scan_se mode) (λ v. v)
Replays-se true = Replays-copy_se
Replays-se false = Replays-get_se

module _ {mode : Bool} {B B' : Type 0} {g : B → B'} where
  -- A field, then the rest, which may depend on the field.
  pub Replays-then_bits :
      (n : ℕ) (k : ℕ → Walk B) (k' : ℕ → Walk B')
      → n < 33
      → ((v : ℕ) → Replays mode (k v) (k' v) g)
      → Replays mode (copy_bits n >>= k) (scan_bits mode n >>= k') g
  Replays-then_bits n k k' hn h = Replays-bind k k' (Replays-bits mode n hn) h

  pub Replays-then_ue :
      (k : ℕ → Walk B) (k' : ℕ → Walk B')
      → ((v : ℕ) → Replays mode (k v) (k' v) g)
      → Replays mode (copy_ue >>= k) (scan_ue mode >>= k') g
  Replays-then_ue k k' h = Replays-bind k k' (Replays-ue mode) h

  pub Replays-then_se :
      (k : ℤ → Walk B) (k' : ℤ → Walk B')
      → ((v : ℤ) → Replays mode (k v) (k' v) g)
      → Replays mode (copy_se >>= k) (scan_se mode >>= k') g
  Replays-then_se k k' h = Replays-bind k k' (Replays-se mode) h

  -- A part of its own, then the rest.
  pub Replays-then :
      {m p : Walk (Unit {0})} (k : Unit {0} → Walk B) (k' : Unit {0} → Walk B')
      → Replays mode m p (λ u. u)
      → Replays mode (k tt) (k' tt) g
      → Replays mode (m >>= k) (p >>= k') g
  Replays-then k k' first h = Replays-bind k k' first (λ u. h)

pub Replays-done : (mode : Bool) → Replays mode (pure tt) (pure tt) (λ u. u)
Replays-done mode = Replays-pure mode (λ u. u) tt

pub Replays-when :
    {mode : Bool} (b : Bool) {m p : Walk (Unit {0})}
    → Replays mode m p (λ u. u)
    → Replays mode (when b m) (when b p) (λ u. u)
Replays-when {mode} b h = Replays-if b h (Replays-done mode)

Runs-bits :
    (mode : Bool) (n s : ℕ)
    → n < 33
    → s < 2 ^ n
    → Runs (scan_bits mode n) (bits_of n s) (echo mode (bits_of n s)) s
Runs-bits true n s hn hs = Runs-copy_bits n s hn hs
Runs-bits false n s hn hs = Runs-get_bits n s hn hs

pub Runs-then_bits :
    {B : Type 0} {es out : List ℕ} {b : B} (mode : Bool) (n s : ℕ) (k : ℕ → Walk B)
    → n < 33
    → s < 2 ^ n
    → Runs (k s) es out b
    → Runs (scan_bits mode n >>= k) (bits_of n s ++ es) (echo mode (bits_of n s) ++ out) b
Runs-then_bits mode n s k hn hs h =
    Runs-bind k (Runs-bits mode n s hn hs) (echo-IsBit mode (bits_of n s) (bits_of-IsBit n s)) h
