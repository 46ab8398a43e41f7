-- ===== src/Sps/Walker.antt =====
-- The pair `(r: &mut BitReader, w: &mut BitWriter)` that the rewriters of sps_patcher.rs thread
-- through, and the steps that they are made of. Both belong to one call of a rewriter, which drops
-- them on an `Err`, so that the state comes back only beside a value.
use zpenflow.Base.{ℕ, zero, suc, ◌==◌, Bool, if◌then◌else◌}
use zpenflow.Base.Int.{ℤ}
use zpenflow.Engine.{EngineResult, ok, err, not_initialized, and_then}
use zpenflow.Sps.Reader
use zpenflow.Sps.Reader.{BitReader}
use zpenflow.Sps.Writer
use zpenflow.Sps.Writer.{BitWriter}
pub mod Inversion
pub mod Copies
pub mod Runs
pub mod Scan
pub mod Rbsp
pub mod Forced
pub mod Agree
pub mod Replays

pub record Io : Type 0 where
  pub reader : BitReader
  pub writer : BitWriter

abbrev pub io : BitReader → BitWriter → Io
io r w = record { reader = r; writer = w }

abbrev pub Walk : Type 0 → Type 0
Walk A = Io → EngineResult (A × Io)

infixl 5 ◌>>=◌ ◌>>◌
unfoldable pub ◌>>=◌ : {A B : Type 0} → Walk A → (A → Walk B) → Walk B
◌>>=◌ m f s = and_then (m s) (λ (a, s'). f a s')

abbrev pub ◌>>◌ : {A B : Type 0} → Walk A → Walk B → Walk B
m >> k = m >>= λ _. k

unfoldable pub pure : {A : Type 0} → A → Walk A
pure a s = ok (a, s)

-- `return Err(EngineError::NotInitialized)`
unfoldable pub fail : {A : Type 0} → Walk A
fail s = err not_initialized

-- A call `r.read…()?`.
unfoldable pub reading : {A : Type 0} → Reader.Read A → Walk A
reading p s = and_then (p s.reader) (λ (a, r'). ok (a, io r' s.writer))

-- A call `w.write…(…)`.
unfoldable pub writing : (BitWriter → BitWriter) → Walk (Unit {0})
writing f s = ok (tt, io s.reader (f s.writer))

abbrev pub get_bits : ℕ → Walk ℕ
get_bits n = reading (Reader.read_bits n)

abbrev pub get_ue : Walk ℕ
get_ue = reading Reader.read_ue

abbrev pub get_se : Walk ℤ
get_se = reading Reader.read_se

abbrev pub put_bits : ℕ → ℕ → Walk (Unit {0})
put_bits v n = writing (Writer.write_bits v n)

abbrev pub put_ue : ℕ → Walk (Unit {0})
put_ue v = writing (Writer.write_ue v)

abbrev pub put_se : ℤ → Walk (Unit {0})
put_se v = writing (Writer.write_se v)

-- `let v = r.read_bits(n)?; w.write_bits(v, n);`, the value still at hand, and so for the codes.
unfoldable pub copy_bits : ℕ → Walk ℕ
copy_bits n = do v ← get_bits n; put_bits v n; pure v

unfoldable pub copy_ue : Walk ℕ
copy_ue = do v ← get_ue; put_ue v; pure v

unfoldable pub copy_se : Walk ℤ
copy_se = do v ← get_se; put_se v; pure v

-- `let _ = r.read_ue()?; w.write_ue(c);`
unfoldable pub replace_ue : ℕ → Walk (Unit {0})
replace_ue c = do _ ← get_ue; put_ue c

-- `if b { … }`
abbrev pub when : Bool → Walk (Unit {0}) → Walk (Unit {0})
when b m = if b then m else pure tt

-- `for _ in 0..n { … }`
unfoldable pub repeat : ℕ → Walk (Unit {0}) → Walk (Unit {0})
repeat zero m = pure tt
repeat (suc n) m = do m; repeat n m
