-- ===== src/Engine.antt =====
-- crates/penflow-core/src/error.rs: `EngineError`, and `EngineResult` with the propagation of `?`.
use Prim.Native.String.{String}
use zpenflow.Base.{ℕ, ◌≡◌, refl}

-- A HRESULT, a LUID (the 64-bit pattern of an i64) and a duration in nanoseconds are numbers.
pub data EngineError : Type 0 where
  win32 : ℕ → EngineError
  no_adapter : EngineError
  adapter_has_no_outputs : String → ℕ → EngineError
  adapter_mismatch : ℕ → ℕ → EngineError
  access_lost_unrecoverable : EngineError
  no_compatible_encoder : EngineError
  capture_timeout : ℕ → EngineError
  not_initialized : EngineError

pub data EngineResult {ℓ} (A : Type ℓ) : Type ℓ where
  ok : A → EngineResult A
  err : EngineError → EngineResult A

abbrev pub and_then {ℓ κ} :
    {A : Type ℓ} {B : Type κ} → EngineResult A → (A → EngineResult B) → EngineResult B
and_then (ok a) f = f a
and_then (err e) f = err e

-- Inversion of a successful chain.
pub and_then-eq-ok {ℓ κ} :
    {A : Type ℓ} {B : Type κ} (m : EngineResult A) (f : A → EngineResult B) {b : B}
    → and_then m f ≡ ok b
    → (a : A) × (m ≡ ok a) × (f a ≡ ok b)
and_then-eq-ok (ok a) f h = (a, refl, h)
and_then-eq-ok (err e) f h = cc
