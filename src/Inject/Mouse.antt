-- ===== src/Inject/Mouse.antt =====
-- crates/penflow-core/src/inject/win_ink.rs: where the mouse goes when a button of the pen is bound
-- to one of its own. An i32 is its two's complement pattern, so that the pattern with its highest bit
-- flipped keeps the order.
use zpenflow.Base.{
  ℕ, ◌+◌, ◌-◌, ◌*◌, ◌/◌, ◌%◌, ◌^◌, ◌≤◌, ◌<◌, ◌≡◌, leb, false, min, Bool-cases, inl, inr,
  if◌then◌else◌, arith,
}
use native.Mathlib.Nat.{div-lt_iff_lt-mul, le-div_iff_mul-le, div-mul-le_self}
use zpenflow.Inject.Os.{Call, move_to}

-- The rectangle of all the screens, as the system gives it at the time.
pub record Screen : Type 0 where
  pub vx : ℕ
  pub vy : ℕ
  pub vw : ℕ
  pub vh : ℕ

-- An i32 from its least value on.
abbrev pub biased : ℕ → ℕ
biased i = (i + 2 ^ 31) % 2 ^ 32

unfoldable pub normalize_absolute_mouse_coord : ℕ → ℕ → ℕ → ℕ
normalize_absolute_mouse_coord pos origin span =
    if leb (biased span) (2 ^ 31 + 1)
    then 0
    else let max_index = span - 1 in
      let rel = min (biased pos - biased origin) max_index in
      (rel * 65535 + max_index / 2) / max_index

unfoldable pub mouse_move : Screen → ℕ → ℕ → Call
unfolding normalize_absolute_mouse_coord
mouse_move screen x y =
    move_to (normalize_absolute_mouse_coord x screen.vx screen.vw)
      (normalize_absolute_mouse_coord y screen.vy screen.vh)

rel_bound : (rel m : ℕ) → rel ≤ m → 0 < m → (rel * 65535 + m / 2) / m ≤ 65535
rel_bound rel m h k =
    let below : (rel * 65535 + m / 2) / m < 65536 =
      (div-lt_iff_lt-mul {k = m} {x = rel * 65535 + m / 2} {y = 65536} k).1 (omega arith) in
    omega arith

rel_mono : (a b m : ℕ) → a ≤ b → 0 < m → (a * 65535 + m / 2) / m ≤ (b * 65535 + m / 2) / m
rel_mono a b m h k =
    let x = a * 65535 + m / 2 in
    let y = b * 65535 + m / 2 in
    (le-div_iff_mul-le {k = m} {x = x / m} {y = y} k).1 (omega (arith, div-mul-le_self x m))

leb-false : (a b : ℕ) → leb a b ≡ false → b < a
leb-false a b h = ground arith

-- The mouse's coordinate is within the system's range, and keeps the order of the pixels.
pub normalize-bounds :
    (pos pos' origin span : ℕ)
    → biased pos ≤ biased pos'
    → (normalize_absolute_mouse_coord pos origin span
        ≤ normalize_absolute_mouse_coord pos' origin span)
      × (normalize_absolute_mouse_coord pos' origin span ≤ 65535)
unfolding normalize_absolute_mouse_coord
normalize-bounds pos pos' origin span h = elim (Bool-cases (leb (biased span) (2 ^ 31 + 1))) [
  | inl e ↦ rw e (omega arith, omega arith)
  | inr e ↦
      let a = min (biased pos - biased origin) (span - 1) in
      let b = min (biased pos' - biased origin) (span - 1) in
      let k : 0 < span - 1 = omega (arith, leb-false (biased span) (2 ^ 31 + 1) e) in
      rw e (rel_mono a b (span - 1) (omega arith) k, rel_bound b (span - 1) (omega arith) k)
]
