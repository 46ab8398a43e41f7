-- ===== src/Inject/Vmulti.antt =====
-- crates/penflow-core/src/inject/vmulti.rs: the report of the virtual digitizer. The device's handle
-- stands in the system; an i8 is its two's complement pattern.
use zpenflow.Base.{
  ℕ, suc, ◌+◌, ◌*◌, ◌≡◌, ◌/◌, ◌%◌, ◌==◌, refl, Bool, true, false, List, [], ◌∷◌, ◌++◌, drop, get_or,
  min, if◌then◌else◌, arith,
}
use Prim.Native.Nat.{bit_or}
use zpenflow.Base.Words.{bit_at}
use zpenflow.Inject.Os.{Os, Call, Outcome, report, send}

pub record VMultiPenSample : Type 0 where
  pub x : ℕ
  pub y : ℕ
  pub pressure : ℕ
  pub tilt_x_deg : ℕ
  pub tilt_y_deg : ℕ
  pub tip_down : Bool
  pub barrel : Bool
  pub eraser : Bool
  pub inverted : Bool
  pub in_range : Bool

-- The buffer of a report, 65 bytes.
pub record VMultiPen : Type 0 where
  pub buf : List ℕ

-- `if set { buttons |= mask; }`
unfoldable pub set_button : Bool → ℕ → ℕ → ℕ
set_button set mask buttons = if set then bit_or buttons mask else buttons

unfoldable pub button_bits : VMultiPenSample → ℕ
unfolding set_button
button_bits s = set_button s.in_range 16 (
    set_button s.inverted 8
      (set_button s.eraser 4 (set_button s.barrel 2 (set_button s.tip_down 1 0))))

-- The 12 bytes that a sample puts into the buffer.
unfoldable pub payload : VMultiPenSample → List ℕ
unfolding button_bits set_button
payload s =
    let x = min s.x 32767 in
    let y = min s.y 32767 in
    let pressure = min s.pressure 16383 in
    0x40
    ∷ 11
    ∷ 6
    ∷ button_bits s
    ∷ x % 256
    ∷ x / 256
    ∷ y % 256
    ∷ y / 256
    ∷ pressure % 256
    ∷ pressure / 256
    ∷ s.tilt_x_deg
    ∷ s.tilt_y_deg
    ∷ []

unfoldable pub write_pen : Os → VMultiPenSample → VMultiPen → List Call → VMultiPen × Outcome
unfolding payload button_bits set_button send
write_pen os s pen log =
    let buf = payload s ++ drop 12 pen.buf in (record { buf = buf }, send os (report buf) log)

-- What the driver reads in a report: numbers with the low byte first, and flags.
unfoldable pub read_u16 : ℕ → List ℕ → ℕ
read_u16 i bytes = get_or bytes i 0 + 256 * get_or bytes (suc i) 0

unfoldable pub read_flag : ℕ → List ℕ → Bool
read_flag k bytes = bit_at (get_or bytes 3 0) k == 1

unfoldable pub read_report : List ℕ → VMultiPenSample
unfolding read_u16 read_flag
read_report bytes = record {
  x = read_u16 4 bytes;
  y = read_u16 6 bytes;
  pressure = read_u16 8 bytes;
  tilt_x_deg = get_or bytes 10 0;
  tilt_y_deg = get_or bytes 11 0;
  tip_down = read_flag 0 bytes;
  barrel = read_flag 1 bytes;
  eraser = read_flag 2 bytes;
  inverted = read_flag 3 bytes;
  in_range = read_flag 4 bytes;
}

-- A sample within the logical ranges of the device.
unfoldable pub clamped : VMultiPenSample → VMultiPenSample
clamped s = record s { x = min s.x 32767; y = min s.y 32767; pressure = min s.pressure 16383 }

-- The five flags of `f`, one for each bit of `b`.
abbrev Shown : ℕ → Bool → Bool → Bool → Bool → Bool → Type 0
Shown b tip barrel eraser inverted in_range =
    ((bit_at b 0 == 1) ≡ tip)
    × ((bit_at b 1 == 1) ≡ barrel)
    × ((bit_at b 2 == 1) ≡ eraser)
    × ((bit_at b 3 == 1) ≡ inverted)
    × ((bit_at b 4 == 1) ≡ in_range)

bits-Shown :
    (a b c d e : Bool)
    → Shown
        (set_button e 16 (set_button d 8 (set_button c 4 (set_button b 2 (set_button a 1 0)))))
        a
        b
        c
        d
        e
unfolding set_button
bits-Shown true true true true true = (refl, refl, refl, refl, refl)
bits-Shown true true true true false = (refl, refl, refl, refl, refl)
bits-Shown true true true false true = (refl, refl, refl, refl, refl)
bits-Shown true true true false false = (refl, refl, refl, refl, refl)
bits-Shown true true false true true = (refl, refl, refl, refl, refl)
bits-Shown true true false true false = (refl, refl, refl, refl, refl)
bits-Shown true true false false true = (refl, refl, refl, refl, refl)
bits-Shown true true false false false = (refl, refl, refl, refl, refl)
bits-Shown true false true true true = (refl, refl, refl, refl, refl)
bits-Shown true false true true false = (refl, refl, refl, refl, refl)
bits-Shown true false true false true = (refl, refl, refl, refl, refl)
bits-Shown true false true false false = (refl, refl, refl, refl, refl)
bits-Shown true false false true true = (refl, refl, refl, refl, refl)
bits-Shown true false false true false = (refl, refl, refl, refl, refl)
bits-Shown true false false false true = (refl, refl, refl, refl, refl)
bits-Shown true false false false false = (refl, refl, refl, refl, refl)
bits-Shown false true true true true = (refl, refl, refl, refl, refl)
bits-Shown false true true true false = (refl, refl, refl, refl, refl)
bits-Shown false true true false true = (refl, refl, refl, refl, refl)
bits-Shown false true true false false = (refl, refl, refl, refl, refl)
bits-Shown false true false true true = (refl, refl, refl, refl, refl)
bits-Shown false true false true false = (refl, refl, refl, refl, refl)
bits-Shown false true false false true = (refl, refl, refl, refl, refl)
bits-Shown false true false false false = (refl, refl, refl, refl, refl)
bits-Shown false false true true true = (refl, refl, refl, refl, refl)
bits-Shown false false true true false = (refl, refl, refl, refl, refl)
bits-Shown false false true false true = (refl, refl, refl, refl, refl)
bits-Shown false false true false false = (refl, refl, refl, refl, refl)
bits-Shown false false false true true = (refl, refl, refl, refl, refl)
bits-Shown false false false true false = (refl, refl, refl, refl, refl)
bits-Shown false false false false true = (refl, refl, refl, refl, refl)
bits-Shown false false false false false = (refl, refl, refl, refl, refl)

low_high : (v : ℕ) → v % 256 + 256 * (v / 256) ≡ v
low_high v = omega arith

-- Whatever follows in the buffer, the driver reads in a report the sample that was written, with its
-- place and its pressure within their ranges.
pub read-payload :
    (s : VMultiPenSample) (rest : List ℕ) → read_report (payload s ++ rest) ≡ clamped s
unfolding payload button_bits read_report read_u16 read_flag clamped
read-payload s rest =
    let (a, b, c, d, e) = bits-Shown s.tip_down s.barrel s.eraser s.inverted s.in_range in
    rw
      (
        low_high (min s.x 32767),
        low_high (min s.y 32767),
        low_high (min s.pressure 16383),
        a,
        b,
        c,
        d,
        e,
      )
      refl
