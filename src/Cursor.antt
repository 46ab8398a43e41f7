-- ===== src/Cursor.antt =====
-- crates/penflow-core/src/capture/cursor_shape.rs: the shapes of the mouse cursor, decoded into four
-- bytes for a pixel. Hot spots are the two's complement patterns of i32.
pub mod Size
pub mod Mono
pub mod Tests
use zpenflow.Base.{
  ℕ, zero, suc, ◌+◌, ◌*◌, ◌/◌, ◌-◌, ◌%◌, ◌==◌, leb, ltb, Bool, true, false, ◌||◌, List, [], ◌∷◌,
  ◌++◌, length, take, drop, get_elem?, Option, none, some, if◌then◌else◌,
}
use zpenflow.Base.Words.{bit_at}
use zpenflow.Engine.{EngineError, win32}

pub data ShapeKind : Type 0 where
  monochrome color masked_color : ShapeKind

unfoldable pub from_raw : ℕ → Option ShapeKind
from_raw t =
    if t == 1
    then some monochrome
    else if t == 2
    then some color
    else if t == 4
    then some masked_color
    else none

pub record CursorShape : Type 0 where
  pub kind : ShapeKind
  pub width : ℕ
  pub height : ℕ
  pub hot_x : ℕ
  pub hot_y : ℕ
  pub pixels : List ℕ

-- An access outside of the buffer panics.
pub data Decoded : Type 0 where
  decoded : CursorShape → Decoded
  refused : EngineError → Decoded
  panicked : Decoded

-- `E_INVALIDARG`, for both.
abbrev pub invalid_arg : EngineError
invalid_arg = win32 0x80070057

abbrev pub short_buffer_err : EngineError
short_buffer_err = win32 0x80070057

-- What comes first, and what follows it, where there are both.
unfoldable pub joined : Option (List ℕ) → Option (List ℕ) → Option (List ℕ)
joined none later = none
joined (some now) none = none
joined (some now) (some later) = some (now ++ later)

unfoldable pub row_at : (List ℕ → List ℕ) → List ℕ → ℕ → ℕ → Option (List ℕ)
row_at convert raw row_bytes off =
    if leb (off + row_bytes) (length raw)
    then some (convert (take row_bytes (drop off raw)))
    else none

-- The rows of a colour shape from the row `y` on, each passed through `convert`, or that the buffer is
-- too short.
unfoldable pub color_rows : (List ℕ → List ℕ) → List ℕ → ℕ → ℕ → ℕ → ℕ → Option (List ℕ)
unfolding row_at joined
color_rows convert raw row_bytes pitch zero y = some []
color_rows convert raw row_bytes pitch (suc rows) y =
    joined (row_at convert raw row_bytes (y * pitch))
      (color_rows convert raw row_bytes pitch rows (suc y))

-- `chunks_exact(4)`, each with its alpha made full or the pixel made transparent.
unfoldable pub masked : List ℕ → List ℕ
masked (b ∷ g ∷ r ∷ a ∷ row) =
    let rest = masked row in if a == 0 then b ∷ g ∷ r ∷ 255 ∷ rest else 0 ∷ 0 ∷ 0 ∷ 0 ∷ rest
masked [] = []
masked (b ∷ []) = []
masked (b ∷ g ∷ []) = []
masked (b ∷ g ∷ r ∷ []) = []

unfoldable pub shape_of : ShapeKind → ℕ → ℕ → ℕ → ℕ → Option (List ℕ) → EngineError → Decoded
shape_of kind width height hot_x hot_y none e = refused e
shape_of kind width height hot_x hot_y (some pixels) e = decoded (record {
  kind = kind;
  width = width;
  height = height;
  hot_x = hot_x;
  hot_y = hot_y;
  pixels = pixels;
})

unfoldable pub decode_color : ℕ → ℕ → ℕ → ℕ → ℕ → List ℕ → Decoded
unfolding color_rows shape_of
decode_color width height pitch hot_x hot_y raw =
    shape_of color width height hot_x hot_y (color_rows (λ row. row) raw (width * 4) pitch height 0)
      short_buffer_err

unfoldable pub decode_masked_color : ℕ → ℕ → ℕ → ℕ → ℕ → List ℕ → Decoded
unfolding color_rows shape_of masked
decode_masked_color width height pitch hot_x hot_y raw =
    shape_of masked_color width height hot_x hot_y
      (color_rows masked raw (width * 4) pitch height 0) short_buffer_err

-- A pixel, from its bit in the AND mask and its bit in the XOR mask.
unfoldable pub bgra : Bool → Bool → List ℕ
bgra false false = 0 ∷ 0 ∷ 0 ∷ 255 ∷ []
bgra false true = 255 ∷ 255 ∷ 255 ∷ 255 ∷ []
bgra true false = 0 ∷ 0 ∷ 0 ∷ 0 ∷ []
bgra true true = 0 ∷ 0 ∷ 0 ∷ 0 ∷ []

-- The bit of a column in a byte, the highest first.
unfoldable pub mask_bit : ℕ → ℕ → Bool
mask_bit x byte = bit_at byte (7 - x % 8) == 1

unfoldable pub mono_pixel : ℕ → Option ℕ → Option ℕ → Option (List ℕ)
unfolding bgra mask_bit
mono_pixel x none xor_byte = none
mono_pixel x (some a) none = none
mono_pixel x (some a) (some b) = some (bgra (mask_bit x a) (mask_bit x b))

-- The columns of a row from the column `x` on, whose masks begin at the two offsets.
unfoldable pub mono_columns : List ℕ → ℕ → ℕ → ℕ → ℕ → Option (List ℕ)
unfolding mono_pixel joined
mono_columns raw and_off xor_off zero x = some []
mono_columns raw and_off xor_off (suc columns) x =
    joined (mono_pixel x (get_elem? raw (and_off + x / 8)) (get_elem? raw (xor_off + x / 8)))
      (mono_columns raw and_off xor_off columns (suc x))

unfoldable pub mono_rows : List ℕ → ℕ → ℕ → ℕ → ℕ → ℕ → Option (List ℕ)
unfolding mono_columns joined
mono_rows raw width pitch xor_off zero y = some []
mono_rows raw width pitch xor_off (suc rows) y =
    joined (mono_columns raw (y * pitch) (xor_off + y * pitch) width 0)
      (mono_rows raw width pitch xor_off rows (suc y))

unfoldable pub mono_shape : ℕ → ℕ → ℕ → ℕ → Option (List ℕ) → Decoded
mono_shape width height hot_x hot_y none = panicked
mono_shape width height hot_x hot_y (some pixels) = decoded (record {
  kind = monochrome;
  width = width;
  height = height;
  hot_x = hot_x;
  hot_y = hot_y;
  pixels = pixels;
})

unfoldable pub decode_monochrome : ℕ → ℕ → ℕ → ℕ → ℕ → List ℕ → Decoded
unfolding mono_rows mono_shape
decode_monochrome width height_raw pitch hot_x hot_y raw =
    let height = height_raw / 2 in
    let xor_off = height * pitch in
    if height_raw % 2 == 0
    then if ltb (length raw) (xor_off * 2)
      then refused short_buffer_err
      else mono_shape width height hot_x hot_y (mono_rows raw width pitch xor_off height 0)
    else refused short_buffer_err

unfoldable pub decode_kind : ShapeKind → ℕ → ℕ → ℕ → ℕ → ℕ → List ℕ → Decoded
unfolding decode_color decode_masked_color decode_monochrome
decode_kind color width height_raw pitch hot_x hot_y raw =
    decode_color width height_raw pitch hot_x hot_y raw
decode_kind masked_color width height_raw pitch hot_x hot_y raw =
    decode_masked_color width height_raw pitch hot_x hot_y raw
decode_kind monochrome width height_raw pitch hot_x hot_y raw =
    decode_monochrome width height_raw pitch hot_x hot_y raw

unfoldable pub decode_shape : ℕ → ℕ → ℕ → ℕ → ℕ → ℕ → List ℕ → Decoded
unfolding from_raw decode_kind
decode_shape kind_raw width height_raw pitch hot_x hot_y raw = elim (from_raw kind_raw) [
  | none ↦ refused invalid_arg
  | some kind ↦
      if width == 0 || height_raw == 0
      then refused invalid_arg
      else decode_kind kind width height_raw pitch hot_x hot_y raw
]
