-- ===== src/Cursor/Mono.antt =====
-- Monochrome shapes, whose masks hold eight pixels in a byte; and shapes of any kind.
use zpenflow.Base.{
  ℕ, zero, suc, ◌+◌, ◌*◌, ◌/◌, ◌%◌, ◌≤◌, ◌<◌, ◌==◌, ◌≡◌, refl, sym, ◌∙◌, ltb, Bool, true, false,
  ◌||◌, Bool-cases, inl, inr, List, [], ◌∷◌, ◌++◌, length, length-append, get_elem?, Option, none,
  some, Option-cases, arith,
}
use native.Mathlib.Nat.{mul_left_comm, mul_assoc}
use mathlib.Core.Path.{subst}
use zpenflow.Cursor.{
  ShapeKind, monochrome, color, masked_color, from_raw, short_buffer_err, masked, bgra, mask_bit,
  mono_pixel, joined, mono_columns, mono_rows, mono_shape, decode_color, decode_masked_color,
  decode_monochrome, decode_kind, decode_shape,
}
use zpenflow.Cursor.Size.{Sized, color_kind-Sized, length-masked}

get_elem-in_range : (xs : List ℕ) (i : ℕ) → i < length xs → (b : ℕ) × (get_elem? xs i ≡ some b)
get_elem-in_range [] i h = absurd (omega arith)
get_elem-in_range (x ∷ xs) zero h = (x, refl)
get_elem-in_range (x ∷ xs) (suc i) h = get_elem-in_range xs i (omega arith)

length-bgra : (a b : Bool) → length (bgra a b) ≡ 4
unfolding bgra
length-bgra true true = refl
length-bgra true false = refl
length-bgra false true = refl
length-bgra false false = refl

-- So many bytes, and no panic.
abbrev Bytes : ℕ → Option (List ℕ) → Type 0
Bytes n o = (pixels : List ℕ) × (o ≡ some pixels) × (length pixels ≡ n)

joined-Bytes :
    (n m : ℕ) (a b : Option (List ℕ)) → Bytes n a → Bytes m b → Bytes (n + m) (joined a b)
unfolding joined
joined-Bytes n m none b (x, e, h) k = cc
joined-Bytes n m (some x) none h (y, e, k) = cc
joined-Bytes n m (some x) (some y) (x', e, h) (y', f, k) =
    let ex : length x ≡ n = subst (λ (l : List ℕ). length l ≡ n) (let q : x' ≡ x = cc in q) h in
    let ey : length y ≡ m = subst (λ (l : List ℕ). length l ≡ m) (let q : y' ≡ y = cc in q) k in
    (x ++ y, refl, omega (arith, length-append x y, ex, ey))

mono_pixel-Bytes :
    (raw : List ℕ) (x i j : ℕ)
    → i < length raw
    → j < length raw
    → Bytes 4 (mono_pixel x (get_elem? raw i) (get_elem? raw j))
unfolding mono_pixel
mono_pixel-Bytes raw x i j h k =
    let (a, e) = get_elem-in_range raw i h in
    let (b, f) = get_elem-in_range raw j k in
    rw (e, f, mono_pixel)
      (bgra (mask_bit x a) (mask_bit x b), refl, length-bgra (mask_bit x a) (mask_bit x b))

mono_columns-Bytes :
    (raw : List ℕ) (and_off xor_off pitch columns x : ℕ)
    → and_off + pitch ≤ length raw
    → xor_off + pitch ≤ length raw
    → x + columns ≤ 8 * pitch
    → Bytes (columns * 4) (mono_columns raw and_off xor_off columns x)
unfolding mono_columns
mono_columns-Bytes raw and_off xor_off pitch zero x h k w = ([], refl, refl)
mono_columns-Bytes raw and_off xor_off pitch (suc columns) x h k w =
    let first =
      mono_pixel-Bytes raw x (and_off + x / 8) (xor_off + x / 8) (omega arith) (omega arith) in
    let rest = mono_columns-Bytes raw and_off xor_off pitch columns (suc x) h k (omega arith) in
    let (pixels, e, n) =
      joined-Bytes 4 (columns * 4)
        (mono_pixel x (get_elem? raw (and_off + x / 8)) (get_elem? raw (xor_off + x / 8)))
        (mono_columns raw and_off xor_off columns (suc x)) first rest in
    (pixels, e, omega arith)

mono_rows-Bytes :
    (raw : List ℕ) (width pitch xor_off rows y : ℕ)
    → y * pitch + rows * pitch ≤ xor_off
    → xor_off * 2 ≤ length raw
    → width ≤ 8 * pitch
    → Bytes (rows * (width * 4)) (mono_rows raw width pitch xor_off rows y)
unfolding mono_rows
mono_rows-Bytes raw width pitch xor_off zero y h k w = ([], refl, omega arith)
mono_rows-Bytes raw width pitch xor_off (suc rows) y h k w =
    let first =
      mono_columns-Bytes raw (y * pitch) (xor_off + y * pitch) pitch width 0 (omega arith)
        (omega arith) (omega arith) in
    let rest = mono_rows-Bytes raw width pitch xor_off rows (suc y) (omega arith) k w in
    let (pixels, e, n) =
      joined-Bytes (width * 4) (rows * (width * 4))
        (mono_columns raw (y * pitch) (xor_off + y * pitch) width 0)
        (mono_rows raw width pitch xor_off rows (suc y)) first rest in
    (pixels, e, omega arith)

decode_monochrome-Sized :
    (width height_raw pitch hot_x hot_y : ℕ) (raw : List ℕ)
    → width ≤ 8 * pitch
    → Sized (decode_monochrome width height_raw pitch hot_x hot_y raw)
unfolding decode_monochrome mono_shape
decode_monochrome-Sized width height_raw pitch hot_x hot_y raw w =
    let height = height_raw / 2 in
    elim (Bool-cases (height_raw % 2 == 0)) [
      | inr odd ↦ rw odd tt
      | inl even ↦ elim (Bool-cases (ltb (length raw) (height * pitch * 2))) [
        | inl short ↦ rw (even, short) tt
        | inr long ↦
            let (pixels, e, n) =
              mono_rows-Bytes raw width pitch (height * pitch) height 0 (omega arith) (ground arith)
                w in
            rw (even, long, e) (n ∙ mul_left_comm height width 4 ∙ sym (mul_assoc width height 4))
      ]
    ]

decode_kind-Sized :
    (kind : ShapeKind) (width height pitch hot_x hot_y : ℕ) (raw : List ℕ)
    → width ≤ 8 * pitch
    → Sized (decode_kind kind width height pitch hot_x hot_y raw)
unfolding decode_kind decode_color decode_masked_color
decode_kind-Sized color width height pitch hot_x hot_y raw w =
    color_kind-Sized color (λ row. row) width height pitch hot_x hot_y raw short_buffer_err
      (λ row h. h)
decode_kind-Sized masked_color width height pitch hot_x hot_y raw w =
    color_kind-Sized masked_color masked width height pitch hot_x hot_y raw short_buffer_err
      (length-masked width)
decode_kind-Sized monochrome width height pitch hot_x hot_y raw w =
    decode_monochrome-Sized width height pitch hot_x hot_y raw w

-- A shape that is decoded has four bytes for each pixel of its size, and no access leaves the buffer,
-- whatever the buffer's length; given a pitch of at least a bit for each column.
pub decode_shape-Sized :
    (kind_raw width height pitch hot_x hot_y : ℕ) (raw : List ℕ)
    → width ≤ 8 * pitch
    → Sized (decode_shape kind_raw width height pitch hot_x hot_y raw)
unfolding decode_shape
decode_shape-Sized kind_raw width height pitch hot_x hot_y raw w =
    elim (Option-cases (from_raw kind_raw)) [
      | inl e ↦ rw (e, decode_shape) tt
      | inr (kind, e) ↦ elim (Bool-cases (width == 0 || height == 0)) [
        | inl none_left ↦ rw (e, decode_shape, none_left) tt
        | inr some_left ↦
            rw (e, decode_shape, some_left)
              (decode_kind-Sized kind width height pitch hot_x hot_y raw w)
      ]
    ]
