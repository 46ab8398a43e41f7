-- ===== src/Cursor/Tests.antt =====
-- Small shapes.
use zpenflow.Base.{◌≡◌, refl, arith, [], ◌∷◌}
use zpenflow.Cursor.{
  monochrome, from_raw, decoded, panicked, bgra, mask_bit, mono_pixel, joined, mono_columns,
  mono_rows, mono_shape, decode_monochrome, decode_kind, decode_shape,
}
use zpenflow.Cursor.Size.{Sized}
use zpenflow.Cursor.Mono.{decode_shape-Sized}

-- One row of two pixels: a white one, and a transparent one.
two_pixels :
    decode_shape 1 2 2 1 0 0 (0x40 ∷ 0x80 ∷ [])
    ≡ decoded (record {
      kind = monochrome;
      width = 2;
      height = 1;
      hot_x = 0;
      hot_y = 0;
      pixels = 255 ∷ 255 ∷ 255 ∷ 255 ∷ 0 ∷ 0 ∷ 0 ∷ 0 ∷ [];
    })
unfolding decode_shape from_raw decode_kind decode_monochrome mono_rows mono_columns mono_pixel
    mono_shape joined bgra mask_bit
two_pixels = refl

-- A pitch that is too small for the width leaves the buffer.
narrow_pitch : decode_shape 1 17 2 1 0 0 (0 ∷ 0 ∷ []) ≡ panicked
unfolding decode_shape from_raw decode_kind decode_monochrome mono_rows mono_columns mono_pixel
    mono_shape joined bgra mask_bit
narrow_pitch = refl

decode_shape-Sized_example : Sized (decode_shape 1 2 2 1 0 0 (0x40 ∷ 0x80 ∷ []))
decode_shape-Sized_example = decode_shape-Sized 1 2 2 1 0 0 (0x40 ∷ 0x80 ∷ []) (omega arith)
