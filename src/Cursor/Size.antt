-- ===== src/Cursor/Size.antt =====
-- A decoded shape has four bytes for each pixel, and decoding does not leave the buffer.
use zpenflow.Base.{
  ℕ, zero, suc, ◌+◌, ◌*◌, ◌≤◌, ◌==◌, ◌≡◌, refl, sym, ap, ◌∙◌, leb, leb→le, Bool-cases, inl, inr,
  List, [], ◌∷◌, ◌++◌, length, length-append, take, drop, Option, none, some, arith,
}
use native.Mathlib.Nat.{mul_left_comm, mul_assoc}
use mathlib.Core.Path.{subst}
use zpenflow.Engine.{EngineError}
use zpenflow.Cursor.{
  ShapeKind, Decoded, decoded, refused, panicked, row_at, color_rows, masked, shape_of, joined,
}

-- The pixels that were decoded are those of the shape's size, and nothing panicked.
abbrev pub Sized : Decoded → Type 0
Sized (decoded s) = length s.pixels ≡ s.width * s.height * 4
Sized (refused e) = Unit
Sized panicked = ⊥

length-row :
    (row_bytes off : ℕ) (raw : List ℕ)
    → off + row_bytes ≤ length raw
    → length (take row_bytes (drop off raw)) ≡ row_bytes
length-row zero zero raw h = refl
length-row (suc n) zero [] h = absurd (omega arith)
length-row (suc n) zero (b ∷ raw) h = ap suc (length-row n zero raw (omega arith))
length-row zero (suc off) [] h = refl
length-row (suc n) (suc off) [] h = absurd (omega arith)
length-row zero (suc off) (b ∷ raw) h = length-row zero off raw (omega arith)
length-row (suc n) (suc off) (b ∷ raw) h = length-row (suc n) off raw (omega arith)

-- A conversion of rows that keeps their lengths.
abbrev pub Keeps : (List ℕ → List ℕ) → ℕ → Type 0
Keeps convert row_bytes = (row : List ℕ) → length row ≡ row_bytes → length (convert row) ≡ row_bytes

joined-some :
    (a b : Option (List ℕ)) (pixels : List ℕ)
    → joined a b ≡ some pixels
    → (x : List ℕ) × (y : List ℕ) × (a ≡ some x)
      × (b ≡ some y)
      × (length pixels ≡ length x + length y)
unfolding joined
joined-some none b pixels h = cc
joined-some (some x) none pixels h = cc
joined-some (some x) (some y) pixels h =
    let e : x ++ y ≡ pixels = cc in
    (x, y, refl, refl, subst (λ (l : List ℕ). length l ≡ length x + length y) e (length-append x y))

length-row_at :
    (convert : List ℕ → List ℕ) (raw : List ℕ) (row_bytes off : ℕ) (row : List ℕ)
    → Keeps convert row_bytes
    → row_at convert raw row_bytes off ≡ some row
    → length row ≡ row_bytes
unfolding row_at
length-row_at convert raw row_bytes off row keep h =
    elim (Bool-cases (leb (off + row_bytes) (length raw))) [
      | inl e ↦
          let taken = take row_bytes (drop off raw) in
          let x : some (convert taken) ≡ some row = rw (e, row_at) at h in
          let y : convert taken ≡ row = cc in
          subst (λ (l : List ℕ). length l ≡ row_bytes) y
            (keep taken (length-row row_bytes off raw (leb→le (off + row_bytes) (length raw) e)))
      | inr e ↦ let x : none ≡ some row = rw (e, row_at) at h in cc
    ]

length-color_rows :
    (convert : List ℕ → List ℕ) (raw : List ℕ) (row_bytes pitch rows y : ℕ) (pixels : List ℕ)
    → Keeps convert row_bytes
    → color_rows convert raw row_bytes pitch rows y ≡ some pixels
    → length pixels ≡ rows * row_bytes
unfolding color_rows
length-color_rows convert raw row_bytes pitch zero y pixels keep h =
    let e : [] ≡ pixels = cc in subst (λ (l : List ℕ). length l ≡ 0 * row_bytes) e (omega arith)
length-color_rows convert raw row_bytes pitch (suc rows) y pixels keep h =
    let (row, later, a, b, sum) =
      joined-some (row_at convert raw row_bytes (y * pitch))
        (color_rows convert raw row_bytes pitch rows (suc y)) pixels h in
    let x = length-row_at convert raw row_bytes (y * pitch) row keep a in
    let z = length-color_rows convert raw row_bytes pitch rows (suc y) later keep b in omega arith

pub length-masked : (n : ℕ) (row : List ℕ) → length row ≡ n * 4 → length (masked row) ≡ n * 4
unfolding masked
length-masked zero [] h = refl
length-masked (suc n) [] h = absurd (omega arith)
length-masked n (b ∷ []) h = absurd (omega arith)
length-masked n (b ∷ g ∷ []) h = absurd (omega arith)
length-masked n (b ∷ g ∷ r ∷ []) h = absurd (omega arith)
length-masked zero (b ∷ g ∷ r ∷ a ∷ row) h = absurd (omega arith)
length-masked (suc n) (b ∷ g ∷ r ∷ a ∷ row) h =
    let x = length-masked n row (omega arith) in
    elim (Bool-cases (a == 0)) [ inl e ↦ rw e (omega arith) | inr e ↦ rw e (omega arith) ]

shape-Sized :
    (kind : ShapeKind) (width height hot_x hot_y : ℕ) (o : Option (List ℕ)) (e : EngineError)
    → ((pixels : List ℕ) → o ≡ some pixels → length pixels ≡ width * height * 4)
    → Sized (shape_of kind width height hot_x hot_y o e)
unfolding shape_of
shape-Sized kind width height hot_x hot_y none e h = tt
shape-Sized kind width height hot_x hot_y (some pixels) e h = h pixels refl

pub color_kind-Sized :
    (kind : ShapeKind) (convert : List ℕ → List ℕ) (width height pitch hot_x hot_y : ℕ)
    (raw : List ℕ) (e : EngineError)
    → Keeps convert (width * 4)
    → Sized (
        shape_of kind width height hot_x hot_y
          (color_rows convert raw (width * 4) pitch height 0)
          e)
color_kind-Sized kind convert width height pitch hot_x hot_y raw e keep =
    shape-Sized kind width height hot_x hot_y (color_rows convert raw (width * 4) pitch height 0) e
      (λ pixels h.
        let x = length-color_rows convert raw (width * 4) pitch height 0 pixels keep h in
        x ∙ mul_left_comm height width 4 ∙ sym (mul_assoc width height 4))
