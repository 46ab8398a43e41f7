-- ===== src/Desktop/Text.antt =====
-- What apps/penflow-gui/src-tauri/src/service.rs uses of a `str`, as the list of its code points.
use Prim.Native.Char.{code}
use Prim.Native.String.{String}
use zpenflow.Base.{
  ℕ, ◌+◌, ◌-◌, ◌*◌, ◌^◌, ◌≡◌, ◌==◌, refl, ap, ◌∙◌, ltb, leb, Bool, true, false, ◌&&◌, ◌||◌, List,
  [], ◌∷◌, ◌++◌, Option, none, some, if◌then◌else◌, All,
}

-- The code points of a literal.
abbrev pub codes : String → List ℕ
codes String.[] = []
codes (String.◌∷◌ c s) = code c ∷ codes s

unfoldable pub same_text : List ℕ → List ℕ → Bool
same_text [] [] = true
same_text [] (d ∷ t) = false
same_text (c ∷ s) [] = false
same_text (c ∷ s) (d ∷ t) = (c == d) && same_text s t

-- `char::is_whitespace`
unfoldable pub is_whitespace : ℕ → Bool
is_whitespace c =
    (leb 9 c && leb c 13)
    || (c == 32)
    || (c == 133)
    || (c == 160)
    || (c == 5760)
    || (leb 8192 c && leb c 8202)
    || (c == 8232)
    || (c == 8233)
    || (c == 8239)
    || (c == 8287)
    || (c == 12288)

unfoldable pub trim_start : List ℕ → List ℕ
unfolding is_whitespace
trim_start [] = []
trim_start (c ∷ s) = if is_whitespace c then trim_start s else c ∷ s

unfoldable pub is_empty : List ℕ → Bool
is_empty [] = true
is_empty (c ∷ s) = false

unfoldable pub trim_end : List ℕ → List ℕ
unfolding is_whitespace is_empty
trim_end [] = []
trim_end (c ∷ s) =
    let rest = trim_end s in if is_whitespace c && is_empty rest then [] else c ∷ rest

unfoldable pub trim : List ℕ → List ℕ
unfolding trim_start trim_end
trim s = trim_end (trim_start s)

unfoldable pub into_first : ℕ → List (List ℕ) → List (List ℕ)
into_first c [] = (c ∷ []) ∷ []
into_first c (part ∷ parts) = (c ∷ part) ∷ parts

-- `split`, at a code point.
unfoldable pub split : ℕ → List ℕ → List (List ℕ)
unfolding into_first
split sep [] = [] ∷ []
split sep (c ∷ s) = let rest = split sep s in if c == sep then [] ∷ rest else into_first c rest

-- `to_ascii_uppercase`
unfoldable pub to_ascii_uppercase : List ℕ → List ℕ
to_ascii_uppercase [] = []
to_ascii_uppercase (c ∷ s) = (if leb 97 c && leb c 122 then c - 32 else c) ∷ to_ascii_uppercase s

-- `len`: the bytes of UTF-8.
unfoldable pub byte_len : List ℕ → ℕ
byte_len [] = 0
byte_len (c ∷ s) =
    (if ltb c 128 then 1 else if ltb c 2048 then 2 else if ltb c 65536 then 3 else 4) + byte_len s

unfoldable pub parse_digits : ℕ → List ℕ → Option ℕ
parse_digits n [] = some n
parse_digits n (c ∷ s) =
    let rest = parse_digits (n * 10 + (c - 48)) s in
    if leb 48 c && leb c 57 && ltb (n * 10 + (c - 48)) (2 ^ 16) then rest else none

-- `parse::<u16>`. A sign `+` may stand in front.
unfoldable pub parse_u16 : List ℕ → Option ℕ
unfolding parse_digits
parse_u16 [] = none
parse_u16 (c ∷ []) = parse_digits 0 (c ∷ [])
parse_u16 (c ∷ d ∷ s) = if c == 43 then parse_digits 0 (d ∷ s) else parse_digits 0 (c ∷ d ∷ s)

-- A code point that no trimming and no splitting at `+` removes.
unfoldable pub IsPlain : ℕ → Type 0
unfolding is_whitespace
IsPlain c = (is_whitespace c ≡ false) × ((c == 43) ≡ false)

abbrev NotSpace : ℕ → Type 0
NotSpace c = is_whitespace c ≡ false

trim_start-id : (s : List ℕ) → All NotSpace s → trim_start s ≡ s
unfolding trim_start
trim_start-id [] h = refl
trim_start-id (c ∷ s) (p, h) = rw p refl

trim_end-id : (s : List ℕ) → All NotSpace s → trim_end s ≡ s
unfolding trim_end
trim_end-id [] h = refl
trim_end-id (c ∷ s) (p, h) = rw (p, trim_end-id s h) refl

pub trim-id : (s : List ℕ) → All NotSpace s → trim s ≡ s
unfolding trim
trim-id s h = ap trim_end (trim_start-id s h) ∙ trim_end-id s h

pub split-plain : (s : List ℕ) → All IsPlain s → split 43 s ≡ s ∷ []
unfolding split IsPlain
split-plain [] h = refl
split-plain (c ∷ s) ((p, q), h) = rw (q, split-plain s h) refl

pub split-append :
    (s rest : List ℕ) → All IsPlain s → split 43 (s ++ (43 ∷ rest)) ≡ s ∷ split 43 rest
unfolding split IsPlain
split-append [] rest h = refl
split-append (c ∷ s) rest ((p, q), h) = rw (q, split-append s rest h) refl

pub plain→NotSpace : (s : List ℕ) → All IsPlain s → All NotSpace s
unfolding IsPlain
plain→NotSpace [] h = h
plain→NotSpace (c ∷ s) ((p, q), h) = (p, plain→NotSpace s h)
