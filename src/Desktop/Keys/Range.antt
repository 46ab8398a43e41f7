-- ===== src/Desktop/Keys/Range.antt =====
-- Which codes `parse_key_token` can give, and what it makes of a letter.
use zpenflow.Base.{
  ℕ, ◌+◌, ◌-◌, ◌≤◌, ◌≡◌, ◌==◌, refl, ap, ◌∙◌, leb, ltb, Bool, true, false, ◌&&◌, ◌||◌, List, [],
  ◌∷◌, Option, none, some, if◌then◌else◌, arith,
}
use zpenflow.Desktop.Text.{same_text, to_ascii_uppercase, byte_len, parse_u16}
use zpenflow.Desktop.Keys.{
  key_names, key_named, function_key, one_char, other_key, or_other, parse_key_token,
}

-- A code from that of `VK_BACK` to that of `VK_F24`.
abbrev pub IsKey : ℕ → Type 0
IsKey vk = (8 ≤ vk) × (vk ≤ 135)

unfoldable pub MayBeKey : Option ℕ → Type 0
MayBeKey none = Unit
MayBeKey (some vk) = IsKey vk

-- Of two results, the one that the test chooses.
if-MayBeKey : (b : Bool) (x y : Option ℕ) → MayBeKey x → MayBeKey y → MayBeKey (if b then x else y)
if-MayBeKey true x y h k = h
if-MayBeKey false x y h k = k

if-IsKey :
    (b : Bool) (vk : ℕ) (y : Option ℕ)
    → (b ≡ true → IsKey vk)
    → MayBeKey y
    → MayBeKey (if b then some vk else y)
unfolding MayBeKey
if-IsKey true vk y h k = h refl
if-IsKey false vk y h k = k

unfoldable all_keys_in : List (List ℕ × ℕ) → Bool
all_keys_in [] = true
all_keys_in ((known, vk) ∷ names) = leb 8 vk && leb vk 135 && all_keys_in names

key_named-MayBeKey :
    (name : List ℕ) (names : List (List ℕ × ℕ))
    → all_keys_in names ≡ true
    → MayBeKey (key_named name names)
unfolding key_named all_keys_in MayBeKey
key_named-MayBeKey name [] h = tt
key_named-MayBeKey name ((known, vk) ∷ names) h =
    if-MayBeKey (same_text name known) (some vk) (key_named name names) (ground arith)
      (key_named-MayBeKey name names (ground arith))

function_key-MayBeKey : (n : Option ℕ) → MayBeKey (function_key n)
unfolding function_key MayBeKey
function_key-MayBeKey none = tt
function_key-MayBeKey (some n) =
    if-IsKey (leb 1 n && leb n 24) (111 + n) none (λ h. ground arith) tt

one_char-MayBeKey : (upper : List ℕ) → MayBeKey (one_char (to_ascii_uppercase upper))
unfolding one_char to_ascii_uppercase MayBeKey
one_char-MayBeKey [] = tt
one_char-MayBeKey (c ∷ d ∷ s) = tt
one_char-MayBeKey (c ∷ []) =
    let u = if leb 97 c && leb c 122 then c - 32 else c in
    if-IsKey ((leb 65 u && leb u 90) || (leb 97 u && leb u 122)) u
      (if leb 48 u && leb u 57 then some u else none) (λ h. ground arith)
      (if-IsKey (leb 48 u && leb u 57) u none (λ h. ground arith) tt)

other_key-MayBeKey : (upper : List ℕ) → MayBeKey (other_key (to_ascii_uppercase upper))
unfolding other_key to_ascii_uppercase MayBeKey
other_key-MayBeKey [] = tt
other_key-MayBeKey (c ∷ s) =
    if-MayBeKey _ _ _ (function_key-MayBeKey (parse_u16 (to_ascii_uppercase s)))
      (one_char-MayBeKey (c ∷ s))

or_other-MayBeKey :
    (vk : Option ℕ) (name : List ℕ) → MayBeKey vk → MayBeKey (or_other vk (to_ascii_uppercase name))
unfolding or_other
or_other-MayBeKey (some vk) name h = h
or_other-MayBeKey none name h = other_key-MayBeKey name

pub parse_key_token-MayBeKey : (name : List ℕ) → MayBeKey (parse_key_token name)
unfolding parse_key_token all_keys_in
parse_key_token-MayBeKey name =
    or_other-MayBeKey (key_named (to_ascii_uppercase name) key_names) name
      (key_named-MayBeKey (to_ascii_uppercase name) key_names refl)

-- No name in the list is a letter.
unfoldable no_letter : List (List ℕ × ℕ) → Bool
no_letter [] = true
no_letter (([], vk) ∷ names) = no_letter names
no_letter ((d ∷ [], vk) ∷ names) = ltb d 65 && no_letter names
no_letter ((d ∷ e ∷ known, vk) ∷ names) = no_letter names

key_named-letter :
    (c : ℕ) (names : List (List ℕ × ℕ))
    → 65 ≤ c
    → no_letter names ≡ true
    → key_named (c ∷ []) names ≡ none
unfolding key_named same_text no_letter
key_named-letter c [] p h = refl
key_named-letter c (([], vk) ∷ names) p h = key_named-letter c names p h
key_named-letter c ((d ∷ [], vk) ∷ names) p h = ground (arith, key_named-letter c names p)
key_named-letter c ((d ∷ e ∷ known, vk) ∷ names) p h = ground (arith, key_named-letter c names p h)

to_ascii_uppercase-letter : (c : ℕ) → c ≤ 90 → to_ascii_uppercase (c ∷ []) ≡ c ∷ []
unfolding to_ascii_uppercase
to_ascii_uppercase-letter c q = ground arith

other_key-letter :
    (c : ℕ) → 65 ≤ c → c ≤ 90 → other_key (c ∷ []) ≡ (if c == 70 then none else some c)
unfolding other_key one_char function_key byte_len parse_u16
other_key-letter c p q = ground arith

-- A capital letter on its own names the key of its code, except for an F, which names none.
pub parse_key_token-letter :
    (c : ℕ) → 65 ≤ c → c ≤ 90 → parse_key_token (c ∷ []) ≡ (if c == 70 then none else some c)
unfolding parse_key_token or_other no_letter
parse_key_token-letter c p q =
    ap (λ (u : List ℕ). or_other (key_named u key_names) u) (to_ascii_uppercase-letter c q)
    ∙ ap (λ (o : Option ℕ). or_other o (c ∷ [])) (key_named-letter c key_names p refl)
    ∙ other_key-letter c p q
