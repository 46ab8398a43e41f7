-- ===== src/Desktop/Keys.antt =====
-- apps/penflow-gui/src-tauri/src/service.rs: `parse_key_token` and `parse_key_combo`. A virtual key code
-- is its number in Win32.
pub mod Combos
pub mod Range
use zpenflow.Base.{
  ℕ, ◌+◌, ◌==◌, leb, Bool, true, false, ◌&&◌, ◌||◌, List, [], ◌∷◌, Option, none, some,
  if◌then◌else◌,
}
use zpenflow.Desktop.Text.{
  codes, same_text, trim, is_empty, split, to_ascii_uppercase, byte_len, parse_u16,
}

-- The names, with the code of each.
unfoldable pub key_names : List (List ℕ × ℕ)
key_names =
    (codes "CTRL", 17)
    ∷ (codes "CONTROL", 17)
    ∷ (codes "SHIFT", 16)
    ∷ (codes "ALT", 18)
    ∷ (codes "MENU", 18)
    ∷ (codes "OPTION", 18)
    ∷ (codes "WIN", 91)
    ∷ (codes "META", 91)
    ∷ (codes "LWIN", 91)
    ∷ (codes "CMD", 91)
    ∷ (codes "COMMAND", 91)
    ∷ (codes "SUPER", 91)
    ∷ (codes "SPACE", 32)
    ∷ (codes " ", 32)
    ∷ (codes "TAB", 9)
    ∷ (codes "ENTER", 13)
    ∷ (codes "RETURN", 13)
    ∷ (codes "ESC", 27)
    ∷ (codes "ESCAPE", 27)
    ∷ (codes "BACKSPACE", 8)
    ∷ (codes "BACK", 8)
    ∷ (codes "DEL", 46)
    ∷ (codes "DELETE", 46)
    ∷ (codes "INS", 45)
    ∷ (codes "INSERT", 45)
    ∷ (codes "HOME", 36)
    ∷ (codes "END", 35)
    ∷ (codes "PAGEUP", 33)
    ∷ (codes "PRIOR", 33)
    ∷ (codes "PAGEDOWN", 34)
    ∷ (codes "NEXT", 34)
    ∷ (codes "UP", 38)
    ∷ (codes "ARROWUP", 38)
    ∷ (codes "DOWN", 40)
    ∷ (codes "ARROWDOWN", 40)
    ∷ (codes "LEFT", 37)
    ∷ (codes "ARROWLEFT", 37)
    ∷ (codes "RIGHT", 39)
    ∷ (codes "ARROWRIGHT", 39)
    ∷ []

unfoldable pub key_named : List ℕ → List (List ℕ × ℕ) → Option ℕ
unfolding same_text
key_named name [] = none
key_named name ((known, vk) ∷ names) =
    let rest = key_named name names in if same_text name known then some vk else rest

-- `(1..=24).contains(&n)`
unfoldable pub function_key : Option ℕ → Option ℕ
function_key none = none
function_key (some n) = if leb 1 n && leb n 24 then some (111 + n) else none

-- A letter or a digit on its own.
unfoldable pub one_char : List ℕ → Option ℕ
one_char [] = none
one_char (c ∷ []) =
    if (leb 65 c && leb c 90) || (leb 97 c && leb c 122)
    then some c
    else if leb 48 c && leb c 57
    then some c
    else none
one_char (c ∷ d ∷ s) = none

-- The arms of the `match` behind those of the names.
unfoldable pub other_key : List ℕ → Option ℕ
unfolding function_key one_char byte_len parse_u16
other_key [] = none
other_key (c ∷ s) =
    if (c == 70) && leb (byte_len (c ∷ s)) 3 then function_key (parse_u16 s) else one_char (c ∷ s)

unfoldable pub or_other : Option ℕ → List ℕ → Option ℕ
unfolding other_key
or_other (some vk) upper = some vk
or_other none upper = other_key upper

unfoldable pub parse_key_token : List ℕ → Option ℕ
unfolding to_ascii_uppercase key_named key_names or_other
parse_key_token name =
    let upper = to_ascii_uppercase name in or_other (key_named upper key_names) upper

-- `out.push(parse_key_token(t)?)`
unfoldable pub push_key : Option ℕ → Option (List ℕ) → Option (List ℕ)
push_key none rest = none
push_key (some vk) none = none
push_key (some vk) (some out) = some (vk ∷ out)

unfoldable pub parse_tokens : List (List ℕ) → Option (List ℕ)
unfolding trim is_empty parse_key_token push_key
parse_tokens [] = some []
parse_tokens (tok ∷ toks) =
    let rest = parse_tokens toks in
    let t = trim tok in if is_empty t then rest else push_key (parse_key_token t) rest

unfoldable pub parse_key_combo : List ℕ → Option (List ℕ)
unfolding trim is_empty split parse_tokens
parse_key_combo spec =
    let trimmed = trim spec in if is_empty trimmed then some [] else parse_tokens (split 43 trimmed)
