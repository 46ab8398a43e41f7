-- ===== src/Desktop/Bindings.antt =====
-- apps/penflow-gui/src-tauri/src/settings.rs and service.rs: the bindings of the pen's buttons in the
-- settings, and what `build_pen_profile` gives the injector for them. Texts are lists of code points.
use zpenflow.Base.{ℕ, ◌≢◌, Bool, true, false, List, [], ◌∷◌, Option, none, some, All, if◌then◌else◌}
use zpenflow.Inject.Binding.{
  MouseButtonKind, Binding, nothing, key_tap, key_hold, key_chord, mouse_button, eraser_toggle,
  PenButtonProfile,
}
use zpenflow.Desktop.Text.{codes}
use zpenflow.Desktop.Keys.{parse_key_token, push_key, parse_tokens, parse_key_combo}
use zpenflow.Desktop.Text.{trim, is_empty, split}
use zpenflow.Desktop.Keys.Range.{IsKey, MayBeKey, parse_key_token-MayBeKey}

-- `settings::Binding`
pub data Setting : Type 0 where
  no_action : Setting
  tap_setting : List ℕ → Setting
  hold_setting : List ℕ → Setting
  chord_setting : List (List ℕ) → Setting
  mouse_setting : MouseButtonKind → Setting
  eraser_setting : Setting

pub record PenBindings : Type 0 where
  pub button_0 : Setting
  pub button_1 : Setting
  pub button_2 : Setting

-- `Default::default`
unfoldable pub default_bindings : PenBindings
default_bindings = record {
  button_0 = hold_setting (codes "Ctrl");
  button_1 = hold_setting (codes "Shift");
  button_2 = tap_setting (codes "E");
}

unfoldable pub tapped : Option (List ℕ) → Binding
tapped none = nothing
tapped (some []) = nothing
tapped (some (vk ∷ [])) = key_tap vk
tapped (some (vk ∷ vk' ∷ vks)) = key_chord (vk ∷ vk' ∷ vks)

unfoldable pub hold_of : Option (List ℕ) → Binding
hold_of none = nothing
hold_of (some []) = nothing
hold_of (some (vk ∷ vks)) = key_hold (vk ∷ vks)

unfoldable pub push_known : Option ℕ → List ℕ → List ℕ
push_known none out = out
push_known (some vk) out = vk ∷ out

-- The names that are not recognised are skipped.
unfoldable pub known_keys : List (List ℕ) → List ℕ
unfolding parse_key_token push_known
known_keys [] = []
known_keys (k ∷ keys) = push_known (parse_key_token k) (known_keys keys)

unfoldable pub chorded : List ℕ → Binding
chorded [] = nothing
chorded (vk ∷ vks) = key_chord (vk ∷ vks)

unfoldable pub convert_binding : Setting → Binding
unfolding parse_key_combo tapped hold_of known_keys chorded
convert_binding no_action = nothing
convert_binding eraser_setting = eraser_toggle
convert_binding (mouse_setting button) = mouse_button button
convert_binding (tap_setting key) = tapped (parse_key_combo key)
convert_binding (hold_setting key) = hold_of (parse_key_combo key)
convert_binding (chord_setting keys) = chorded (known_keys keys)

unfoldable pub build_pen_profile : PenBindings → PenButtonProfile
unfolding convert_binding
build_pen_profile b = record {
  barrel_1 = convert_binding b.button_0;
  barrel_2 = convert_binding b.button_1;
  tertiary = convert_binding b.button_2;
  tip_threshold = 0;
}

-- A binding that the injector can carry out: some keys where there are keys, and each of them one.
unfoldable pub IsUsable : Binding → Type 0
IsUsable nothing = Unit
IsUsable (key_tap vk) = IsKey vk
IsUsable (key_hold vks) = (vks ≢ []) × All IsKey vks
IsUsable (key_chord vks) = (vks ≢ []) × All IsKey vks
IsUsable (mouse_button button) = Unit
IsUsable eraser_toggle = Unit

unfoldable AreKeys : Option (List ℕ) → Type 0
AreKeys none = Unit
AreKeys (some vks) = All IsKey vks

push_key-AreKeys :
    (o : Option ℕ) (rest : Option (List ℕ)) → MayBeKey o → AreKeys rest → AreKeys (push_key o rest)
unfolding push_key MayBeKey AreKeys
push_key-AreKeys none rest h k = tt
push_key-AreKeys (some vk) none h k = tt
push_key-AreKeys (some vk) (some vks) h k = (h, k)

if-AreKeys :
    (b : Bool) (x y : Option (List ℕ)) → AreKeys x → AreKeys y → AreKeys (if b then x else y)
if-AreKeys true x y h k = h
if-AreKeys false x y h k = k

parse_tokens-AreKeys : (toks : List (List ℕ)) → AreKeys (parse_tokens toks)
unfolding parse_tokens AreKeys
parse_tokens-AreKeys [] = tt
parse_tokens-AreKeys (tok ∷ toks) =
    let h = parse_tokens-AreKeys toks in
    if-AreKeys (is_empty (trim tok)) (parse_tokens toks) _ h (
      push_key-AreKeys (parse_key_token (trim tok)) (parse_tokens toks)
        (parse_key_token-MayBeKey (trim tok)) h)

parse_key_combo-AreKeys : (spec : List ℕ) → AreKeys (parse_key_combo spec)
unfolding parse_key_combo AreKeys
parse_key_combo-AreKeys spec =
    if-AreKeys (is_empty (trim spec)) (some []) _ tt (parse_tokens-AreKeys (split 43 (trim spec)))

tapped-IsUsable : (keys : Option (List ℕ)) → AreKeys keys → IsUsable (tapped keys)
unfolding tapped IsUsable AreKeys
tapped-IsUsable none h = tt
tapped-IsUsable (some []) h = tt
tapped-IsUsable (some (vk ∷ [])) h = h.0
tapped-IsUsable (some (vk ∷ vk' ∷ vks)) h = (λ e. cc e, h)

hold_of-IsUsable : (keys : Option (List ℕ)) → AreKeys keys → IsUsable (hold_of keys)
unfolding hold_of IsUsable AreKeys
hold_of-IsUsable none h = tt
hold_of-IsUsable (some []) h = tt
hold_of-IsUsable (some (vk ∷ vks)) h = (λ e. cc e, h)

push_known-All :
    (o : Option ℕ) (out : List ℕ) → MayBeKey o → All IsKey out → All IsKey (push_known o out)
unfolding push_known MayBeKey
push_known-All none out h k = k
push_known-All (some vk) out h k = (h, k)

known_keys-All : (keys : List (List ℕ)) → All IsKey (known_keys keys)
unfolding known_keys
known_keys-All [] = tt
known_keys-All (k ∷ keys) =
    push_known-All (parse_key_token k) (known_keys keys) (parse_key_token-MayBeKey k)
      (known_keys-All keys)

chorded-IsUsable : (vks : List ℕ) → All IsKey vks → IsUsable (chorded vks)
unfolding chorded IsUsable
chorded-IsUsable [] h = tt
chorded-IsUsable (vk ∷ vks) h = (λ e. cc e, h)

-- Whatever a binding of the settings says, the injector gets one that it can carry out: a tap, hold or
-- chord of at least one key, each with a code from that of backspace to that of F24.
pub convert_binding-IsUsable : (b : Setting) → IsUsable (convert_binding b)
unfolding convert_binding IsUsable
convert_binding-IsUsable no_action = tt
convert_binding-IsUsable eraser_setting = tt
convert_binding-IsUsable (mouse_setting button) = tt
convert_binding-IsUsable (tap_setting key) =
    tapped-IsUsable (parse_key_combo key) (parse_key_combo-AreKeys key)
convert_binding-IsUsable (hold_setting key) =
    hold_of-IsUsable (parse_key_combo key) (parse_key_combo-AreKeys key)
convert_binding-IsUsable (chord_setting keys) =
    chorded-IsUsable (known_keys keys) (known_keys-All keys)
