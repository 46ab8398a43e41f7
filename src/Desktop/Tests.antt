-- ===== src/Desktop/Tests.antt =====
-- Key names of the settings, and the default bindings.
use zpenflow.Base.{◌≡◌, refl, [], ◌∷◌, none, some}
use zpenflow.Inject.Binding.{key_chord, default_profile}
use zpenflow.Desktop.Text.{codes, is_empty, IsPlain}
use zpenflow.Desktop.Keys.{parse_key_token, parse_tokens, parse_key_combo}
use zpenflow.Desktop.Keys.Combos.{joined, all_keys, IsName, parse_key_combo-joined}
use zpenflow.Desktop.Bindings.{
  default_bindings, convert_binding, build_pen_profile, hold_setting, chord_setting, IsUsable,
  convert_binding-IsUsable,
}

shift-IsName : IsName (codes "Shift")
unfolding IsPlain is_empty
shift-IsName =
    (refl, ((refl, refl), ((refl, refl), ((refl, refl), ((refl, refl), ((refl, refl), tt))))))

parse_key_combo-joined_example :
    parse_key_combo (joined (codes "Shift") (codes "Shift" ∷ []))
    ≡ all_keys (codes "Shift" ∷ codes "Shift" ∷ [])
parse_key_combo-joined_example =
    parse_key_combo-joined (codes "Shift") (codes "Shift" ∷ []) (shift-IsName, (shift-IsName, tt))

convert_binding-IsUsable_example : IsUsable (convert_binding (hold_setting (codes "Ctrl+Shift")))
convert_binding-IsUsable_example = convert_binding-IsUsable (hold_setting (codes "Ctrl+Shift"))

spaces_and_case : parse_key_combo (codes " ctrl + Shift+e ") ≡ some (17 ∷ 16 ∷ 69 ∷ [])
unfolding parse_key_combo parse_tokens
spaces_and_case = refl

function_keys : parse_key_combo (codes "F1+F24+F07") ≡ some (112 ∷ 135 ∷ 118 ∷ [])
unfolding parse_key_combo parse_tokens
function_keys = refl

no_f25 : parse_key_token (codes "F25") ≡ none
unfolding parse_key_token
no_f25 = refl

unknown_skipped :
    convert_binding (chord_setting (codes "Alt" ∷ codes "??" ∷ codes "F+5" ∷ []))
    ≡ key_chord (18 ∷ 116 ∷ [])
unfolding convert_binding
unknown_skipped = refl

-- The default of the settings is the default of the injector.
same_default : build_pen_profile default_bindings ≡ default_profile
unfolding build_pen_profile default_bindings default_profile
same_default = refl
