-- ===== src/Vdd/Detect.antt =====
-- `VddController::detect`: the display device to drive. A name is a list of characters,
-- an instance a number, and the lower case of a name a parameter.
use zpenflow.Base.{
  ℕ, suc, ◌+◌, ◌*◌, ◌≤◌, ◌≡◌, refl, leb, leb→le, get_elem?, All, Bool, true, false, ◌||◌,
  Bool-cases, inl, inr, List, [], ◌∷◌, Option, none, some, if◌then◌else◌, ◌∙◌, sym, arith, not,
}
use mathlib.Core.Path.{subst}
use zpenflow.Protocol.Nals.{has_prefix}

pub record DiscoveredDevice : Type 0 where
  pub instance_id : ℕ
  pub friendly_name : List ℕ
  pub is_disabled : Bool

-- `contains` on texts
unfoldable pub contains_text : List ℕ → List ℕ → Bool
unfolding has_prefix
contains_text needle [] = has_prefix needle []
contains_text needle (c ∷ text) =
    let rest = contains_text needle text in if has_prefix needle (c ∷ text) then true else rest

-- "virtual display driver"
abbrev pub virtual_display_driver : List ℕ
virtual_display_driver =
    118 ∷ 105 ∷ 114 ∷ 116 ∷ 117 ∷ 97 ∷ 108 ∷ 32 ∷ 100 ∷ 105 ∷ 115 ∷ 112 ∷ 108 ∷ 97 ∷ 121 ∷ 32 ∷ 100
    ∷ 114 ∷ 105 ∷ 118 ∷ 101 ∷ 114 ∷ []

-- "mttvdd"
abbrev pub mttvdd : List ℕ
mttvdd = 109 ∷ 116 ∷ 116 ∷ 118 ∷ 100 ∷ 100 ∷ []

-- "iddsample"
abbrev pub iddsample : List ℕ
iddsample = 105 ∷ 100 ∷ 100 ∷ 115 ∷ 97 ∷ 109 ∷ 112 ∷ 108 ∷ 101 ∷ []

-- "amyuni usb mobile"
abbrev pub amyuni_usb_mobile : List ℕ
amyuni_usb_mobile =
    97 ∷ 109 ∷ 121 ∷ 117 ∷ 110 ∷ 105 ∷ 32 ∷ 117 ∷ 115 ∷ 98 ∷ 32 ∷ 109 ∷ 111 ∷ 98 ∷ 105 ∷ 108 ∷ 101
    ∷ []

unfoldable pub bit : Bool → ℕ
bit b = if b then 1 else 0

module _ (to_lowercase : List ℕ → List ℕ) where
  unfoldable pub matches_vdd_heuristic : List ℕ → Bool
  unfolding contains_text
  matches_vdd_heuristic name =
      let n = to_lowercase name in
      contains_text virtual_display_driver n
      || contains_text mttvdd n
      || contains_text iddsample n
      || contains_text amyuni_usb_mobile n

  -- The key, as one number for its two parts.
  unfoldable pub key : DiscoveredDevice → ℕ
  unfolding bit contains_text
  key c =
      2 * bit (not c.is_disabled)
      + bit (not (contains_text virtual_display_driver (to_lowercase c.friendly_name)))

  unfoldable pub recognised : List DiscoveredDevice → List DiscoveredDevice
  unfolding matches_vdd_heuristic
  recognised [] = []
  recognised (c ∷ candidates) =
      let rest = recognised candidates in
      if matches_vdd_heuristic c.friendly_name then c ∷ rest else rest

  -- Of two that are as small, the first.
  unfoldable pub smaller : DiscoveredDevice → Option DiscoveredDevice → DiscoveredDevice
  unfolding key
  smaller c none = c
  smaller c (some d) = if leb (key c) (key d) then c else d

  unfoldable pub min_by_key : List DiscoveredDevice → Option DiscoveredDevice
  unfolding smaller
  min_by_key [] = none
  min_by_key (c ∷ candidates) = some (smaller c (min_by_key candidates))

  unfoldable pub detect : List DiscoveredDevice → Option DiscoveredDevice
  unfolding recognised min_by_key
  detect candidates = min_by_key (recognised candidates)

  -- What is to be detected: nothing where no device is recognised, and else a recognised device of
  -- the list with the smallest key.
  abbrev pub Chosen : List DiscoveredDevice → Option DiscoveredDevice → Type 0
  Chosen candidates none = All (λ c. matches_vdd_heuristic c.friendly_name ≡ false) candidates
  Chosen candidates (some d) =
      (matches_vdd_heuristic d.friendly_name ≡ true)
      × ((i : ℕ) × (get_elem? candidates i ≡ some d))
      × All (λ c. matches_vdd_heuristic c.friendly_name ≡ true → key d ≤ key c) candidates

  none-smaller :
      (d : DiscoveredDevice) (candidates : List DiscoveredDevice)
      → All (λ c. matches_vdd_heuristic c.friendly_name ≡ false) candidates
      → All (λ c. matches_vdd_heuristic c.friendly_name ≡ true → key d ≤ key c) candidates
  none-smaller d [] h = tt
  none-smaller d (c ∷ candidates) (h, hs) =
      (λ e. let x : true ≡ false = sym e ∙ h in cc, none-smaller d candidates hs)

  All-below :
      (c d : DiscoveredDevice) (candidates : List DiscoveredDevice)
      → key c ≤ key d
      → All (λ e. matches_vdd_heuristic e.friendly_name ≡ true → key d ≤ key e) candidates
      → All (λ e. matches_vdd_heuristic e.friendly_name ≡ true → key c ≤ key e) candidates
  All-below c d [] le h = tt
  All-below c d (e ∷ candidates) le (h, hs) =
      (λ m. let x = h m in omega arith, All-below c d candidates le hs)

  add_recognised :
      (c : DiscoveredDevice) (candidates : List DiscoveredDevice) (o : Option DiscoveredDevice)
      → matches_vdd_heuristic c.friendly_name ≡ true
      → Chosen candidates o
      → Chosen (c ∷ candidates) (some (smaller c o))
  unfolding smaller
  add_recognised c candidates none m h =
      (m, (0, refl), (λ e. omega arith, none-smaller c candidates h))
  add_recognised c candidates (some d) m (md, (i, at), h) =
      elim (Bool-cases (leb (key c) (key d))) [
        | inl e ↦
            let le : key c ≤ key d = leb→le (key c) (key d) e in
            let first : smaller c (some d) ≡ c = rw (e, smaller) refl in
            subst (λ (x : DiscoveredDevice). Chosen (c ∷ candidates) (some x)) (sym first)
              (m, (0, refl), (λ x. omega arith, All-below c d candidates le h))
        | inr e ↦
            let le : key d ≤ key c = ground arith in
            let second : smaller c (some d) ≡ d = rw (e, smaller) refl in
            subst (λ (x : DiscoveredDevice). Chosen (c ∷ candidates) (some x)) (sym second)
              (md, (suc i, at), (λ x. le, h))
      ]

  add_other :
      (c : DiscoveredDevice) (candidates : List DiscoveredDevice) (o : Option DiscoveredDevice)
      → matches_vdd_heuristic c.friendly_name ≡ false
      → Chosen candidates o
      → Chosen (c ∷ candidates) o
  add_other c candidates none m h = (m, h)
  add_other c candidates (some d) m (md, (i, at), h) =
      (md, (suc i, at), (λ x. let y : true ≡ false = sym x ∙ m in cc, h))

  detect-recognised :
      (c : DiscoveredDevice) (candidates : List DiscoveredDevice)
      → matches_vdd_heuristic c.friendly_name ≡ true
      → detect (c ∷ candidates) ≡ some (smaller c (detect candidates))
  unfolding detect recognised min_by_key
  detect-recognised c candidates m = rw (m, recognised) refl

  detect-other :
      (c : DiscoveredDevice) (candidates : List DiscoveredDevice)
      → matches_vdd_heuristic c.friendly_name ≡ false
      → detect (c ∷ candidates) ≡ detect candidates
  unfolding detect recognised
  detect-other c candidates m = rw (m, recognised) refl

  -- The device that `detect` chooses is one that it recognises, with a key that is at most that of any
  -- other; it chooses none only where it recognises none.
  pub detect-Chosen : (candidates : List DiscoveredDevice) → Chosen candidates (detect candidates)
  unfolding detect recognised min_by_key
  detect-Chosen [] = tt
  detect-Chosen (c ∷ candidates) = elim (Bool-cases (matches_vdd_heuristic c.friendly_name)) [
    | inl m ↦
        subst (Chosen (c ∷ candidates)) (sym (detect-recognised c candidates m))
          (add_recognised c candidates (detect candidates) m (detect-Chosen candidates))
    | inr m ↦
        subst (Chosen (c ∷ candidates)) (sym (detect-other c candidates m))
          (add_other c candidates (detect candidates) m (detect-Chosen candidates))
  ]
