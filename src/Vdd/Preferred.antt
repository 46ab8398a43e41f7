-- ===== src/Vdd/Preferred.antt =====
-- Which device `VddController::detect` is to choose, by the names in question and by the state.
use zpenflow.Base.{
  ℕ, ◌*◌, ◌+◌, ◌≤◌, ◌≡◌, refl, sym, ap, ◌∙◌, get_elem?, All, Bool, true, false, ◌||◌, not,
  Bool-cases, inl, inr, ◌⊎◌, List, [], ◌∷◌, ◌++◌, Option, none, some, if◌then◌else◌, arith,
}
use zpenflow.Protocol.Nals.{has_prefix}
use zpenflow.Desktop.Text.{codes}
use zpenflow.Vdd.Detect.{
  DiscoveredDevice, contains_text, bit, matches_vdd_heuristic, key, detect, Chosen, detect-Chosen,
  virtual_display_driver, mttvdd, iddsample, amyuni_usb_mobile,
}

-- The one text stands somewhere in the other.
abbrev pub Contains : List ℕ → List ℕ → Type 0
Contains needle text = (before : List ℕ) × (after : List ℕ) × (text ≡ before ++ (needle ++ after))

has_prefix-append : (needle after : List ℕ) → has_prefix needle (needle ++ after) ≡ true
unfolding has_prefix
has_prefix-append [] after = refl
has_prefix-append (c ∷ needle) after = ground (arith, has_prefix-append needle after)

prefix_rest :
    (needle text : List ℕ)
    → has_prefix needle text ≡ true
    → (after : List ℕ) × (text ≡ needle ++ after)
unfolding has_prefix
prefix_rest [] text h = (text, refl)
prefix_rest (c ∷ needle) [] h = cc
prefix_rest (c ∷ needle) (d ∷ text) h =
    let same : d ≡ c = ground arith in
    let (after, e) = prefix_rest needle text (ground arith) in (after, cc)

contains_text-Contains :
    (needle text : List ℕ) → contains_text needle text ≡ true → Contains needle text
unfolding contains_text
contains_text-Contains needle [] h = let (after, e) = prefix_rest needle [] h in ([], after, e)
contains_text-Contains needle (c ∷ text) h = elim (Bool-cases (has_prefix needle (c ∷ text))) [
  | inl p ↦ let (after, e) = prefix_rest needle (c ∷ text) p in ([], after, e)
  | inr p ↦
      let h' : contains_text needle text ≡ true = rw (p, contains_text) at h in
      let (before, after, e) = contains_text-Contains needle text h' in
      (c ∷ before, after, ap (λ (l : List ℕ). c ∷ l) e)
]

contains_text-prefix :
    (needle text : List ℕ) → has_prefix needle text ≡ true → contains_text needle text ≡ true
unfolding contains_text
contains_text-prefix needle [] h = h
contains_text-prefix needle (c ∷ text) h = rw h refl

or_true : (b : Bool) → (if b then true else true) ≡ true
or_true true = refl
or_true false = refl

contains_text-append :
    (needle before after : List ℕ) → contains_text needle (before ++ (needle ++ after)) ≡ true
unfolding contains_text
contains_text-append needle [] after =
    contains_text-prefix needle (needle ++ after) (has_prefix-append needle after)
contains_text-append needle (c ∷ before) after =
    rw (contains_text-append needle before after)
      (or_true (has_prefix needle (c ∷ before ++ (needle ++ after))))

Contains-contains_text :
    (needle text : List ℕ) → Contains needle text → contains_text needle text ≡ true
Contains-contains_text needle text (before, after, e) =
    ap (contains_text needle) e ∙ contains_text-append needle before after

abbrev OneOf : Bool → Bool → Bool → Bool → Type 0
OneOf a b c d = (a ≡ true) ⊎ ((b ≡ true) ⊎ ((c ≡ true) ⊎ (d ≡ true)))

four_cases : (a b c d : Bool) → a || b || c || d ≡ true → OneOf a b c d
four_cases true b c d h = inl refl
four_cases false true c d h = inr (inl refl)
four_cases false false true d h = inr (inr (inl refl))
four_cases false false false d h = inr (inr (inr h))

four_true : (a b c d : Bool) → OneOf a b c d → a || b || c || d ≡ true
four_true true b c d h = refl
four_true false true c d h = refl
four_true false false true d h = refl
four_true false false false true h = refl
four_true false false false false h = ground arith

one_contained :
    (v m i u n : List ℕ)
    → contains_text v n || contains_text m n || contains_text i n || contains_text u n ≡ true
    → Contains v n ⊎ (Contains m n ⊎ (Contains i n ⊎ Contains u n))
one_contained v m i u n h =
    elim (four_cases (contains_text v n) (contains_text m n) (contains_text i n) (contains_text u n)
      h) [
        | inl x ↦ inl (contains_text-Contains v n x)
        | inr (inl x) ↦ inr (inl (contains_text-Contains m n x))
        | inr (inr (inl x)) ↦ inr (inr (inl (contains_text-Contains i n x)))
        | inr (inr (inr x)) ↦ inr (inr (inr (contains_text-Contains u n x)))
      ]

contained_one :
    (v m i u n : List ℕ)
    → Contains v n ⊎ (Contains m n ⊎ (Contains i n ⊎ Contains u n))
    → contains_text v n || contains_text m n || contains_text i n || contains_text u n ≡ true
contained_one v m i u n h =
    four_true (contains_text v n) (contains_text m n) (contains_text i n) (contains_text u n)
      (elim h [
        | inl x ↦ inl (Contains-contains_text v n x)
        | inr (inl x) ↦ inr (inl (Contains-contains_text m n x))
        | inr (inr (inl x)) ↦ inr (inr (inl (Contains-contains_text i n x)))
        | inr (inr (inr x)) ↦ inr (inr (inr (Contains-contains_text u n x)))
      ])

module _ (to_lowercase : List ℕ → List ℕ) where
  -- The device has the lower case of this text in its name.
  abbrev pub IsCalled : List ℕ → DiscoveredDevice → Type 0
  IsCalled text c = Contains text (to_lowercase c.friendly_name)

  -- The names of the drivers that are recognised.
  abbrev pub IsVirtual : DiscoveredDevice → Type 0
  IsVirtual c =
      IsCalled (codes "virtual display driver") c
      ⊎ (IsCalled (codes "mttvdd") c
          ⊎ (IsCalled (codes "iddsample") c ⊎ IsCalled (codes "amyuni usb mobile") c))

  heuristic-IsVirtual :
      (c : DiscoveredDevice)
      → matches_vdd_heuristic to_lowercase c.friendly_name ≡ true
      → IsVirtual c
  unfolding matches_vdd_heuristic
  heuristic-IsVirtual c h =
      one_contained virtual_display_driver mttvdd iddsample amyuni_usb_mobile
        (to_lowercase c.friendly_name) h

  IsVirtual-heuristic :
      (c : DiscoveredDevice)
      → IsVirtual c
      → matches_vdd_heuristic to_lowercase c.friendly_name ≡ true
  unfolding matches_vdd_heuristic
  IsVirtual-heuristic c h =
      contained_one virtual_display_driver mttvdd iddsample amyuni_usb_mobile
        (to_lowercase c.friendly_name) h

  -- A disabled device is preferred to one that is not, and then one that is called by the name of the
  -- bundled driver to one that is not.
  abbrev pub IsPreferred : DiscoveredDevice → DiscoveredDevice → Type 0
  IsPreferred d c =
      (c.is_disabled ≡ true → d.is_disabled ≡ true)
      × (c.is_disabled ≡ d.is_disabled
          → IsCalled (codes "virtual display driver") c
          → IsCalled (codes "virtual display driver") d)

  disabled_first :
      (dd dn cd cn : Bool)
      → 2 * bit (not dd) + bit (not dn) ≤ 2 * bit (not cd) + bit (not cn)
      → (cd ≡ true → dd ≡ true) × (cd ≡ dd → cn ≡ true → dn ≡ true)
  unfolding bit
  disabled_first dd dn cd cn h = (λ e. ground arith, λ e f. ground arith)

  key-IsPreferred :
      (d c : DiscoveredDevice) → key to_lowercase d ≤ key to_lowercase c → IsPreferred d c
  unfolding key
  key-IsPreferred d c h =
      let named = λ (e : DiscoveredDevice).
        contains_text virtual_display_driver (to_lowercase e.friendly_name) in
      let (first, then_named) = disabled_first d.is_disabled (named d) c.is_disabled (named c) h in
      (
        first,
        λ e v. contains_text-Contains virtual_display_driver (to_lowercase d.friendly_name) (
            then_named e
              (Contains-contains_text virtual_display_driver (to_lowercase c.friendly_name) v)),
      )

  -- What is to be detected among these devices.
  abbrev pub IsBest : List DiscoveredDevice → Option DiscoveredDevice → Type 0
  IsBest candidates none = All (λ c. IsVirtual c → ⊥) candidates
  IsBest candidates (some d) =
      IsVirtual d
      × ((i : ℕ) × (get_elem? candidates i ≡ some d))
      × All (λ c. IsVirtual c → IsPreferred d c) candidates

  All-map {κ μ} :
      {P : DiscoveredDevice → Type κ} {Q : DiscoveredDevice → Type μ}
      → ((c : DiscoveredDevice) → P c → Q c)
      → (cs : List DiscoveredDevice) → All P cs
      → All Q cs
  All-map f [] h = tt
  All-map f (c ∷ cs) (h, hs) = (f c h, All-map f cs hs)

  Chosen-IsBest :
      (candidates : List DiscoveredDevice) (o : Option DiscoveredDevice)
      → Chosen to_lowercase candidates o
      → IsBest candidates o
  Chosen-IsBest candidates none h =
      All-map (λ c m v. let x : true ≡ false = sym (IsVirtual-heuristic c v) ∙ m in cc) candidates h
  Chosen-IsBest candidates (some d) (m, at, h) = (
    heuristic-IsVirtual d m,
    at,
    All-map (λ c f v. key-IsPreferred d c (f (IsVirtual-heuristic c v))) candidates h,
  )

  -- A device is chosen whose name, in lower case, has that of a virtual display driver in it: a disabled
  -- one if there is a disabled one with such a name, and, among those in the same state, one that is
  -- called "virtual display driver" if there is one; and none only where no device has such a name.
  pub detect-IsBest :
      (candidates : List DiscoveredDevice) → IsBest candidates (detect to_lowercase candidates)
  detect-IsBest candidates =
      Chosen-IsBest candidates (detect to_lowercase candidates)
        (detect-Chosen to_lowercase candidates)
