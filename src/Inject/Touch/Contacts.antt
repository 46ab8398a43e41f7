-- ===== src/Inject/Touch/Contacts.antt =====
-- A panel that follows the fingers by the flags of a touch frame.
use zpenflow.Base.{
  ℕ, ◌==◌, ==_iff, ◌≡◌, refl, ap, ◌∙◌, Bool, true, false, ◌&&◌, ◌||◌, not, Bool-cases, inl, inr,
  List, [], ◌∷◌, ◌++◌, Option, none, some, if◌then◌else◌, arith,
}
use zpenflow.Inject.Os.{TouchInfo}
use zpenflow.Inject.Flags.{PointerFlags}
use zpenflow.Inject.Mouse.{Screen}
use zpenflow.Inject.Injector.{TouchPoint, LastPos}
use zpenflow.Inject.Touch.{
  contains_key, has_id, touching, lifted, make_touch_info, present, lost, touch_infos,
}

abbrev agrees : Bool → Bool → Bool
agrees a b = if a then b else not b

-- A finger that touches is announced and put down exactly where it did not touch before; one that
-- does not touch is lifted, and did.
abbrev pub fits : PointerFlags → Bool → Bool
fits f was =
    if f.in_contact
    then agrees f.is_new (not was) && agrees f.down (not was) && agrees f.update was && not f.up
    else f.up && was

abbrev pub place_at : ℕ → Bool → (ℕ → Bool) → ℕ → Bool
place_at id b on i = if id == i then b else on i

-- The fingers on the panel after a frame, or `none` where a flag does not fit.
unfoldable pub digitize : List TouchInfo → (ℕ → Bool) → Option (ℕ → Bool)
digitize [] on = some on
digitize (i ∷ infos) on =
    let rest = digitize infos (place_at i.id i.flags.in_contact on) in
    if fits i.flags (on i.id) then rest else none

unfoldable pub DistinctPoints : List TouchPoint → Type 0
unfolding has_id
DistinctPoints [] = Unit
DistinctPoints (tp ∷ snapshot) = (has_id tp.id snapshot ≡ false) × DistinctPoints snapshot

unfoldable pub DistinctKeys : List LastPos → Type 0
unfolding contains_key
DistinctKeys [] = Unit
DistinctKeys (e ∷ table) = (contains_key e.id table ≡ false) × DistinctKeys table

touching-fits : (first was : Bool) → fits (touching first was) was ≡ true
unfolding touching
touching-fits first true = refl
touching-fits first false = refl

==_refl : (a : ℕ) → (a == a) ≡ true
==_refl a = ground arith

pub ==_true : (a b : ℕ) → (a == b) ≡ true → a ≡ b
==_true a b h = (==_iff a b).0 h

or_if : (h t o : Bool) → h || (if t then true else o) ≡ (if t then true else h) || o
or_if true true o = refl
or_if true false o = refl
or_if false true o = refl
or_if false false o = refl

-- What the panel knows once the fingers of the snapshot are through.
present-digitized :
    (screen : Screen) (table : List LastPos) (first : Bool) (snapshot : List TouchPoint)
    (rest : List TouchInfo) (on : ℕ → Bool)
    → DistinctPoints snapshot
    → ((id : ℕ) → has_id id snapshot ≡ true → on id ≡ contains_key id table)
    → (on' : ℕ → Bool) × (digitize (present screen table first snapshot ++ rest) on
        ≡ digitize rest on')
      × ((id : ℕ) → on' id ≡ has_id id snapshot || on id)
unfolding DistinctPoints has_id present digitize make_touch_info touching
present-digitized screen table first [] rest on d h = (on, refl, λ id. refl)
present-digitized screen table first (tp ∷ snapshot) rest on (fresh, d) h =
    let on1 = place_at tp.id true on in
    let h1 : (id : ℕ) → has_id id snapshot ≡ true → on1 id ≡ contains_key id table = λ id k.
      elim (Bool-cases (tp.id == id)) [
        | inl e ↦
            let x : has_id tp.id snapshot ≡ true =
              ap (λ i. has_id i snapshot) (==_true tp.id id e) ∙ k in
            cc
        | inr e ↦ rw e (h id (rw e k))
      ] in
    let (on', step, after) = present-digitized screen table false snapshot rest on1 d h1 in
    let fit : fits (touching first (contains_key tp.id table)) (on tp.id) ≡ true =
      rw (h tp.id (rw (==_refl tp.id) refl)) (touching-fits first (contains_key tp.id table)) in
    (
      on',
      ap (λ b. if b then digitize (present screen table false snapshot ++ rest) on1 else none) fit
          ∙ step,
      λ id. after id ∙ or_if (has_id id snapshot) (tp.id == id) (on id),
    )

lifted-fits : (was : Bool) → was ≡ true → fits lifted was ≡ true
unfolding lifted
lifted-fits true h = refl
lifted-fits false h = cc

kept_case :
    (t c h o : Bool)
    → t ≡ true
    → h ≡ true
    → (if c && not h then false else o) ≡ (if (if t then true else c) && not h then false else o)
kept_case true true true o e f = refl
kept_case true false true o e f = refl
kept_case true c false o e f = cc
kept_case false c h o e f = cc

gone_case :
    (t c h o : Bool)
    → t ≡ true
    → h ≡ false
    → (if c && not h then false else (if t then false else o))
      ≡ (if (if t then true else c) && not h then false else o)
gone_case true true false o e f = refl
gone_case true false false o e f = refl
gone_case true c true o e f = cc
gone_case false c h o e f = cc

-- The panel once the fingers that have left are through.
lost-digitized :
    (screen : Screen) (snapshot : List TouchPoint) (table : List LastPos) (on : ℕ → Bool)
    → DistinctKeys table
    → ((id : ℕ) → contains_key id table ≡ true → on id ≡ true)
    → (on' : ℕ → Bool) × (digitize (lost screen snapshot table) on ≡ some on')
      × ((id : ℕ)
          → on' id ≡ (if contains_key id table && not (has_id id snapshot) then false else on id))
unfolding DistinctKeys contains_key lost digitize make_touch_info lifted
lost-digitized screen snapshot [] on d h = (on, refl, λ id. refl)
lost-digitized screen snapshot (e ∷ table) on (fresh, d) h =
    let on_e : on e.id ≡ true = h e.id (rw (==_refl e.id) refl) in
    elim (Bool-cases (has_id e.id snapshot)) [
      | inl kept ↦
          let (on', step, after) = lost-digitized screen snapshot table on d (λ id k.
            h id (elim (Bool-cases (e.id == id)) [ inl t ↦ rw t refl | inr t ↦ rw t k ])) in
          (
            on',
            rw kept step,
            λ id. elim (Bool-cases (e.id == id)) [
              | inl t ↦
                  let same : has_id id snapshot ≡ true = rw (==_true e.id id t) at kept in
                  after id
                  ∙ kept_case (e.id == id) (contains_key id table) (has_id id snapshot) (on id) t
                      same
              | inr t ↦ after id ∙ rw t refl
            ],
          )
      | inr gone ↦
          let on1 = place_at e.id false on in
          let (on', step, after) = lost-digitized screen snapshot table on1 d (λ id k.
            elim (Bool-cases (e.id == id)) [
              | inl t ↦ let x : contains_key e.id table ≡ true = rw (==_true e.id id t) k in cc
              | inr t ↦ rw t (h id (rw t k))
            ]) in
          let lift : digitize
                (make_touch_info screen e.id e.x e.y lifted ∷ lost screen snapshot table) on
              ≡ some on' =
            ap (λ b. if b then digitize (lost screen snapshot table) on1 else none)
              (lifted-fits (on e.id) on_e)
            ∙ step in
          (
            on',
            rw gone lift,
            λ id. elim (Bool-cases (e.id == id)) [
              | inl t ↦
                  let same : has_id id snapshot ≡ false = rw (==_true e.id id t) at gone in
                  after id
                  ∙ gone_case (e.id == id) (contains_key id table) (has_id id snapshot) (on id) t
                      same
              | inr t ↦ after id ∙ rw t refl
            ],
          )
    ]

settled : (c h : Bool) → (if c && not h then false else h || c) ≡ h
settled true true = refl
settled true false = refl
settled false true = refl
settled false false = refl

kept_or : (h c : Bool) → c ≡ true → h || c ≡ true
kept_or true c e = refl
kept_or false c e = e

-- The panel that has the fingers of the table takes each flag of the next frame, and has then the
-- fingers of the snapshot; where neither the table nor the snapshot names a finger twice.
pub touch_infos-digitized :
    (screen : Screen) (snapshot : List TouchPoint) (table : List LastPos) (on : ℕ → Bool)
    → DistinctPoints snapshot
    → DistinctKeys table
    → ((id : ℕ) → on id ≡ contains_key id table)
    → (on' : ℕ → Bool) × (digitize (touch_infos screen snapshot table) on ≡ some on')
      × ((id : ℕ) → on' id ≡ has_id id snapshot)
unfolding touch_infos
touch_infos-digitized screen snapshot table on d k h =
    let (on1, step1, after1) =
      present-digitized screen table true snapshot (lost screen snapshot table) on d
        (λ id x. h id) in
    let known : (id : ℕ) → on1 id ≡ has_id id snapshot || contains_key id table =
      λ id. after1 id ∙ ap (λ b. has_id id snapshot || b) (h id) in
    let (on2, step2, after2) =
      lost-digitized screen snapshot table on1 k
        (λ id x. known id ∙ kept_or (has_id id snapshot) (contains_key id table) x) in
    (
      on2,
      step1 ∙ step2,
      λ id.
          after2 id
          ∙ ap (λ b. if contains_key id table && not (has_id id snapshot) then false else b)
              (known id)
          ∙ settled (contains_key id table) (has_id id snapshot),
    )
