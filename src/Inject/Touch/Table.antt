-- ===== src/Inject/Touch/Table.antt =====
-- The table of the last touch positions holds the fingers of the last snapshot.
use zpenflow.Base.{
  ℕ, ◌==◌, ◌≡◌, refl, ap, ◌∙◌, Bool, true, false, ◌&&◌, ◌||◌, Bool-cases, inl, inr, List, [], ◌∷◌,
  Option, none, some, if◌then◌else◌, arith,
}
use zpenflow.Engine.{EngineError}
use zpenflow.Inject.Os.{Os, Call, Outcome, done, failed, touch_frame, send}
use zpenflow.Inject.Mouse.{Screen}
use zpenflow.Inject.Injector.{TouchPoint, LastPos, InputInjector}
use zpenflow.Inject.Touch.{
  contains_key, insert, has_id, present, lost, touch_infos, positions, is_empty, settle,
  inject_touch,
}
use zpenflow.Inject.Touch.Contacts.{DistinctPoints, DistinctKeys, ==_true}

once : (t c : Bool) → (if t then true else c) ≡ (if t then true else (if t then true else c))
once true c = refl
once false c = refl

swapped :
    (f e c : Bool)
    → (if f then true else (if e then true else c)) ≡ (if e then true else (if f then true else c))
swapped true true c = refl
swapped true false c = refl
swapped false e c = refl

contains_key-insert :
    (id : ℕ) (e : LastPos) (table : List LastPos)
    → contains_key id (insert e table) ≡ (if e.id == id then true else contains_key id table)
unfolding contains_key insert
contains_key-insert id e [] = refl
contains_key-insert id e (f ∷ table) = elim (Bool-cases (f.id == e.id)) [
  | inl same ↦
      let t : (f.id == id) ≡ (e.id == id) = ap (λ i. i == id) (==_true f.id e.id same) in
      rw (same, t) (once (e.id == id) (contains_key id table))
  | inr other ↦
      rw (other, contains_key-insert id e table)
        (swapped (f.id == id) (e.id == id) (contains_key id table))
]

==_flip : (a b : ℕ) → (a == b) ≡ false → (b == a) ≡ false
==_flip a b h = ground arith

insert-DistinctKeys :
    (e : LastPos) (table : List LastPos) → DistinctKeys table → DistinctKeys (insert e table)
unfolding contains_key insert DistinctKeys
insert-DistinctKeys e [] d = (refl, d)
insert-DistinctKeys e (f ∷ table) (fresh, d) = elim (Bool-cases (f.id == e.id)) [
  | inl same ↦
      let fresh' : contains_key e.id table ≡ false = rw (==_true f.id e.id same) at fresh in
      rw same (fresh', d)
  | inr other ↦ rw other (
    contains_key-insert f.id e table ∙ rw (==_flip f.id e.id other) fresh,
    insert-DistinctKeys e table d,
  )
]

or_insert : (h t c : Bool) → h || (if t then true else c) ≡ (if t then true else h) || c
or_insert true true c = refl
or_insert true false c = refl
or_insert false true c = refl
or_insert false false c = refl

contains_key-positions :
    (id : ℕ) (snapshot : List TouchPoint) (table : List LastPos)
    → contains_key id (positions snapshot table) ≡ has_id id snapshot || contains_key id table
unfolding positions has_id
contains_key-positions id [] table = refl
contains_key-positions id (tp ∷ snapshot) table =
    let e : LastPos = record { id = tp.id; x = tp.x; y = tp.y } in
    contains_key-positions id snapshot (insert e table)
    ∙ ap (λ b. has_id id snapshot || b) (contains_key-insert id e table)
    ∙ or_insert (has_id id snapshot) (tp.id == id) (contains_key id table)

positions-DistinctKeys :
    (snapshot : List TouchPoint) (table : List LastPos)
    → DistinctKeys table
    → DistinctKeys (positions snapshot table)
unfolding positions
positions-DistinctKeys [] table d = d
positions-DistinctKeys (tp ∷ snapshot) table d =
    let e : LastPos = record { id = tp.id; x = tp.x; y = tp.y } in
    positions-DistinctKeys snapshot (insert e table) (insert-DistinctKeys e table d)

-- Where the table has a finger, and where a snapshot has one.
unfoldable pub position : ℕ → List LastPos → Option (ℕ × ℕ)
position id [] = none
position id (e ∷ table) =
    let rest = position id table in if e.id == id then some (e.x, e.y) else rest

unfoldable pub spot : ℕ → List TouchPoint → Option (ℕ × ℕ)
spot id [] = none
spot id (tp ∷ snapshot) =
    let rest = spot id snapshot in if tp.id == id then some (tp.x, tp.y) else rest

again :
    (t : Bool) (x y c : Option (ℕ × ℕ))
    → (if t then x else c) ≡ (if t then x else (if t then y else c))
again true x y c = refl
again false x y c = refl

apart :
    (a b id : ℕ) (x y c : Option (ℕ × ℕ))
    → (a == b) ≡ false
    → (if a == id then x else (if b == id then y else c))
      ≡ (if b == id then y else (if a == id then x else c))
apart a b id x y c h = ground arith

position-insert :
    (id : ℕ) (e : LastPos) (table : List LastPos)
    → position id (insert e table) ≡ (if e.id == id then some (e.x, e.y) else position id table)
unfolding position insert
position-insert id e [] = refl
position-insert id e (f ∷ table) = elim (Bool-cases (f.id == e.id)) [
  | inl same ↦
      let t : (f.id == id) ≡ (e.id == id) = ap (λ i. i == id) (==_true f.id e.id same) in
      rw (same, t) (again (e.id == id) (some (e.x, e.y)) (some (f.x, f.y)) (position id table))
  | inr other ↦
      rw (other, position-insert id e table)
        (apart f.id e.id id (some (f.x, f.y)) (some (e.x, e.y)) (position id table) other)
]

abbrev else_at : Option (ℕ × ℕ) → Option (ℕ × ℕ) → Option (ℕ × ℕ)
else_at none q = q
else_at (some p) q = some p

spot-absent :
    (id : ℕ) (snapshot : List TouchPoint) → has_id id snapshot ≡ false → spot id snapshot ≡ none
unfolding has_id spot
spot-absent id [] h = refl
spot-absent id (tp ∷ snapshot) h = elim (Bool-cases (tp.id == id)) [
  | inl same ↦ let x : true ≡ false = rw same at h in cc
  | inr other ↦
      let h' : has_id id snapshot ≡ false = rw other at h in rw other (spot-absent id snapshot h')
]

position-positions :
    (id : ℕ) (snapshot : List TouchPoint) (table : List LastPos)
    → DistinctPoints snapshot
    → position id (positions snapshot table) ≡ else_at (spot id snapshot) (position id table)
unfolding positions spot DistinctPoints
position-positions id [] table d = refl
position-positions id (tp ∷ snapshot) table (fresh, d) =
    let e : LastPos = record { id = tp.id; x = tp.x; y = tp.y } in
    position-positions id snapshot (insert e table) d
    ∙ ap (else_at (spot id snapshot)) (position-insert id e table)
    ∙ elim (Bool-cases (tp.id == id)) [
      | inl same ↦
          let gone : has_id id snapshot ≡ false = rw (==_true tp.id id same) at fresh in
          rw (same, spot-absent id snapshot gone) refl
      | inr other ↦ rw other refl
    ]

-- The table of an injector agrees with a snapshot: it has the same fingers, each once, and each where
-- the snapshot has it.
pub record Agrees (snapshot : List TouchPoint) (table : List LastPos) : Type 0 where
  pub distinct : DistinctKeys table
  pub ids : (id : ℕ) → contains_key id table ≡ has_id id snapshot
  pub spots : (id : ℕ) → position id table ≡ spot id snapshot

or_false : (b : Bool) → b || false ≡ b
or_false true = refl
or_false false = refl

else_at-none : (o : Option (ℕ × ℕ)) → else_at o none ≡ o
else_at-none none = refl
else_at-none (some p) = refl

positions-Agrees :
    (snapshot : List TouchPoint) → DistinctPoints snapshot → Agrees snapshot (positions snapshot [])
unfolding DistinctKeys contains_key position
positions-Agrees snapshot d = record {
  distinct = positions-DistinctKeys snapshot [] tt;
  ids = λ id. contains_key-positions id snapshot [] ∙ or_false (has_id id snapshot);
  spots = λ id. position-positions id snapshot [] d ∙ else_at-none (spot id snapshot);
}

-- A frame of no fingers comes of an empty snapshot and an empty table.
idle-Agrees :
    (screen : Screen) (snapshot : List TouchPoint) (table : List LastPos)
    → is_empty (touch_infos screen snapshot table) ≡ true
    → Agrees snapshot table
unfolding touch_infos present lost is_empty has_id DistinctPoints positions
idle-Agrees screen [] [] h = positions-Agrees [] tt
idle-Agrees screen [] (e ∷ table) h = cc
idle-Agrees screen (tp ∷ snapshot) table h = cc

and-true : (a b : Bool) → a && b ≡ true → (a ≡ true) × (b ≡ true)
and-true true b h = (refl, h)
and-true false b h = cc

idle_infos :
    (screen : Screen) (snapshot : List TouchPoint) (table : List LastPos)
    → is_empty snapshot ≡ true
    → is_empty table ≡ true
    → is_empty (touch_infos screen snapshot table) ≡ true
unfolding touch_infos is_empty present lost
idle_infos screen [] [] h k = refl
idle_infos screen [] (e ∷ table) h k = cc
idle_infos screen (tp ∷ snapshot) table h k = cc

sent-Agrees :
    (snapshot : List TouchPoint) (g : InputInjector) (o : Outcome) (log' : List Call)
    → DistinctPoints snapshot
    → (settle snapshot g o).1 ≡ done log'
    → Agrees snapshot (settle snapshot g o).0.last_touch_pos
unfolding settle
sent-Agrees snapshot g (done log) log' d h = positions-Agrees snapshot d
sent-Agrees snapshot g (failed e log) log' d h = cc

-- After a snapshot was injected, the table holds its fingers and no other, each once and each at the
-- position that the snapshot has for it; given that the snapshot names no finger twice.
pub inject_touch-Agrees :
    (os : Os) (screen : Screen) (snapshot : List TouchPoint) (g : InputInjector)
    (log log' : List Call)
    → DistinctPoints snapshot
    → (inject_touch os screen snapshot g log).1 ≡ done log'
    → Agrees snapshot (inject_touch os screen snapshot g log).0.last_touch_pos
unfolding inject_touch
inject_touch-Agrees os screen snapshot g log log' d h =
    let infos = touch_infos screen snapshot g.last_touch_pos in
    elim (Bool-cases (is_empty snapshot && is_empty g.last_touch_pos)) [
      | inl e ↦
          let nothing =
            idle_infos screen snapshot g.last_touch_pos (and-true _ _ e).0 (and-true _ _ e).1 in
          rw (e, inject_touch) (idle-Agrees screen snapshot g.last_touch_pos nothing)
      | inr e ↦ elim (Bool-cases (is_empty infos)) [
        | inl f ↦ rw (e, f, inject_touch) (idle-Agrees screen snapshot g.last_touch_pos f)
        | inr f ↦
            let sent = send os (touch_frame infos) log in
            let h' : (settle snapshot g sent).1 ≡ done log' = rw (e, f, inject_touch) at h in
            rw (e, f, inject_touch) (sent-Agrees snapshot g sent log' d h')
      ]
    ]

unsettled :
    (idle empty : Bool) (snapshot : List TouchPoint) (g : InputInjector) (o : Outcome)
    (log log' : List Call) (e : EngineError)
    → let r =
        (if idle then (g, done log) else if empty then (g, done log) else settle snapshot g o) in
      r.1 ≡ failed e log' → r.0 ≡ g
unfolding settle
unsettled true empty snapshot g o log log' e h = cc
unsettled false true snapshot g o log log' e h = cc
unsettled false false snapshot g (failed e' log1) log log' e h = refl
unsettled false false snapshot g (done log1) log log' e h = cc

-- A snapshot that was not injected leaves the injector as it was, to be compared with the next.
pub inject_touch-failed :
    (os : Os) (screen : Screen) (snapshot : List TouchPoint) (g : InputInjector)
    (log log' : List Call) (e : EngineError)
    → (inject_touch os screen snapshot g log).1 ≡ failed e log'
    → (inject_touch os screen snapshot g log).0 ≡ g
unfolding inject_touch
inject_touch-failed os screen snapshot g log log' e h =
    let infos = touch_infos screen snapshot g.last_touch_pos in
    unsettled (is_empty snapshot && is_empty g.last_touch_pos) (is_empty infos) snapshot g
      (send os (touch_frame infos) log) log log' e h
