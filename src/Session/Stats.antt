-- ===== src/Session/Stats.antt =====
-- `Stats`: the counters of a session, and the ring of the last encoding times.
pub mod Percentile
use zpenflow.Base.{
  ℕ, zero, suc, ◌+◌, ◌-◌, ◌*◌, ◌/◌, ◌%◌, ◌^◌, ◌≤◌, ◌<◌, ◌==◌, ◌≡◌, refl, sym, ap, ◌∙◌, leb, ltb,
  leb→le, Bool, true, false, Bool-cases, inl, inr, List, [], ◌∷◌, ◌++◌, length, length-append,
  length-drop, drop, get_or, if◌then◌else◌, append_assoc, append-nil, All, arith,
}
use zpenflow.Queue.{pop_front}

pub record Stats : Type 0 where
  pub frames : ℕ
  pub queue_depth : ℕ
  pub encode_us_ring : List ℕ

abbrev pub encode_ring_capacity : ℕ
encode_ring_capacity = 256

unfoldable pub record_encode_us : ℕ → List ℕ → List ℕ
unfolding pop_front
record_encode_us us ring =
    (if length ring == encode_ring_capacity then pop_front ring else ring) ++ (us ∷ [])

unfoldable pub sum : List ℕ → ℕ
sum [] = 0
sum (v ∷ vs) = v + sum vs

-- `sort_unstable`, of numbers.
unfoldable pub insert_sorted : ℕ → List ℕ → List ℕ
insert_sorted v [] = v ∷ []
insert_sorted v (w ∷ ws) = let rest = insert_sorted v ws in if leb v w then v ∷ w ∷ ws else w ∷ rest

unfoldable pub sorted : List ℕ → List ℕ
unfolding insert_sorted
sorted [] = []
sorted (v ∷ vs) = insert_sorted v (sorted vs)

-- `((n - 1) as f64 * 0.99) as usize`, which is exact in whole numbers for rings of at most 256.
unfoldable pub p99_index : ℕ → ℕ
p99_index n = (n - 1) * 99 / 100

-- The mean and the 99th percentile.
unfoldable pub encode_us_summary : List ℕ → ℕ × ℕ
unfolding sum sorted insert_sorted p99_index
encode_us_summary ring =
    if length ring == 0
    then (0, 0)
    else (sum ring / length ring % 2 ^ 32, get_or (sorted ring) (p99_index (length ring)) 0)

-- The ring after recording, from any ring on.
unfoldable pub recorded : List ℕ → List ℕ → List ℕ
unfolding record_encode_us pop_front
recorded [] ring = ring
recorded (us ∷ later) ring = recorded later (record_encode_us us ring)

-- The last entries of a list, as many as the ring holds.
abbrev pub last_ones : List ℕ → List ℕ
last_ones vs = drop (length vs - encode_ring_capacity) vs

drop-append_le : (n : ℕ) (vs ws : List ℕ) → n ≤ length vs → drop n (vs ++ ws) ≡ drop n vs ++ ws
drop-append_le zero vs ws h = refl
drop-append_le (suc n) [] ws h = absurd (omega arith)
drop-append_le (suc n) (v ∷ vs) ws h = drop-append_le n vs ws (omega arith)

pop_front-drop : (n : ℕ) (vs : List ℕ) → n < length vs → pop_front (drop n vs) ≡ drop (suc n) vs
unfolding pop_front
pop_front-drop zero [] h = refl
pop_front-drop zero (v ∷ vs) h = refl
pop_front-drop (suc n) [] h = refl
pop_front-drop (suc n) (v ∷ vs) h = pop_front-drop n vs (omega arith)

-- Recording once more.
record-last_ones :
    (us : ℕ) (vs : List ℕ) → record_encode_us us (last_ones vs) ≡ last_ones (vs ++ (us ∷ []))
unfolding record_encode_us
record-last_ones us vs =
    let n = length vs - encode_ring_capacity in
    let size = length-drop n vs in
    let longer = length-append vs (us ∷ []) in
    elim (Bool-cases (length (last_ones vs) == encode_ring_capacity)) [
      | inl full ↦
          let k : length (vs ++ (us ∷ [])) - encode_ring_capacity ≡ suc n = ground arith in
          let x = pop_front-drop n vs (ground arith) in
          rw (full, k)
            (ap (λ l. l ++ (us ∷ [])) x ∙ sym (drop-append_le (suc n) vs (us ∷ []) (ground arith)))
      | inr room ↦
          let k : length (vs ++ (us ∷ [])) - encode_ring_capacity ≡ 0 = ground arith in
          let z : n ≡ 0 = ground arith in rw (room, k, z) refl
    ]

recorded-from : (later vs : List ℕ) → recorded later (last_ones vs) ≡ last_ones (vs ++ later)
unfolding recorded
recorded-from [] vs = ap last_ones (sym (append-nil vs))
recorded-from (us ∷ later) vs =
    ap (recorded later) (record-last_ones us vs)
    ∙ recorded-from later (vs ++ (us ∷ []))
    ∙ ap last_ones (append_assoc vs (us ∷ []) later)

-- After whatever recordings into an empty ring, the ring holds the last 256 of them, the oldest
-- first.
pub recorded-last : (vs : List ℕ) → recorded vs [] ≡ last_ones vs
recorded-last vs = recorded-from vs []
