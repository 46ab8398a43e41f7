-- ===== src/Session/Stats/Percentile.antt =====
-- What the 99th percentile of the encoding times says of them.
use zpenflow.Base.{
  ℕ, zero, suc, ◌+◌, ◌-◌, ◌*◌, ◌/◌, ◌≤◌, ◌<◌, ◌==◌, ◌≡◌, refl, ap, ◌∙◌, leb, leb→le, false,
  Bool-cases, inl, inr, List, [], ◌∷◌, length, get_or, if◌then◌else◌, All, arith,
}
use zpenflow.Session.Stats.{insert_sorted, sorted, p99_index, encode_us_summary}

-- How many entries are at most `v`.
unfoldable pub at_most : ℕ → List ℕ → ℕ
at_most v [] = 0
at_most v (w ∷ ws) = (if leb w v then 1 else 0) + at_most v ws

at_most-insert :
    (v w : ℕ) (ws : List ℕ)
    → at_most v (insert_sorted w ws) ≡ (if leb w v then 1 else 0) + at_most v ws
unfolding at_most insert_sorted
at_most-insert v w [] = refl
at_most-insert v w (x ∷ xs) = elim (Bool-cases (leb w x)) [
  | inl e ↦ rw e refl
  | inr e ↦ rw e (omega (arith, at_most-insert v w xs))
]

at_most-sorted : (v : ℕ) (vs : List ℕ) → at_most v (sorted vs) ≡ at_most v vs
unfolding at_most sorted
at_most-sorted v [] = refl
at_most-sorted v (w ∷ ws) = omega (arith, at_most-insert v w (sorted ws), at_most-sorted v ws)

length-insert : (w : ℕ) (ws : List ℕ) → length (insert_sorted w ws) ≡ suc (length ws)
unfolding insert_sorted
length-insert w [] = refl
length-insert w (x ∷ xs) = elim (Bool-cases (leb w x)) [
  | inl e ↦ rw e refl
  | inr e ↦ rw e (ap suc (length-insert w xs))
]

length-sorted : (vs : List ℕ) → length (sorted vs) ≡ length vs
unfolding sorted
length-sorted [] = refl
length-sorted (v ∷ vs) = length-insert v (sorted vs) ∙ ap suc (length-sorted vs)

-- Each entry is at most those behind it.
abbrev Ascending : List ℕ → Type 0
Ascending [] = Unit
Ascending (v ∷ vs) = All (λ w. v ≤ w) vs × Ascending vs

All-insert :
    (v w : ℕ) (ws : List ℕ) → v ≤ w → All (λ x. v ≤ x) ws → All (λ x. v ≤ x) (insert_sorted w ws)
unfolding insert_sorted
All-insert v w [] h k = (h, tt)
All-insert v w (x ∷ xs) h (k, ks) = elim (Bool-cases (leb w x)) [
  | inl e ↦ rw e (h, (k, ks))
  | inr e ↦ rw e (k, All-insert v w xs h ks)
]

All-below : (v w : ℕ) (ws : List ℕ) → v ≤ w → All (λ x. w ≤ x) ws → All (λ x. v ≤ x) ws
All-below v w [] h k = tt
All-below v w (x ∷ xs) h (k, ks) = (omega arith, All-below v w xs h ks)

insert-Ascending : (w : ℕ) (ws : List ℕ) → Ascending ws → Ascending (insert_sorted w ws)
unfolding insert_sorted
insert-Ascending w [] h = (tt, tt)
insert-Ascending w (x ∷ xs) (h, hs) = elim (Bool-cases (leb w x)) [
  | inl e ↦ let k : w ≤ x = leb→le w x e in rw e ((k, All-below w x xs k h), (h, hs))
  | inr e ↦ rw e (All-insert x w xs (ground arith) h, insert-Ascending w xs hs)
]

sorted-Ascending : (vs : List ℕ) → Ascending (sorted vs)
unfolding sorted
sorted-Ascending [] = tt
sorted-Ascending (v ∷ vs) = insert-Ascending v (sorted vs) (sorted-Ascending vs)

All-get_or : (v : ℕ) (vs : List ℕ) (i : ℕ) → i < length vs → All (λ w. v ≤ w) vs → v ≤ get_or vs i 0
All-get_or v [] i h k = absurd (omega arith)
All-get_or v (w ∷ ws) zero h (k, ks) = k
All-get_or v (w ∷ ws) (suc i) h (k, ks) = All-get_or v ws i (omega arith) ks

-- In ascending order, an entry is at least as many as stand up to it.
at_most-get_or :
    (vs : List ℕ) (i : ℕ) → i < length vs → Ascending vs → i < at_most (get_or vs i 0) vs
unfolding at_most
at_most-get_or [] i h k = absurd (omega arith)
at_most-get_or (v ∷ vs) zero h k = ground arith
at_most-get_or (v ∷ vs) (suc i) h (k, ks) =
    let x = All-get_or v vs i (omega arith) k in
    let y = at_most-get_or vs i (omega arith) ks in ground arith

-- Of n recordings, more than 99 % of n - 1 are at most the 99th percentile of the summary.
pub encode_us_summary-p99 :
    (ring : List ℕ)
    → 0 < length ring
    → 99 * (length ring - 1) < 100 * at_most (encode_us_summary ring).1 ring
unfolding encode_us_summary p99_index
encode_us_summary-p99 ring h =
    let i = (length ring - 1) * 99 / 100 in
    let v = get_or (sorted ring) i 0 in
    let e : (length ring == 0) ≡ false = ground arith in
    let x =
      at_most-get_or (sorted ring) i (omega (arith, length-sorted ring)) (sorted-Ascending ring) in
    let y : i < at_most v ring = omega (arith, x, at_most-sorted v ring) in rw e (omega arith)
