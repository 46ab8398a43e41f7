-- ===== src/Queue/Newest.antt =====
-- What the queue keeps while no consumer comes: the newest packets.
use zpenflow.Base.{
  ℕ, zero, suc, ◌+◌, ◌-◌, ◌≤◌, ◌≡◌, ◌==◌, refl, sym, ap, ◌∙◌, arith, false, Bool-cases, inl, inr,
  List, [], ◌∷◌, ◌++◌, map, append-nil, append_assoc, length, length-append, length-drop, drop, ltb,
  if◌then◌else◌,
}
use zpenflow.Queue.{Inner, push_op, new, push, pop_front, run}
use zpenflow.Queue.Overflow.{push_full, push_room}

module _ {A : Type 0} where
  -- The last `n` elements.
  abbrev pub newest : ℕ → List A → List A
  newest n l = drop (length l - n) l

  drop-nil : (n : ℕ) → drop {A = A} n [] ≡ []
  drop-nil zero = refl
  drop-nil (suc n) = refl

  drop-append : (n : ℕ) (l m : List A) → n ≤ length l → drop n (l ++ m) ≡ drop n l ++ m
  drop-append zero l m h = refl
  drop-append (suc n) [] m h = absurd (omega arith)
  drop-append (suc n) (x ∷ l) m h = drop-append n l m (omega arith)

  pop_front-drop : (n : ℕ) (l : List A) → pop_front (drop n l) ≡ drop (suc n) l
  unfolding pop_front
  pop_front-drop zero [] = refl
  pop_front-drop zero (x ∷ l) = refl
  pop_front-drop (suc n) [] = refl
  pop_front-drop (suc n) (x ∷ l) = pop_front-drop n l

  newest_grown :
      (a : A) (k n : ℕ) (l : List A)
      → k ≡ length l + 1 - n
      → k ≤ length l
      → newest n (l ++ (a ∷ [])) ≡ drop k l ++ (a ∷ [])
  newest_grown a k n l e h =
      let same : length (l ++ (a ∷ [])) - n ≡ k = omega (arith, length-append l (a ∷ [])) in
      rw same (drop-append k l (a ∷ []) h)

  -- An open queue of capacity `c` that holds the newest of `ys`.
  abbrev IsNewest : ℕ → List A → Inner A → Type 0
  IsNewest c ys g = (g.closed ≡ false) × (g.capacity ≡ c) × (g.deque ≡ newest c ys)

  push-IsNewest :
      (c : ℕ) (a : A) (ys : List A) (g : Inner A)
      → 1 ≤ c
      → IsNewest c ys g
      → IsNewest c (ys ++ (a ∷ [])) (push a g).0
  push-IsNewest c a ys g h (o, cap, d) =
      let len : length g.deque ≡ length ys - (length ys - c) =
        ap length d ∙ length-drop (length ys - c) ys in
      elim (Bool-cases (length g.deque == g.capacity)) [
        | inl full ↦
            let enough : c ≤ length ys = ground arith in
            let popped = ap pop_front d ∙ pop_front-drop (length ys - c) ys in
            let grown = newest_grown a (suc (length ys - c)) c ys (omega arith) (omega arith) in
            rw (push_full a g o full) (refl, cap, ap (λ l. l ++ (a ∷ [])) popped ∙ sym grown)
        | inr room ↦
            let less : length ys + 1 ≤ c = ground arith in
            let grown = newest_grown a (length ys - c) c ys (omega arith) (omega arith) in
            rw (push_room a g o room) (refl, cap, ap (λ l. l ++ (a ∷ [])) d ∙ sym grown)
      ]

  run-IsNewest :
      (c : ℕ) (xs ys : List A) (g : Inner A)
      → 1 ≤ c
      → IsNewest c ys g
      → IsNewest c (ys ++ xs) (run (map push_op xs) g).1
  unfolding run
  run-IsNewest c [] ys g h n = rw (append-nil ys) n
  run-IsNewest c (x ∷ xs) ys g h n =
      let rest = run-IsNewest c xs (ys ++ (x ∷ [])) (push x g).0 h (push-IsNewest c x ys g h n) in
      rw (append_assoc ys (x ∷ []) xs) at rest

  -- After pushes only, a fresh queue holds as many of the newest packets as its capacity allows, in
  -- order; a capacity of zero counts as one.
  pub run-newest :
      (c : ℕ) (xs : List A)
      → (run (map push_op xs) (new c)).1.deque ≡ newest (if ltb 1 c then c else 1) xs
  unfolding new
  run-newest c xs =
      let at_least : 1 ≤ (if ltb 1 c then c else 1) = ground arith in
      (run-IsNewest (if ltb 1 c then c else 1) xs [] (new c) at_least
        (refl, refl, sym (drop-nil (0 - (if ltb 1 c then c else 1))))).2
