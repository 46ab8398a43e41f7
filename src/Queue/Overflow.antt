-- ===== src/Queue/Overflow.antt =====
-- The bounds of the packet queue, and where each packet of a run is at its end.
use zpenflow.Base.{
  ℕ, ◌≤◌, ◌≡◌, ◌==◌, refl, arith, Bool, true, false, Bool-cases, inl, inr, List, [], ◌∷◌, ◌++◌,
  length, length-append,
}
use zpenflow.Queue.{
  Inner, Op, push_op, pop_op, close_op, new, push, close, pop_front, pop_pass, pop_timeout_pass,
  saturating_suc, run,
}

module _ {A : Type 0} where
  -- A queue that holds no more than it may, and may hold a packet.
  abbrev pub IsBounded : Inner A → Type 0
  IsBounded g = (1 ≤ g.capacity) × (length g.deque ≤ g.capacity)

  -- The three cases of `push`.
  pub push_closed : (a : A) (g : Inner A) → g.closed ≡ true → (push a g).0 ≡ g
  unfolding push
  push_closed a g e = simp (e, push) refl

  abbrev pub enqueued : A → List A → ℕ → Inner A → Inner A
  enqueued a kept dropped g = record {
    deque = kept ++ (a ∷ []);
    capacity = g.capacity;
    closed = false;
    dropped_overflow = dropped;
  }

  pub push_full :
      (a : A) (g : Inner A)
      → g.closed ≡ false
      → (length g.deque == g.capacity) ≡ true
      → (push a g).0 ≡ enqueued a (pop_front g.deque) (saturating_suc g.dropped_overflow) g
  unfolding push
  push_full a g e h = rw (e, h, push) refl

  pub push_room :
      (a : A) (g : Inner A)
      → g.closed ≡ false
      → (length g.deque == g.capacity) ≡ false
      → (push a g).0 ≡ enqueued a g.deque g.dropped_overflow g
  unfolding push
  push_room a g e h = rw (e, h, push) refl

  -- The list with its first element taken off and another put on.
  pub length-pop_front :
      (a : A) (l : List A) → 1 ≤ length l → length (pop_front l ++ (a ∷ [])) ≡ length l
  unfolding pop_front
  length-pop_front a [] h = absurd (omega arith)
  length-pop_front a (b ∷ l) h = omega (arith, length-append l (a ∷ []))

  pub push-IsBounded : (a : A) (g : Inner A) → IsBounded g → IsBounded (push a g).0
  push-IsBounded a g (p, q) = elim (Bool-cases g.closed) [
    | inl e ↦ rw (push_closed a g e) (p, q)
    | inr e ↦ elim (Bool-cases (length g.deque == g.capacity)) [
      | inl full ↦
          let n : length g.deque ≡ g.capacity = ground arith in
          rw (push_full a g e full)
            (p, omega (arith, n, length-pop_front a g.deque (omega (arith, n))))
      | inr room ↦ rw (push_room a g e room) (p, ground (arith, length-append g.deque (a ∷ [])))
    ]
  ]

  -- A queue by its fields, so that proofs split on them.
  abbrev pub queue : List A → ℕ → Bool → ℕ → Inner A
  queue l c closed d = record { deque = l; capacity = c; closed = closed; dropped_overflow = d }

  pub pop-IsBounded :
      (expired : Bool) (l : List A) (c : ℕ) (closed : Bool) (d : ℕ)
      → 1 ≤ c
      → length l ≤ c
      → IsBounded (pop_timeout_pass expired (queue l c closed d)).1
  unfolding pop_timeout_pass pop_pass
  pop-IsBounded expired [] c true d p q = (p, q)
  pop-IsBounded true [] c false d p q = (p, q)
  pop-IsBounded false [] c false d p q = (p, q)
  pop-IsBounded expired (a ∷ l) c closed d p q = (p, omega arith)

  run-IsBounded : (ops : List (Op A)) (g : Inner A) → IsBounded g → IsBounded (run ops g).1
  unfolding run close
  run-IsBounded [] g h = h
  run-IsBounded (push_op a ∷ ops) g h = run-IsBounded ops (push a g).0 (push-IsBounded a g h)
  run-IsBounded (pop_op e ∷ ops) g (p, q) =
      run-IsBounded ops (pop_timeout_pass e g).1
        (pop-IsBounded e g.deque g.capacity g.closed g.dropped_overflow p q)
  run-IsBounded (close_op ∷ ops) g h = run-IsBounded ops (close g) h

  -- Whatever a fresh queue goes through, it holds no more packets than its capacity.
  pub run-new_bounded :
      (c : ℕ) (ops : List (Op A)) → length (run ops (new c)).1.deque ≤ (run ops (new c)).1.capacity
  unfolding new
  run-new_bounded c ops = (run-IsBounded ops (new c) (ground arith)).1
