-- ===== src/Queue/Accounts.antt =====
-- Every packet that the queue took is counted once: handed over, dropped, or still in it.
use zpenflow.Base.{
  ℕ, suc, ◌+◌, ◌^◌, ◌<◌, ◌≡◌, ◌==◌, refl, ap, ◌∙◌, arith, Bool, true, false, Bool-cases, inl, inr,
  List, [], ◌∷◌, length, length-append,
}
use zpenflow.Queue.{
  Inner, Op, push_op, pop_op, close_op, new, push, close, pop_pass, pop_timeout_pass,
  saturating_suc, run, accepted, handed,
}
use zpenflow.Queue.Overflow.{
  push_closed, push_full, push_room, queue, length-pop_front, IsBounded, push-IsBounded,
  pop-IsBounded,
}

-- Below its largest value the counter counts.
saturating_suc_small : (d : ℕ) → d + 1 < 2 ^ 64 → saturating_suc d ≡ suc d
unfolding saturating_suc
saturating_suc_small d h = ground arith

module _ {A : Type 0} where
  -- The packets in the queue, dropped, and still to come.
  abbrev charged : List (Op A) → Inner A → ℕ
  charged ops g = length g.deque + g.dropped_overflow + length (accepted g.closed ops)

  accepted_closed : (b : Bool) (ops : List (Op A)) → b ≡ true → accepted b ops ≡ []
  unfolding accepted
  accepted_closed true ops e = refl
  accepted_closed false ops e = cc

  accepted_push :
      (b : Bool) (a : A) (ops : List (Op A))
      → b ≡ false
      → length (accepted b (push_op a ∷ ops)) ≡ suc (length (accepted false ops))
  unfolding accepted
  accepted_push true a ops e = cc
  accepted_push false a ops e = refl

  accepted_pop : (b e : Bool) (ops : List (Op A)) → accepted b (pop_op e ∷ ops) ≡ accepted b ops
  unfolding accepted
  accepted_pop true e ops = refl
  accepted_pop false e ops = refl

  accepted_end : (b : Bool) → accepted {A = A} b [] ≡ []
  unfolding accepted
  accepted_end true = refl
  accepted_end false = refl

  accepted_close : (b : Bool) (ops : List (Op A)) → accepted b (close_op ∷ ops) ≡ []
  unfolding accepted
  accepted_close true ops = refl
  accepted_close false ops = refl

  push-charged :
      (a : A) (ops : List (Op A)) (g : Inner A)
      → IsBounded g
      → g.dropped_overflow + 1 < 2 ^ 64
      → charged ops (push a g).0 ≡ charged (push_op a ∷ ops) g
  push-charged a ops g (p, q) small = elim (Bool-cases g.closed) [
    | inl e ↦ rw (push_closed a g e) (
        omega (
          arith,
          ap length (accepted_closed g.closed ops e),
          ap length (accepted_closed g.closed (push_op a ∷ ops) e),
        ))
    | inr e ↦ elim (Bool-cases (length g.deque == g.capacity)) [
      | inl full ↦
          let n : length g.deque ≡ g.capacity = ground arith in
          rw (push_full a g e full) (
            omega (
              arith,
              n,
              length-pop_front a g.deque (omega (arith, n)),
              saturating_suc_small g.dropped_overflow small,
              accepted_push g.closed a ops e,
            ))
      | inr room ↦
          rw (push_room a g e room)
            (omega (arith, length-append g.deque (a ∷ []), accepted_push g.closed a ops e))
    ]
  ]

  push-dropped :
      (a : A) (g : Inner A) (n : ℕ)
      → g.dropped_overflow + suc n < 2 ^ 64
      → (push a g).0.dropped_overflow + n < 2 ^ 64
  push-dropped a g n h = elim (Bool-cases g.closed) [
    | inl e ↦ rw (push_closed a g e) (omega arith)
    | inr e ↦ elim (Bool-cases (length g.deque == g.capacity)) [
      | inl full ↦
          rw (push_full a g e full)
            (omega (arith, saturating_suc_small g.dropped_overflow (omega arith)))
      | inr room ↦ rw (push_room a g e room) (omega arith)
    ]
  ]

  pop-charged :
      (e : Bool) (l : List A) (c : ℕ) (closed : Bool) (d : ℕ) (ops : List (Op A))
      → length (handed (pop_timeout_pass e (queue l c closed d)).0)
          + charged ops (pop_timeout_pass e (queue l c closed d)).1
        ≡ length l + d + length (accepted closed ops)
  unfolding pop_timeout_pass pop_pass handed
  pop-charged true [] c true d ops = omega arith
  pop-charged false [] c true d ops = omega arith
  pop-charged true [] c false d ops = omega arith
  pop-charged false [] c false d ops = omega arith
  pop-charged e (a ∷ l) c closed d ops = omega arith

  pop-dropped :
      (e : Bool) (l : List A) (c : ℕ) (closed : Bool) (d : ℕ)
      → (pop_timeout_pass e (queue l c closed d)).1.dropped_overflow ≡ d
  unfolding pop_timeout_pass pop_pass
  pop-dropped true [] c true d = refl
  pop-dropped false [] c true d = refl
  pop-dropped true [] c false d = refl
  pop-dropped false [] c false d = refl
  pop-dropped e (a ∷ l) c closed d = refl

  run-charged :
      (ops : List (Op A)) (g : Inner A)
      → IsBounded g
      → g.dropped_overflow + length ops < 2 ^ 64
      → length (run ops g).0 + length (run ops g).1.deque + (run ops g).1.dropped_overflow
        ≡ charged ops g
  unfolding run close
  run-charged [] g h small = omega (arith, ap length (accepted_end g.closed))
  run-charged (push_op a ∷ ops) g h small =
      run-charged ops (push a g).0 (push-IsBounded a g h) (push-dropped a g (length ops) small)
      ∙ push-charged a ops g h (omega arith)
  run-charged (pop_op e ∷ ops) g (p, q) small =
      let pass = pop_timeout_pass e g in
      omega (
        arith,
        length-append (handed pass.0) (run ops pass.1).0,
        run-charged ops pass.1 (pop-IsBounded e g.deque g.capacity g.closed g.dropped_overflow p q)
            (omega (arith, pop-dropped e g.deque g.capacity g.closed g.dropped_overflow)),
        pop-charged e g.deque g.capacity g.closed g.dropped_overflow ops,
        ap length (accepted_pop g.closed e ops),
      )
  run-charged (close_op ∷ ops) g h small =
      run-charged ops (close g) h (omega arith)
      ∙ omega (
        arith,
        ap length (accepted_close g.closed ops),
        ap length (accepted_closed true ops refl),
      )

  -- Of a fresh queue, in a run of fewer than 2^64 operations: the packets handed to consumers, those
  -- still in the queue and those that the counter reports as dropped are together as many as were
  -- pushed before the queue was closed.
  pub run-accounts :
      (c : ℕ) (ops : List (Op A))
      → length ops < 2 ^ 64
      → length (run ops (new c)).0
          + length (run ops (new c)).1.deque
          + (run ops (new c)).1.dropped_overflow
        ≡ length (accepted false ops)
  unfolding new
  run-accounts c ops h = omega (arith, run-charged ops (new c) (ground arith) (omega arith))
