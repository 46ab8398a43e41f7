-- ===== src/Session/Waiting.antt =====
-- `wait_for_keyframe`: packets are taken off the queue, and passed over, until one is a key frame or the
-- time is up. There is a round for each time the clock is found before the deadline, with what other
-- threads do to the queue before the round's `pop_timeout` returns.
use zpenflow.Base.{
  ℕ, suc, ◌≤◌, ◌≡◌, refl, ap, Bool, true, false, List, [], ◌∷◌, ◌++◌, length, take, if◌then◌else◌,
  All, arith,
}
use zpenflow.Queue.{
  Inner, Op, push_op, pop_op, close_op, Pass, item, finished, waiting, push, close,
  pop_timeout_pass, handed, run,
}
use zpenflow.Session.Frames.{EncodedPacket}

-- What a thread that is no consumer does.
pub data Change : Type 0 where
  pushing : EncodedPacket → Change
  closing : Change

unfoldable pub change_ops : List Change → List (Op EncodedPacket)
change_ops [] = []
change_ops (pushing pkt ∷ changes) = push_op pkt ∷ change_ops changes
change_ops (closing ∷ changes) = close_op ∷ change_ops changes

pub data Waited : Type 0 where
  keyframe : EncodedPacket → Waited
  no_keyframe : Waited

-- What a round's `pop_timeout` comes to, with what the later rounds would.
unfoldable pub chosen :
    Pass EncodedPacket × Inner EncodedPacket
    → Waited × Inner EncodedPacket
    → Waited × Inner EncodedPacket
chosen (item p, g) rest = if p.is_keyframe then (keyframe p, g) else rest
chosen (finished, g) rest = rest
chosen (waiting, g) rest = rest

unfoldable pub wait_for_keyframe :
    List (List Change) → Inner EncodedPacket → Waited × Inner EncodedPacket
unfolding change_ops chosen run pop_timeout_pass
wait_for_keyframe [] g = (no_keyframe, g)
wait_for_keyframe (changes ∷ rounds) g =
    let popped = pop_timeout_pass true (run (change_ops changes) g).1 in
    chosen popped (wait_for_keyframe rounds popped.1)

-- The operations of these rounds.
unfoldable pub round_ops : List (List Change) → List (Op EncodedPacket)
unfolding change_ops
round_ops [] = []
round_ops (changes ∷ rounds) = change_ops changes ++ (pop_op true ∷ round_ops rounds)

abbrev pub IsOther : EncodedPacket → Type 0
IsOther pkt = pkt.is_keyframe ≡ false

-- What was taken off the queue in `n` of these rounds, by the result.
unfoldable pub Verdict : Waited → ℕ → ℕ → List EncodedPacket → Type 0
Verdict (keyframe p) n rounds out =
    (skipped : List EncodedPacket) × (out ≡ skipped ++ (p ∷ []))
    × All IsOther skipped
    × (p.is_keyframe ≡ true)
Verdict no_keyframe n rounds out = All IsOther out × (n ≡ rounds)

-- The wait is a run of the queue, of the first rounds.
abbrev pub IsRun : List (List Change) → Inner EncodedPacket → Waited × Inner EncodedPacket → Type 0
IsRun rounds g (w, end) =
    (n : ℕ) × (n ≤ length rounds)
    × ((run (round_ops (take n rounds)) g).1 ≡ end)
    × Verdict w n (length rounds) (run (round_ops (take n rounds)) g).0

run-changes :
    (changes : List Change) (ops : List (Op EncodedPacket)) (g : Inner EncodedPacket)
    → run (change_ops changes ++ ops) g ≡ run ops (run (change_ops changes) g).1
unfolding change_ops run
run-changes [] ops g = refl
run-changes (pushing pkt ∷ changes) ops g = run-changes changes ops (push pkt g).0
run-changes (closing ∷ changes) ops g = run-changes changes ops (close g)

-- The same, behind a `pop_timeout`.
abbrev IsRunFrom :
    List (List Change)
    → Pass EncodedPacket × Inner EncodedPacket
    → Waited × Inner EncodedPacket
    → Type 0
IsRunFrom rounds (pass, g) (w, end) =
    (n : ℕ) × (n ≤ length rounds)
    × ((run (round_ops (take n rounds)) g).1 ≡ end)
    × Verdict w (suc n) (suc (length rounds)) (handed pass ++ (run (round_ops (take n rounds)) g).0)

skip-Verdict :
    (w : Waited) (n rounds : ℕ) (p : EncodedPacket) (out : List EncodedPacket)
    → IsOther p
    → Verdict w n rounds out
    → Verdict w (suc n) (suc rounds) (p ∷ out)
unfolding Verdict
skip-Verdict (keyframe q) n rounds p out h (skipped, e, others, key) =
    (p ∷ skipped, ap (λ (l : List EncodedPacket). p ∷ l) e, (h, others), key)
skip-Verdict no_keyframe n rounds p out h (others, e) = ((h, others), ap suc e)

next-Verdict :
    (w : Waited) (n rounds : ℕ) (out : List EncodedPacket)
    → Verdict w n rounds out
    → Verdict w (suc n) (suc rounds) out
unfolding Verdict
next-Verdict (keyframe q) n rounds out h = h
next-Verdict no_keyframe n rounds out (others, e) = (others, ap suc e)

item-IsRunFrom :
    (rounds : List (List Change)) (b : Bool) (p : EncodedPacket) (g : Inner EncodedPacket)
    (rest : Waited × Inner EncodedPacket)
    → p.is_keyframe ≡ b
    → IsRun rounds g rest
    → IsRunFrom rounds (item p, g) (if b then (keyframe p, g) else rest)
unfolding Verdict run round_ops
item-IsRunFrom rounds true p g rest e h = (0, omega arith, refl, ([], refl, tt, e))
item-IsRunFrom rounds false p g (w, end) e (n, le, same, verdict) =
    (n, le, same, skip-Verdict w n (length rounds) p _ e verdict)

chosen-IsRunFrom :
    (rounds : List (List Change)) (popped : Pass EncodedPacket × Inner EncodedPacket)
    (rest : Waited × Inner EncodedPacket)
    → IsRun rounds popped.1 rest
    → IsRunFrom rounds popped (chosen popped rest)
unfolding chosen handed run
chosen-IsRunFrom rounds (item p, g) rest h = item-IsRunFrom rounds p.is_keyframe p g rest refl h
chosen-IsRunFrom rounds (finished, g) (w, end) (n, le, same, verdict) =
    (n, le, same, next-Verdict w n (length rounds) _ verdict)
chosen-IsRunFrom rounds (waiting, g) (w, end) (n, le, same, verdict) =
    (n, le, same, next-Verdict w n (length rounds) _ verdict)

run-round :
    (changes : List Change) (rounds : List (List Change)) (g : Inner EncodedPacket)
    (w : Waited × Inner EncodedPacket)
    → IsRunFrom rounds (pop_timeout_pass true (run (change_ops changes) g).1) w
    → IsRun (changes ∷ rounds) g w
unfolding round_ops run
run-round changes rounds g (w, end) (n, le, same, verdict) =
    let e = run-changes changes (pop_op true ∷ round_ops (take n rounds)) g in
    (suc n, omega arith, rw e same, rw e verdict)

-- The wait for a key frame is a run of the queue: of some of its first rounds, each with one packet taken
-- at most. It returns the packet that was taken last, a key frame, and no other that was taken is one; or
-- it gives up, after all of the rounds, and none that was taken is one.
pub wait_for_keyframe-IsRun :
    (rounds : List (List Change)) (g : Inner EncodedPacket)
    → IsRun rounds g (wait_for_keyframe rounds g)
unfolding wait_for_keyframe run round_ops Verdict
wait_for_keyframe-IsRun [] g = (0, omega arith, refl, (tt, refl))
wait_for_keyframe-IsRun (changes ∷ rounds) g =
    let popped = pop_timeout_pass true (run (change_ops changes) g).1 in
    run-round changes rounds g (chosen popped (wait_for_keyframe rounds popped.1)) (
      chosen-IsRunFrom rounds popped (wait_for_keyframe rounds popped.1)
        (wait_for_keyframe-IsRun rounds popped.1))
