-- ===== src/Queue/Tests.antt =====
-- The packet queue at a run that overflows.
use zpenflow.Base.{ℕ, ◌+◌, ◌≡◌, arith, false, List, [], ◌∷◌, ◌++◌, length, map}
use zpenflow.Queue.{Op, push_op, pop_op, close_op, new, run, accepted}
use zpenflow.Queue.Order.{Sublist, run-Sublist}
use zpenflow.Queue.Accounts.{run-accounts}
use zpenflow.Queue.Newest.{newest, run-newest}

-- Three packets into two places, one taken out, one more after the queue is closed.
abbrev overflow : List (Op ℕ)
overflow = push_op 1 ∷ push_op 2 ∷ push_op 3 ∷ pop_op false ∷ close_op ∷ push_op 4 ∷ []

run-Sublist_example :
    Sublist ((run overflow (new 2)).0 ++ (run overflow (new 2)).1.deque) (accepted false overflow)
run-Sublist_example = run-Sublist 2 overflow

run-accounts_example :
    length (run overflow (new 2)).0
      + length (run overflow (new 2)).1.deque
      + (run overflow (new 2)).1.dropped_overflow
    ≡ length (accepted false overflow)
run-accounts_example = run-accounts 2 overflow (omega arith)

abbrev burst : List ℕ
burst = 5 ∷ 6 ∷ 7 ∷ 8 ∷ []

run-newest_example : (run (map push_op burst) (new 3)).1.deque ≡ newest 3 burst
run-newest_example = run-newest 3 burst
