-- ===== src/Queue.antt =====
-- crates/penflow-core/src/packet_queue.rs: the packet queue between the encoder and the transport.
-- Each operation holds the lock from its first to its last access, so a run of several threads is a
-- sequence of operations; a consumer that waits passes through its loop once for each `pop` of it.
pub mod Order
pub mod Overflow
pub mod Accounts
pub mod Newest
pub mod Tests
use zpenflow.Base.{
  ℕ, zero, suc, ◌+◌, ◌-◌, ◌^◌, ◌==◌, ltb, Bool, true, false, List, [], ◌∷◌, ◌++◌, length, Option,
  none, some, if◌then◌else◌,
}

pub record Inner (A : Type 0) : Type 0 where
  pub deque : List A
  pub capacity : ℕ
  pub closed : Bool
  pub dropped_overflow : ℕ

-- A u64 that stops at its largest value.
unfoldable pub saturating_suc : ℕ → ℕ
saturating_suc n = if n == 2 ^ 64 - 1 then n else suc n

-- One pass of a consumer's loop: it returns a packet, it returns `None`, or it waits.
pub data Pass (A : Type 0) : Type 0 where
  item : A → Pass A
  finished : Pass A
  waiting : Pass A

module _ {A : Type 0} where
  -- `capacity.max(1)`
  unfoldable pub new : ℕ → Inner A
  new capacity = record {
    deque = [];
    capacity = if ltb 1 capacity then capacity else 1;
    closed = false;
    dropped_overflow = 0;
  }

  -- `pop_front` for its effect only.
  unfoldable pub pop_front : List A → List A
  pop_front [] = []
  pop_front (a ∷ deque) = deque

  unfoldable pub push : A → Inner A → Inner A × ℕ
  unfolding pop_front saturating_suc
  push packet g = elim g.closed [
    | true ↦ (g, g.dropped_overflow)
    | false ↦ elim (length g.deque == g.capacity) [
      | true ↦ (
        record {
          deque = pop_front g.deque ++ (packet ∷ []);
          capacity = g.capacity;
          closed = false;
          dropped_overflow = saturating_suc g.dropped_overflow;
        },
        saturating_suc g.dropped_overflow,
      )
      | false ↦ (
        record {
          deque = g.deque ++ (packet ∷ []);
          capacity = g.capacity;
          closed = false;
          dropped_overflow = g.dropped_overflow;
        },
        g.dropped_overflow,
      )
    ]
  ]

  -- `pop_blocking`, under the lock.
  unfoldable pub pop_pass : Inner A → Pass A × Inner A
  pop_pass g = elim g.deque [
    | [] ↦ (if g.closed then finished else waiting, g)
    | a ∷ deque ↦ (
      item a,
      record {
        deque = deque;
        capacity = g.capacity;
        closed = g.closed;
        dropped_overflow = g.dropped_overflow;
      },
    )
  ]

  -- `pop_timeout`: where `pop_blocking` would wait, it returns `None` once the deadline has passed.
  unfoldable pub pop_timeout_pass : Bool → Inner A → Pass A × Inner A
  unfolding pop_pass
  pop_timeout_pass expired g =
      let (pass, g') = pop_pass g in
      elim pass [
        | waiting ↦ (if expired then finished else waiting, g')
        | item a ↦ (item a, g')
        | finished ↦ (finished, g')
      ]

  unfoldable pub close : Inner A → Inner A
  close g = record {
    deque = g.deque;
    capacity = g.capacity;
    closed = true;
    dropped_overflow = g.dropped_overflow;
  }

pub record QueueStats : Type 0 where
  pub depth : ℕ
  pub capacity : ℕ
  pub dropped_overflow : ℕ
  pub closed : Bool

unfoldable pub stats : {A : Type 0} → Inner A → QueueStats
stats g = record {
  depth = length g.deque;
  capacity = g.capacity;
  dropped_overflow = g.dropped_overflow;
  closed = g.closed;
}

-- What a thread does with the queue. `pop` carries whether its deadline has passed.
pub data Op (A : Type 0) : Type 0 where
  push_op : A → Op A
  pop_op : Bool → Op A
  close_op : Op A

module _ {A : Type 0} where
  -- The packet that a pass hands over.
  unfoldable pub handed : Pass A → List A
  handed (item a) = a ∷ []
  handed finished = []
  handed waiting = []

  -- A run: the packets that consumers got, in order, and the queue at the end.
  unfoldable pub run : List (Op A) → Inner A → List A × Inner A
  unfolding push pop_timeout_pass close handed
  run [] g = ([], g)
  run (push_op a ∷ ops) g = run ops (push a g).0
  run (pop_op expired ∷ ops) g =
      let (p, g') = pop_timeout_pass expired g in
      let (got, end) = run ops g' in (handed p ++ got, end)
  run (close_op ∷ ops) g = run ops (close g)

  -- The packets that a run pushes before the queue is closed.
  unfoldable pub accepted : Bool → List (Op A) → List A
  accepted true ops = []
  accepted false [] = []
  accepted false (push_op a ∷ ops) = a ∷ accepted false ops
  accepted false (pop_op _ ∷ ops) = accepted false ops
  accepted false (close_op ∷ ops) = []
