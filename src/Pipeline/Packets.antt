-- ===== src/Pipeline/Packets.antt =====
-- What reaches the consumers: the queue of the loop and the queue on its own.
use zpenflow.Base.{ℕ, ◌≡◌, refl, ap, ◌∙◌, List, [], ◌∷◌}
use zpenflow.Queue.{Inner, Op, push_op, pop_op, close_op, new, push, run}
use zpenflow.Session.Frames.{EncodedPacket}
use zpenflow.Pipeline.{
  Polled, drained, poll_failed, polled_packet, Built, running, Pipeline, start_pipeline, drain,
  loop_pass, Event, request_idr_event, stop_event, close_event, take_event, pass_event, share,
  on_event, on_events,
}
use zpenflow.Pipeline.Inversion.{Ticked, loop_pass-Ticked, on_events-running}

-- The pushes of the packets that the encoder answers with, and what comes after them.
unfoldable pub pushes : Polled → List (Op EncodedPacket) → List (Op EncodedPacket)
pushes drained later = later
pushes (poll_failed e) later = later
pushes (polled_packet pkt polled) later = push_op pkt ∷ pushes polled later

-- What a run asks of the queue.
unfoldable pub queue_ops : List Event → List (Op EncodedPacket)
unfolding pushes
queue_ops [] = []
queue_ops (request_idr_event ∷ later) = queue_ops later
queue_ops (stop_event ∷ later) = queue_ops later
queue_ops (close_event ∷ later) = close_op ∷ queue_ops later
queue_ops (take_event expired ∷ later) = pop_op expired ∷ queue_ops later
queue_ops (pass_event a ∷ later) = pushes a.polled (queue_ops later)

drain-run :
    (polled : Polled) (later : List (Op EncodedPacket)) (queue : Inner EncodedPacket)
    → (run later (drain polled queue).0).1 ≡ (run (pushes polled later) queue).1
unfolding drain pushes run
drain-run drained later queue = refl
drain-run (poll_failed e) later queue = refl
drain-run (polled_packet pkt polled) later queue = drain-run polled later (push pkt queue).0

on_events-queue :
    (c : Built) (events : List Event) (s : Pipeline)
    → (on_events c events s).thread ≡ running
    → (on_events c events s).queue ≡ (run (queue_ops events) s.queue).1
unfolding on_events on_event share queue_ops run
on_events-queue c [] s h = refl
on_events-queue c (request_idr_event ∷ later) s h = on_events-queue c later _ h
on_events-queue c (stop_event ∷ later) s h = on_events-queue c later _ h
on_events-queue c (close_event ∷ later) s h = on_events-queue c later _ h
on_events-queue c (take_event expired ∷ later) s h = on_events-queue c later _ h
on_events-queue c (pass_event a ∷ later) s h =
    let t = loop_pass c a s in
    let ticked : Ticked c a s t = (loop_pass-Ticked c a s (on_events-running c later t h)).1 in
    on_events-queue c later t h
    ∙ ap (λ q. (run (queue_ops later) q).1) ticked.4
    ∙ drain-run a.polled (queue_ops later) s.queue

-- While the loop runs, the queue is what it becomes on its own from the packets of the encoder, each
-- pushed once, in order, pass by pass, and the takings and closings between them.
pub run-queue :
    (c : Built) (capacity : ℕ) (events : List Event)
    → (on_events c events (start_pipeline capacity)).thread ≡ running
    → (on_events c events (start_pipeline capacity)).queue
      ≡ (run (queue_ops events) (new capacity)).1
unfolding start_pipeline
run-queue c capacity events h = on_events-queue c events (start_pipeline capacity) h
