-- ===== src/Encoder/Credits.antt =====
-- The credits: what the two loops over the events leave alone, and how often the transform is fed.
use zpenflow.Base.{
  ℕ, suc, ◌+◌, ◌≤◌, ◌≡◌, refl, ap, ◌∙◌, arith, Bool, true, false, List, [], ◌∷◌, ◌++◌, Option, none,
  some, if◌then◌else◌,
}
use zpenflow.Engine.{EngineError}
use zpenflow.Session.Frames.{EncodedPacket}
use zpenflow.Sps.Packet.{Codec}
use zpenflow.Encoder.{
  output_failed, no_sample, sample, MftEvent, need_input, have_output, other_event,
  no_events_available, event_failed, MftCall, force_key_frame, process_input, MfSession,
  new_session, Returned, done, failed, waiting, output_packet, collected, collect_output_packet,
  wait_loop, wait_for_need_input, drain_loop, drain_events_nowait, and_go, Submission, wait_unless,
  take_credit, forced, fed, noted, fetch_credit, answered, feed, submit_frame, pop_packet,
  after_drain, try_packet, ClientOp, submit_op, try_op, after_submit, run_session,
}

-- The inputs that the transform asks for.
unfoldable pub needs : List MftEvent → ℕ
needs [] = 0
needs (need_input ∷ events) = suc (needs events)
needs (have_output out ∷ events) = needs events
needs (other_event ∷ events) = needs events
needs (no_events_available ∷ events) = needs events
needs (event_failed e ∷ events) = needs events

unfoldable pub inputs : List MftCall → ℕ
inputs [] = 0
inputs (process_input pts answer ∷ calls) = suc (inputs calls)
inputs (force_key_frame ∷ calls) = inputs calls

inputs-append : (l m : List MftCall) → inputs (l ++ m) ≡ inputs l + inputs m
unfolding inputs
inputs-append [] m = omega arith
inputs-append (process_input pts answer ∷ l) m = omega (arith, inputs-append l m)
inputs-append (force_key_frame ∷ l) m = inputs-append l m

-- The calls that were made and the credit at hand.
abbrev pub Same : MfSession → MfSession → Type 0
Same s s' = (s'.calls ≡ s.calls) × (s'.have_need_input_credit ≡ s.have_need_input_credit)

-- The credit that a wait has brought.
unfoldable pub got : Returned (Unit {0}) → ℕ
got (done u) = 1
got (failed e) = 0
got waiting = 0

-- What a call did with the events: the rest of them and the credit are no more than there were.
abbrev pub Spends : List MftEvent → MfSession → MfSession × Returned (Unit {0}) → Type 0
Spends events s (s', r) = Same s s' × (needs s'.events + got r ≤ needs events)

pub wait_loop-Spends :
    (events : List MftEvent) (s : MfSession) → Spends events s (wait_loop events s)
unfolding wait_loop collect_output_packet collected needs got
wait_loop-Spends [] s = ((refl, refl), omega arith)
wait_loop-Spends (need_input ∷ later) s = ((refl, refl), omega arith)
wait_loop-Spends (event_failed e ∷ later) s = ((refl, refl), omega arith)
wait_loop-Spends (other_event ∷ later) s = wait_loop-Spends later s
wait_loop-Spends (no_events_available ∷ later) s = wait_loop-Spends later s
wait_loop-Spends (have_output (output_failed e) ∷ later) s = ((refl, refl), omega arith)
wait_loop-Spends (have_output no_sample ∷ later) s = wait_loop-Spends later s
wait_loop-Spends (have_output (sample raw finished_at time) ∷ later) s =
    wait_loop-Spends later
      (collected (output_packet s.codec s.pending_input_meta raw finished_at time) s)

pub drain_loop-Spends :
    (events : List MftEvent) (s : MfSession)
    → Same s (drain_loop events s).0 × (needs (drain_loop events s).0.events ≤ needs events)
unfolding drain_loop collect_output_packet collected needs
drain_loop-Spends [] s = ((refl, refl), omega arith)
drain_loop-Spends (no_events_available ∷ later) s = ((refl, refl), omega arith)
drain_loop-Spends (event_failed e ∷ later) s = ((refl, refl), omega arith)
drain_loop-Spends (need_input ∷ later) s =
    let (same, le) = drain_loop-Spends later s in (same, omega arith)
drain_loop-Spends (other_event ∷ later) s = drain_loop-Spends later s
drain_loop-Spends (have_output (output_failed e) ∷ later) s = ((refl, refl), omega arith)
drain_loop-Spends (have_output no_sample ∷ later) s = drain_loop-Spends later s
drain_loop-Spends (have_output (sample raw finished_at time) ∷ later) s =
    drain_loop-Spends later
      (collected (output_packet s.codec s.pending_input_meta raw finished_at time) s)

abbrev credit : Bool → ℕ
credit b = if b then 1 else 0

-- The inputs made, the credit at hand, and the requests that are still to come.
abbrev pub IsCovered : ℕ → MfSession → Type 0
IsCovered total s = inputs s.calls + credit s.have_need_input_credit + needs s.events ≤ total

-- With this many credits besides.
abbrev HasRoom : ℕ → ℕ → MfSession → Type 0
HasRoom total n s = inputs s.calls + n + needs s.events ≤ total

wait-HasRoom :
    (total n : ℕ) (s : MfSession)
    → HasRoom total n s
    → HasRoom total (n + got (wait_for_need_input s).1) (wait_for_need_input s).0
unfolding wait_for_need_input
wait-HasRoom total n s h =
    let ((calls, same), le) = wait_loop-Spends s.events s in omega (arith, ap inputs calls)

-- What a wait leaves: a credit where it returns.
unfoldable Readies : ℕ → MfSession × Returned (Unit {0}) → Type 0
Readies total (s, done u) = HasRoom total 1 s
Readies total (s, failed e) = IsCovered total s
Readies total (s, waiting) = IsCovered total s

to_Readies :
    (total : ℕ) (r : MfSession × Returned (Unit {0}))
    → HasRoom total (got r.1) r.0
    → r.0.have_need_input_credit ≡ false
    → Readies total r
unfolding Readies got
to_Readies total (s, done u) h no_credit = h
to_Readies total (s, failed e) h no_credit = omega (arith, h, ap credit no_credit)
to_Readies total (s, waiting) h no_credit = omega (arith, h, ap credit no_credit)

wait-Readies :
    (total : ℕ) (s : MfSession)
    → HasRoom total 0 s
    → s.have_need_input_credit ≡ false
    → Readies total (wait_for_need_input s)
unfolding wait_for_need_input
wait-Readies total s h no_credit =
    to_Readies total (wait_for_need_input s) (omega (arith, wait-HasRoom total 0 s h))
      ((wait_loop-Spends s.events s).0.1 ∙ no_credit)

wait_unless-Readies :
    (total : ℕ) (have : Bool) (s : MfSession)
    → s.have_need_input_credit ≡ have
    → HasRoom total (credit have) s
    → Readies total (wait_unless have s)
unfolding wait_unless Readies
wait_unless-Readies total true s e h = h
wait_unless-Readies total false s e h = wait-Readies total s h e

and_go-IsCovered :
    (total : ℕ) (r : MfSession × Returned (Unit {0}))
    (f : MfSession → MfSession × Returned (Unit {0}))
    → Readies total r
    → ((s : MfSession) → HasRoom total 1 s → IsCovered total (f s).0)
    → IsCovered total (and_go r f).0
unfolding and_go Readies
and_go-IsCovered total (s, done u) f h go = go s h
and_go-IsCovered total (s, failed e) f h go = h
and_go-IsCovered total (s, waiting) f h go = h

fetch_credit-IsCovered :
    (total : ℕ) (s : MfSession)
    → HasRoom total 0 s
    → s.have_need_input_credit ≡ false
    → IsCovered total (fetch_credit s).0
unfolding fetch_credit
fetch_credit-IsCovered total s h no_credit =
    and_go-IsCovered total (wait_for_need_input s) _ (wait-Readies total s h no_credit)
      (λ s' room. room)

forced-inputs :
    (force_idr : Bool) (s : MfSession) → inputs (forced force_idr s).calls ≡ inputs s.calls
unfolding forced inputs
forced-inputs false s = refl
forced-inputs true s = omega (arith, inputs-append s.calls (force_key_frame ∷ []))

fed-inputs :
    (pts_ns : ℕ) (answer : Option EngineError) (s : MfSession)
    → inputs (fed pts_ns answer s).calls ≡ suc (inputs s.calls)
unfolding fed inputs
fed-inputs pts_ns answer s = omega (arith, inputs-append s.calls (process_input pts_ns answer ∷ []))

answered-IsCovered :
    (total : ℕ) (sample_error input_error : Option EngineError) (x : Submission) (s : MfSession)
    → HasRoom total 1 s
    → s.have_need_input_credit ≡ false
    → IsCovered total (answered sample_error input_error x s).0
unfolding answered fed noted
answered-IsCovered total (some e) input_error x s h no_credit =
    omega (arith, h, ap credit no_credit)
answered-IsCovered total none (some e) x s h no_credit =
    omega (arith, h, ap credit no_credit, fed-inputs x.pts_ns (some e) s)
answered-IsCovered total none none x s h no_credit =
    fetch_credit-IsCovered total (noted x (fed x.pts_ns none s))
      (omega (arith, h, fed-inputs x.pts_ns none s)) no_credit

submit_frame-IsCovered :
    (total : ℕ) (x : Submission) (s : MfSession)
    → IsCovered total s
    → IsCovered total (submit_frame x s).0
unfolding submit_frame take_credit forced feed
submit_frame-IsCovered total x s h =
    and_go-IsCovered total (take_credit s) _
      (wait_unless-Readies total s.have_need_input_credit s refl h)
      (λ s' room.
        answered-IsCovered total x.sample_error x.input_error x (forced x.force_idr s')
          (omega (arith, room, forced-inputs x.force_idr s')) refl)

after_drain-IsCovered :
    (total : ℕ) (r : MfSession × Returned (Unit {0}))
    → IsCovered total r.0
    → IsCovered total (after_drain r).0
unfolding after_drain pop_packet
after_drain-IsCovered total (s, done u) h = h
after_drain-IsCovered total (s, failed e) h = h
after_drain-IsCovered total (s, waiting) h = h

try_packet-IsCovered :
    (total : ℕ) (s : MfSession) → IsCovered total s → IsCovered total (try_packet s).0
unfolding try_packet drain_events_nowait
try_packet-IsCovered total s h = after_drain-IsCovered total (drain_events_nowait s) (
    let ((calls, same), le) = drain_loop-Spends s.events s in
    omega (arith, h, le, ap inputs calls, ap credit same))

after_submit-IsCovered :
    (total : ℕ) (r : MfSession × Returned (Unit {0})) (rest : List EncodedPacket × MfSession)
    → IsCovered total r.0
    → IsCovered total rest.1
    → IsCovered total (after_submit r rest).1
unfolding after_submit
after_submit-IsCovered total (s, done u) rest h h' = h'
after_submit-IsCovered total (s, failed e) rest h h' = h'
after_submit-IsCovered total (s, waiting) rest h h' = h

run_session-IsCovered :
    (total : ℕ) (ops : List ClientOp) (s : MfSession)
    → IsCovered total s
    → IsCovered total (run_session ops s).1
unfolding run_session
run_session-IsCovered total [] s h = h
run_session-IsCovered total (try_op ∷ later) s h =
    run_session-IsCovered total later (try_packet s).0 (try_packet-IsCovered total s h)
run_session-IsCovered total (submit_op x ∷ later) s h =
    let h' = submit_frame-IsCovered total x s h in
    after_submit-IsCovered total (submit_frame x s) _ h'
      (run_session-IsCovered total later (submit_frame x s).0 h')

-- Whatever is submitted to a new session and whatever its transform answers, `ProcessInput` has been
-- called at most as often as the transform asked for input.
pub run_session-inputs :
    (codec : Codec) (events : List MftEvent) (ops : List ClientOp)
    → inputs (run_session ops (new_session codec events)).1.calls ≤ needs events
unfolding new_session inputs
run_session-inputs codec events ops =
    omega (arith, run_session-IsCovered (needs events) ops (new_session codec events) (omega arith))
