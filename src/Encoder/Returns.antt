-- ===== src/Encoder/Returns.antt =====
-- When a submission returns, and what it leaves.
use zpenflow.Base.{
  ℕ, suc, ◌+◌, ◌≤◌, ◌≡◌, refl, sym, ap, ◌∙◌, arith, Bool, true, false, List, [], ◌∷◌, ◌++◌,
  append-nil, Option, none, some, if◌then◌else◌,
}
use zpenflow.Engine.{EngineError}
use zpenflow.Encoder.{
  output_failed, no_sample, sample, MftEvent, need_input, have_output, other_event,
  no_events_available, event_failed, MftCall, force_key_frame, process_input, MfSession, Returned,
  done, failed, waiting, output_packet, collected, collect_output_packet, wait_loop,
  wait_for_need_input, and_go, Submission, wait_unless, take_credit, forced, fed, noted,
  fetch_credit, answered, feed, submit_frame,
}
use zpenflow.Encoder.Credits.{needs}

-- A wait that returns leaves that many requests at least, and has made no calls; it may fail.
unfoldable Returns : ℕ → List MftCall → MfSession × Returned (Unit {0}) → Type 0
Returns n calls (s, done u) = (n ≤ needs s.events) × (s.calls ≡ calls)
Returns n calls (s, failed e) = Unit
Returns n calls (s, waiting) = ⊥

wait_loop-Returns :
    (n : ℕ) (events : List MftEvent) (s : MfSession)
    → suc n ≤ needs events
    → Returns n s.calls (wait_loop events s)
unfolding wait_loop collect_output_packet collected needs Returns
wait_loop-Returns n [] s h = omega arith
wait_loop-Returns n (need_input ∷ later) s h = (omega arith, refl)
wait_loop-Returns n (event_failed e ∷ later) s h = tt
wait_loop-Returns n (other_event ∷ later) s h = wait_loop-Returns n later s h
wait_loop-Returns n (no_events_available ∷ later) s h = wait_loop-Returns n later s h
wait_loop-Returns n (have_output (output_failed e) ∷ later) s h = tt
wait_loop-Returns n (have_output no_sample ∷ later) s h = wait_loop-Returns n later s h
wait_loop-Returns n (have_output (sample raw now time) ∷ later) s h =
    wait_loop-Returns n later
      (collected (output_packet s.codec s.pending_input_meta raw now time) s) h

wait_unless-Returns :
    (n : ℕ) (have : Bool) (s : MfSession)
    → suc n ≤ (if have then 1 else 0) + needs s.events
    → Returns n s.calls (wait_unless have s)
unfolding wait_unless wait_for_need_input Returns
wait_unless-Returns n true s h = (omega arith, refl)
wait_unless-Returns n false s h = wait_loop-Returns n s.events s (omega arith)

-- A submission that returns has made these calls and holds the next credit; it may fail.
unfoldable pub Submitted : List MftCall → MfSession × Returned (Unit {0}) → Type 0
Submitted calls (s, done u) = (s.calls ≡ calls) × (s.have_need_input_credit ≡ true)
Submitted calls (s, failed e) = Unit
Submitted calls (s, waiting) = ⊥

and_go-Submitted :
    (n : ℕ) (calls calls' : List MftCall) (r : MfSession × Returned (Unit {0}))
    (f : MfSession → MfSession × Returned (Unit {0}))
    → Returns n calls r
    → ((s : MfSession) → n ≤ needs s.events → s.calls ≡ calls → Submitted calls' (f s))
    → Submitted calls' (and_go r f)
unfolding and_go Returns Submitted
and_go-Submitted n calls calls' (s, done u) f (le, e) go = go s le e
and_go-Submitted n calls calls' (s, failed e) f h go = tt
and_go-Submitted n calls calls' (s, waiting) f h go = h

-- The request for a key frame.
unfoldable pub asked : Bool → List MftCall
asked true = force_key_frame ∷ []
asked false = []

forced-calls :
    (force_idr : Bool) (s : MfSession) → (forced force_idr s).calls ≡ s.calls ++ asked force_idr
unfolding forced asked
forced-calls true s = refl
forced-calls false s = sym (append-nil s.calls)

answered-Submitted :
    (sample_error input_error : Option EngineError) (x : Submission) (s : MfSession)
    → 1 ≤ needs s.events
    → Submitted
        (s.calls ++ (process_input x.pts_ns none ∷ []))
        (answered sample_error input_error x s)
unfolding answered fed noted fetch_credit Submitted wait_for_need_input
answered-Submitted (some e) input_error x s h = tt
answered-Submitted none (some e) x s h = tt
answered-Submitted none none x s h =
    let s' = noted x (fed x.pts_ns none s) in
    and_go-Submitted 0 s'.calls s'.calls (wait_for_need_input s') _
      (wait_loop-Returns 0 s'.events s' h) (λ end le e. (e, refl))

-- If the transform still asks for input twice, counting a credit at hand, a submission does not wait for
-- ever. Where it does not fail, it asked for a key frame if it was to, then had the frame taken, gave
-- the transform no other frame and asked it for no other key frame, and holds the credit for the next.
pub submit_frame-Submitted :
    (x : Submission) (s : MfSession)
    → 2 ≤ (if s.have_need_input_credit then 1 else 0) + needs s.events
    → Submitted
        ((s.calls ++ asked x.force_idr) ++ (process_input x.pts_ns none ∷ []))
        (submit_frame x s)
unfolding submit_frame take_credit feed forced
submit_frame-Submitted x s h =
    and_go-Submitted 1 s.calls _ (take_credit s) _
      (wait_unless-Returns 1 s.have_need_input_credit s h)
      (λ s' le e.
        rw
          (sym (
            ap (λ (l : List MftCall). l ++ (process_input x.pts_ns none ∷ []))
              (forced-calls x.force_idr s' ∙ ap (λ (l : List MftCall). l ++ asked x.force_idr) e)))
          (answered-Submitted x.sample_error x.input_error x (forced x.force_idr s') le))
