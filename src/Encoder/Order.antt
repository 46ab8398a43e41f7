-- ===== src/Encoder/Order.antt =====
-- The time stamps: which of those that the transform accepted are handed over, and in which order.
use zpenflow.Base.{
  ℕ, ◌≡◌, refl, sym, ap, ◌∙◌, Bool, true, false, List, [], ◌∷◌, ◌++◌, append-nil, append_assoc,
  Option, none, some,
}
use zpenflow.Engine.{EngineError}
use zpenflow.Queue.{pop_front}
use zpenflow.Session.Frames.{EncodedPacket}
use zpenflow.Sps.Packet.{Codec}
use zpenflow.Encoder.{
  MftEvent, force_key_frame, process_input, MfSession, new_session, Returned, done, failed, waiting,
  wait_loop, wait_for_need_input, drain_loop, drain_events_nowait, and_go, Submission, wait_unless,
  take_credit, forced, fed, noted, fetch_credit, answered, feed, submit_frame, first_of, pop_packet,
  after_drain, try_packet, ClientOp, submit_op, try_op, handed, after_submit, run_session,
}
use zpenflow.Encoder.Owed.{
  stamp_of, measured, submitted, accepted, measured-append, submitted-append, accepted-append, owed,
  wait_loop-owed, drain_loop-owed,
}
use zpenflow.Encoder.Credits.{wait_loop-Spends, drain_loop-Spends}

-- What the transform took is what was handed over and what is still owed.
abbrev pub Follows : List ℕ → MfSession → Type 0
Follows out s = accepted s.calls ≡ out ++ owed s

Follows-keeps :
    (out : List ℕ) (s s' : MfSession)
    → s'.calls ≡ s.calls
    → owed s' ≡ owed s
    → Follows out s
    → Follows out s'
Follows-keeps out s s' calls same h =
    ap accepted calls ∙ h ∙ ap (λ (k : List ℕ). out ++ k) (sym same)

wait-Follows :
    (out : List ℕ) (s : MfSession) → Follows out s → Follows out (wait_for_need_input s).0
unfolding wait_for_need_input
wait-Follows out s =
    Follows-keeps out s (wait_loop s.events s).0 (wait_loop-Spends s.events s).0.0
      (wait_loop-owed s.events s)

wait_unless-Follows :
    (out : List ℕ) (have : Bool) (s : MfSession)
    → Follows out s
    → Follows out (wait_unless have s).0
unfolding wait_unless
wait_unless-Follows out true s h = h
wait_unless-Follows out false s h = wait-Follows out s h

and_go-Follows :
    (out : List ℕ) (r : MfSession × Returned (Unit {0}))
    (f : MfSession → MfSession × Returned (Unit {0}))
    → Follows out r.0
    → ((s : MfSession) → Follows out s → Follows out (f s).0)
    → Follows out (and_go r f).0
unfolding and_go
and_go-Follows out (s, done u) f h go = go s h
and_go-Follows out (s, failed e) f h go = h
and_go-Follows out (s, waiting) f h go = h

forced-Follows :
    (out : List ℕ) (force_idr : Bool) (s : MfSession)
    → Follows out s
    → Follows out (forced force_idr s)
unfolding forced accepted
forced-Follows out false s h = h
forced-Follows out true s h =
    accepted-append s.calls (force_key_frame ∷ []) ∙ append-nil (accepted s.calls) ∙ h

answered-Follows :
    (out : List ℕ) (sample_error input_error : Option EngineError) (x : Submission) (s : MfSession)
    → Follows out s
    → Follows out (answered sample_error input_error x s).0
unfolding answered fed noted fetch_credit accepted submitted
answered-Follows out (some e) input_error x s h = h
answered-Follows out none (some e) x s h =
    accepted-append s.calls (process_input x.pts_ns (some e) ∷ [])
    ∙ append-nil (accepted s.calls)
    ∙ h
answered-Follows out none none x s h =
    and_go-Follows out (wait_for_need_input (noted x (fed x.pts_ns none s))) _
      (wait-Follows out (noted x (fed x.pts_ns none s)) (
        accepted-append s.calls (process_input x.pts_ns none ∷ [])
        ∙ ap (λ (k : List ℕ). k ++ (x.pts_ns ∷ [])) h
        ∙ append_assoc out (owed s) (x.pts_ns ∷ [])
        ∙ ap (λ (k : List ℕ). out ++ k)
            (append_assoc (measured s.output_queue) (submitted s.pending_input_meta) (x.pts_ns ∷ [])
              ∙ ap (λ (k : List ℕ). measured s.output_queue ++ k)
                  (sym (submitted-append s.pending_input_meta ((x.pts_ns, x.submitted_at) ∷ []))))))
      (λ s' h'. h')

submit_frame-Follows :
    (out : List ℕ) (x : Submission) (s : MfSession)
    → Follows out s
    → Follows out (submit_frame x s).0
unfolding submit_frame take_credit feed
submit_frame-Follows out x s h =
    and_go-Follows out (take_credit s) _ (wait_unless-Follows out s.have_need_input_credit s h)
      (λ s' h'.
        answered-Follows out x.sample_error x.input_error x (forced x.force_idr s')
          (forced-Follows out x.force_idr s' h'))

first_of-measured :
    (queue : List EncodedPacket)
    → measured (handed (done (first_of queue))) ++ measured (pop_front queue) ≡ measured queue
unfolding measured handed first_of pop_front
first_of-measured [] = refl
first_of-measured (pkt ∷ queue) =
    ap (λ (k : List ℕ). k ++ measured queue) (append-nil (stamp_of pkt.encode_us pkt.pts_ns))

after_drain-Follows :
    (out : List ℕ) (r : MfSession × Returned (Unit {0}))
    → Follows out r.0
    → Follows (out ++ measured (handed (after_drain r).1)) (after_drain r).0
unfolding after_drain pop_packet handed measured
after_drain-Follows out (s, done u) h =
    h
    ∙ ap (λ (k : List ℕ). out ++ (k ++ submitted s.pending_input_meta))
        (sym (first_of-measured s.output_queue))
    ∙ ap (λ (k : List ℕ). out ++ k)
        (append_assoc (measured (handed (done (first_of s.output_queue))))
          (measured (pop_front s.output_queue)) (submitted s.pending_input_meta))
    ∙ sym (
        append_assoc out (measured (handed (done (first_of s.output_queue))))
          (measured (pop_front s.output_queue) ++ submitted s.pending_input_meta))
after_drain-Follows out (s, failed e) h =
    h ∙ ap (λ (k : List ℕ). k ++ owed s) (sym (append-nil out))
after_drain-Follows out (s, waiting) h = h ∙ ap (λ (k : List ℕ). k ++ owed s) (sym (append-nil out))

try_packet-Follows :
    (out : List ℕ) (s : MfSession)
    → Follows out s
    → Follows (out ++ measured (handed (try_packet s).1)) (try_packet s).0
unfolding try_packet drain_events_nowait
try_packet-Follows out s h = after_drain-Follows out (drain_loop s.events s) (
    Follows-keeps out s (drain_loop s.events s).0 (drain_loop-Spends s.events s).0.0
      (drain_loop-owed s.events s) h)

after_submit-Follows :
    (out : List ℕ) (r : MfSession × Returned (Unit {0})) (rest : List EncodedPacket × MfSession)
    → Follows out r.0
    → Follows (out ++ measured rest.0) rest.1
    → Follows (out ++ measured (after_submit r rest).0) (after_submit r rest).1
unfolding after_submit measured
after_submit-Follows out (s, done u) rest h h' = h'
after_submit-Follows out (s, failed e) rest h h' = h'
after_submit-Follows out (s, waiting) rest h h' =
    h ∙ ap (λ (k : List ℕ). k ++ owed s) (sym (append-nil out))

run_session-Follows :
    (out : List ℕ) (ops : List ClientOp) (s : MfSession)
    → Follows out s
    → Follows (out ++ measured (run_session ops s).0) (run_session ops s).1
unfolding run_session measured
run_session-Follows out [] s h = h ∙ ap (λ (k : List ℕ). k ++ owed s) (sym (append-nil out))
run_session-Follows out (try_op ∷ later) s h =
    let pkts = handed (try_packet s).1 in
    let rest = run_session later (try_packet s).0 in
    run_session-Follows (out ++ measured pkts) later (try_packet s).0 (try_packet-Follows out s h)
    ∙ ap (λ (k : List ℕ). k ++ owed rest.1)
        (append_assoc out (measured pkts) (measured rest.0)
          ∙ ap (λ (k : List ℕ). out ++ k) (sym (measured-append pkts rest.0)))
run_session-Follows out (submit_op x ∷ later) s h =
    let h' = submit_frame-Follows out x s h in
    after_submit-Follows out (submit_frame x s) (run_session later (submit_frame x s).0) h'
      (run_session-Follows out later (submit_frame x s).0 h')

-- Whatever is submitted to a new session and whatever its transform answers: the time stamps of the
-- packets handed over that were paired with a submission, then those of such packets in the session's
-- queue, then those of the submissions without a packet are, in order, the time stamps of the frames
-- that `ProcessInput` accepted.
pub run_session-accepted :
    (codec : Codec) (events : List MftEvent) (ops : List ClientOp)
    → accepted (run_session ops (new_session codec events)).1.calls
      ≡ measured (run_session ops (new_session codec events)).0
        ++ owed (run_session ops (new_session codec events)).1
unfolding new_session accepted measured submitted
run_session-accepted codec events ops = run_session-Follows [] ops (new_session codec events) refl
