-- ===== src/Encoder/Owed.antt =====
-- The time stamps that a session still owes, which the loops over the events leave alone.
use zpenflow.Base.{
  ℕ, ◌≡◌, refl, sym, ap, ◌∙◌, List, [], ◌∷◌, ◌++◌, append-nil, append_assoc, Option, none, some,
}
use zpenflow.Queue.{pop_front}
use zpenflow.Session.Frames.{EncodedPacket}
use zpenflow.Encoder.{
  output_failed, no_sample, sample, MftEvent, need_input, have_output, other_event,
  no_events_available, event_failed, MftCall, force_key_frame, process_input, MfSession, stamp,
  output_packet, collected, collect_output_packet, wait_loop, drain_loop,
}

-- The time stamp of a packet that the session has paired with a submission.
unfoldable pub stamp_of : Option ℕ → ℕ → List ℕ
stamp_of (some us) pts = pts ∷ []
stamp_of none pts = []

unfoldable pub measured : List EncodedPacket → List ℕ
unfolding stamp_of
measured [] = []
measured (pkt ∷ pkts) = stamp_of pkt.encode_us pkt.pts_ns ++ measured pkts

unfoldable pub submitted : List (ℕ × ℕ) → List ℕ
submitted [] = []
submitted ((pts, at) ∷ pending) = pts ∷ submitted pending

-- The time stamps that `ProcessInput` took.
unfoldable pub accepted : List MftCall → List ℕ
accepted [] = []
accepted (process_input pts none ∷ calls) = pts ∷ accepted calls
accepted (process_input pts (some e) ∷ calls) = accepted calls
accepted (force_key_frame ∷ calls) = accepted calls

pub measured-append : (l m : List EncodedPacket) → measured (l ++ m) ≡ measured l ++ measured m
unfolding measured
measured-append [] m = refl
measured-append (pkt ∷ l) m =
    ap (λ (k : List ℕ). stamp_of pkt.encode_us pkt.pts_ns ++ k) (measured-append l m)
    ∙ sym (append_assoc (stamp_of pkt.encode_us pkt.pts_ns) (measured l) (measured m))

pub submitted-append : (l m : List (ℕ × ℕ)) → submitted (l ++ m) ≡ submitted l ++ submitted m
unfolding submitted
submitted-append [] m = refl
submitted-append ((pts, at) ∷ l) m = ap (λ (k : List ℕ). pts ∷ k) (submitted-append l m)

pub accepted-append : (l m : List MftCall) → accepted (l ++ m) ≡ accepted l ++ accepted m
unfolding accepted
accepted-append [] m = refl
accepted-append (process_input pts none ∷ l) m = ap (λ (k : List ℕ). pts ∷ k) (accepted-append l m)
accepted-append (process_input pts (some e) ∷ l) m = accepted-append l m
accepted-append (force_key_frame ∷ l) m = accepted-append l m

-- The time stamps that a session still owes, in order.
abbrev pub owed : MfSession → List ℕ
owed s = measured s.output_queue ++ submitted s.pending_input_meta

stamp-submitted :
    (pending : List (ℕ × ℕ)) (now : ℕ) (time : Option ℕ)
    → stamp_of (stamp pending now time).1 (stamp pending now time).0
        ++ submitted (pop_front pending)
      ≡ submitted pending
unfolding stamp_of stamp submitted pop_front
stamp-submitted [] now (some t) = refl
stamp-submitted [] now none = refl
stamp-submitted ((pts, at) ∷ pending) now time = refl

collected-owed :
    (s : MfSession) (raw : List ℕ) (now : ℕ) (time : Option ℕ)
    → owed (collected (output_packet s.codec s.pending_input_meta raw now time) s) ≡ owed s
unfolding collected output_packet measured
collected-owed s raw now time =
    let pkt = output_packet s.codec s.pending_input_meta raw now time in
    ap (λ (k : List ℕ). k ++ submitted (pop_front s.pending_input_meta))
      (measured-append s.output_queue (pkt ∷ [])
        ∙ ap (λ (k : List ℕ). measured s.output_queue ++ k)
            (append-nil (stamp_of pkt.encode_us pkt.pts_ns)))
    ∙ append_assoc (measured s.output_queue) (stamp_of pkt.encode_us pkt.pts_ns)
        (submitted (pop_front s.pending_input_meta))
    ∙ ap (λ (k : List ℕ). measured s.output_queue ++ k)
        (stamp-submitted s.pending_input_meta now time)

pub wait_loop-owed : (events : List MftEvent) (s : MfSession) → owed (wait_loop events s).0 ≡ owed s
unfolding wait_loop collect_output_packet
wait_loop-owed [] s = refl
wait_loop-owed (need_input ∷ later) s = refl
wait_loop-owed (event_failed e ∷ later) s = refl
wait_loop-owed (other_event ∷ later) s = wait_loop-owed later s
wait_loop-owed (no_events_available ∷ later) s = wait_loop-owed later s
wait_loop-owed (have_output (output_failed e) ∷ later) s = refl
wait_loop-owed (have_output no_sample ∷ later) s = wait_loop-owed later s
wait_loop-owed (have_output (sample raw now time) ∷ later) s =
    wait_loop-owed later (collected (output_packet s.codec s.pending_input_meta raw now time) s)
    ∙ collected-owed s raw now time

pub drain_loop-owed :
    (events : List MftEvent) (s : MfSession) → owed (drain_loop events s).0 ≡ owed s
unfolding drain_loop collect_output_packet
drain_loop-owed [] s = refl
drain_loop-owed (no_events_available ∷ later) s = refl
drain_loop-owed (event_failed e ∷ later) s = refl
drain_loop-owed (need_input ∷ later) s = drain_loop-owed later s
drain_loop-owed (other_event ∷ later) s = drain_loop-owed later s
drain_loop-owed (have_output (output_failed e) ∷ later) s = refl
drain_loop-owed (have_output no_sample ∷ later) s = drain_loop-owed later s
drain_loop-owed (have_output (sample raw now time) ∷ later) s =
    drain_loop-owed later (collected (output_packet s.codec s.pending_input_meta raw now time) s)
    ∙ collected-owed s raw now time
