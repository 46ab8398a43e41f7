-- ===== src/Pipeline/Errors.antt =====
-- The errors that end the loop.
use zpenflow.Base.{
  ℕ, ◌≡◌, refl, ap, ◌∙◌, Bool, true, false, List, [], ◌∷◌, Option, none, some, if◌then◌else◌,
}
use zpenflow.Engine.{EngineError, EngineResult, ok, err}
use zpenflow.Queue.{Inner, push}
use zpenflow.Session.Frames.{EncodedPacket}
use zpenflow.Pipeline.{
  Frame, Polled, drained, poll_failed, polled_packet, Answers, Built, Thread, running, returned,
  failed, Pipeline, see, after, drain, finish_tick, tick, pass_at, loop_pass, Event,
  request_idr_event, stop_event, close_event, take_event, pass_event, share, on_event, on_events,
}
use zpenflow.Pipeline.Inversion.{answers}

-- The first error among the answers of a tick that it returns by `?`, in the order of its calls: of the
-- capture, the conversion, the submission or the polling. Those of the tonemap blitter and of the
-- cursor's shape are only logged.
unfoldable pub poll_error : Polled → Option EngineError
poll_error drained = none
poll_error (poll_failed e) = some e
poll_error (polled_packet pkt later) = poll_error later

unfoldable pub first_error :
    EngineResult (Option Frame)
    → Option EngineError
    → Option EngineError
    → Polled
    → Option EngineError
unfolding poll_error
first_error (err e) convert_error submit_error polled = some e
first_error (ok frame) (some e) submit_error polled = some e
first_error (ok frame) none (some e) polled = some e
first_error (ok frame) none none polled = poll_error polled

drain-failed :
    (polled : Polled) (queue : Inner EncodedPacket) (e : EngineError)
    → poll_error polled ≡ some e
    → (drain polled queue).1 ≡ failed e
unfolding drain poll_error
drain-failed drained queue e h = cc
drain-failed (poll_failed x) queue e h = cc
drain-failed (polled_packet pkt later) queue e h = drain-failed later (push pkt queue).0 e h

answers-failed :
    (c : Built) (acquired : EngineResult (Option Frame)) (now : ℕ) (x y : Option EngineError)
    (polled : Polled) (s : Pipeline) (e : EngineError)
    → first_error acquired x y polled ≡ some e
    → (tick c (answers acquired now x y polled) s).thread ≡ failed e
unfolding tick finish_tick after first_error
answers-failed c (err z) now x y polled s e h = cc
answers-failed c (ok frame) now (some z) y polled s e h = cc
answers-failed c (ok frame) now none (some z) polled s e h = cc
answers-failed c (ok frame) now none none polled s e h =
    drain-failed polled (see c frame s).queue e h

go_on-failed :
    (stop : Bool) (c : Built) (a : Answers) (s : Pipeline) (e : EngineError)
    → stop ≡ false
    → (tick c a s).thread ≡ failed e
    → (if stop then after [] s.queue returned s else tick c a s).thread ≡ failed e
go_on-failed true c a s e h k = cc
go_on-failed false c a s e h k = k

pass_at-failed :
    (t : Thread) (c : Built) (a : Answers) (s : Pipeline) (e : EngineError)
    → t ≡ running
    → s.stop ≡ false
    → (tick c a s).thread ≡ failed e
    → (pass_at t c a s).thread ≡ failed e
unfolding pass_at
pass_at-failed running c a s e h k l = go_on-failed s.stop c a s e k l
pass_at-failed returned c a s e h k l = cc
pass_at-failed (failed x) c a s e h k l = cc

-- A loop that has failed does nothing more.
pass_at-same :
    (t : Thread) (c : Built) (a : Answers) (s : Pipeline) (e : EngineError)
    → t ≡ failed e
    → pass_at t c a s ≡ s
unfolding pass_at
pass_at-same running c a s e h = cc
pass_at-same returned c a s e h = refl
pass_at-same (failed x) c a s e h = refl

on_event-failed :
    (c : Built) (event : Event) (s : Pipeline) (e : EngineError)
    → s.thread ≡ failed e
    → ((on_event c event s).thread ≡ failed e) × ((on_event c event s).calls ≡ s.calls)
unfolding on_event share loop_pass
on_event-failed c request_idr_event s e h = (h, refl)
on_event-failed c stop_event s e h = (h, refl)
on_event-failed c close_event s e h = (h, refl)
on_event-failed c (take_event expired) s e h = (h, refl)
on_event-failed c (pass_event a) s e h =
    let same = pass_at-same s.thread c a s e h in
    (ap (λ t. t.thread) same ∙ h, ap (λ t. t.calls) same)

on_events-failed :
    (c : Built) (events : List Event) (s : Pipeline) (e : EngineError)
    → s.thread ≡ failed e
    → ((on_events c events s).thread ≡ failed e) × ((on_events c events s).calls ≡ s.calls)
unfolding on_events
on_events-failed c [] s e h = (h, refl)
on_events-failed c (event ∷ later) s e h =
    let (p, q) = on_event-failed c event s e h in
    let (p', q') = on_events-failed c later (on_event c event s) e p in (p', q' ∙ q)

-- If the capture, the conversion, the submission or the polling fails in a pass of a running loop that
-- need not stop, the loop ends with the error of the first of these that does, whatever the tonemap
-- blitter and the cursor's shape answered; and nothing more is captured, converted or encoded
-- afterwards, whatever the threads do.
pub pass-fails :
    (c : Built) (a : Answers) (later : List Event) (s : Pipeline) (e : EngineError)
    → s.thread ≡ running
    → s.stop ≡ false
    → first_error a.acquired a.convert_error a.submit_error a.polled ≡ some e
    → ((on_events c (pass_event a ∷ later) s).thread ≡ failed e)
      × ((on_events c (pass_event a ∷ later) s).calls ≡ (loop_pass c a s).calls)
unfolding on_events on_event loop_pass
pass-fails c a later s e h k l =
    let ticked = answers-failed c a.acquired a.now a.convert_error a.submit_error a.polled s e l in
    on_events-failed c later (pass_at s.thread c a s) e (pass_at-failed s.thread c a s e h k ticked)
