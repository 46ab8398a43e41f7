-- ===== src/Pipeline/Inversion.antt =====
-- A pass after which the loop still runs: the tick made every one of its calls.
use zpenflow.Base.{
  ℕ, ◌≡◌, refl, sym, ap, ◌∙◌, Bool, true, false, List, [], ◌∷◌, ◌++◌, Option, none, some,
  append-nil, if◌then◌else◌,
}
use zpenflow.Engine.{EngineError, EngineResult, ok, err}
use zpenflow.Pipeline.{
  PointerPosition, Frame, Polled, Answers, GraphicsCall, color_convert, submit_frame, Built, Thread,
  running, returned, failed, Pipeline, or_last, frame_calls, see, after, drain, finish_tick, pts_of,
  tick, pass_at, loop_pass, Event, request_idr_event, stop_event, close_event, take_event,
  pass_event, share, on_event, on_events,
}

-- The frame of a capture that did not fail, and the position that it reports.
abbrev pub captured : EngineResult (Option Frame) → Option Frame
captured (ok frame) = frame
captured (err e) = none

abbrev pub reported : Option Frame → Option PointerPosition
reported none = none
reported (some frame) = frame.pointer_position

abbrev pub seen_calls : Built → Option Frame → Option PointerPosition → List GraphicsCall
seen_calls c none last = []
seen_calls c (some frame) last = frame_calls c frame last

abbrev pub submitted_calls : Built → Answers → Bool → List GraphicsCall
submitted_calls c a force_idr = color_convert ∷ submit_frame (pts_of c a) force_idr ∷ []

see-calls :
    (c : Built) (frame : Option Frame) (s : Pipeline)
    → (see c frame s).calls ≡ s.calls ++ seen_calls c frame s.view.last_pointer
unfolding see
see-calls c none s = sym (append-nil s.calls)
see-calls c (some frame) s = refl

see-pointer :
    (c : Built) (frame : Option Frame) (s : Pipeline)
    → (see c frame s).view.last_pointer ≡ or_last (reported frame) s.view.last_pointer
unfolding see or_last
see-pointer c none s = refl
see-pointer c (some frame) s = refl

see-idr : (c : Built) (frame : Option Frame) (s : Pipeline) → (see c frame s).idr_request ≡ false
unfolding see
see-idr c none s = refl
see-idr c (some frame) s = refl

see-queue : (c : Built) (frame : Option Frame) (s : Pipeline) → (see c frame s).queue ≡ s.queue
unfolding see
see-queue c none s = refl
see-queue c (some frame) s = refl

abbrev pub answers :
    EngineResult (Option Frame) → ℕ → Option EngineError → Option EngineError → Polled → Answers
answers acquired now convert_error submit_error polled = record {
  acquired = acquired;
  now = now;
  convert_error = convert_error;
  submit_error = submit_error;
  polled = polled;
}

-- What the loop and the next tick see of a tick after which the loop runs.
abbrev pub Ticked : Built → Answers → Pipeline → Pipeline → Type 0
Ticked c a s t =
    (t.calls
      ≡ (s.calls ++ seen_calls c (captured a.acquired) s.view.last_pointer)
        ++ submitted_calls c a s.idr_request)
    × (t.view.last_pointer ≡ or_last (reported (captured a.acquired)) s.view.last_pointer)
    × (t.idr_request ≡ false)
    × ((drain a.polled s.queue).1 ≡ running)
    × (t.queue ≡ (drain a.polled s.queue).0)

answers-Ticked :
    (c : Built) (acquired : EngineResult (Option Frame)) (now : ℕ) (e f : Option EngineError)
    (polled : Polled) (s : Pipeline)
    → (tick c (answers acquired now e f polled) s).thread ≡ running
    → Ticked c (answers acquired now e f polled) s (tick c (answers acquired now e f polled) s)
unfolding tick finish_tick after
answers-Ticked c (err x) now e f polled s h = cc
answers-Ticked c (ok frame) now (some x) f polled s h = cc
answers-Ticked c (ok frame) now none (some x) polled s h = cc
answers-Ticked c (ok frame) now none none polled s h = (
  ap (λ l. l ++ submitted_calls c (answers (ok frame) now none none polled) s.idr_request)
      (see-calls c frame s),
  see-pointer c frame s,
  see-idr c frame s,
  sym (ap (λ q. (drain polled q).1) (see-queue c frame s)) ∙ h,
  ap (λ q. (drain polled q).0) (see-queue c frame s),
)

tick-Ticked :
    (c : Built) (a : Answers) (s : Pipeline)
    → (tick c a s).thread ≡ running
    → Ticked c a s (tick c a s)
tick-Ticked c a s h = answers-Ticked c a.acquired a.now a.convert_error a.submit_error a.polled s h

-- A pass that stops does not run after it.
stopping-Ticked :
    (stopping : Bool) (c : Built) (a : Answers) (s : Pipeline)
    → (if stopping then after [] s.queue returned s else tick c a s).thread ≡ running
    → Ticked c a s (if stopping then after [] s.queue returned s else tick c a s)
unfolding after
stopping-Ticked true c a s h = cc
stopping-Ticked false c a s h = tick-Ticked c a s h

pass_at-Ticked :
    (t : Thread) (c : Built) (a : Answers) (s : Pipeline)
    → s.thread ≡ t
    → (pass_at t c a s).thread ≡ running
    → (t ≡ running) × Ticked c a s (pass_at t c a s)
unfolding pass_at after
pass_at-Ticked running c a s e h = (refl, stopping-Ticked s.stop c a s h)
pass_at-Ticked returned c a s e h = cc
pass_at-Ticked (failed x) c a s e h = cc

pub loop_pass-Ticked :
    (c : Built) (a : Answers) (s : Pipeline)
    → (loop_pass c a s).thread ≡ running
    → (s.thread ≡ running) × Ticked c a s (loop_pass c a s)
unfolding loop_pass
loop_pass-Ticked c a s h = pass_at-Ticked s.thread c a s refl h

-- A loop that runs after an event ran before it.
on_event-running :
    (c : Built) (event : Event) (s : Pipeline)
    → (on_event c event s).thread ≡ running
    → s.thread ≡ running
unfolding on_event share
on_event-running c request_idr_event s h = h
on_event-running c stop_event s h = h
on_event-running c close_event s h = h
on_event-running c (take_event expired) s h = h
on_event-running c (pass_event a) s h = (loop_pass-Ticked c a s h).0

pub on_events-running :
    (c : Built) (events : List Event) (s : Pipeline)
    → (on_events c events s).thread ≡ running
    → s.thread ≡ running
unfolding on_events
on_events-running c [] s h = h
on_events-running c (event ∷ later) s h =
    on_event-running c event s (on_events-running c later (on_event c event s) h)
