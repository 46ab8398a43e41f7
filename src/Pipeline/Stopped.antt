-- ===== src/Pipeline/Stopped.antt =====
-- After the stop flag is set.
use zpenflow.Base.{
  ◌≡◌, refl, sym, ap, ◌∙◌, ℕ, Option, none, some, Bool, true, false, List, [], ◌∷◌, ◌++◌,
  append-nil, if◌then◌else◌,
}
use zpenflow.Engine.{EngineError, EngineResult, ok, err}
use zpenflow.Pipeline.Inversion.{answers}
use zpenflow.Pipeline.{
  Frame, Polled, see, finish_tick, Answers, Built, Thread, running, returned, failed, Pipeline,
  after, tick, pass_at, loop_pass, Event, request_idr_event, stop_event, close_event, take_event,
  pass_event, share, on_event, on_events,
}

stopping :
    (stop : Bool) (c : Built) (a : Answers) (s : Pipeline)
    → stop ≡ true
    → ((if stop then after [] s.queue returned s else tick c a s).stop ≡ s.stop)
      × ((if stop then after [] s.queue returned s else tick c a s).calls ≡ s.calls)
      × ((if stop then after [] s.queue returned s else tick c a s).thread ≡ returned)
unfolding after
stopping true c a s e = (refl, append-nil s.calls, refl)
stopping false c a s e = cc

-- What a loop comes to once it is to stop.
unfoldable pub settled : Thread → Thread
settled running = returned
settled returned = returned
settled (failed e) = failed e

pass_at-stop :
    (t : Thread) (c : Built) (a : Answers) (s : Pipeline)
    → s.stop ≡ true
    → s.thread ≡ t
    → ((pass_at t c a s).stop ≡ true)
      × ((pass_at t c a s).calls ≡ s.calls)
      × ((pass_at t c a s).thread ≡ settled t)
unfolding pass_at after settled
pass_at-stop running c a s e h = let (p, q, r) = stopping s.stop c a s e in (p ∙ e, q, r)
pass_at-stop returned c a s e h = (e, refl, h)
pass_at-stop (failed x) c a s e h = (e, refl, h)

-- The flag stays set, no calls are made, and the thread settles at the next pass.
abbrev Stays : Pipeline → Pipeline → Type 0
Stays s t = (t.stop ≡ true) × (t.calls ≡ s.calls) × (settled t.thread ≡ settled s.thread)

settled-twice : (t : Thread) → settled (settled t) ≡ settled t
unfolding settled
settled-twice running = refl
settled-twice returned = refl
settled-twice (failed e) = refl

on_event-Stays :
    (c : Built) (event : Event) (s : Pipeline) → s.stop ≡ true → Stays s (on_event c event s)
unfolding on_event share loop_pass
on_event-Stays c request_idr_event s h = (h, refl, refl)
on_event-Stays c stop_event s h = (refl, refl, refl)
on_event-Stays c close_event s h = (h, refl, refl)
on_event-Stays c (take_event expired) s h = (h, refl, refl)
on_event-Stays c (pass_event a) s h =
    let (p, q, r) = pass_at-stop s.thread c a s h refl in
    (p, q, ap settled r ∙ settled-twice s.thread)

on_events-Stays :
    (c : Built) (events : List Event) (s : Pipeline)
    → s.stop ≡ true
    → Stays s (on_events c events s)
unfolding on_events
on_events-Stays c [] s h = (h, refl, refl)
on_events-Stays c (event ∷ later) s h =
    let (p, q, r) = on_event-Stays c event s h in
    let (p', q', r') = on_events-Stays c later (on_event c event s) p in (p', q' ∙ q, r' ∙ r)

-- A loop that has settled stays so.
pass_at-settled :
    (t : Thread) (c : Built) (a : Answers) (s : Pipeline)
    → s.thread ≡ t
    → settled t ≡ t
    → (pass_at t c a s).thread ≡ t
unfolding pass_at settled
pass_at-settled running c a s h k = cc
pass_at-settled returned c a s h k = h
pass_at-settled (failed x) c a s h k = h

on_event-settled :
    (c : Built) (event : Event) (s : Pipeline)
    → settled s.thread ≡ s.thread
    → (on_event c event s).thread ≡ s.thread
unfolding on_event share loop_pass
on_event-settled c request_idr_event s h = refl
on_event-settled c stop_event s h = refl
on_event-settled c close_event s h = refl
on_event-settled c (take_event expired) s h = refl
on_event-settled c (pass_event a) s h = pass_at-settled s.thread c a s refl h

on_events-settled :
    (c : Built) (events : List Event) (s : Pipeline)
    → settled s.thread ≡ s.thread
    → (on_events c events s).thread ≡ s.thread
unfolding on_events
on_events-settled c [] s h = refl
on_events-settled c (event ∷ later) s h =
    let e = on_event-settled c event s h in
    on_events-settled c later (on_event c event s) (ap settled e ∙ h ∙ sym e) ∙ e

on_events-append :
    (c : Built) (l m : List Event) (s : Pipeline)
    → on_events c (l ++ m) s ≡ on_events c m (on_events c l s)
unfolding on_events
on_events-append c [] m s = refl
on_events-append c (event ∷ l) m s = on_events-append c l m (on_event c event s)

-- The flag set.
abbrev pub set_stop : Pipeline → Pipeline
set_stop s = share s.idr_request true s.queue s

-- A tick neither reads the flag nor writes it, so that it does not matter where in a tick it is set.
answers-set_stop :
    (c : Built) (acquired : EngineResult (Option Frame)) (now : ℕ) (x y : Option EngineError)
    (polled : Polled) (s : Pipeline)
    → tick c (answers acquired now x y polled) (set_stop s)
      ≡ set_stop (tick c (answers acquired now x y polled) s)
unfolding tick finish_tick see after share
answers-set_stop c (err e) now x y polled s = refl
answers-set_stop c (ok none) now (some x) y polled s = refl
answers-set_stop c (ok none) now none (some y) polled s = refl
answers-set_stop c (ok none) now none none polled s = refl
answers-set_stop c (ok (some frame)) now (some x) y polled s = refl
answers-set_stop c (ok (some frame)) now none (some y) polled s = refl
answers-set_stop c (ok (some frame)) now none none polled s = refl

-- The tick that a loop is in the middle of, if any, carried out.
unfoldable pub within : Built → Option Answers → Pipeline → Pipeline
within c none s = s
within c (some a) s = tick c a s

within-set_stop :
    (c : Built) (current : Option Answers) (s : Pipeline)
    → within c current (set_stop s) ≡ set_stop (within c current s)
unfolding within
within-set_stop c none s = refl
within-set_stop c (some a) s =
    answers-set_stop c a.acquired a.now a.convert_error a.submit_error a.polled s

-- A loop that is to stop, from here on.
run-settled :
    (c : Built) (before later : List Event) (a : Answers) (s : Pipeline)
    → s.stop ≡ true
    → ((on_events c (before ++ (pass_event a ∷ later)) s).calls ≡ s.calls)
      × ((on_events c (before ++ (pass_event a ∷ later)) s).thread ≡ settled s.thread)
unfolding on_events on_event loop_pass
run-settled c before later a s h =
    let t = on_events c before s in
    let (p, q, r) = on_events-Stays c before s h in
    let (p', q', r') = pass_at-stop t.thread c a t p refl in
    let e : (loop_pass c a t).thread ≡ settled s.thread = r' ∙ r in
    (
      (on_events-Stays c (before ++ (pass_event a ∷ later)) s h).1,
      ap (λ u. u.thread) (on_events-append c before (pass_event a ∷ later) s)
          ∙ on_events-settled c later (loop_pass c a t)
              (ap settled e ∙ settled-twice s.thread ∙ sym e)
          ∙ e,
    )

-- Once the flag is set, between two passes of the loop or anywhere within a tick: what is left of that
-- tick is carried out, and then nothing more is captured, converted or encoded, whatever the threads do;
-- and once the loop makes another pass it has returned without an error, for good, unless that tick
-- failed or the loop had ended before.
pub stop-returns :
    (c : Built) (current : Option Answers) (before later : List Event) (a : Answers) (s : Pipeline)
    → let stopped = within c current (set_stop s) in
      let end = on_events c (before ++ (pass_event a ∷ later)) stopped in
      (stopped ≡ set_stop (within c current s))
      × (end.calls ≡ (within c current s).calls)
      × (end.thread ≡ settled (within c current s).thread)
unfolding share
stop-returns c current before later a s =
    let e = within-set_stop c current s in
    let (calls, thread) =
      run-settled c before later a (within c current (set_stop s)) (ap (λ t. t.stop) e) in
    (e, calls ∙ ap (λ t. t.calls) e, thread ∙ ap (λ t. settled t.thread) e)
