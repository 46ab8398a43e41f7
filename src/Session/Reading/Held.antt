-- ===== src/Session/Reading/Held.antt =====
-- The keys and mouse buttons held, over a whole session.
use zpenflow.Base.{ℕ, ◌==◌, sym, Bool, true, false, ◌&&◌, List, if◌then◌else◌}
use mathlib.Core.Path.{subst}
use zpenflow.Protocol.{
  ProtocolResult, ok, err, msg_pen_event, msg_touch_event, msg_time_sync_req, msg_request_idr,
  msg_android_goodbye,
}
use zpenflow.Protocol.PenEvent
use zpenflow.Protocol.PenEvent.{PenEvent}
use zpenflow.Protocol.TouchEvent
use zpenflow.Protocol.TouchEvent.{TouchEvent}
use zpenflow.Protocol.TimeSync
use zpenflow.Protocol.TimeSync.{TimeSyncReq}
use zpenflow.Inject.Os.{Os, Call, Outcome, done, touch_frame, send}
use zpenflow.Inject.Mouse.{Screen}
use zpenflow.Inject.Injector.{InputInjector, TouchPoint}
use zpenflow.Inject.Pen.{inject_pen}
use zpenflow.Inject.Pen.Success.{inject_pen-Balanced}
use zpenflow.Inject.Pen.Taken.{Accepting, inject_pen-IsDone, send-taken}
use zpenflow.Inject.Touch.{inject_touch, settle, touch_infos, is_empty}
use zpenflow.Inject.Balance.{Balanced, pressed, released}
use zpenflow.Session.Sample.{pen_sample}
use zpenflow.Session.Reading.{
  Env, Reading, Turn, calls, injected, snapshot, on_pen, on_touch, on_time_sync, on_message,
  read_loop,
}
use zpenflow.Session.Reading.Ends.{state_of, Keeps, read_loop-keeps}

-- What is down is what the buttons of the pen hold.
abbrev pub Settled : Reading → Type 0
Settled st = Balanced st.injector.pen_profile st.injector.last_pen_buttons st.log

on_pen-Settled :
    (env : Env) (st : Reading) (r : ProtocolResult PenEvent)
    → Accepting env.os
    → Settled st
    → Settled (state_of (on_pen env st r))
unfolding on_pen state_of injected calls
on_pen-Settled env st (err e) accept h = h
on_pen-Settled env st (ok pe) accept h =
    let sample = pen_sample env.coords pe in
    let (log', e) = inject_pen-IsDone env.os accept env.screen sample st.injector st.log in
    let bal = inject_pen-Balanced env.os env.screen sample st.injector st.log log' h e in
    let g = (inject_pen env.os env.screen sample st.injector st.log).0 in
    subst (λ (o : Outcome). Balanced g.pen_profile g.last_pen_buttons (calls o)) (sym e) bal

-- A touch frame presses nothing.
touch_case :
    (os : Os) (screen : Screen) (points : List TouchPoint) (g : InputInjector) (log : List Call)
    (idle nothing : Bool)
    → Accepting os
    → Balanced g.pen_profile g.last_pen_buttons log
    → let r =
        if idle
        then (g, done log)
        else if nothing
        then (g, done log)
        else settle points g
            (send os (touch_frame (touch_infos screen points g.last_touch_pos)) log) in
      Balanced r.0.pen_profile r.0.last_pen_buttons (calls r.1)
unfolding settle calls pressed released
touch_case os screen points g log true nothing accept h = h
touch_case os screen points g log false true accept h = h
touch_case os screen points g log false false accept h =
    let frame = touch_frame (touch_infos screen points g.last_touch_pos) in
    subst
      (λ (o : Outcome).
        Balanced (settle points g o).0.pen_profile (settle points g o).0.last_pen_buttons
          (calls (settle points g o).1))
      (sym (send-taken os accept frame log)) h

on_touch-Settled :
    (env : Env) (st : Reading) (r : ProtocolResult TouchEvent)
    → Accepting env.os
    → Settled st
    → Settled (state_of (on_touch env st r))
unfolding on_touch state_of injected inject_touch
on_touch-Settled env st (err e) accept h = h
on_touch-Settled env st (ok te) accept h =
    let points = snapshot env te in
    let g = st.injector in
    touch_case env.os env.screen points g st.log (is_empty points && is_empty g.last_touch_pos)
      (is_empty (touch_infos env.screen points g.last_touch_pos)) accept h

pick-Settled :
    (b : Bool) (s t : Turn)
    → Settled (state_of s)
    → Settled (state_of t)
    → Settled (state_of (if b then s else t))
pick-Settled true s t h k = h
pick-Settled false s t h k = k

on_time_sync-Settled :
    (env : Env) (st : Reading) (r : ProtocolResult TimeSyncReq)
    → Settled st
    → Settled (state_of (on_time_sync env st r))
unfolding on_time_sync state_of
on_time_sync-Settled env st (err e) h = h
on_time_sync-Settled env st (ok req) h = pick-Settled (env.takes_reply st.sent) _ _ h h

on_message-Settled : (env : Env) → Accepting env.os → Keeps env Settled
unfolding on_message state_of
on_message-Settled env accept msg_id payload st h =
    pick-Settled (msg_id == msg_pen_event) _ _
      (on_pen-Settled env st (PenEvent.decode payload) accept h)
      (pick-Settled (msg_id == msg_touch_event) _ _
        (on_touch-Settled env st (TouchEvent.decode payload) accept h)
        (pick-Settled (msg_id == msg_time_sync_req) _ _
          (on_time_sync-Settled env st (TimeSync.decode payload) h)
          (pick-Settled (msg_id == msg_request_idr) _ _ h
            (pick-Settled (msg_id == msg_android_goodbye) _ _ h h))))

-- Whatever bytes the client sends, in whatever order, each key and each mouse button has been pressed
-- as often as released, and once more for each button of the pen that is down and holds it; given
-- that this was so before, and that the system takes every call.
pub read_loop-Settled :
    (env : Env) (fuel : ℕ) (stream : List ℕ) (st : Reading)
    → Accepting env.os
    → Settled st
    → Settled (state_of (read_loop env fuel stream st))
read_loop-Settled env fuel stream st accept h =
    read_loop-keeps env Settled (on_message-Settled env accept) fuel stream st h
