-- ===== src/Session/Reading.antt =====
-- `read_loop`: the client's messages, one after the other, until the connection ends. What lies
-- outside comes as an environment: the system, the screens, the coordinates, whether the connection
-- takes another reply after what was sent, and the clock's two readings for it.
pub mod Ends
pub mod Held
use zpenflow.Base.{
  ℕ, zero, suc, ◌==◌, Bool, true, false, List, [], ◌∷◌, Option, none, some, if◌then◌else◌,
}
use zpenflow.Protocol.{
  ProtocolError, ProtocolResult, ok, err, io, payload_too_large, malformed, msg_pen_event,
  msg_touch_event, msg_time_sync_req, msg_time_sync_resp, msg_request_idr, msg_android_goodbye,
}
use zpenflow.Protocol.Framing.{read_frame, write_frame}
use zpenflow.Protocol.PenEvent.{PenEvent}
use zpenflow.Protocol.PenEvent
use zpenflow.Protocol.TouchEvent.{TouchEvent}
use zpenflow.Protocol.TouchEvent
use zpenflow.Protocol.TimeSync.{TimeSyncReq, TimeSyncResp}
use zpenflow.Protocol.TimeSync
use zpenflow.Inject.Os.{Os, Call, Outcome, done, failed}
use zpenflow.Inject.Mouse.{Screen}
use zpenflow.Inject.Injector.{InputInjector, TouchPoint}
use zpenflow.Inject.Pen.{inject_pen}
use zpenflow.Inject.Touch.{inject_touch}
use zpenflow.Session.Sample.{Coords, pen_sample, touch_points}

pub record Env : Type 0 where
  pub os : Os
  pub screen : Screen
  pub coords : Coords
  pub takes_reply : List ℕ → Bool
  pub clock : List ℕ → ℕ × ℕ
  pub disable_touch : Bool

-- The injector, the calls made of the system, the bytes sent to the client, and the key frames that
-- it asked for.
pub record Reading : Type 0 where
  pub injector : InputInjector
  pub log : List Call
  pub sent : List ℕ
  pub idr_requests : ℕ

-- After a message the loop goes on or ends, with an error or without.
pub data Turn : Type 0 where
  next : Reading → Turn
  ended : Reading → Turn
  broken : ProtocolError → Reading → Turn

-- The calls that were made, whether the last one failed or not.
unfoldable pub calls : Outcome → List Call
calls (done log) = log
calls (failed e log) = log

-- An injection, whose failure is only reported.
unfoldable pub injected : Reading → InputInjector × Outcome → Reading
unfolding calls
injected st (g, o) = record st { injector = g; log = calls o }

unfoldable pub on_pen : Env → Reading → ProtocolResult PenEvent → Turn
unfolding injected inject_pen pen_sample
on_pen env st (err e) = broken e st
on_pen env st (ok pe) =
    next (injected st (inject_pen env.os env.screen (pen_sample env.coords pe) st.injector st.log))

-- Where touch is disabled, the fingers that are down are lifted.
unfoldable pub snapshot : Env → TouchEvent → List TouchPoint
unfolding touch_points
snapshot env te = if env.disable_touch then [] else touch_points env.coords te.contacts

unfoldable pub on_touch : Env → Reading → ProtocolResult TouchEvent → Turn
unfolding injected inject_touch snapshot
on_touch env st (err e) = broken e st
on_touch env st (ok te) =
    next (injected st (inject_touch env.os env.screen (snapshot env te) st.injector st.log))

unfoldable pub on_time_sync : Env → Reading → ProtocolResult TimeSyncReq → Turn
unfolding write_frame TimeSync.encode
on_time_sync env st (err e) = broken e st
on_time_sync env st (ok req) =
    let times = env.clock st.sent in
    let resp : TimeSyncResp = record {
      android_t1_ns = req.android_t1_ns;
      pc_t2_ns = times.0;
      pc_t3_ns = times.1;
    } in
    if env.takes_reply st.sent
    then next (record st { sent = write_frame st.sent msg_time_sync_resp (TimeSync.encode resp) })
    else ended st

unfoldable pub on_message : Env → ℕ → List ℕ → Reading → Turn
unfolding on_pen on_touch on_time_sync PenEvent.decode TouchEvent.decode TimeSync.decode
on_message env msg_id payload st =
    if msg_id == msg_pen_event
    then on_pen env st (PenEvent.decode payload)
    else if msg_id == msg_touch_event
    then on_touch env st (TouchEvent.decode payload)
    else if msg_id == msg_time_sync_req
    then on_time_sync env st (TimeSync.decode payload)
    else if msg_id == msg_request_idr
    then next (record st { idr_requests = suc st.idr_requests })
    else if msg_id == msg_android_goodbye
    then ended st
    else next st

-- The end of the stream ends the loop without an error.
unfoldable pub on_read_error : ProtocolError → Reading → Turn
on_read_error io st = ended st
on_read_error (payload_too_large n) st = broken (payload_too_large n) st
on_read_error (malformed id s) st = broken (malformed id s) st

-- One pass: the turn it takes, and the bytes that are left.
unfoldable pub pass : Env → List ℕ → Reading → Turn × List ℕ
unfolding on_read_error on_message read_frame
pass env stream st = elim (read_frame stream) [
  | err e ↦ (on_read_error e st, [])
  | ok ((msg_id, payload), rest) ↦ (on_message env msg_id payload st, rest)
]

-- On fuel, for the bytes that arrive before the connection ends.
unfoldable pub read_loop : Env → ℕ → List ℕ → Reading → Turn
unfolding pass
read_loop env zero stream st = next st
read_loop env (suc fuel) stream st =
    let (turn, rest) = pass env stream st in
    elim turn [
      | next st' ↦ read_loop env fuel rest st'
      | ended st' ↦ ended st'
      | broken e st' ↦ broken e st'
    ]
