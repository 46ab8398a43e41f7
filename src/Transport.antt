-- ===== src/Transport.antt =====
-- crates/penflow-transport/src/adb.rs: `AdbLocalAbstractTransport`, of one abstract name. What adb and the
-- sockets answer is an argument. The two mutexes are held across the points at which a task waits, so an
-- operation is a few events, and a run any order of the events of all tasks that the locks allow.
pub mod Removed
pub mod Tests
use zpenflow.Base.{
  ℕ, zero, suc, Bool, true, false, List, [], ◌∷◌, Option, none, some, if◌then◌else◌,
}

pub data AdbCall : Type 0 where
  start_server : AdbCall
  remove_reverse : AdbCall
  -- With the port.
  add_reverse : ℕ → AdbCall

-- `accepting` and `removing` say whether the lock of the listener and that of the flag are held; the one
-- is held by an `accept` that waits, the other by a `shutdown` that removes the rule. `closing` counts the
-- shutdowns that have dropped the listener and have not yet come to the flag.
pub record Transport : Type 0 where
  pub listener : Bool
  pub bound_port : ℕ
  pub reverse_active : Bool
  pub accepting : Bool
  pub removing : Bool
  pub closing : ℕ
  -- The peers accepted and the calls of adb, the newest first.
  pub peers : List ℕ
  pub calls : List AdbCall

unfoldable pub bound : ℕ → List AdbCall → Transport
bound port calls = record {
  listener = true;
  bound_port = port;
  reverse_active = true;
  accepting = false;
  removing = false;
  closing = 0;
  peers = [];
  calls = calls;
}

-- A stale rule is removed first, whatever comes of it.
unfoldable pub set_up_reverse :
    (List AdbCall → AdbCall → Bool) → ℕ → List AdbCall → Option Transport × List AdbCall
unfolding bound
set_up_reverse adb port calls =
    let removed = remove_reverse ∷ calls in
    let added = add_reverse port ∷ removed in
    if adb removed (add_reverse port) then (some (bound port added), added) else (none, added)

unfoldable pub with_listener :
    (List AdbCall → AdbCall → Bool) → Option ℕ → List AdbCall → Option Transport × List AdbCall
unfolding set_up_reverse
with_listener adb none calls = (none, calls)
with_listener adb (some port) calls = set_up_reverse adb port calls

-- The port is what the binding of the listener answers.
unfoldable pub bind_with_adb :
    (List AdbCall → AdbCall → Bool) → Option ℕ → Option Transport × List AdbCall
unfolding with_listener
bind_with_adb adb port =
    let calls = start_server ∷ [] in
    if adb [] start_server then with_listener adb port calls else (none, calls)

-- An `accept` takes the lock, or finds that there is no listener; it ends with a peer, or with an error
-- or by being dropped. A `shutdown` drops the listener, comes to the flag, and waits for the removal of
-- the rule for two seconds; it can be dropped where it waits.
pub data TransportEvent : Type 0 where
  accept_begins : TransportEvent
  accept_ends : Option ℕ → TransportEvent
  shutdown_closes : TransportEvent
  shutdown_locks : TransportEvent
  shutdown_dropped : TransportEvent
  removal_ends : TransportEvent
  removal_dropped : TransportEvent

unfoldable pub add_peer : Option ℕ → List ℕ → List ℕ
add_peer none peers = peers
add_peer (some peer) peers = peer ∷ peers

-- The flag, under its lock.
unfoldable pub begin_removal : ℕ → Transport → Transport
begin_removal closing t =
    if t.reverse_active
    then record t { closing = closing; removing = true; calls = remove_reverse ∷ t.calls }
    else record t { closing = closing }

unfoldable pub lock_flag : ℕ → Transport → Option Transport
unfolding begin_removal
lock_flag zero t = none
lock_flag (suc closing) t = if t.removing then none else some (begin_removal closing t)

unfoldable pub drop_waiting : ℕ → Transport → Option Transport
drop_waiting zero t = none
drop_waiting (suc closing) t = some (record t { closing = closing })

-- Nothing where the event cannot happen.
unfoldable pub transport_step : TransportEvent → Transport → Option Transport
unfolding add_peer lock_flag drop_waiting
transport_step accept_begins t =
    if t.accepting
    then none
    else if t.listener
    then some (record t { accepting = true })
    else some t
transport_step (accept_ends peer) t =
    if t.accepting
    then some (record t { accepting = false; peers = add_peer peer t.peers })
    else none
transport_step shutdown_closes t =
    if t.accepting then none else some (record t { listener = false; closing = suc t.closing })
transport_step shutdown_locks t = lock_flag t.closing t
transport_step shutdown_dropped t = drop_waiting t.closing t
transport_step removal_ends t =
    if t.removing then some (record t { removing = false; reverse_active = false }) else none
transport_step removal_dropped t = if t.removing then some (record t { removing = false }) else none

unfoldable pub run_events : List TransportEvent → Transport → Option Transport
unfolding transport_step
run_events [] t = some t
run_events (event ∷ events) t = elim (transport_step event t) [
  | none ↦ none
  | some t' ↦ run_events events t'
]

-- `drop`: the calls of adb in the end. It does nothing where the flag is locked.
unfoldable pub drop_transport : Transport → List AdbCall
drop_transport t =
    if t.removing then t.calls else if t.reverse_active then remove_reverse ∷ t.calls else t.calls
