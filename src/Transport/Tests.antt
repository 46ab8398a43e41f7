-- ===== src/Transport/Tests.antt =====
-- A client connects, one shutdown is dropped while the rule is removed, and the transport is dropped.
use zpenflow.Base.{ℕ, ◌≡◌, refl, true, false, List, [], ◌∷◌, ◌++◌, none, some, suc}
use zpenflow.Transport.{
  Transport, bound, bind_with_adb, TransportEvent, accept_begins, accept_ends, shutdown_closes,
  shutdown_locks, removal_dropped, run_events, drop_transport,
}
use zpenflow.Transport.Removed.{removals, given_up, set_up, drop-removes}

abbrev one_client : List TransportEvent
one_client =
    accept_begins
    ∷ accept_ends (some 7)
    ∷ shutdown_closes
    ∷ accept_begins
    ∷ shutdown_locks
    ∷ removal_dropped
    ∷ []

abbrev closed : Transport
closed = record {
  listener = false;
  bound_port = 5037;
  reverse_active = true;
  accepting = false;
  removing = false;
  closing = 0;
  peers = 7 ∷ [];
  calls = removals 1 ++ set_up 5037;
}

bound_first :
    bind_with_adb (λ calls call. true) (some 5037) ≡ (some (bound 5037 (set_up 5037)), set_up 5037)
unfolding bind_with_adb
bound_first = refl

one_client_run : run_events one_client (bound 5037 (set_up 5037)) ≡ some closed
unfolding run_events bound removals
one_client_run = refl

drop-removes_example :
    (p : ℕ) × (some 5037 ≡ some p)
    × (drop_transport closed ≡ removals (suc (given_up one_client 0)) ++ set_up p)
drop-removes_example =
    drop-removes (λ calls call. true) (some 5037) (set_up 5037) (bound 5037 (set_up 5037)) closed
      one_client bound_first one_client_run

-- A shutdown does not come to the listener while an `accept` waits.
shutdown_waits : run_events (accept_begins ∷ shutdown_closes ∷ []) (bound 5037 (set_up 5037)) ≡ none
unfolding run_events bound
shutdown_waits = refl
