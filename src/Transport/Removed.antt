-- ===== src/Transport/Removed.antt =====
-- How often the rule of a transport is removed.
use zpenflow.Base.{
  ℕ, zero, suc, ◌≡◌, refl, ap, ◌∙◌, sym, Bool, true, false, List, [], ◌∷◌, ◌++◌, Option, none, some,
  if◌then◌else◌,
}
use zpenflow.Transport.{
  AdbCall, start_server, remove_reverse, add_reverse, Transport, bound, set_up_reverse,
  with_listener, bind_with_adb, TransportEvent, accept_begins, accept_ends, shutdown_closes,
  shutdown_locks, shutdown_dropped, removal_ends, removal_dropped, begin_removal, lock_flag,
  drop_waiting, transport_step, run_events, drop_transport,
}

unfoldable pub removals : ℕ → List AdbCall
removals zero = []
removals (suc n) = remove_reverse ∷ removals n

-- The removals that nobody waited for to the end, counted on from `n`.
unfoldable pub after_event : TransportEvent → ℕ → ℕ
after_event removal_dropped n = suc n
after_event accept_begins n = n
after_event (accept_ends peer) n = n
after_event shutdown_closes n = n
after_event shutdown_locks n = n
after_event shutdown_dropped n = n
after_event removal_ends n = n

unfoldable pub given_up : List TransportEvent → ℕ → ℕ
unfolding after_event
given_up [] n = n
given_up (event ∷ events) n = given_up events (after_event event n)

-- With `n` removals given up: as many calls, and one more where the rule is being removed or is gone.
unfoldable pub Stage : ℕ → Bool → Bool → List AdbCall → List AdbCall → Type 0
Stage n true true base calls = calls ≡ removals (suc n) ++ base
Stage n false true base calls = calls ≡ removals n ++ base
Stage n false false base calls = calls ≡ removals (suc n) ++ base
Stage n true false base calls = ⊥

abbrev pub IsAt : ℕ → List AdbCall → Transport → Type 0
IsAt n base t = Stage n t.removing t.reverse_active base t.calls

unfoldable pub Every : (Transport → Type 0) → Option Transport → Type 0
Every P none = Unit
Every P (some t) = P t

-- A transport by its fields, so that proofs split on them.
abbrev transport : Bool → ℕ → Bool → Bool → Bool → ℕ → List ℕ → List AdbCall → Transport
transport listener port active accepting removing closing peers calls = record {
  listener = listener;
  bound_port = port;
  reverse_active = active;
  accepting = accepting;
  removing = removing;
  closing = closing;
  peers = peers;
  calls = calls;
}

transport_step-Stage :
    (n : ℕ) (base : List AdbCall) (event : TransportEvent) (listener : Bool) (port : ℕ)
    (active accepting removing : Bool) (closing : ℕ) (peers : List ℕ) (calls : List AdbCall)
    → Stage n removing active base calls
    → Every (IsAt (after_event event n) base) (
        transport_step event
          (transport listener port active accepting removing closing peers calls))
unfolding Every Stage transport_step lock_flag begin_removal drop_waiting after_event removals
transport_step-Stage n base accept_begins l p a true r c ps cs h = tt
transport_step-Stage n base accept_begins true p a false r c ps cs h = h
transport_step-Stage n base accept_begins false p a false r c ps cs h = h
transport_step-Stage n base (accept_ends peer) l p a true r c ps cs h = h
transport_step-Stage n base (accept_ends peer) l p a false r c ps cs h = tt
transport_step-Stage n base shutdown_closes l p a true r c ps cs h = tt
transport_step-Stage n base shutdown_closes l p a false r c ps cs h = h
transport_step-Stage n base shutdown_locks l p a acc r zero ps cs h = tt
transport_step-Stage n base shutdown_locks l p a acc true (suc c) ps cs h = tt
transport_step-Stage n base shutdown_locks l p true acc false (suc c) ps cs h =
    ap (λ (k : List AdbCall). remove_reverse ∷ k) h
transport_step-Stage n base shutdown_locks l p false acc false (suc c) ps cs h = h
transport_step-Stage n base shutdown_dropped l p a acc r zero ps cs h = tt
transport_step-Stage n base shutdown_dropped l p a acc r (suc c) ps cs h = h
transport_step-Stage n base removal_ends l p true acc true c ps cs h = h
transport_step-Stage n base removal_ends l p false acc true c ps cs h = absurd h
transport_step-Stage n base removal_ends l p a acc false c ps cs h = tt
transport_step-Stage n base removal_dropped l p true acc true c ps cs h = h
transport_step-Stage n base removal_dropped l p false acc true c ps cs h = absurd h
transport_step-Stage n base removal_dropped l p a acc false c ps cs h = tt

transport_step-IsAt :
    (n : ℕ) (base : List AdbCall) (event : TransportEvent) (t : Transport)
    → IsAt n base t
    → Every (IsAt (after_event event n) base) (transport_step event t)
transport_step-IsAt n base event t h =
    transport_step-Stage n base event t.listener t.bound_port t.reverse_active t.accepting
      t.removing t.closing t.peers t.calls h

-- What every step keeps, every run keeps.
then-IsAt :
    (n : ℕ) (base : List AdbCall) (events : List TransportEvent) (o : Option Transport)
    → Every (IsAt n base) o
    → ((t : Transport)
        → IsAt n base t
        → Every (IsAt (given_up events n) base) (run_events events t))
    → Every (IsAt (given_up events n) base) (elim o [ none ↦ none | some t ↦ run_events events t ])
unfolding Every
then-IsAt n base events none h go = tt
then-IsAt n base events (some t) h go = go t h

run_events-IsAt :
    (n : ℕ) (base : List AdbCall) (events : List TransportEvent) (t : Transport)
    → IsAt n base t
    → Every (IsAt (given_up events n) base) (run_events events t)
unfolding run_events given_up Every
run_events-IsAt n base [] t h = h
run_events-IsAt n base (event ∷ events) t h =
    then-IsAt (after_event event n) base events (transport_step event t)
      (transport_step-IsAt n base event t h) (run_events-IsAt (after_event event n) base events)

dropped-Stage :
    (n : ℕ) (base : List AdbCall) (listener : Bool) (port : ℕ) (active accepting removing : Bool)
    (closing : ℕ) (peers : List ℕ) (calls : List AdbCall)
    → Stage n removing active base calls
    → drop_transport (transport listener port active accepting removing closing peers calls)
      ≡ removals (suc n) ++ base
unfolding Stage drop_transport removals
dropped-Stage n base l p true acc true c ps cs h = h
dropped-Stage n base l p false acc true c ps cs h = absurd h
dropped-Stage n base l p true acc false c ps cs h = ap (λ (k : List AdbCall). remove_reverse ∷ k) h
dropped-Stage n base l p false acc false c ps cs h = h

run_events-removals :
    (port : ℕ) (base : List AdbCall) (events : List TransportEvent) (t : Transport)
    → run_events events (bound port base) ≡ some t
    → drop_transport t ≡ removals (suc (given_up events 0)) ++ base
unfolding Stage bound removals Every
run_events-removals port base events t e =
    let h = run_events-IsAt 0 base events (bound port base) refl in
    dropped-Stage (given_up events 0) base t.listener t.bound_port t.reverse_active t.accepting
      t.removing t.closing t.peers t.calls (rw e at h)

-- The calls of a binding that succeeds, the newest first.
abbrev pub set_up : ℕ → List AdbCall
set_up port = add_reverse port ∷ remove_reverse ∷ start_server ∷ []

unfoldable IsFresh : Option ℕ → Option Transport × List AdbCall → Type 0
IsFresh port (none, calls) = Unit
IsFresh port (some t, calls) = (p : ℕ) × (port ≡ some p) × (t ≡ bound p (set_up p))

if-IsFresh :
    (port : Option ℕ) (b : Bool) (x y : Option Transport × List AdbCall)
    → IsFresh port x
    → IsFresh port y
    → IsFresh port (if b then x else y)
if-IsFresh port true x y h k = h
if-IsFresh port false x y h k = k

bind_with_adb-IsFresh :
    (adb : List AdbCall → AdbCall → Bool) (port : Option ℕ) → IsFresh port (bind_with_adb adb port)
unfolding bind_with_adb with_listener set_up_reverse IsFresh
bind_with_adb-IsFresh adb none = if-IsFresh none (adb [] start_server) _ _ tt tt
bind_with_adb-IsFresh adb (some p) =
    if-IsFresh (some p) (adb [] start_server) _ _
      (if-IsFresh (some p) (adb (remove_reverse ∷ start_server ∷ []) (add_reverse p)) _ _
        (p, refl, refl) tt)
      tt

-- Whatever tasks do with a transport that was bound, in whatever order: once it is dropped, its rule has
-- been removed after it was added, exactly once, and once more for each removal whose shutdown was
-- dropped before its end; and adb was called for nothing else.
pub drop-removes :
    (adb : List AdbCall → AdbCall → Bool) (port : Option ℕ) (calls : List AdbCall)
    (t0 t : Transport) (events : List TransportEvent)
    → bind_with_adb adb port ≡ (some t0, calls)
    → run_events events t0 ≡ some t
    → (p : ℕ) × (port ≡ some p)
      × (drop_transport t ≡ removals (suc (given_up events 0)) ++ set_up p)
unfolding IsFresh
drop-removes adb port calls t0 t events e r =
    let fresh = bind_with_adb-IsFresh adb port in
    let (p, is_p, same) = rw e at fresh in
    (
      p,
      is_p,
      run_events-removals p (set_up p) events t
          (ap (λ (x : Transport). run_events events x) (sym same) ∙ r),
    )
