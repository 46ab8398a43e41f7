-- ===== src/Session/Reading/Ends.antt =====
-- The loop ends, and what its messages keep, it keeps.
use zpenflow.Base.{
  ℕ, zero, suc, ◌≤◌, ◌<◌, ◌≡◌, refl, sym, ◌⊎◌, Bool-cases, inl, inr, List, [], ◌∷◌, length, take,
  drop, length-drop, ltb, arith,
}
use mathlib.Core.Path.{subst}
use zpenflow.Protocol.{
  ProtocolError, ProtocolResult, ok, err, and_then, io, payload_too_large, malformed,
  max_payload_len,
}
use zpenflow.Protocol.Bytes.{from_be_bytes}
use zpenflow.Protocol.Framing.{read_exact, read_payload, read_frame}
use zpenflow.Session.Reading.{
  Env, Reading, Turn, next, ended, broken, on_read_error, on_message, pass, read_loop,
}

and_then-ok {ℓ κ} :
    {A : Type ℓ} {B : Type κ} (m : ProtocolResult A) (f : A → ProtocolResult B) (b : B)
    → and_then m f ≡ ok b
    → (a : A) × (m ≡ ok a) × (f a ≡ ok b)
and_then-ok (ok a) f b h = (a, refl, h)
and_then-ok (err e) f b h = cc

-- What is read does not grow the stream.
read_exact-le :
    (n : ℕ) (stream a rest : List ℕ)
    → read_exact n stream ≡ ok (a, rest)
    → length rest ≤ length stream
unfolding read_exact
read_exact-le n stream a rest h = elim (Bool-cases (ltb (length stream) n)) [
  | inl e ↦
      let x : ◌≡◌ {A = ProtocolResult (List ℕ × List ℕ)} (err io) (ok (a, rest)) =
        rw (e, read_exact) at h in
      cc
  | inr e ↦
      let x : ok (take n stream, drop n stream) ≡ ok (a, rest) = rw (e, read_exact) at h in
      let y : drop n stream ≡ rest = cc in
      subst (λ (l : List ℕ). length l ≤ length stream) y (omega (arith, length-drop n stream))
]

read_payload-le :
    (msg_id len : ℕ) (stream : List ℕ) (m : ℕ × List ℕ) (rest : List ℕ)
    → read_payload msg_id len stream ≡ ok (m, rest)
    → length rest ≤ length stream
unfolding read_payload
read_payload-le msg_id len stream m rest h = elim (Bool-cases (ltb max_payload_len len)) [
  | inl e ↦
      let x : ◌≡◌ {A = ProtocolResult ((ℕ × List ℕ) × List ℕ)} (err (payload_too_large len))
          (ok (m, rest)) =
        rw (e, read_payload) at h in
      cc
  | inr e ↦
      let x : and_then (read_exact len stream) (λ (payload, r). ok ((msg_id, payload), r))
          ≡ ok (m, rest) =
        rw (e, read_payload) at h in
      let ((payload, r), a, b) =
        and_then-ok (read_exact len stream) (λ (payload, r). ok ((msg_id, payload), r)) (m, rest)
          x in
      let y : r ≡ rest = cc in
      subst (λ (l : List ℕ). length l ≤ length stream) y (read_exact-le len stream payload r a)
]

-- A message takes bytes of the stream.
read_frame-lt :
    (stream : List ℕ) (m : ℕ × List ℕ) (rest : List ℕ)
    → read_frame stream ≡ ok (m, rest)
    → length rest < length stream
unfolding read_frame
read_frame-lt [] m rest h = cc
read_frame-lt (msg_id ∷ stream) m rest h =
    let ((len, r), a, b) =
      and_then-ok (read_exact 4 stream) (λ (len, r). read_payload msg_id (from_be_bytes len) r)
        (m, rest) h in
    omega
      (arith, read_exact-le 4 stream len r a, read_payload-le msg_id (from_be_bytes len) r m rest b)

abbrev pub IsEnd : Turn → Type 0
IsEnd t =
    ((st : Reading) × (t ≡ ended st)) ⊎ ((e : ProtocolError) × (st : Reading) × (t ≡ broken e st))

frame_cases :
    (r : ProtocolResult ((ℕ × List ℕ) × List ℕ))
    → ((e : ProtocolError) × (r ≡ err e))
      ⊎ ((msg_id : ℕ) × (payload : List ℕ) × (rest : List ℕ) × (r ≡ ok ((msg_id, payload), rest)))
frame_cases (err e) = inl (e, refl)
frame_cases (ok ((msg_id, payload), rest)) = inr (msg_id, payload, rest, refl)

on_read_error-IsEnd : (e : ProtocolError) (st st' : Reading) → on_read_error e st ≡ next st' → ⊥
unfolding on_read_error
on_read_error-IsEnd io st st' h = cc
on_read_error-IsEnd (payload_too_large n) st st' h = cc
on_read_error-IsEnd (malformed id s) st st' h = cc

-- A pass that goes on leaves fewer bytes.
pass-lt :
    (env : Env) (stream : List ℕ) (st st' : Reading)
    → (pass env stream st).0 ≡ next st'
    → length (pass env stream st).1 < length stream
unfolding pass
pass-lt env stream st st' h = elim (frame_cases (read_frame stream)) [
  | inl (e, r) ↦
      let x : on_read_error e st ≡ next st' = rw (r, pass) at h in
      absurd (on_read_error-IsEnd e st st' x)
  | inr (msg_id, payload, rest, r) ↦ rw (r, pass) (read_frame-lt stream (msg_id, payload) rest r)
]

turn_ends :
    (env : Env) (fuel : ℕ) (t : Turn) (rest : List ℕ)
    → ((st : Reading) → t ≡ next st → IsEnd (read_loop env fuel rest st))
    → IsEnd (elim t [
      | next st ↦ read_loop env fuel rest st
      | ended st ↦ ended st
      | broken e st ↦ broken e st
    ])
turn_ends env fuel (next st) rest h = h st refl
turn_ends env fuel (ended st) rest h = inl (st, refl)
turn_ends env fuel (broken e st) rest h = inr (e, st, refl)

-- Whatever bytes the client sends, the loop ends with more fuel than bytes: each message takes some.
pub read_loop-IsEnd :
    (env : Env) (fuel : ℕ) (stream : List ℕ) (st : Reading)
    → length stream < fuel
    → IsEnd (read_loop env fuel stream st)
unfolding read_loop
read_loop-IsEnd env zero stream st h = absurd (omega arith)
read_loop-IsEnd env (suc fuel) stream st h =
    turn_ends env fuel (pass env stream st).0 (pass env stream st).1 (λ st' e.
      read_loop-IsEnd env fuel (pass env stream st).1 st'
        (omega (arith, pass-lt env stream st st' e)))

-- Where a turn leaves the session.
unfoldable pub state_of : Turn → Reading
state_of (next st) = st
state_of (ended st) = st
state_of (broken e st) = st

on_read_error-state : (e : ProtocolError) (st : Reading) → state_of (on_read_error e st) ≡ st
unfolding on_read_error state_of
on_read_error-state io st = refl
on_read_error-state (payload_too_large n) st = refl
on_read_error-state (malformed id s) st = refl

-- A message keeps what holds of a state.
abbrev pub Keeps : Env → (Reading → Type 0) → Type 0
Keeps env P =
    (msg_id : ℕ) (payload : List ℕ) (st : Reading)
    → P st
    → P (state_of (on_message env msg_id payload st))

module _ (env : Env) (P : Reading → Type 0) (keep : Keeps env P) where
  pass-keeps : (stream : List ℕ) (st : Reading) → P st → P (state_of (pass env stream st).0)
  unfolding pass
  pass-keeps stream st p = elim (frame_cases (read_frame stream)) [
    | inl (e, r) ↦ rw (r, pass) (subst P (sym (on_read_error-state e st)) p)
    | inr (msg_id, payload, rest, r) ↦ rw (r, pass) (keep msg_id payload st p)
  ]

  turn_keeps :
      (fuel : ℕ) (t : Turn) (rest : List ℕ)
      → P (state_of t)
      → ((st : Reading) → P st → P (state_of (read_loop env fuel rest st)))
      → P (
          state_of (elim t [
            | next st ↦ read_loop env fuel rest st
            | ended st ↦ ended st
            | broken e st ↦ broken e st
          ]))
  unfolding state_of
  turn_keeps fuel (next st) rest p h = h st p
  turn_keeps fuel (ended st) rest p h = p
  turn_keeps fuel (broken e st) rest p h = p

  pub read_loop-keeps :
      (fuel : ℕ) (stream : List ℕ) (st : Reading)
      → P st
      → P (state_of (read_loop env fuel stream st))
  unfolding read_loop state_of
  read_loop-keeps zero stream st p = p
  read_loop-keeps (suc fuel) stream st p =
      turn_keeps fuel (pass env stream st).0 (pass env stream st).1 (pass-keeps stream st p)
        (λ st' p'. read_loop-keeps fuel (pass env stream st).1 st' p')
