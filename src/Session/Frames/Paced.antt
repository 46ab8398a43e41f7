-- ===== src/Session/Frames/Paced.antt =====
-- When the session asks the encoder for a key frame.
use zpenflow.Base.{
  ℕ, ◌+◌, ◌-◌, ◌≤◌, ◌<◌, ◌≡◌, refl, leb, leb→le, Bool, true, false, ◌&&◌, not, List, [], ◌∷◌,
  length, Option, none, some, arith,
}
use zpenflow.Session.Frames.{
  EncodedPacket, wants_idr, Pump, requested, pump_packet, pump_all, new_pump, frame_pump,
}
use zpenflow.Session.Stats.{Stats}

-- Each time is at least the interval after the next in the list.
abbrev pub Spaced : ℕ → List ℕ → ℕ → Type 0
Spaced interval [] start = Unit
Spaced interval (t ∷ []) start = start + interval ≤ t
Spaced interval (t ∷ u ∷ ts) start = (u + interval ≤ t) × Spaced interval (u ∷ ts) start

-- The last request, or the start.
abbrev newest : List ℕ → ℕ → ℕ
newest [] start = start
newest (t ∷ ts) start = t

Spaced-cons :
    (interval t start : ℕ) (ts : List ℕ)
    → newest ts start + interval ≤ t
    → Spaced interval ts start
    → Spaced interval (t ∷ ts) start
Spaced-cons interval t start [] h k = h
Spaced-cons interval t start (u ∷ ts) h k = (h, k)

abbrev pub Paced : ℕ → ℕ → Pump → Type 0
Paced interval start p =
    Spaced interval p.idr_requests start × (newest p.idr_requests start ≡ p.last_motion_idr)

last_true : (a b c : Bool) → a && b && c ≡ true → c ≡ true
last_true true true c h = h
last_true true false c h = cc
last_true false b c h = cc

wants_idr-interval :
    (threshold : Option ℕ) (interval last now : ℕ) (pkt : EncodedPacket)
    → wants_idr threshold interval last now pkt ≡ true
    → interval ≤ now - last
unfolding wants_idr
wants_idr-interval none interval last now pkt h = cc
wants_idr-interval (some threshold) interval last now pkt h = leb→le interval (now - last) (
    last_true (not pkt.is_keyframe) (leb threshold (length pkt.bytes)) (leb interval (now - last))
      h)

requested-Paced :
    (interval start now : ℕ) (b : Bool) (p : Pump)
    → 0 < interval
    → (b ≡ true → interval ≤ now - p.last_motion_idr)
    → Paced interval start p
    → Paced interval start (requested b now p)
unfolding requested
requested-Paced interval start now false p pos h k = k
requested-Paced interval start now true p pos h (spaced, last) =
    (Spaced-cons interval now start p.idr_requests (omega (arith, h refl, last)) spaced, refl)

pump_all-Paced :
    (threshold : Option ℕ) (interval start : ℕ) (packets : List (ℕ × ℕ × EncodedPacket)) (p : Pump)
    → 0 < interval
    → Paced interval start p
    → Paced interval start (pump_all threshold interval packets p)
unfolding pump_all pump_packet
pump_all-Paced threshold interval start [] p pos h = h
pump_all-Paced threshold interval start ((now, depth, pkt) ∷ later) p pos h =
    let b = wants_idr threshold interval p.last_motion_idr now pkt in
    pump_all-Paced threshold interval start later (pump_packet threshold interval now depth pkt p)
      pos
      (requested-Paced interval start now b p pos
        (wants_idr-interval threshold interval p.last_motion_idr now pkt) h)

-- The requests, the newest first: each is at least the interval after the one before, and the first is
-- not before the start.
unfoldable pub Apart : ℕ → List ℕ → ℕ → Type 0
Apart interval [] start = Unit
Apart interval (t ∷ []) start = start ≤ t
Apart interval (t ∷ u ∷ ts) start = (u + interval ≤ t) × Apart interval (u ∷ ts) start

Spaced-Apart :
    (interval start : ℕ) (ts : List ℕ)
    → interval ≤ start
    → Spaced interval ts (start - interval)
    → Apart interval ts start
unfolding Apart
Spaced-Apart interval start [] le h = tt
Spaced-Apart interval start (t ∷ []) le h = omega arith
Spaced-Apart interval start (t ∷ u ∷ ts) le (h, k) = (h, Spaced-Apart interval start (u ∷ ts) le k)

-- Two requests of the frame pump for a key frame are never closer than the interval, and none is made
-- before the pump begins, whatever the packets and the times are; given an interval that is not zero,
-- and a clock that has run for as long when the pump begins.
pub frame_pump-Apart :
    (threshold : Option ℕ) (interval start : ℕ) (packets : List (ℕ × ℕ × EncodedPacket))
    (stats : Stats) (sent : List ℕ)
    → 0 < interval
    → interval ≤ start
    → Apart interval (frame_pump threshold interval start packets stats sent).idr_requests start
unfolding frame_pump new_pump
frame_pump-Apart threshold interval start packets stats sent pos le =
    Spaced-Apart interval start
      (frame_pump threshold interval start packets stats sent).idr_requests le
      (pump_all-Paced threshold interval (start - interval) packets
        (new_pump interval start stats sent) pos (tt, refl)).0
