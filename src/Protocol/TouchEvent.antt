-- ===== src/Protocol/TouchEvent.antt =====
-- `TouchEvent`, the fingers on the panel: a count, and as many contacts. The time stamp is the bit
-- pattern of an i64, and the measures of a contact are those of f32.
use zpenflow.Base.{
  ℕ, zero, suc, ◌+◌, ◌*◌, ◌%◌, ◌≤◌, ◌≡◌, refl, sym, ap, ◌∙◌, ◌==◌, min, arith, false, ltb, List, [],
  ◌∷◌, ◌++◌, length, not, get_or, take, drop, All, if◌then◌else◌,
}
use zpenflow.Base.Words.{IsU32, IsU64}
use zpenflow.Protocol.{ProtocolResult, ok, err, malformed, msg_touch_event}
use zpenflow.Protocol.Bytes.{to_be_bytes, from_be_bytes, from_be-to_be, slice, behind_header}

pub record TouchContact : Type 0 where
  pub pointer_id : ℕ
  pub x_norm : ℕ
  pub y_norm : ℕ
  pub pressure : ℕ

pub record TouchEvent : Type 0 where
  pub ts_ns : ℕ
  pub contacts : List TouchContact

unfoldable pub encode_contacts : List TouchContact → List ℕ
encode_contacts [] = []
encode_contacts (c ∷ cs) =
    (c.pointer_id
      ∷ (to_be_bytes 4 c.x_norm ++ (to_be_bytes 4 c.y_norm ++ to_be_bytes 4 c.pressure)))
    ++ encode_contacts cs

unfoldable pub encode : TouchEvent → List ℕ
unfolding encode_contacts
encode m =
    let n = min (length m.contacts) 255 in
    to_be_bytes 8 m.ts_ns ++ (n % 256 ∷ encode_contacts (take n m.contacts))

-- The loop over the contacts, on the bytes from its offset on.
unfoldable pub decode_contacts : ℕ → List ℕ → List TouchContact
decode_contacts zero bytes = []
decode_contacts (suc n) bytes =
    record {
      pointer_id = get_or bytes 0 0;
      x_norm = from_be_bytes (slice 1 5 bytes);
      y_norm = from_be_bytes (slice 5 9 bytes);
      pressure = from_be_bytes (slice 9 13 bytes);
    }
    ∷ decode_contacts n (drop 13 bytes)

unfoldable pub decode : List ℕ → ProtocolResult TouchEvent
unfolding decode_contacts
decode payload =
    if ltb (length payload) 9
    then err (malformed msg_touch_event "TOUCH_EVENT header truncated")
    else (let count = get_or payload 8 0 in
        if not (length payload == 9 + count * 13)
        then err (malformed msg_touch_event "TOUCH_EVENT contact count mismatch")
        else ok (record {
          ts_ns = from_be_bytes (slice 0 8 payload);
          contacts = decode_contacts count (drop 9 payload);
        }))

abbrev pub IsTouchContact : TouchContact → Type 0
IsTouchContact c = IsU32 c.x_norm × IsU32 c.y_norm × IsU32 c.pressure

decode_contacts-encode :
    (cs : List TouchContact)
    → All IsTouchContact cs
    → decode_contacts (length cs) (encode_contacts cs) ≡ cs
unfolding decode_contacts encode_contacts to_be_bytes
decode_contacts-encode [] h = refl
decode_contacts-encode (c ∷ cs) ((x, y, p), h) =
    rw
      (
        from_be-to_be 4 c.x_norm x,
        from_be-to_be 4 c.y_norm y,
        from_be-to_be 4 c.pressure p,
        decode_contacts-encode cs h,
      )
      refl

length-encode_contacts : (cs : List TouchContact) → length (encode_contacts cs) ≡ length cs * 13
unfolding encode_contacts to_be_bytes
length-encode_contacts [] = refl
length-encode_contacts (c ∷ cs) = omega (arith, length-encode_contacts cs)

-- The first contacts of an event.
All-take : (n : ℕ) (cs : List TouchContact) → All IsTouchContact cs → All IsTouchContact (take n cs)
All-take zero cs h = tt
All-take (suc n) [] h = tt
All-take (suc n) (c ∷ cs) (p, h) = (p, All-take n cs h)

length-take : (n : ℕ) (cs : List TouchContact) → n ≤ length cs → length (take n cs) ≡ n
length-take zero cs h = refl
length-take (suc n) [] h = absurd (omega arith)
length-take (suc n) (c ∷ cs) h = omega (arith, length-take n cs (omega arith))

-- What a receiver makes of a snapshot.
unfoldable pub received : TouchEvent → TouchEvent
received m = record { ts_ns = m.ts_ns; contacts = take (min (length m.contacts) 255) m.contacts }

-- A snapshot whose fields fit their widths is decoded as it was encoded, but for the contacts behind
-- the 255th.
pub decode-encode_touch_event :
    (m : TouchEvent)
    → IsU64 m.ts_ns
    → All IsTouchContact m.contacts
    → decode (encode m) ≡ ok (received m)
unfolding decode encode received to_be_bytes
decode-encode_touch_event m t h =
    let n = min (length m.contacts) 255 in
    let kept = take n m.contacts in
    let bytes = encode_contacts kept in
    let len : length kept ≡ n = length-take n m.contacts (omega arith) in
    let count : n % 256 ≡ n = omega arith in
    let long : ltb (behind_header bytes) 9 ≡ false = ground arith in
    let whole : not (behind_header bytes == 9 + n * 13) ≡ false =
      ground (arith, length-encode_contacts kept, len) in
    let contacts : decode_contacts n bytes ≡ kept =
      ap (λ k. decode_contacts k bytes) (sym len)
      ∙ decode_contacts-encode kept (All-take n m.contacts h) in
    rw (count, decode) (rw (long, whole, from_be-to_be 8 m.ts_ns t, contacts) refl)
