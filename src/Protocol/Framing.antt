-- ===== src/Protocol/Framing.antt =====
-- `encode_frame`, `write_frame` and `read_frame`: a message id, the payload's length as a u32, the
-- payload. A stream is the list of the bytes that arrive before the connection ends.
use zpenflow.Base.{
  ℕ, zero, suc, ◌%◌, ◌^◌, ◌≤◌, ◌≡◌, refl, ap, ◌∙◌, arith, true, false, ltb, List, [], ◌∷◌, ◌++◌,
  append_assoc, append-nil, sym, All, length, length-append, take, drop,
}
use zpenflow.Protocol.{ProtocolResult, ok, err, and_then, io, payload_too_large, max_payload_len}
use zpenflow.Protocol.Bytes.{to_be_bytes, from_be_bytes, from_be-to_be}

unfoldable pub encode_frame : ℕ → List ℕ → List ℕ
encode_frame msg_id payload = (msg_id ∷ to_be_bytes 4 (length payload % 2 ^ 32)) ++ payload

-- `write_frame`, to a peer that has received `sent`.
unfoldable pub write_frame : List ℕ → ℕ → List ℕ → List ℕ
unfolding encode_frame
write_frame sent msg_id payload = sent ++ encode_frame msg_id payload

-- `read_exact`, which waits for all bytes or fails at the end of the stream.
unfoldable pub read_exact : ℕ → List ℕ → ProtocolResult (List ℕ × List ℕ)
read_exact n stream = elim (ltb (length stream) n) [
  | true ↦ err io
  | false ↦ ok (take n stream, drop n stream)
]

-- The payload, once its length has been read.
unfoldable pub read_payload : ℕ → ℕ → List ℕ → ProtocolResult ((ℕ × List ℕ) × List ℕ)
read_payload msg_id len stream = elim (ltb max_payload_len len) [
  | true ↦ err (payload_too_large len)
  | false ↦ and_then (read_exact len stream) λ (payload, rest). ok ((msg_id, payload), rest)
]

unfoldable pub read_frame : List ℕ → ProtocolResult ((ℕ × List ℕ) × List ℕ)
read_frame [] = err io
read_frame (msg_id ∷ stream) =
    and_then (read_exact 4 stream) λ (len, rest). read_payload msg_id (from_be_bytes len) rest

-- A receiver's loop, for `n` messages.
unfoldable pub read_frames : ℕ → List ℕ → ProtocolResult (List (ℕ × List ℕ) × List ℕ)
read_frames zero stream = ok ([], stream)
read_frames (suc n) stream =
    and_then (read_frame stream)
      λ (m, rest). and_then (read_frames n rest) λ (ms, rest'). ok (m ∷ ms, rest')

-- What a sender writes for a list of messages.
unfoldable pub write_frames : List ℕ → List (ℕ × List ℕ) → List ℕ
write_frames sent [] = sent
write_frames sent ((msg_id, payload) ∷ ms) = write_frames (write_frame sent msg_id payload) ms

take-append : (xs ys : List ℕ) → take (length xs) (xs ++ ys) ≡ xs
take-append [] ys = refl
take-append (x ∷ xs) ys = ap (λ l. x ∷ l) (take-append xs ys)

drop-append : (xs ys : List ℕ) → drop (length xs) (xs ++ ys) ≡ ys
drop-append [] ys = refl
drop-append (x ∷ xs) ys = drop-append xs ys

read_exact-append : (xs ys : List ℕ) → read_exact (length xs) (xs ++ ys) ≡ ok (xs, ys)
unfolding read_exact
read_exact-append xs ys =
    let enough : ltb (length (xs ++ ys)) (length xs) ≡ false =
      ground (arith, length-append xs ys) in
    rw (enough, read_exact, take-append xs ys, drop-append xs ys) refl

-- The four bytes of a length.
read_length :
    (n : ℕ) (rest : List ℕ) → read_exact 4 (to_be_bytes 4 n ++ rest) ≡ ok (to_be_bytes 4 n, rest)
unfolding to_be_bytes
read_length n rest = read_exact-append (to_be_bytes 4 n) rest

read_payload-append :
    (msg_id : ℕ) (payload rest : List ℕ)
    → length payload ≤ max_payload_len
    → read_payload msg_id (length payload) (payload ++ rest) ≡ ok ((msg_id, payload), rest)
unfolding read_payload
read_payload-append msg_id payload rest h =
    let allowed : ltb max_payload_len (length payload) ≡ false = ground arith in
    rw (allowed, read_payload, read_exact-append payload rest) refl

-- A payload of at most `MAX_PAYLOAD_LEN` bytes is read back, and what follows it is left.
pub read_frame-encode_frame :
    (msg_id : ℕ) (payload rest : List ℕ)
    → length payload ≤ max_payload_len
    → read_frame (encode_frame msg_id payload ++ rest) ≡ ok ((msg_id, payload), rest)
unfolding read_frame encode_frame
read_frame-encode_frame msg_id payload rest h =
    let n = length payload % 2 ^ 32 in
    let fits : length payload % 2 ^ 32 ≡ length payload = omega arith in
    let four : read_exact 4 (to_be_bytes 4 n ++ (payload ++ rest))
        ≡ ok (to_be_bytes 4 n, payload ++ rest) =
      read_length n (payload ++ rest) in
    let value : from_be_bytes (to_be_bytes 4 n) ≡ length payload =
      from_be-to_be 4 n (omega arith) ∙ fits in
    rw
      (
        append_assoc (to_be_bytes 4 n) payload rest,
        four,
        value,
        read_payload-append msg_id payload rest h,
      )
      refl

write_frames-nil :
    (sent : List ℕ) (ms : List (ℕ × List ℕ)) → write_frames sent ms ≡ sent ++ write_frames [] ms
unfolding write_frames write_frame
write_frames-nil sent [] = sym (append-nil sent)
write_frames-nil sent ((msg_id, payload) ∷ ms) =
    let f = encode_frame msg_id payload in
    write_frames-nil (sent ++ f) ms
    ∙ append_assoc sent f (write_frames [] ms)
    ∙ ap (λ l. sent ++ l) (sym (write_frames-nil f ms))

-- Messages of at most `MAX_PAYLOAD_LEN` bytes that are written one after the other are read one after
-- the other as they were sent, and no byte is left over.
pub read_frames-write_frames :
    (ms : List (ℕ × List ℕ))
    → All (λ m. length m.1 ≤ max_payload_len) ms
    → read_frames (length ms) (write_frames [] ms) ≡ ok (ms, [])
unfolding read_frames write_frames write_frame
read_frames-write_frames [] h = refl
read_frames-write_frames ((msg_id, payload) ∷ ms) (h, hs) =
    rw
      (
        write_frames-nil (encode_frame msg_id payload) ms,
        read_frame-encode_frame msg_id payload (write_frames [] ms) h,
        read_frames-write_frames ms hs,
      )
      refl
