-- ===== src/Sps/Walker/Rbsp.antt =====
-- A rewriter as a function on byte strings: run the walker, add the trailing bits.
use zpenflow.Base.{
  ℕ, zero, suc, ◌+◌, ◌-◌, ◌*◌, ◌/◌, ◌%◌, ◌≤◌, ◌≡◌, refl, sym, ap, ◌∙◌, arith, List, [], ◌++◌,
  length, length-append, All, All-append, append-nil, append_assoc, Bool, true, false, Bool-cases,
  inl, inr, ◌==◌,
}
use zpenflow.Base.Words.{IsBit, low_bits}
use zpenflow.Engine.{EngineResult, ok, and_then, and_then-eq-ok}
use zpenflow.Sps.Bits.{bits_of, bits_of-IsBit, length-bits_of, to_bits, to_bits-pack}
use zpenflow.Sps.Reader
use zpenflow.Sps.Reader.View.{remaining}
use zpenflow.Sps.Writer
use zpenflow.Sps.Writer.{BitWriter}
use zpenflow.Sps.Writer.Packed.{
  holding, write_bits-holding, new-holding, bytes-holding, bit_pos-holding,
}
use zpenflow.Sps.Walker.{Walk, io, ◌>>=◌, ◌>>◌, writing}
use zpenflow.Sps.Walker.Inversion.{bind-eq-ok, writing-eq-ok}
use zpenflow.Sps.Walker.Runs.{Runs}
use zpenflow.Sps.Walker.Replays.{Replays, echo}

-- Zeros up to a byte boundary.
pad_to_byte-holding :
    (fuel : ℕ) (bs : List ℕ)
    → All IsBit bs
    → (8 - length bs % 8) % 8 ≤ fuel
    → (zs : List ℕ) × (Writer.pad_to_byte fuel (holding bs) ≡ holding (bs ++ zs))
      × All IsBit zs
      × (length (bs ++ zs) % 8 ≡ 0)
unfolding Writer.pad_to_byte
pad_to_byte-holding zero bs h hf =
    ([], ap holding (sym (append-nil bs)), tt, rw append-nil (omega arith))
pad_to_byte-holding (suc fuel) bs h hf = elim (Bool-cases (length bs % 8 == 0)) [
  | inl done ↦ (
    [],
    rw (at_boundary done) (ap holding (sym (append-nil bs))),
    tt,
    rw append-nil (ground arith),
  )
  | inr more ↦
      let bs1 = bs ++ bits_of 1 0 in
      let h1 = All-append IsBit bs (bits_of 1 0) h (bits_of-IsBit 1 0) in
      let len : length bs1 ≡ length bs + 1 =
        length-append bs (bits_of 1 0) ∙ ap (λ (t : ℕ). length bs + t) (length-bits_of 1 0) in
      let (zs, e, b, l) = pad_to_byte-holding fuel bs1 h1 (ground (arith, len)) in
      (
        bits_of 1 0 ++ zs,
        rw (at_boundary more, write_bits-holding 0 1 bs h)
            (e ∙ ap holding (append_assoc bs (bits_of 1 0) zs)),
        All-append IsBit (bits_of 1 0) zs (bits_of-IsBit 1 0) b,
        rw (append_assoc bs (bits_of 1 0) zs) at l,
      )
]
  where
    at_boundary : {b : Bool} → (length bs % 8 == 0) ≡ b → (low_bits (holding bs).bit_pos 3 == 0) ≡ b
    at_boundary e = ap (λ (t : ℕ). t % 8 == 0) (bit_pos-holding bs) ∙ e

-- A one, and zeros up to a byte boundary.
write_rbsp_trailing_bits-holding :
    (bs : List ℕ)
    → All IsBit bs
    → (ts : List ℕ) × (Writer.write_rbsp_trailing_bits (holding bs) ≡ holding (bs ++ ts))
      × All IsBit ts
      × (length (bs ++ ts) % 8 ≡ 0)
unfolding Writer.write_rbsp_trailing_bits
write_rbsp_trailing_bits-holding bs h =
    let one = bits_of 1 1 in
    let h1 = All-append IsBit bs one h (bits_of-IsBit 1 1) in
    let (zs, e, b, l) = pad_to_byte-holding 7 (bs ++ one) h1 (omega arith) in
    (
      one ++ zs,
      ap (Writer.pad_to_byte 7) (write_bits-holding 1 1 bs h)
          ∙ e
          ∙ ap holding (append_assoc bs one zs),
      All-append IsBit one zs (bits_of-IsBit 1 1) b,
      rw (append_assoc bs one zs) at l,
    )

unfoldable pub rewrite_rbsp : Walk (Unit {0}) → List ℕ → EngineResult (List ℕ)
rewrite_rbsp m rbsp =
    and_then ((do m; writing Writer.write_rbsp_trailing_bits) (io (Reader.new rbsp) Writer.new))
      λ (_, s). ok s.writer.bytes

-- What a decoder makes of a byte string.
unfoldable pub decode_rbsp : {A : Type 0} → Walk A → List ℕ → EngineResult A
decode_rbsp p rbsp = and_then (p (io (Reader.new rbsp) Writer.new)) λ (a, _). ok a

pub remaining-new : (bytes : List ℕ) → remaining (Reader.new bytes) ≡ to_bits bytes
unfolding remaining
remaining-new bytes = refl

-- A rewritten byte string holds what the walker wrote, and the trailing bits.
rewritten :
    {B : Type 0} {mode : Bool} {m : Walk (Unit {0})} {p : Walk B} {f : Unit {0} → B}
    → Replays mode m p f
    → (x y : List ℕ) → rewrite_rbsp m x ≡ ok y
    → (es ts : List ℕ) × (to_bits y ≡ es ++ ts)
      × (y ≡ (Writer.write_rbsp_trailing_bits (holding es)).bytes)
      × Runs p es (echo mode es) (f tt)
unfolding rewrite_rbsp
rewritten {m} h x y e =
    let ((u, s'), q, e1) =
      and_then-eq-ok
        ((do m; writing Writer.write_rbsp_trailing_bits) (io (Reader.new x) Writer.new)) _ e in
    let q' =
      ap (λ w. (do m; writing Writer.write_rbsp_trailing_bits) (io (Reader.new x) w))
        (sym new-holding)
      ∙ q in
    let (u1, s1, q1, q2) = bind-eq-ok m _ (io (Reader.new x) (holding [])) s' u q' in
    let (es, w1, b, run) = h.at (Reader.new x) [] u1 s1 tt q1 in
    let (ts, wt, bt, l) = write_rbsp_trailing_bits-holding es b in
    let w2 =
      writing-eq-ok Writer.write_rbsp_trailing_bits s1 s' u q2
      ∙ ap Writer.write_rbsp_trailing_bits w1 in
    let ey : s'.writer.bytes ≡ y = cc e1 in
    let by = sym ey ∙ ap (λ (w : BitWriter). w.bytes) w2 in
    let whole : length (es ++ ts) ≡ length (es ++ ts) / 8 * 8 = omega arith in
    (
      es,
      ts,
      ap to_bits (by ∙ ap (λ (w : BitWriter). w.bytes) wt ∙ bytes-holding (es ++ ts))
          ∙ to_bits-pack (length (es ++ ts) / 8) (es ++ ts) (All-append IsBit es ts b bt) whole,
      by,
      run,
    )

module _ {m : Walk (Unit {0})} (x y : List ℕ) (e : rewrite_rbsp m x ≡ ok y) where
  -- A decoder that understands what the walker writes understands the rewritten string.
  pub decode-rewrite :
      {B : Type 0} (p : Walk B) (f : Unit {0} → B)
      → Replays false m p f
      → decode_rbsp p y ≡ ok (f tt)
  unfolding decode_rbsp
  decode-rewrite p f h =
      let (es, ts, bits, by, run) = rewritten h x y e in
      let (r1, done, left) = run.at (Reader.new y) [] ts tt (remaining-new y ∙ bits) in
      ap (λ w. and_then (p (io (Reader.new y) w)) λ (a, _). ok a) new-holding
      ∙ ap (λ r. and_then r λ (a, _). ok a) done

  -- A walker that repeats itself leaves the rewritten string as it is.
  pub rewrite-rewrite : Replays true m m (λ u. u) → rewrite_rbsp m y ≡ ok y
  unfolding rewrite_rbsp ◌>>=◌ writing
  rewrite-rewrite h =
      let (es, ts, bits, by, run) = rewritten h x y e in
      let (r1, done, left) = run.at (Reader.new y) [] ts tt (remaining-new y ∙ bits) in
      let again = ap (λ w. m (io (Reader.new y) w)) new-holding ∙ done in rw again (ap ok (sym by))
