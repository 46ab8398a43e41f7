-- ===== src/Sps/Walker/Copies/Signed.antt =====
-- The copying step of a signed code, `read_se` and `write_se`.
use zpenflow.Base.{
  ℕ, zero, suc, ◌+◌, ◌*◌, ◌/◌, ◌%◌, ◌^◌, ◌<◌, ◌≡◌, refl, sym, ap, ◌∙◌, arith, [], append-nil, true,
  false, Bool-cases, inl, inr, ◌==◌, if◌then◌else◌,
}
use mathlib.Core.Path.{subst}
use zpenflow.Base.Int.{ℤ, pos, neg}
use zpenflow.Base.Words.{shr, low_bits}
use zpenflow.Engine.{ok, and_then-eq-ok}
use zpenflow.Sps.Reader
use zpenflow.Sps.Reader.{BitReader}
use zpenflow.Sps.Reader.Range.{read_ue-lt}
use zpenflow.Sps.Reader.Golomb.{read_ue-remaining}
use zpenflow.Sps.Writer
use zpenflow.Sps.Writer.{BitWriter}
use zpenflow.Sps.Writer.Packed.{holding}
use zpenflow.Sps.Writer.Golomb.{ue_code, ue_code-IsBit, ue_value, ue_split, write_ue-holding}
use zpenflow.Sps.Walker.{reading, get_se, copy_se}
use zpenflow.Sps.Walker.Runs.{Runs}
use zpenflow.Sps.Walker.Replays.{Replays}
use zpenflow.Sps.Walker.Copies.{Spelled, copying-Replays, reading-Replays}

-- The integer that `read_se` makes of a code, and back.
se_of : ℕ → ℤ
se_of code = if low_bits code 1 == 0 then neg (shr code 1) else pos (shr (code + 1) 1)

write_se-even :
    (c : ℕ) (w : BitWriter) → c * 2 < 2 ^ 32 → Writer.write_se (neg c) w ≡ Writer.write_ue (c * 2) w
unfolding Writer.write_se
write_se-even zero w h = refl
write_se-even (suc c) w h = ap (λ t. Writer.write_ue t w) (omega arith)

write_se-odd :
    (c : ℕ) (w : BitWriter)
    → c * 2 + 2 < 2 ^ 32
    → Writer.write_se (pos (suc c)) w ≡ Writer.write_ue (c * 2 + 1) w
unfolding Writer.write_se
write_se-odd c w h = ap (λ t. Writer.write_ue t w) (omega arith)

write_se-se_of :
    (code : ℕ) (w : BitWriter)
    → code + 1 < 2 ^ 32
    → Writer.write_se (se_of code) w ≡ Writer.write_ue code w
unfolding se_of
write_se-se_of code w h = elim (Bool-cases (code % 2 ^ 1 == 0)) [
  | inl even ↦
      let e : code / 2 * 2 ≡ code = ground arith in
      rw even (write_se-even (code / 2) w (omega arith) ∙ ap (λ t. Writer.write_ue t w) e)
  | inr odd ↦
      let e : code / 2 * 2 + 1 ≡ code = ground arith in
      let s : (code + 1) / 2 ≡ suc (code / 2) = omega arith in
      rw (odd, s) (write_se-odd (code / 2) w (omega arith) ∙ ap (λ t. Writer.write_ue t w) e)
]

read_se-read_ue :
    (code : ℕ) (r r1 : BitReader)
    → Reader.read_ue r ≡ ok (code, r1)
    → Reader.read_se r ≡ ok (se_of code, r1)
unfolding Reader.read_se se_of
read_se-read_ue code r r1 e = elim (Bool-cases (code % 2 ^ 1 == 0)) [
  | inl even ↦ rw (e, even)
  | inr odd ↦ rw (e, odd)
]

Runs-get_se : (k s : ℕ) → k < 32 → s < 2 ^ k → Runs get_se (ue_code k s) [] (se_of (ue_value k s))
unfolding reading
Runs-get_se k s hk hs = record {
  at = λ r bs rest h e.
      let (r1, run, left) = read_ue-remaining k s r rest hk hs e in
      (r1, rw (read_se-read_ue (ue_value k s) r r1 run, append-nil bs), left);
}

read_se_code :
    (v : ℤ) (r r' : BitReader)
    → Reader.read_se r ≡ ok (v, r')
    → (code : ℕ) × (r1 : BitReader) × (Reader.read_ue r ≡ ok (code, r1))
unfolding Reader.read_se
read_se_code v r r' e =
    let ((code, r1), q, e1) = and_then-eq-ok (Reader.read_ue r) _ e in (code, r1, q)

Spelled-se :
    (r r' : BitReader) (v : ℤ)
    → Reader.read_se r ≡ ok (v, r')
    → Spelled Reader.read_se Writer.write_se v
unfolding Spelled
Spelled-se r r' v e =
    let (code, r1, q) = read_se_code v r r' e in
    let same = sym (read_se-read_ue code r r1 q) ∙ e in
    let ev : se_of code ≡ v = cc same in
    let (k, s, hk, hs, ec) = ue_split code (read_ue-lt code r r1 q) in
    (
      ue_code k s,
      ue_code-IsBit k s,
      subst (λ t. Runs get_se (ue_code k s) [] t) (ap se_of (sym ec) ∙ ev) (Runs-get_se k s hk hs),
      λ bs h.
          ap (λ t. Writer.write_se t (holding bs)) (sym ev)
          ∙ write_se-se_of code (holding bs) (read_ue-lt code r r1 q)
          ∙ ap (λ t. Writer.write_ue t (holding bs)) ec
          ∙ write_ue-holding k s bs h hk hs,
    )

pub Replays-copy_se : Replays true copy_se copy_se (λ v. v)
unfolding copy_se
Replays-copy_se = copying-Replays _ _ Spelled-se

pub Replays-get_se : Replays false copy_se get_se (λ v. v)
unfolding copy_se
Replays-get_se = reading-Replays _ _ Spelled-se
