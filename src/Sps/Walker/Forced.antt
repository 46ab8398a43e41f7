-- ===== src/Sps/Walker/Forced.antt =====
-- A flag that is read, and set in the output whatever it was.
use zpenflow.Base.{ℕ, ◌==◌, sym, ap, ◌∙◌, List, ◌++◌, All-append, append_assoc, Bool, if◌then◌else◌}
use zpenflow.Base.Words.{IsBit}
use zpenflow.Sps.Bits.{bits_of, bits_of-IsBit}
use zpenflow.Sps.Reader
use zpenflow.Sps.Writer
use zpenflow.Sps.Writer.Packed.{holding, write_bits-holding}
use zpenflow.Sps.Walker.{Walk, io, ◌>>=◌, ◌>>◌, get_bits, put_bits}
use zpenflow.Sps.Walker.Inversion.{bind-eq-ok, reading-eq-ok, writing-eq-ok}
use zpenflow.Sps.Walker.Runs.{Runs}
use zpenflow.Sps.Walker.Replays.{Replays, Replays-either, echo, echo-append}

-- What follows depends on the input's flag. If both branches replay as `P`, then the whole replays
-- as anything that runs `P` behind a set flag.
pub Replays-forced_flag :
    {A B : Type 0} {mode : Bool} {m m' : Walk A} (P : Walk B) {p : Walk B} {f : A → B}
    → Replays mode m P f
    → Replays mode m' P f
    → ((es out : List ℕ) (a : B)
        → Runs P es out a
        → Runs p (bits_of 1 1 ++ es) (echo mode (bits_of 1 1) ++ out) a)
    → Replays mode (do v ← get_bits 1; put_bits 1 1; if v == 1 then m else m') p f
Replays-forced_flag {mode} {m} {m'} P {p} {f} h h' step = record {
  at = λ r bs a s' hb e.
      let flag = bits_of 1 1 in
      let (v, s1, q1, e1) = bind-eq-ok (get_bits 1) _ (io r (holding bs)) s' a e in
      let (u, s2, q2, e2) = bind-eq-ok (put_bits 1 1) _ s1 s' a e1 in
      let w1 = (reading-eq-ok (Reader.read_bits 1) (io r (holding bs)) s1 v q1).1 in
      let w2 =
        writing-eq-ok (Writer.write_bits 1 1) s1 s2 u q2
        ∙ ap (Writer.write_bits 1 1) w1
        ∙ write_bits-holding 1 1 bs hb in
      let branch = if v == 1 then m else m' in
      let e3 = ap (λ w. branch (io s2.reader w)) (sym w2) ∙ e2 in
      let hb2 = All-append IsBit bs flag hb (bits_of-IsBit 1 1) in
      let (es, w3, b3, run) =
        (Replays-either (v == 1) h h').at s2.reader (bs ++ flag) a s' hb2 e3 in
      (
        flag ++ es,
        w3 ∙ ap holding (append_assoc bs flag es),
        All-append IsBit flag es (bits_of-IsBit 1 1) b3,
        rw (← echo-append mode flag es) (step es (echo mode es) (f a) run),
      );
}
