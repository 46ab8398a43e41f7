-- ===== src/Sps/Hevc/Head/Log2.antt =====
-- The second parse of the head, for the width of a picture order count, finds what the first one copies.
use zpenflow.Base.{
  ℕ, zero, suc, ◌+◌, ◌-◌, ◌==◌, ◌≡◌, refl, sym, ◌∙◌, ltb, Bool, List, [], ◌∷◌, if◌then◌else◌,
}
use mathlib.Core.Path.{subst}
use zpenflow.Engine.{ok, and_then-eq-ok}
use zpenflow.Sps.Reader
use zpenflow.Sps.Reader.{BitReader}
use zpenflow.Sps.Writer
use zpenflow.Sps.Writer.{BitWriter}
use zpenflow.Sps.Walker.{Walk, Io, io, ◌>>=◌, ◌>>◌, pure, get_bits, get_ue, copy_bits, when, repeat}
use zpenflow.Sps.Walker.Inversion.{bind-eq-ok, pure-eq-ok}
use zpenflow.Sps.Walker.Agree.{
  Agree, Agree-bind, Agree-pure, Agree-copy_bits, Agree-copy_ue, Agree-bits, Agree-when,
  Agree-repeat,
}
use zpenflow.Sps.Vui.{flagged, copy_flag, copy_four_ue}
use zpenflow.Sps.Hevc.Head.{
  copy_byte, copy_sub_layer_flags, copy_sub_layers, copy_hevc_profile_tier_level, copy_hevc_picture,
  replace_dpb_sizes, walk_hevc_sps_through_dpb, read_log2_max_poc, walk_hevc_sps_dpb_log2_max_poc,
}

Agree-byte : Agree copy_byte copy_byte
unfolding copy_byte
Agree-byte = Agree-bind _ _ (Agree-bits 8) λ _. Agree-pure tt

Agree-sub_layer_flags : (n : ℕ) → Agree (copy_sub_layer_flags n) (copy_sub_layer_flags n)
unfolding copy_sub_layer_flags
Agree-sub_layer_flags zero = Agree-pure []
Agree-sub_layer_flags (suc n) = Agree-bind _ _ (Agree-bits 1) λ pp.
    Agree-bind _ _ (Agree-bits 1)
      λ lp. Agree-bind _ _ (Agree-sub_layer_flags n) λ rest. Agree-pure ((pp == 1, lp == 1) ∷ rest)

Agree-sub_layers : (l : List (Bool × Bool)) → Agree (copy_sub_layers l) (copy_sub_layers l)
unfolding copy_sub_layers
Agree-sub_layers [] = Agree-pure tt
Agree-sub_layers ((p, l) ∷ rest) =
    Agree-bind _ _ (Agree-when p (Agree-repeat 11 Agree-byte))
      λ _. Agree-bind _ _ (Agree-when l Agree-byte) λ _. Agree-sub_layers rest

Agree-profile_tier_level :
    (n : ℕ) → Agree (copy_hevc_profile_tier_level n) (copy_hevc_profile_tier_level n)
unfolding copy_hevc_profile_tier_level
Agree-profile_tier_level n = Agree-bind _ _ (Agree-bits 8) λ _. Agree-bind _ _ (Agree-bits 32) λ _.
    Agree-bind _ _ (Agree-repeat 7 Agree-byte) λ _.
      Agree-bind _ _ (Agree-sub_layer_flags n) λ flags.
        Agree-bind _ _
          (Agree-when (ltb 0 n)
            (Agree-repeat (8 - n) (Agree-bind _ _ (Agree-bits 2) λ _. Agree-pure tt)))
          λ _. Agree-sub_layers flags

-- The rest of the second parse.
read_picture : Walk ℕ
read_picture = do
  _ ← get_ue
  chroma_format_idc ← get_ue
  when (chroma_format_idc == 3) (do _ ← get_bits 1; pure tt)
  _ ← get_ue
  _ ← get_ue
  do
    conformance_window ← get_bits 1
    when (conformance_window == 1) (repeat 4 (do _ ← get_ue; pure tt))
  _ ← get_ue
  _ ← get_ue
  get_ue

Agree-picture : Agree copy_hevc_picture read_picture
unfolding copy_hevc_picture read_picture copy_flag flagged copy_four_ue
Agree-picture =
    let flag = Agree-bind _ _ (Agree-copy_bits 1) λ _. Agree-pure tt in
    let code = Agree-bind _ _ Agree-copy_ue λ _. Agree-pure tt in
    Agree-bind _ _ Agree-copy_ue λ _. Agree-bind _ _ Agree-copy_ue λ c.
      Agree-bind _ _ (Agree-when (c == 3) flag) λ _. Agree-bind _ _ Agree-copy_ue λ _.
        Agree-bind _ _ Agree-copy_ue λ _.
          Agree-bind _ _
            (Agree-bind _ _ (Agree-copy_bits 1) λ f. Agree-when (f == 1) (Agree-repeat 4 code))
            λ _. Agree-bind _ _ Agree-copy_ue λ _. Agree-bind _ _ Agree-copy_ue λ _. Agree-copy_ue

-- The head, returning the field that the tail needs.
unfoldable pub walk_head : Walk ℕ
unfolding replace_dpb_sizes
walk_head = do
  copy_bits 4
  sps_max_sub_layers_minus1 ← copy_bits 3
  copy_bits 1
  copy_hevc_profile_tier_level sps_max_sub_layers_minus1
  log2_max_poc ← copy_hevc_picture
  sub_layer_info_present ← copy_bits 1
  let i_start = if sub_layer_info_present == 1 then 0 else sps_max_sub_layers_minus1
  repeat (sps_max_sub_layers_minus1 + 1 - i_start) replace_dpb_sizes
  pure log2_max_poc

-- The second walker does the same, and returns something too.
record Keeps {A B : Type 0} (m : Walk A) (m' : Walk B) : Type 0 where
  at : (s s' : Io) (a : A) → m s ≡ ok (a, s') → (b : B) × (m' s ≡ ok (b, s'))

Keeps-bind :
    {A B C : Type 0} (m : Walk A) (k : A → Walk B) (k' : A → Walk C)
    → ((a : A) → Keeps (k a) (k' a))
    → Keeps (m >>= k) (m >>= k')
unfolding ◌>>=◌
Keeps-bind m k k' next = record {
  at = λ s s' b e.
      let (a, s1, q, e1) = bind-eq-ok m k s s' b e in
      let (c, e2) = (next a).at s1 s' b e1 in (c, rw q e2);
}

Keeps-then_pure : {A B : Type 0} (m : Walk A) (b : B) → Keeps m (m >>= λ _. pure b)
unfolding ◌>>=◌ pure
Keeps-then_pure m b = record { at = λ s s' a e. (b, rw e refl) }

Keeps-head : Keeps walk_hevc_sps_through_dpb walk_head
unfolding walk_hevc_sps_through_dpb walk_head
Keeps-head = Keeps-bind _ _ _ λ _. Keeps-bind _ _ _ λ n. Keeps-bind _ _ _ λ _. Keeps-bind _ _ _ λ _.
    Keeps-bind _ _ _ λ log2. Keeps-bind _ _ _ λ present.
      Keeps-then_pure (repeat (n + 1 - (if present == 1 then 0 else n)) replace_dpb_sizes) log2

pub walk_head-ok :
    (s s' : Io) (u : Unit {0})
    → walk_hevc_sps_through_dpb s ≡ ok (u, s')
    → (log2 : ℕ) × (walk_head s ≡ ok (log2, s'))
walk_head-ok s s' u e = Keeps-head.at s s' u e

-- A walker that returns this value, if any.
record Returns {A : Type 0} (m : Walk A) (v : A) : Type 0 where
  at : (s s' : Io) (a : A) → m s ≡ ok (a, s') → a ≡ v

Returns-bind :
    {A B : Type 0} (m : Walk A) (k : A → Walk B) {v : B}
    → ((a : A) → Returns (k a) v)
    → Returns (m >>= k) v
Returns-bind m k next = record {
  at = λ s s' b e. let (a, s1, q, e1) = bind-eq-ok m k s s' b e in (next a).at s1 s' b e1;
}

Returns-pure : {A : Type 0} (v : A) → Returns (pure v) v
Returns-pure v = record { at = λ s s' a e. sym (pure-eq-ok v a s s' e).0 }

-- From one place in one input, both return the same.
record Leads {A : Type 0} (m p : Walk A) : Type 0 where
  at :
      (s t s' t' : Io) (a b : A) → s.reader ≡ t.reader → m s ≡ ok (a, s') → p t ≡ ok (b, t') → a ≡ b

Leads-bind :
    {A B : Type 0} {m p : Walk A} (k k' : A → Walk B)
    → Agree m p
    → ((a : A) → Leads (k a) (k' a))
    → Leads (m >>= k) (p >>= k')
Leads-bind {A} {B} {m} {p} k k' first next = record {
  at = λ s t s' t' a b e em ep.
      let (x, s1, q, em1) = bind-eq-ok m k s s' a em in
      let (y, t1, q', ep1) = bind-eq-ok p k' t t' b ep in
      let (xy, r) = first.at s t s1 t1 x y e q q' in
      (next x).at s1 t1 s' t' a b r em1 (subst (λ (z : A). k' z t1 ≡ ok (b, t')) (sym xy) ep1);
}

Leads-last :
    {A : Type 0} {m p : Walk A} (k : A → Walk A)
    → Agree m p
    → ((a : A) → Returns (k a) a)
    → Leads (m >>= k) p
Leads-last {A} {m} {p} k first next = record {
  at = λ s t s' t' a b e em ep.
      let (x, s1, q, em1) = bind-eq-ok m k s s' a em in
      let (xb, r) = first.at s t s1 t' x b e q ep in (next x).at s1 s' a em1 ∙ xb;
}

Leads-head : Leads walk_head read_log2_max_poc
unfolding walk_head read_log2_max_poc read_picture
Leads-head = Leads-bind _ _ (Agree-copy_bits 4) λ _. Leads-bind _ _ (Agree-copy_bits 3) λ n.
    Leads-bind _ _ (Agree-copy_bits 1) λ _. Leads-bind _ _ (Agree-profile_tier_level n) λ _.
      Leads-last _ Agree-picture
        λ log2. Returns-bind _ _ λ present. Returns-bind _ _ λ _. Returns-pure log2

-- Where the first parse of an input comes to an end, and the second one finds a width, it is what the
-- first one copied.
pub walk_head-log2 :
    (x : List ℕ) (s : Io) (u : Unit {0}) (log2 : ℕ)
    → walk_hevc_sps_through_dpb (io (Reader.new x) Writer.new) ≡ ok (u, s)
    → walk_hevc_sps_dpb_log2_max_poc x ≡ ok log2
    → walk_head (io (Reader.new x) Writer.new) ≡ ok (log2, s)
unfolding walk_hevc_sps_dpb_log2_max_poc
walk_head-log2 x s u log2 e e' =
    let start = io (Reader.new x) Writer.new in
    let (v, q) = Keeps-head.at start s u e in
    let ((v', t), q', e1) = and_then-eq-ok (read_log2_max_poc start) _ e' in
    let vv : v ≡ v' = Leads-head.at start start s t v v' refl q q' in
    let w : v ≡ log2 = cc in subst (λ (z : ℕ). walk_head start ≡ ok (z, s)) w q
