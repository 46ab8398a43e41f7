-- ===== src/Sps/Packet/Unchanged.antt =====
-- Packets without a parameter set, which `patch_packet_for_low_latency_dpb` passes on.
use zpenflow.Base.{
  ℕ, zero, suc, ◌+◌, ◌≤◌, ◌≡◌, ◌==◌, refl, ap, arith, Bool, true, false, Bool-cases, Option-cases,
  inl, inr, not, ltb, leb, ◌&&◌, Option, none, some, List, [], ◌∷◌, ◌++◌, length, take, drop,
  length-drop, get_or,
}
use mathlib.Core.Path.{subst}
use zpenflow.Engine.{ok}
use zpenflow.Sps.Packet.{
  Codec, starts_with, start_code_4, start_code_3, shifted, scan_start_code, nal_length, header_len,
  is_sps, patch_nals, patch_packet_for_low_latency_dpb,
}

-- No start code in the packet stands before the header of a parameter set.
unfoldable pub sps_free : Codec → List ℕ → Bool
sps_free codec [] = true
sps_free codec (b ∷ bytes) =
    not (starts_with start_code_3 (b ∷ bytes) && is_sps codec (get_or (b ∷ bytes) 3 0))
    && sps_free codec bytes

and_right : (a b : Bool) → (a && b) ≡ true → b ≡ true
and_right true b h = h
and_right false b h = cc

not_both : (a b c : Bool) → (not (a && b) && c) ≡ true → a ≡ true → b ≡ false
not_both true true c h k = cc
not_both true false c h k = refl
not_both false b c h k = cc

take-drop : (n : ℕ) (l : List ℕ) → take n l ++ drop n l ≡ l
take-drop zero l = refl
take-drop (suc n) [] = refl
take-drop (suc n) (x ∷ l) = ap (λ t. x ∷ t) (take-drop n l)

abbrev code_at : ℕ → ℕ → Option (ℕ × ℕ)
code_at l p = some (l, p)

payload_off : {a b l p : ℕ} → code_at a b ≡ code_at l p → b ≡ p
payload_off e = cc

shifted-eq-some :
    (o : Option (ℕ × ℕ)) (l p : ℕ)
    → shifted o ≡ code_at l p
    → (l1 : ℕ) × (p1 : ℕ) × (o ≡ code_at l1 p1) × (suc p1 ≡ p)
unfolding shifted
shifted-eq-some none l p e = cc
shifted-eq-some (some (l1, p1)) l p e = (l1, p1, refl, payload_off e)

-- Behind its first byte the long start code is the short one.
four_three :
    (b : ℕ) (bytes : List ℕ)
    → starts_with start_code_4 (b ∷ bytes) ≡ true
    → starts_with start_code_3 bytes ≡ true
unfolding starts_with
four_three b bytes h = and_right _ _ h

module _ (codec : Codec) where
  sps_free_tail :
      (b : ℕ) (bytes : List ℕ) → sps_free codec (b ∷ bytes) ≡ true → sps_free codec bytes ≡ true
  unfolding sps_free
  sps_free_tail b bytes h = and_right _ _ h

  sps_free-drop :
      (n : ℕ) (bytes : List ℕ) → sps_free codec bytes ≡ true → sps_free codec (drop n bytes) ≡ true
  sps_free-drop zero bytes h = h
  sps_free-drop (suc n) [] h = h
  sps_free-drop (suc n) (b ∷ bytes) h = sps_free-drop n bytes (sps_free_tail b bytes h)

  sps_free_head :
      (bytes : List ℕ)
      → sps_free codec bytes ≡ true
      → starts_with start_code_3 bytes ≡ true
      → is_sps codec (get_or bytes 3 0) ≡ false
  unfolding sps_free starts_with
  sps_free_head [] h s = cc
  sps_free_head (b ∷ bytes) h s = not_both _ _ _ h s

  -- The header behind the start code that the scanner finds is no parameter set's.
  scan-sps_free :
      (bytes : List ℕ) (l p : ℕ)
      → sps_free codec bytes ≡ true
      → scan_start_code bytes ≡ code_at l p
      → (is_sps codec (get_or bytes p 0) ≡ false) × (3 ≤ p)
  unfolding scan_start_code
  scan-sps_free [] l p h e = cc
  scan-sps_free (b ∷ bytes) l p h e = elim (Bool-cases (leb 3 (length (b ∷ bytes)))) [
    | inr short ↦ let e1 : none ≡ code_at l p = rw (short, scan_start_code) at e in cc
    | inl long ↦ elim (Bool-cases (starts_with start_code_4 (b ∷ bytes))) [
      | inl four ↦
          let e1 : code_at 4 4 ≡ code_at l p = rw (long, four, scan_start_code) at e in
          let next = sps_free_head bytes (sps_free_tail b bytes h) (four_three b bytes four) in
          subst (λ t. (is_sps codec (get_or (b ∷ bytes) t 0) ≡ false) × (3 ≤ t)) (payload_off e1)
            (next, omega arith)
      | inr other ↦ elim (Bool-cases (starts_with start_code_3 (b ∷ bytes))) [
        | inl three ↦
            let e1 : code_at 3 3 ≡ code_at l p = rw (long, other, three, scan_start_code) at e in
            subst (λ t. (is_sps codec (get_or (b ∷ bytes) t 0) ≡ false) × (3 ≤ t)) (payload_off e1)
              (sps_free_head (b ∷ bytes) h three, omega arith)
        | inr neither ↦
            let e1 : shifted (scan_start_code bytes) ≡ code_at l p =
              rw (long, other, neither, scan_start_code) at e in
            let (l1, p1, found, q) = shifted-eq-some (scan_start_code bytes) l p e1 in
            let (free, least) = scan-sps_free bytes l1 p1 (sps_free_tail b bytes h) found in
            subst (λ t. (is_sps codec (get_or (b ∷ bytes) t 0) ≡ false) × (3 ≤ t)) q
              (free, omega arith)
      ]
    ]
  ]

  patch_nals-sps_free :
      (fuel : ℕ) (bytes : List ℕ)
      → length bytes ≤ fuel
      → sps_free codec bytes ≡ true
      → patch_nals codec fuel bytes ≡ ok bytes
  unfolding patch_nals
  patch_nals-sps_free zero [] h f = refl
  patch_nals-sps_free zero (b ∷ bytes) h f = absurd (omega arith)
  patch_nals-sps_free (suc fuel) [] h f = refl
  patch_nals-sps_free (suc fuel) (b ∷ tail) h f =
      let bytes = b ∷ tail in
      let some_left : (length bytes == 0) ≡ false = ground arith in
      elim (Option-cases (scan_start_code bytes)) [
        | inl e ↦ rw (some_left, e, patch_nals) refl
        | inr ((l, p), e) ↦
            let (other, least) = scan-sps_free bytes l p f e in
            let n = p + nal_length (drop p bytes) in
            elim (Bool-cases (ltb n (p + header_len codec))) [
              | inl cut ↦ rw (some_left, e, cut, patch_nals) refl
              | inr whole ↦
                  let rest =
                    patch_nals-sps_free fuel (drop n bytes) (omega (arith, length-drop n bytes))
                      (sps_free-drop n bytes f) in
                  rw (some_left, e, whole, other, patch_nals, rest, take-drop n bytes) refl
            ]
      ]

-- A packet in which no start code stands before the header of a parameter set is passed on unchanged.
pub patch_packet-sps_free :
    (codec : Codec) (bytes : List ℕ)
    → sps_free codec bytes ≡ true
    → patch_packet_for_low_latency_dpb codec bytes ≡ ok bytes
unfolding patch_packet_for_low_latency_dpb
patch_packet-sps_free codec bytes h = patch_nals-sps_free codec (length bytes) bytes (omega arith) h
