-- ===== src/Desktop/Keys/Combos.antt =====
-- `parse_key_combo`, on names joined by `+`.
use zpenflow.Base.{
  ℕ, ◌≡◌, refl, ap, ◌∙◌, false, List, [], ◌∷◌, ◌++◌, Option, none, some, All, All-append,
}
use zpenflow.Desktop.Text.{
  is_empty, trim-id, split, split-plain, split-append, is_whitespace, IsPlain, plain→NotSpace,
}
use zpenflow.Desktop.Keys.{parse_key_token, push_key, parse_tokens, parse_key_combo}

-- The names, with a `+` between them.
unfoldable pub joined : List ℕ → List (List ℕ) → List ℕ
joined tok [] = tok
joined tok (tok' ∷ toks) = tok ++ (43 ∷ joined tok' toks)

-- The keys of the names, in order, if each of them names one.
unfoldable pub all_keys : List (List ℕ) → Option (List ℕ)
all_keys [] = some []
all_keys (tok ∷ toks) = elim (all_keys toks) [
  | none ↦ none
  | some vks ↦ elim (parse_key_token tok) [ none ↦ none | some vk ↦ some (vk ∷ vks) ]
]

-- A name that is not empty, without white space and `+`.
abbrev pub IsName : List ℕ → Type 0
IsName tok = (is_empty tok ≡ false) × All IsPlain tok

push_key_lem :
    (o : Option ℕ) (rest : Option (List ℕ))
    → push_key o rest
      ≡ elim rest [ none ↦ none | some vks ↦ elim o [ none ↦ none | some vk ↦ some (vk ∷ vks) ] ]
unfolding push_key
push_key_lem none none = refl
push_key_lem none (some vks) = refl
push_key_lem (some vk) none = refl
push_key_lem (some vk) (some vks) = refl

split-joined :
    (tok : List ℕ) (toks : List (List ℕ))
    → All IsName (tok ∷ toks)
    → split 43 (joined tok toks) ≡ tok ∷ toks
unfolding joined
split-joined tok [] ((p, q), h) = split-plain tok q
split-joined tok (tok' ∷ toks) ((p, q), h) =
    split-append tok (joined tok' toks) q
    ∙ ap (λ (l : List (List ℕ)). tok ∷ l) (split-joined tok' toks h)

parse_tokens-names : (toks : List (List ℕ)) → All IsName toks → parse_tokens toks ≡ all_keys toks
unfolding parse_tokens all_keys
parse_tokens-names [] h = refl
parse_tokens-names (tok ∷ toks) ((p, q), h) =
    rw (trim-id tok (plain→NotSpace tok q), p, parse_tokens-names toks h)
      (push_key_lem (parse_key_token tok) (all_keys toks))

joined-NotSpace :
    (tok : List ℕ) (toks : List (List ℕ))
    → All IsName (tok ∷ toks)
    → All (λ c. is_whitespace c ≡ false) (joined tok toks)
unfolding joined is_whitespace
joined-NotSpace tok [] ((p, q), h) = plain→NotSpace tok q
joined-NotSpace tok (tok' ∷ toks) ((p, q), h) =
    All-append (λ c. is_whitespace c ≡ false) tok (43 ∷ joined tok' toks) (plain→NotSpace tok q)
      (refl, joined-NotSpace tok' toks h)

joined-filled :
    (tok : List ℕ) (toks : List (List ℕ))
    → is_empty tok ≡ false
    → is_empty (joined tok toks) ≡ false
unfolding joined is_empty
joined-filled tok [] p = p
joined-filled [] (tok' ∷ toks) p = refl
joined-filled (c ∷ tok) (tok' ∷ toks) p = refl

-- Names that are not empty and hold neither white space nor `+`, joined by `+`, are read as the keys of
-- the names, in order, if each of them names a key; otherwise nothing is read.
pub parse_key_combo-joined :
    (tok : List ℕ) (toks : List (List ℕ))
    → All IsName (tok ∷ toks)
    → parse_key_combo (joined tok toks) ≡ all_keys (tok ∷ toks)
unfolding parse_key_combo
parse_key_combo-joined tok toks h =
    rw
      (
        trim-id (joined tok toks) (joined-NotSpace tok toks h),
        joined-filled tok toks h.0.0,
        split-joined tok toks h,
      )
      (parse_tokens-names (tok ∷ toks) h)
