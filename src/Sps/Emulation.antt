-- ===== src/Sps/Emulation.antt =====
-- `rbsp_unescape` and `rbsp_escape` of sps_patcher.rs. The list is what the loop has ahead of it,
-- `bytes[i..]`.
pub mod Escape
use zpenflow.Base.{ℕ, zero, suc, leb, List, [], ◌∷◌, Bool, true, false}

unfoldable pub rbsp_unescape : List ℕ → List ℕ
rbsp_unescape [] = []
rbsp_unescape (zero ∷ zero ∷ (suc (suc (suc zero))) ∷ rest) = 0 ∷ 0 ∷ rbsp_unescape rest
rbsp_unescape (b ∷ rest) = b ∷ rbsp_unescape rest

unfoldable pub rbsp_escape : List ℕ → List ℕ
rbsp_escape [] = []
rbsp_escape (zero ∷ zero ∷ c ∷ rest) = elim (leb c 3) [
  | true ↦ 0 ∷ 0 ∷ 3 ∷ rbsp_escape (c ∷ rest)
  | false ↦ 0 ∷ rbsp_escape (zero ∷ c ∷ rest)
]
rbsp_escape (b ∷ rest) = b ∷ rbsp_escape rest
