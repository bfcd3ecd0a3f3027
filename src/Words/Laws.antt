-- ===== src/Words/Laws.antt =====
-- Writing a big-endian word and reading it back, both ways.
use dnet_core.Base.{ℕ, ◌^◌, ◌<◌, ◌≡◌, arith}
use dnet_core.Words.{U16Be, U32Be, val16, be16, val32, be32}

pub val16-be16 : (v : ℕ) → v < 2 ^ 16 → val16 (be16 v) ≡ v
val16-be16 v h = omega arith

pub val32-be32 : (v : ℕ) → v < 2 ^ 32 → val32 (be32 v) ≡ v
val32-be32 v h = omega arith

-- A word of bytes.
abbrev pub IsWord16 : U16Be → Type 0
IsWord16 w = (w.b0 < 2 ^ 8) × (w.b1 < 2 ^ 8)

abbrev pub IsWord32 : U32Be → Type 0
IsWord32 w = (w.b0 < 2 ^ 8) × (w.b1 < 2 ^ 8) × (w.b2 < 2 ^ 8) × (w.b3 < 2 ^ 8)

pub be16-val16 : (w : U16Be) → IsWord16 w → be16 (val16 w) ≡ w
be16-val16 w h = ground arith

pub be32-val32 : (w : U32Be) → IsWord32 w → be32 (val32 w) ≡ w
be32-val32 w h = ground arith
