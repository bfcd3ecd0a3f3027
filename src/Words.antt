-- ===== src/Words.antt =====
-- defs.h: `uint16_be` and `uint32_be`, words held as bytes in network order, and the wrap-around of
-- the fixed-width arithmetic that the sources do.
pub mod Laws
use dnet_core.Base.{ℕ, ◌+◌, ◌-◌, ◌*◌, ◌/◌, ◌%◌, ◌^◌, List, [], ◌∷◌}

abbrev pub u8 : ℕ → ℕ
u8 n = n % 2 ^ 8

abbrev pub u16 : ℕ → ℕ
u16 n = n % 2 ^ 16

abbrev pub u32 : ℕ → ℕ
u32 n = n % 2 ^ 32

-- `a - b` on size_t, which wraps below zero.
abbrev pub sub_size : ℕ → ℕ → ℕ
sub_size a b = (a + 2 ^ 64 - b) % 2 ^ 64

-- `uint16_be::bytes`.
pub record U16Be : Type 0 where
  pub b0 : ℕ
  pub b1 : ℕ

pub record U32Be : Type 0 where
  pub b0 : ℕ
  pub b1 : ℕ
  pub b2 : ℕ
  pub b3 : ℕ

-- `uint16_be::val`, on the two bytes in the order in which they stand in memory.
abbrev pub val16 : U16Be → ℕ
val16 w = u16 (w.b0 * 2 ^ 8 + w.b1)

-- `uint16_be::operator=`: `val & 0xff` and `(val & 0xff00) >> 8`.
abbrev pub be16 : ℕ → U16Be
be16 v = record { b0 = v / 2 ^ 8 % 2 ^ 8; b1 = v % 2 ^ 8 }

-- `uint32_be::val`.
abbrev pub val32 : U32Be → ℕ
val32 w = u32 (w.b0 * 2 ^ 24 + w.b1 * 2 ^ 16 + w.b2 * 2 ^ 8 + w.b3)

-- `uint32_be::operator=`.
abbrev pub be32 : ℕ → U32Be
be32 v = record {
  b0 = v / 2 ^ 24 % 2 ^ 8;
  b1 = v / 2 ^ 16 % 2 ^ 8;
  b2 = v / 2 ^ 8 % 2 ^ 8;
  b3 = v % 2 ^ 8;
}

-- The memory of a word.
abbrev pub bytes16 : U16Be → List ℕ
bytes16 w = w.b0 ∷ w.b1 ∷ []

abbrev pub bytes32 : U32Be → List ℕ
bytes32 w = w.b0 ∷ w.b1 ∷ w.b2 ∷ w.b3 ∷ []
