-- ===== src/Checksum.antt =====
-- util/util.cpp: `checksum_16bit_be`, the Internet checksum of the stack.
pub mod Fold
pub mod Reference
pub mod Fill
use dnet_core.Base.{ℕ, ◌+◌, ◌-◌, ◌*◌, ◌/◌, ◌%◌, ◌^◌, List, [], ◌∷◌}
use dnet_core.Words.{u16, u32, val16}

-- `*buf` for a `uint16_t *` on a little-endian host.
abbrev pub le16 : ℕ → ℕ → ℕ
le16 a b = a + b * 2 ^ 8

-- The loop: the 32-bit accumulator `ret`, and a last odd byte on its own.
unfoldable pub sum_loop : ℕ → List ℕ → ℕ
sum_loop ret [] = ret
sum_loop ret (a ∷ []) = u32 (ret + a)
sum_loop ret (a ∷ b ∷ rest) = sum_loop (u32 (ret + le16 a b)) rest

-- `~((ret >> 16) + ret & 0xffff)`: `+` binds tighter than `&`, and the complement is 32 bits wide.
abbrev pub fold_once : ℕ → ℕ
fold_once ret = u32 (ret / 2 ^ 16 + ret) % 2 ^ 16

abbrev pub complement32 : ℕ → ℕ
complement32 x = 2 ^ 32 - 1 - x

-- `reinterpret_cast<uint16_be*>(&ret)->val()`: the two low bytes of `ret`, the lowest first.
abbrev pub low_word_be : ℕ → ℕ
low_word_be ret = val16 (record { b0 = ret % 2 ^ 8; b1 = ret / 2 ^ 8 % 2 ^ 8 })

-- `checksum_16bit_be(src, len)`, on the `len` bytes at `src`.
unfoldable pub checksum_16bit_be : List ℕ → ℕ
unfolding sum_loop
checksum_16bit_be bytes = low_word_be (complement32 (fold_once (sum_loop 0 bytes)))
