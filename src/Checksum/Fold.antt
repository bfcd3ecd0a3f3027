-- ===== src/Checksum/Fold.antt =====
-- The accumulator of `checksum_16bit_be` as the exact sum of its words, and what the single fold
-- makes of it.
use dnet_core.Base.{
  ℕ, ◌+◌, ◌-◌, ◌*◌, ◌/◌, ◌%◌, ◌^◌, ◌≤◌, ◌<◌, ◌≡◌, List, [], ◌∷◌, ◌++◌, length, arith,
}
use dnet_core.Checksum.{le16, sum_loop, checksum_16bit_be}

-- The sum of the little-endian words of a buffer, with no bound.
unfoldable pub word_sum : List ℕ → ℕ
word_sum [] = 0
word_sum (a ∷ []) = a
word_sum (a ∷ b ∷ rest) = le16 a b + word_sum rest

abbrev pub IsBytes : List ℕ → Type 0
IsBytes [] = Unit {0}
IsBytes (b ∷ bs) = (b < 2 ^ 8) × IsBytes bs

pub IsBytes-append : (xs ys : List ℕ) → IsBytes xs → IsBytes ys → IsBytes (xs ++ ys)
IsBytes-append [] ys hx hy = hy
IsBytes-append (x ∷ xs) ys hx hy = (hx.0, IsBytes-append xs ys hx.1 hy)

-- 128 KiB: no buffer that the stack sums is longer.
abbrev pub max_len : ℕ
max_len = 2 ^ 17

-- A pair of bytes adds at most 65535, a last odd byte at most 255.
word_sum-le : (bs : List ℕ) → IsBytes bs → 2 * word_sum bs ≤ 65535 * length bs
unfolding word_sum
word_sum-le [] h = omega arith
word_sum-le (a ∷ []) h = omega arith
word_sum-le (a ∷ b ∷ rest) h = omega (arith, word_sum-le rest h.1.1)

-- The 32-bit accumulator never wraps.
pub word_sum-lt : (bs : List ℕ) → IsBytes bs → length bs ≤ max_len → word_sum bs ≤ 2 ^ 32 - 2 ^ 16
word_sum-lt bs h n = omega (arith, word_sum-le bs h)

pub sum_loop-eq-word_sum :
    (acc : ℕ) (bs : List ℕ) → acc < 2 ^ 32 → sum_loop acc bs ≡ (acc + word_sum bs) % 2 ^ 32
unfolding sum_loop word_sum
sum_loop-eq-word_sum acc [] h = omega arith
sum_loop-eq-word_sum acc (a ∷ []) h = omega arith
sum_loop-eq-word_sum acc (a ∷ b ∷ rest) h =
    omega (arith, sum_loop-eq-word_sum ((acc + le16 a b) % 2 ^ 32) rest (omega arith))

-- The carries out of the low 16 bits, added back once.
abbrev pub folded : List ℕ → ℕ
folded bs = word_sum bs / 2 ^ 16 + word_sum bs % 2 ^ 16

-- Adding the carries back gives no further carry.
abbrev pub FoldsOnce : List ℕ → Type 0
FoldsOnce bs = folded bs < 2 ^ 16

abbrev swap16 : ℕ → ℕ
swap16 w = w % 2 ^ 8 * 2 ^ 8 + w / 2 ^ 8

-- The checksum in closed form: the complement of the truncated fold, its two bytes exchanged.
pub checksum_16bit_be-eq :
    (bs : List ℕ)
    → checksum_16bit_be bs ≡ (255 - folded bs % 2 ^ 8) * 2 ^ 8 + (255 - folded bs % 2 ^ 16 / 2 ^ 8)
unfolding checksum_16bit_be
checksum_16bit_be-eq bs = omega (arith, sum_loop-eq-word_sum 0 bs (omega arith))

pub checksum_16bit_be-lt : (bs : List ℕ) → checksum_16bit_be bs < 2 ^ 16
checksum_16bit_be-lt bs = omega (arith, checksum_16bit_be-eq bs)
