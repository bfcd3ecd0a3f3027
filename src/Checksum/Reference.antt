-- ===== src/Checksum/Reference.antt =====
-- RFC 1071 as the independent description of the checksum: words in network order, added with an
-- end-around carry at each addition.
use dnet_core.Base.{
  ℕ, ◌+◌, ◌-◌, ◌*◌, ◌/◌, ◌%◌, ◌^◌, ◌≤◌, ◌<◌, ◌≡◌, ◌↔◌, ◌∙◌, List, [], ◌∷◌, length, arith, ltb,
  if◌then◌else◌,
}
use dnet_core.Checksum.{le16, checksum_16bit_be}
use dnet_core.Checksum.Fold.{
  word_sum, word_sum-lt, IsBytes, max_len, FoldsOnce, checksum_16bit_be-eq,
}

-- One's complement addition of two 16-bit words.
abbrev add_ones : ℕ → ℕ → ℕ
add_ones a b = if ltb (a + b) (2 ^ 16) then a + b else a + b - (2 ^ 16 - 1)

-- The one's complement sum; a last odd byte is padded with a zero on its right.
unfoldable pub rfc_sum : List ℕ → ℕ
rfc_sum [] = 0
rfc_sum (a ∷ []) = a * 2 ^ 8
rfc_sum (a ∷ b ∷ rest) = add_ones (a * 2 ^ 8 + b) (rfc_sum rest)

unfoldable pub rfc_checksum : List ℕ → ℕ
rfc_checksum bs = 2 ^ 16 - 1 - rfc_sum bs

pub rfc_sum-lt : (bs : List ℕ) → IsBytes bs → rfc_sum bs < 2 ^ 16
unfolding rfc_sum
rfc_sum-lt [] h = omega arith
rfc_sum-lt (a ∷ []) h = omega arith
rfc_sum-lt (a ∷ b ∷ rest) h = ground (arith, rfc_sum-lt rest h.1.1)

add_ones-mod : (w r : ℕ) → add_ones w r % 65535 ≡ (w + r) % 65535
add_ones-mod w r = ground arith

swapped_step :
    (a b r s : ℕ)
    → r % 65535 ≡ 256 * s % 65535
    → (a * 2 ^ 8 + b + r) % 65535 ≡ 256 * (le16 a b + s) % 65535
swapped_step a b r s h = omega arith

-- Byte order does not matter: modulo 65535 the network-order sum is the host-order one times 256.
rfc_sum-mod : (bs : List ℕ) → IsBytes bs → rfc_sum bs % 65535 ≡ 256 * word_sum bs % 65535
unfolding rfc_sum word_sum
rfc_sum-mod [] h = omega arith
rfc_sum-mod (a ∷ []) h = omega arith
rfc_sum-mod (a ∷ b ∷ rest) h =
    add_ones-mod (a * 2 ^ 8 + b) (rfc_sum rest)
    ∙ swapped_step a b (rfc_sum rest) (word_sum rest) (rfc_sum-mod rest h.1.1)

rfc_sum-zero : (bs : List ℕ) → IsBytes bs → (rfc_sum bs ≡ 0) ↔ (word_sum bs ≡ 0)
unfolding rfc_sum word_sum
rfc_sum-zero [] h = omega arith
rfc_sum-zero (a ∷ []) h = omega arith
rfc_sum-zero (a ∷ b ∷ rest) h = ground (arith, rfc_sum-zero rest h.1.1, rfc_sum-lt rest h.1.1)

abbrev swap16 : ℕ → ℕ
swap16 w = w % 2 ^ 8 * 2 ^ 8 + w / 2 ^ 8

-- Two residues of one class modulo 65535, below 65536, are equal if they are zero together.
swap_unique :
    (f r s : ℕ)
    → f < 2 ^ 16
    → r < 2 ^ 16
    → f % 65535 ≡ s % 65535
    → r % 65535 ≡ 256 * s % 65535
    → (f ≡ 0) ↔ (r ≡ 0)
    → r ≡ swap16 f
swap_unique f r s hf hr h k z = ground arith

module _ (bs : List ℕ) (h : IsBytes bs) (n : length bs ≤ max_len) where
  rfc_sum-eq-swap : FoldsOnce bs → rfc_sum bs ≡ swap16 (word_sum bs / 2 ^ 16 + word_sum bs % 2 ^ 16)
  rfc_sum-eq-swap f =
      swap_unique (word_sum bs / 2 ^ 16 + word_sum bs % 2 ^ 16) (rfc_sum bs) (word_sum bs) f
        (rfc_sum-lt bs h) (omega arith) (rfc_sum-mod bs h)
        (λ e. (rfc_sum-zero bs h).1 (omega arith), λ e. omega (arith, (rfc_sum-zero bs h).0 e))

  -- On a buffer of up to 128 KiB the routine computes the RFC 1071 checksum exactly when adding the
  -- carries back once is enough.
  pub checksum_16bit_be-eq-rfc_checksum : (checksum_16bit_be bs ≡ rfc_checksum bs) ↔ FoldsOnce bs
  unfolding rfc_checksum
  checksum_16bit_be-eq-rfc_checksum = (
    λ e.
        ground
          (arith, checksum_16bit_be-eq bs, rfc_sum-mod bs h, rfc_sum-lt bs h, word_sum-lt bs h n),
    λ f. omega (arith, checksum_16bit_be-eq bs, rfc_sum-eq-swap f),
  )

  -- The test `checksum_16bit_be(buf, len) == 0` accepts exactly the buffers of up to 128 KiB whose
  -- one's complement sum is 0xffff, as RFC 1071 verifies them.
  pub checksum_16bit_be-eq-zero : (checksum_16bit_be bs ≡ 0) ↔ (rfc_sum bs ≡ 2 ^ 16 - 1)
  checksum_16bit_be-eq-zero = (
    λ e. ground (arith, checksum_16bit_be-eq bs, rfc_sum-eq-swap, word_sum-lt bs h n),
    λ e.
        ground
          (arith, checksum_16bit_be-eq bs, rfc_sum-eq-swap, rfc_sum-mod bs h, word_sum-lt bs h n),
  )
