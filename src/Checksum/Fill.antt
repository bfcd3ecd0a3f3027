-- ===== src/Checksum/Fill.antt =====
-- Filling a checksum field: the field is set to 0, the checksum of the whole buffer is stored in it
-- in network order, and the receiver's test is run on the result.
use dnet_core.Base.{
  ℕ, ◌+◌, ◌-◌, ◌/◌, ◌%◌, ◌^◌, ◌≤◌, ◌<◌, ◌≡◌, ◌↔◌, ◌∙◌, ap, List, [], ◌∷◌, ◌++◌, length, arith,
}
use dnet_core.Words.{be16}
use dnet_core.Checksum.{le16, checksum_16bit_be}
use dnet_core.Checksum.Fold.{
  word_sum, word_sum-lt, IsBytes, max_len, FoldsOnce, folded, checksum_16bit_be-eq,
}

-- A buffer with an even number of bytes before the word `w`.
abbrev IsEven : List ℕ → Type 0
IsEven bs = length bs % 2 ≡ 0

word_sum-field :
    (pre post : List ℕ) (a b : ℕ)
    → IsEven pre
    → word_sum (pre ++ a ∷ b ∷ post) ≡ word_sum (pre ++ 0 ∷ 0 ∷ post) + le16 a b
unfolding word_sum
word_sum-field [] post a b e = omega arith
word_sum-field (x ∷ []) post a b e = absurd (omega arith)
word_sum-field (x ∷ y ∷ pre) post a b e = omega (arith, word_sum-field pre post a b (omega arith))

stored :
    (bs : List ℕ)
    → let w = be16 (checksum_16bit_be bs) in le16 w.b0 w.b1 ≡ 65535 - folded bs % 2 ^ 16
stored bs = omega (arith, checksum_16bit_be-eq bs)

passes : (bs : List ℕ) → (checksum_16bit_be bs ≡ 0) ↔ (folded bs % 2 ^ 16 ≡ 65535)
passes bs =
    (λ p. omega (arith, checksum_16bit_be-eq bs), λ p. omega (arith, checksum_16bit_be-eq bs))

-- The numbers behind `fill-verifies`: `s` is the sum over the blank field, `t` over the filled one.
refold :
    (s t : ℕ)
    → s ≤ 2 ^ 32 - 2 ^ 16
    → t ≡ s + (65535 - (s / 2 ^ 16 + s % 2 ^ 16) % 2 ^ 16)
    → ((t / 2 ^ 16 + t % 2 ^ 16) % 2 ^ 16 ≡ 65535) ↔ (s / 2 ^ 16 + s % 2 ^ 16 < 2 ^ 16)
refold s t h e = (λ p. omega arith, λ p. omega arith)

-- The buffer around a checksum field of zeros, and with the checksum of that in the field.
abbrev pub blank : List ℕ → List ℕ → List ℕ
blank pre post = pre ++ 0 ∷ 0 ∷ post

abbrev pub filled : List ℕ → List ℕ → List ℕ
filled pre post = let w = be16 (checksum_16bit_be (blank pre post)) in pre ++ w.b0 ∷ w.b1 ∷ post

module _ (pre post : List ℕ) (even : IsEven pre) (h : IsBytes (blank pre post))
    (n : length (blank pre post) ≤ max_len) where
  -- A buffer of up to 128 KiB with an even number of bytes before its checksum field, filled in by the
  -- routine, passes the routine's own test exactly when the sum over the blank field folds once.
  pub fill-verifies : (checksum_16bit_be (filled pre post) ≡ 0) ↔ FoldsOnce (blank pre post)
  fill-verifies =
      let e =
        refold (word_sum (blank pre post)) (word_sum (filled pre post))
          (word_sum-lt (blank pre post) h n) total in
      (λ p. e.0 ((passes (filled pre post)).0 p), λ f. (passes (filled pre post)).1 (e.1 f))
    where
      total :
          word_sum (filled pre post)
          ≡ word_sum (blank pre post) + (65535 - folded (blank pre post) % 2 ^ 16)
      total =
          word_sum-field pre post _ _ even
          ∙ ap (◌+◌ (word_sum (blank pre post))) (stored (blank pre post))
