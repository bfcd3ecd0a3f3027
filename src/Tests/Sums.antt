-- ===== src/Tests/Sums.antt =====
-- The checksum at concrete buffers.
use dnet_core.Base.{ℕ, List, [], ◌∷◌, ◌≡◌, ◌↔◌, refl, arith}
use dnet_core.Checksum.{checksum_16bit_be}
use dnet_core.Checksum.Fold.{FoldsOnce}
use dnet_core.Checksum.Reference.{
  rfc_sum, rfc_checksum, checksum_16bit_be-eq-rfc_checksum, checksum_16bit_be-eq-zero,
}
use dnet_core.Checksum.Fill.{fill-verifies, filled}
use dnet_core.Tests.{ping}

-- Words that carry twice.
abbrev twice : List ℕ
twice = 0xff ∷ 0xff ∷ 0xff ∷ 0xff ∷ 1 ∷ 0 ∷ []

twice_sums : (checksum_16bit_be twice ≡ 0xffff) × (rfc_checksum twice ≡ 0xfeff)
unfolding checksum_16bit_be rfc_checksum rfc_sum
twice_sums = (refl, refl)

checksum_16bit_be-eq-rfc_checksum_example :
    (checksum_16bit_be twice ≡ rfc_checksum twice) ↔ FoldsOnce twice
checksum_16bit_be-eq-rfc_checksum_example =
    checksum_16bit_be-eq-rfc_checksum twice (omega arith) (omega arith)

checksum_16bit_be-eq-zero_example : (checksum_16bit_be ping ≡ 0) ↔ (rfc_sum ping ≡ 0xffff)
checksum_16bit_be-eq-zero_example = checksum_16bit_be-eq-zero ping (omega arith) (omega arith)

fill-verifies_example :
    (checksum_16bit_be (filled (8 ∷ 0 ∷ []) (0 ∷ 1 ∷ 0 ∷ 2 ∷ 97 ∷ 98 ∷ 99 ∷ [])) ≡ 0)
    ↔ FoldsOnce (8 ∷ 0 ∷ 0 ∷ 0 ∷ 0 ∷ 1 ∷ 0 ∷ 2 ∷ 97 ∷ 98 ∷ 99 ∷ [])
fill-verifies_example =
    fill-verifies (8 ∷ 0 ∷ []) (0 ∷ 1 ∷ 0 ∷ 2 ∷ 97 ∷ 98 ∷ 99 ∷ []) refl (omega arith) (omega arith)
