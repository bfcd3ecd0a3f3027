-- ===== src/Memory/Laws.antt =====
-- Reads through a pointer: how many bytes they give, and when they leave the object.
use dnet_core.Base.{
  ℕ, zero, suc, ◌<◌, ◌≤◌, ◌≡◌, refl, List, [], ◌∷◌, ◌++◌, none, some, length, arith, Option-cases,
  inl, inr,
}
use dnet_core.Memory.{read_bytes}

pub length-read_bytes :
    (n : ℕ) (p : List ℕ) {bytes : List ℕ} → read_bytes n p ≡ some bytes → length bytes ≡ n
unfolding read_bytes
length-read_bytes zero p e = ground arith
length-read_bytes (suc n) [] e = cc
length-read_bytes (suc n) (b ∷ p) e = elim (Option-cases (read_bytes n p)) [
  | inl out ↦ ground arith
  | inr (rest, r) ↦ ground (arith, length-read_bytes n p r)
]

-- Past the end of the object there is nothing to read.
pub read_bytes_outside : (n : ℕ) (p : List ℕ) → length p < n → read_bytes n p ≡ none
unfolding read_bytes
read_bytes_outside zero p h = absurd (omega arith)
read_bytes_outside (suc n) [] h = refl
read_bytes_outside (suc n) (b ∷ p) h = ground (arith, read_bytes_outside n p (omega arith))

-- Inside it the read gives the first bytes.
pub read_bytes-append : (xs rest : List ℕ) → read_bytes (length xs) (xs ++ rest) ≡ some xs
unfolding read_bytes
read_bytes-append [] rest = refl
read_bytes-append (x ∷ xs) rest = ground (arith, read_bytes-append xs rest)

-- A read inside the object gives something.
pub read_bytes_inside :
    (n : ℕ) (p : List ℕ) → n ≤ length p → (bytes : List ℕ) × (read_bytes n p ≡ some bytes)
unfolding read_bytes
read_bytes_inside zero p h = ([], refl)
read_bytes_inside (suc n) [] h = absurd (omega arith)
read_bytes_inside (suc n) (b ∷ p) h =
    let (rest, e) = read_bytes_inside n p (omega arith) in (b ∷ rest, rw e)

pub read_bytes_all : (bytes : List ℕ) → read_bytes (length bytes) bytes ≡ some bytes
unfolding read_bytes
read_bytes_all [] = refl
read_bytes_all (b ∷ bytes) = ground (arith, read_bytes_all bytes)
