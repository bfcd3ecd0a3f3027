-- ===== src/Memory.antt =====
-- Buffers behind a pointer: the bytes from the pointer to the end of the object that it points into.
-- A struct is read from such a buffer field by field; `none` is a read past the end.
pub mod Laws
use dnet_core.Base.{ℕ, zero, suc, Option, none, some, List, [], ◌∷◌}
use dnet_core.Words.{U16Be, U32Be, val16, val32}
use dnet_core.Addr.{MacAddress}

infixl 5 ◌>>=◌
abbrev pub ◌>>=◌ {ℓ κ} : {A : Type ℓ} {B : Type κ} → Option A → (A → Option B) → Option B
none >>= f = none
some a >>= f = f a

-- `memcpy` of `n` bytes: all of them must be there.
unfoldable pub read_bytes : ℕ → List ℕ → Option (List ℕ)
read_bytes zero p = some []
read_bytes (suc n) [] = none
read_bytes (suc n) (b ∷ p) = do rest ← read_bytes n p; some (b ∷ rest)

-- A field and the rest of the buffer.
abbrev pub field8 : List ℕ → Option (ℕ × List ℕ)
field8 (a ∷ p) = some (a, p)
field8 [] = none

abbrev pub field16 : List ℕ → Option (ℕ × List ℕ)
field16 (a ∷ b ∷ p) = some (val16 (record { b0 = a; b1 = b }), p)
field16 _ = none

abbrev pub field_addr : List ℕ → Option (U32Be × List ℕ)
field_addr (a ∷ b ∷ c ∷ d ∷ p) = some (record { b0 = a; b1 = b; b2 = c; b3 = d }, p)
field_addr _ = none

abbrev pub field32 : List ℕ → Option (ℕ × List ℕ)
field32 (a ∷ b ∷ c ∷ d ∷ p) = some (val32 (record { b0 = a; b1 = b; b2 = c; b3 = d }), p)
field32 _ = none

abbrev pub field_mac : List ℕ → Option (MacAddress × List ℕ)
field_mac (a ∷ b ∷ c ∷ d ∷ e ∷ f ∷ p) =
    some (record { b0 = a; b1 = b; b2 = c; b3 = d; b4 = e; b5 = f }, p)
field_mac _ = none
