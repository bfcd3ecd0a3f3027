-- ===== src/Text.antt =====
-- What the sources use of `std::stringstream`: numbers in three bases, padding, and the flags that stay
-- set from one `<<` to the next. A text is its bytes.
pub mod Scan
pub mod Laws
pub mod Hex
use Prim.Native.Char.{code}
use Prim.Native.String.{String}
use dnet_core.Base.{
  ℕ, zero, suc, ◌+◌, ◌-◌, ◌/◌, ◌%◌, ltb, ◌==◌, if◌then◌else◌, List, [], ◌∷◌, ◌++◌, length,
  replicate,
}

-- A literal of the sources.
abbrev pub codes : String → List ℕ
codes String.[] = []
codes (String.◌∷◌ c s) = code c ∷ codes s

-- `std::dec`, `std::hex` and `std::oct`.
pub data Radix : Type 0 where
  dec hex oct : Radix

abbrev pub base : Radix → ℕ
base dec = 10
base hex = 16
base oct = 8

abbrev pub digit_char : ℕ → ℕ
digit_char d = if ltb d 10 then b'0' + d else b'a' + (d - 10)

-- The digits of `n` in front of `out`; a digit takes one round, so `n + 1` rounds are enough.
unfoldable pub digits : Radix → ℕ → ℕ → List ℕ → List ℕ
digits r zero n out = out
digits r (suc fuel) n out =
    let rest = digits r fuel (n / base r) (digit_char (n % base r) ∷ out) in
    if n == 0 then out else rest

unfoldable pub print : Radix → ℕ → List ℕ
print r n = if n == 0 then b'0' ∷ [] else digits r (suc n) n []

-- The text so far, and the flags.
pub record Ostream : Type 0 where
  pub text : List ℕ
  pub radix : Radix
  pub fill : ℕ
  pub width : ℕ

abbrev pub fresh_stream : Ostream
fresh_stream = record { text = []; radix = dec; fill = b' '; width = 0 }

-- `os << text`: padded on the left to the width, which is then 0 again.
abbrev pub put : List ℕ → Ostream → Ostream
put s os = record os { text = os.text ++ (replicate (os.width - length s) os.fill ++ s); width = 0 }

-- `os << n` for an integer that is not negative.
unfoldable pub put_number : ℕ → Ostream → Ostream
unfolding print
put_number n os = put (print os.radix n) os

-- `std::setw`, `std::setfill` and the bases.
abbrev pub setw : ℕ → Ostream → Ostream
setw n os = record os { width = n }

abbrev pub setfill : ℕ → Ostream → Ostream
setfill c os = record os { fill = c }

abbrev pub set_radix : Radix → Ostream → Ostream
set_radix r os = record os { radix = r }

-- One `<<` after another.
infixl 5 ◌|>◌
abbrev pub ◌|>◌ {ℓ κ} : {A : Type ℓ} {B : Type κ} → A → (A → B) → B
a |> f = f a
