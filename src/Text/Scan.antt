-- ===== src/Text/Scan.antt =====
-- What the sources use of `sscanf`: fields of one number each, a separator between them. `none` in place
-- of a value is a number that its type cannot hold, which C leaves undefined.
use dnet_core.Base.{
  ℕ, zero, suc, ◌+◌, ◌-◌, ◌*◌, ◌^◌, ltb, leb, ◌==◌, ◌&&◌, ◌||◌, not, if◌then◌else◌, Bool, true,
  false, List, [], ◌∷◌, Option, none, some,
}
use dnet_core.Text.{Radix, base}

-- The value of a digit of any base up to 16, or 16.
unfoldable pub digit_value : ℕ → ℕ
digit_value c =
    if leb b'0' c && leb c b'9'
    then c - b'0'
    else if leb b'a' c && leb c b'f'
    then c - b'a' + 10
    else if leb b'A' c && leb c b'F'
    then c - b'A' + 10
    else 16

-- The longest run of digits, behind the number `n`, and the rest.
unfoldable pub read_digits : Radix → ℕ → List ℕ → ℕ × List ℕ
unfolding digit_value
read_digits r n [] = (n, [])
read_digits r n (c ∷ s) =
    let more = read_digits r (n * base r + digit_value c) s in
    if ltb (digit_value c) (base r) then more else (n, c ∷ s)

-- `isspace` in the "C" locale.
abbrev pub is_space : ℕ → Bool
is_space c = c == b' ' || leb 9 c && leb c 13

unfoldable pub skip_space : List ℕ → List ℕ
skip_space [] = []
skip_space (c ∷ s) = let rest = skip_space s in if is_space c then rest else c ∷ s

-- A number with its sign; true is a minus.
pub record Scanned : Type 0 where
  pub minus : Bool
  pub size : ℕ

-- Digits behind the sign, and behind `0x` in base 16; there must be one.
unfoldable pub unsigned : Radix → Bool → List ℕ → Option (Scanned × List ℕ)
unfolding digit_value read_digits
unsigned r minus [] = none
unsigned r minus (c ∷ s) =
    let (n, rest) = read_digits r 0 (c ∷ s) in
    if ltb (digit_value c) (base r) then some (record { minus = minus; size = n }, rest) else none

abbrev pub drop_prefix : Radix → List ℕ → List ℕ
drop_prefix Radix.hex (c ∷ x ∷ s) = if c == b'0' && (x == b'x' || x == b'X') then s else c ∷ x ∷ s
drop_prefix r s = s

abbrev pub signed : Radix → List ℕ → Option (Scanned × List ℕ)
signed r [] = none
signed r (c ∷ s) =
    if c == b'-'
    then unsigned r true (drop_prefix r s)
    else if c == b'+'
    then unsigned r false (drop_prefix r s)
    else unsigned r false (drop_prefix r (c ∷ s))

-- `%d` and `%x`.
unfoldable pub scan : Radix → List ℕ → Option (Scanned × List ℕ)
unfolding skip_space unsigned
scan r s = signed r (skip_space s)

-- What stands behind the separator.
abbrev pub behind : ℕ → List ℕ → Option (List ℕ)
behind sep [] = none
behind sep (c ∷ s) = if c == sep then some s else none

-- The numbers that `sscanf` assigns for a format of `n` fields; it returns how many they are.
unfoldable pub fields : Radix → ℕ → ℕ → List ℕ → List Scanned
unfolding scan
fields r sep zero s = []
fields r sep (suc n) s = elim (scan r s) [
  | none ↦ []
  | some (v, rest) ↦ v ∷ elim (behind sep rest) [ none ↦ [] | some rest' ↦ fields r sep n rest' ]
]

-- Whether an `int` holds the number, and whether an `unsigned char` does.
abbrev pub fits_int : Scanned → Bool
fits_int v = if v.minus then leb v.size (2 ^ 31) else ltb v.size (2 ^ 31)

abbrev pub fits_byte : Scanned → Bool
fits_byte v = (not v.minus || v.size == 0) && ltb v.size (2 ^ 8)
