-- ===== src/Log/Laws.antt =====
-- Hexadecimal texts: what they hold, and that they are read back.
use dnet_core.Base.{
  ℕ, zero, suc, ◌+◌, ◌-◌, ◌*◌, ◌/◌, ◌%◌, ◌==◌, Bool-cases, inl, inr, ◌^◌, ◌<◌, ◌≡◌, refl, ap, sym,
  ◌∙◌, List, [], ◌∷◌, ◌++◌, append_assoc, append-nil, arith, length, replicate,
}
use dnet_core.Text.{Radix, Ostream, put_number, print}
use dnet_core.Text.Scan.{read_digits, digit_value}
use dnet_core.Text.Laws.{digit_value-digit_char, read_digits-digits, read_digits-nil}
use dnet_core.Text.Hex.{two_digits, padded}
use dnet_core.Log.{put_bytes, bytes_to_hex_string, int_to_hex}

-- Bytes that are bytes.
abbrev pub AllBytes : List ℕ → Type 0
AllBytes [] = Unit {0}
AllBytes (b ∷ bytes) = (b < 2 ^ 8) × AllBytes bytes

abbrev pub hex_dump : List ℕ → List ℕ
hex_dump [] = []
hex_dump (b ∷ bytes) = two_digits b ++ hex_dump bytes

abbrev hex_stream : List ℕ → Ostream
hex_stream s = record { text = s; radix = Radix.hex; fill = b'0'; width = 0 }

put_bytes_lem :
    (bytes s : List ℕ)
    → AllBytes bytes
    → put_bytes bytes (hex_stream s) ≡ hex_stream (s ++ hex_dump bytes)
unfolding put_bytes put_number
put_bytes_lem [] s h = ap hex_stream (sym (append-nil s))
put_bytes_lem (b ∷ bytes) s h = rw (padded b h.0) (
    put_bytes_lem bytes (s ++ two_digits b) h.1
    ∙ ap hex_stream (append_assoc s (two_digits b) (hex_dump bytes)))

length-hex_dump : (bytes : List ℕ) → length (hex_dump bytes) ≡ 2 * length bytes
length-hex_dump [] = refl
length-hex_dump (b ∷ bytes) = omega (arith, length-hex_dump bytes)

-- The bytes that pairs of digits stand for.
abbrev pub from_pairs : List ℕ → List ℕ
from_pairs [] = []
from_pairs (a ∷ []) = []
from_pairs (a ∷ b ∷ s) = (digit_value a * 16 + digit_value b) ∷ from_pairs s

from_pairs-hex_dump : (bytes : List ℕ) → AllBytes bytes → from_pairs (hex_dump bytes) ≡ bytes
from_pairs-hex_dump [] h = refl
from_pairs-hex_dump (b ∷ bytes) h =
    let high = digit_value-digit_char (b / 16) (omega (arith, h.0)) in
    let low = digit_value-digit_char (b % 16) (omega arith) in
    rw (high, low, from_pairs-hex_dump bytes h.1) (ap (λ c. c ∷ bytes) (omega arith))

-- `bytes_to_hex_string` writes two digits for each byte, which are read back as the bytes.
pub bytes_to_hex_string_lem :
    (bytes : List ℕ)
    → AllBytes bytes
    → (length (bytes_to_hex_string bytes) ≡ 2 * length bytes)
      × (from_pairs (bytes_to_hex_string bytes) ≡ bytes)
bytes_to_hex_string_lem bytes h =
    let e = put_bytes_lem bytes [] h in
    (
      ap (λ (o : Ostream). length o.text) e ∙ length-hex_dump bytes,
      ap (λ (o : Ostream). from_pairs o.text) e ∙ from_pairs-hex_dump bytes h,
    )

read_zeros :
    (r : Radix) (k : ℕ) (s : List ℕ) → read_digits r 0 (replicate k b'0' ++ s) ≡ read_digits r 0 s
unfolding read_digits digit_value
read_zeros r zero s = refl
read_zeros Radix.dec (suc k) s = read_zeros Radix.dec k s
read_zeros Radix.hex (suc k) s = read_zeros Radix.hex k s
read_zeros Radix.oct (suc k) s = read_zeros Radix.oct k s

read_digits-print : (r : Radix) (n : ℕ) → read_digits r 0 (print r n) ≡ (n, [])
unfolding print
read_digits-print r n = elim (Bool-cases (n == 0)) [
  | inl none_left ↦
      rw none_left
        (read_zeros r 1 [] ∙ read_digits-nil r 0 ∙ ap (λ k. (k, [])) {y = n} (ground arith))
  | inr more ↦ rw more (read_digits-digits r (suc n) n [] (omega arith) ∙ read_digits-nil r n)
]

-- `int_to_hex` writes `0x`, and digits which are read back as the number.
pub int_to_hex_lem :
    (size i : ℕ)
    → (digits : List ℕ) × (int_to_hex size i ≡ b'0' ∷ b'x' ∷ digits)
      × (read_digits Radix.hex 0 digits ≡ (i, []))
unfolding int_to_hex put_number
int_to_hex_lem size i = (
  replicate (size * 2 - length (print Radix.hex i)) b'0' ++ print Radix.hex i,
  refl,
  read_zeros Radix.hex (size * 2 - length (print Radix.hex i)) (print Radix.hex i)
      ∙ read_digits-print Radix.hex i,
)
