-- ===== src/Text/Hex.antt =====
-- Bytes in two digits, as the addresses of the link layer are written.
use dnet_core.Base.{
  ℕ, zero, suc, ◌+◌, ◌-◌, ◌*◌, ◌/◌, ◌%◌, ◌^◌, ◌<◌, ◌≤◌, ◌≡◌, ◌≢◌, refl, ◌∙◌, ap, ltb, ◌==◌,
  Bool-cases, inl, inr, List, [], ◌∷◌, ◌++◌, false, some, arith, length, replicate,
}
use dnet_core.Text.{Radix, digit_char, digits, print}
use dnet_core.Text.Scan.{read_digits, skip_space, unsigned, scan}
use dnet_core.Text.Laws.{read_digit, digit_value-digit_char}

abbrev pub two_digits : ℕ → List ℕ
two_digits b = digit_char (b / 16) ∷ digit_char (b % 16) ∷ []

digits-zero : (r : Radix) (f : ℕ) (out : List ℕ) → digits r f 0 out ≡ out
unfolding digits
digits-zero r zero out = refl
digits-zero r (suc f) out = refl

digits_next :
    (f n : ℕ) (out : List ℕ)
    → n ≢ 0
    → digits Radix.hex (suc f) n out ≡ digits Radix.hex f (n / 16) (digit_char (n % 16) ∷ out)
unfolding digits
digits_next f n out ne = let more : (n == 0) ≡ false = ground arith in rw more

one_digit : (b : ℕ) → b < 16 → print Radix.hex b ≡ digit_char b ∷ []
unfolding print
one_digit b h = elim (Bool-cases (b == 0)) [
  | inl none_left ↦ let e : b ≡ 0 = ground arith in rw e
  | inr more ↦
      let last : b / 16 ≡ 0 = omega arith in
      let same : b % 16 ≡ b = omega arith in
      rw more (digits_next b b [] (ground arith) ∙ rw (last, same, digits-zero))
]

print-two_digits : (b : ℕ) → 16 ≤ b → b < 2 ^ 8 → print Radix.hex b ≡ two_digits b
unfolding print
print-two_digits b low high =
    let more : (b == 0) ≡ false = ground arith in
    let last : b / 16 / 16 ≡ 0 = omega arith in
    let same : b / 16 % 16 ≡ b / 16 = omega arith in
    let fuel : b ≡ suc (b - 1) = omega arith in
    rw more (
      digits_next b b [] (omega arith)
      ∙ ap (λ f. digits Radix.hex f (b / 16) (digit_char (b % 16) ∷ [])) fuel
      ∙ digits_next (b - 1) (b / 16) _ (omega arith)
      ∙ rw (last, same, digits-zero))

-- `std::setw(2)` and `std::setfill('0')`.
pub padded :
    (b : ℕ)
    → b < 2 ^ 8
    → replicate (2 - length (print Radix.hex b)) b'0' ++ print Radix.hex b ≡ two_digits b
padded b h = elim (Bool-cases (ltb b 16)) [
  | inl low ↦
      let top : b / 16 ≡ 0 = ground arith in
      let same : b % 16 ≡ b = ground arith in rw (one_digit b (ground arith), top, same)
  | inr high ↦ rw (print-two_digits b (ground arith) h)
]

two_scanned :
    (a b : ℕ) (rest : List ℕ)
    → a < 16
    → b < 16
    → scan Radix.hex (digit_char a ∷ digit_char b ∷ rest) ≡ (
        let (n, rest') = read_digits Radix.hex 0 (digit_char a ∷ digit_char b ∷ rest) in
        some (record { minus = false; size = n }, rest'))
unfolding scan skip_space unsigned
two_scanned a b rest ha hb = ground (arith, digit_value-digit_char a (omega arith))

-- `%hhx` reads two digits back, if no digit follows them.
pub scan-two_digits :
    (b : ℕ) (rest : List ℕ)
    → b < 2 ^ 8
    → read_digits Radix.hex b rest ≡ (b, rest)
    → scan Radix.hex (two_digits b ++ rest) ≡ some (record { minus = false; size = b }, rest)
scan-two_digits b rest h ends =
    let all_read : read_digits Radix.hex 0 (two_digits b ++ rest) ≡ (b, rest) =
      read_digit Radix.hex 0 (b / 16) _ (omega arith)
      ∙ read_digit Radix.hex (0 * 16 + b / 16) (b % 16) rest (omega arith)
      ∙ ap (λ n. read_digits Radix.hex n rest) (omega arith)
      ∙ ends in
    two_scanned (b / 16) (b % 16) rest (omega arith) (omega arith) ∙ rw all_read

pub read_digits-colon : (n : ℕ) (s : List ℕ) → read_digits Radix.hex n (b':' ∷ s) ≡ (n, b':' ∷ s)
unfolding read_digits
read_digits-colon n s = refl
