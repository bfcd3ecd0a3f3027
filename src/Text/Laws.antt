-- ===== src/Text/Laws.antt =====
-- A number that was printed is scanned as itself.
use dnet_core.Base.{
  ℕ, zero, suc, ◌+◌, ◌*◌, ◌/◌, ◌%◌, ◌<◌, ◌≡◌, ◌≢◌, refl, ◌∙◌, sym, ap, ◌==◌, Bool-cases, inl, inr,
  List, [], ◌∷◌, ◌++◌, false, some, arith,
}
use dnet_core.Text.{Radix, base, digit_char, digits, print}
use dnet_core.Text.Scan.{digit_value, read_digits, skip_space, unsigned, scan}

pub digit_value-digit_char : (d : ℕ) → d < 16 → digit_value (digit_char d) ≡ d
unfolding digit_value
digit_value-digit_char d h = ground arith

pub read_digit :
    (r : Radix) (n d : ℕ) (s : List ℕ)
    → d < base r
    → read_digits r n (digit_char d ∷ s) ≡ read_digits r (n * base r + d) s
unfolding read_digits
read_digit Radix.dec n d s h = let e = digit_value-digit_char d (omega arith) in rw e (ground arith)
read_digit Radix.hex n d s h = let e = digit_value-digit_char d (omega arith) in rw e (ground arith)
read_digit Radix.oct n d s h = let e = digit_value-digit_char d (omega arith) in rw e (ground arith)

last_digit : (r : Radix) (n : ℕ) → (n / base r * base r + n % base r ≡ n) × (n % base r < base r)
last_digit Radix.dec n = omega arith
last_digit Radix.hex n = omega arith
last_digit Radix.oct n = omega arith

smaller : (r : Radix) (n f : ℕ) → n < suc f → n ≢ 0 → n / base r < f
smaller Radix.dec n f h ne = omega arith
smaller Radix.hex n f h ne = omega arith
smaller Radix.oct n f h ne = omega arith

-- Reading all digits of `n` and on from there is reading on from `n`.
pub read_digits-digits :
    (r : Radix) (f n : ℕ) (out : List ℕ)
    → n < f
    → read_digits r 0 (digits r f n out) ≡ read_digits r n out
unfolding digits
read_digits-digits r zero n out h = absurd (omega arith)
read_digits-digits r (suc f) n out h = elim (Bool-cases (n == 0)) [
  | inl none_left ↦ rw none_left (ap (λ k. read_digits r k out) (ground arith))
  | inr more ↦ rw more (
      read_digits-digits r f (n / base r) _ (smaller r n f h (ground arith))
      ∙ read_digit r (n / base r) (n % base r) out (last_digit r n).1
      ∙ ap (λ k. read_digits r k out) (last_digit r n).0)
]

digits-append :
    (r : Radix) (f n : ℕ) (out rest : List ℕ)
    → digits r f n out ++ rest ≡ digits r f n (out ++ rest)
unfolding digits
digits-append r zero n out rest = refl
digits-append r (suc f) n out rest = elim (Bool-cases (n == 0)) [
  | inl none_left ↦ rw none_left
  | inr more ↦ rw more (digits-append r f (n / base r) _ rest)
]

-- The first digit.
digits_head :
    (r : Radix) (f n d : ℕ) (out : List ℕ)
    → n < f
    → d < base r
    → (d' : ℕ) × (s : List ℕ) × (digits r f n (digit_char d ∷ out) ≡ digit_char d' ∷ s)
      × (d' < base r)
unfolding digits
digits_head r zero n d out h small = absurd (omega arith)
digits_head r (suc f) n d out h small = elim (Bool-cases (n == 0)) [
  | inl none_left ↦ (d, out, rw none_left, small)
  | inr more ↦
      let (d', s, e, small') =
        digits_head r f (n / base r) (n % base r) (digit_char d ∷ out)
          (smaller r n f h (ground arith)) (last_digit r n).1 in
      (d', s, rw more e, small')
]

scan_head :
    (d : ℕ) (s : List ℕ)
    → d < 10
    → scan Radix.dec (digit_char d ∷ s) ≡ (
        let (n, rest) = read_digits Radix.dec 0 (digit_char d ∷ s) in
        some (record { minus = false; size = n }, rest))
unfolding scan skip_space unsigned digit_value
scan_head d s h = ground arith

print-digits :
    (n : ℕ) (rest : List ℕ) → n ≢ 0 → print Radix.dec n ++ rest ≡ digits Radix.dec (suc n) n rest
unfolding print
print-digits n rest ne =
    let more : (n == 0) ≡ false = ground arith in
    rw more (digits-append Radix.dec (suc n) n [] rest)

digits_start :
    (n : ℕ) (rest : List ℕ)
    → n ≢ 0
    → (d : ℕ) × (s : List ℕ) × (digits Radix.dec (suc n) n rest ≡ digit_char d ∷ s) × (d < 10)
unfolding digits
digits_start n rest ne =
    let more : (n == 0) ≡ false = ground arith in
    rw more (
      digits_head Radix.dec n (n / 10) (n % 10) rest (smaller Radix.dec n n (omega arith) ne)
        (last_digit Radix.dec n).1)

scan-digits :
    (n : ℕ) (rest : List ℕ)
    → n ≢ 0
    → read_digits Radix.dec n rest ≡ (n, rest)
    → scan Radix.dec (digits Radix.dec (suc n) n rest)
      ≡ some (record { minus = false; size = n }, rest)
scan-digits n rest ne ends =
    let (d, s, e, small) = digits_start n rest ne in
    let all_read : read_digits Radix.dec 0 (digit_char d ∷ s) ≡ (n, rest) =
      ap (read_digits Radix.dec 0) (sym e)
      ∙ read_digits-digits Radix.dec (suc n) n rest (omega arith)
      ∙ ends in
    ap (scan Radix.dec) e ∙ scan_head d s small ∙ rw all_read

-- `%d` reads back a number that was printed in base 10, if no digit follows it.
pub scan-print :
    (n : ℕ) (rest : List ℕ)
    → read_digits Radix.dec n rest ≡ (n, rest)
    → scan Radix.dec (print Radix.dec n ++ rest) ≡ some (record { minus = false; size = n }, rest)
unfolding print
scan-print n rest ends = elim (Bool-cases (n == 0)) [
  | inl none_left ↦
      let e : n ≡ 0 = ground arith in
      let all_read : read_digits Radix.dec 0 (digit_char 0 ∷ rest) ≡ (n, rest) =
        read_digit Radix.dec 0 0 rest (omega arith) ∙ rw (← e) ends in
      rw none_left (scan_head 0 rest (omega arith) ∙ rw all_read)
  | inr more ↦
      ap (scan Radix.dec) (print-digits n rest (ground arith))
      ∙ scan-digits n rest (ground arith) ends
]

pub read_digits-dot : (n : ℕ) (s : List ℕ) → read_digits Radix.dec n (b'.' ∷ s) ≡ (n, b'.' ∷ s)
unfolding read_digits
read_digits-dot n s = refl

pub read_digits-nil : (r : Radix) (n : ℕ) → read_digits r n [] ≡ (n, [])
unfolding read_digits
read_digits-nil r n = refl
