-- ===== src/Addr/TextLaws.antt =====
-- Addresses that were printed are parsed as themselves.
use dnet_core.Base.{
  ℕ, suc, ◌-◌, ◌^◌, ◌<◌, ◌≡◌, ◌∙◌, ap, ltb, leb, true, false, List, [], ◌∷◌, ◌++◌, append_assoc,
  append-nil, arith,
}
use dnet_core.Words.Laws.{IsWord32}
use dnet_core.Addr.{MacAddress, Ipv4Address}
use dnet_core.Addr.Text.{parsed, of_numbers, parse_ipv4, of_bytes, parse_mac, ipv4_text, mac_text}
use dnet_core.Text.{Radix, print, put_number}
use dnet_core.Text.Hex.{two_digits, padded, scan-two_digits, read_digits-colon}
use dnet_core.Text.Scan.{Scanned, fields}
use dnet_core.Text.Laws.{scan-print, read_digits-dot, read_digits-nil}

abbrev number : ℕ → Scanned
number n = record { minus = false; size = n }

zero_sub : (n : ℕ) → 0 - n ≡ 0
zero_sub n = omega arith

-- The dotted quad.
ipv4_text-eq :
    (a : Ipv4Address)
    → ipv4_text a
      ≡ print Radix.dec a.b0
        ++ (b'.'
            ∷ (print Radix.dec a.b1
                ++ (b'.' ∷ (print Radix.dec a.b2 ++ (b'.' ∷ (print Radix.dec a.b3 ++ []))))))
unfolding ipv4_text put_number
ipv4_text-eq a = simp (zero_sub, append_assoc, append-nil)

fields_dot :
    (n k : ℕ) (s : List ℕ)
    → fields Radix.dec b'.' (suc k) (print Radix.dec n ++ (b'.' ∷ s))
      ≡ number n ∷ fields Radix.dec b'.' k s
unfolding fields
fields_dot n k s = rw (scan-print n (b'.' ∷ s) (read_digits-dot n s), fields)

fields_end : (n k : ℕ) → fields Radix.dec b'.' (suc k) (print Radix.dec n ++ []) ≡ number n ∷ []
unfolding fields
fields_end n k = rw (scan-print n [] (read_digits-nil Radix.dec n), fields)

below : (b : ℕ) → b < 2 ^ 8 → leb b 255 ≡ true
below b h = ground arith

in_int : (b : ℕ) → b < 2 ^ 8 → ltb b (2 ^ 31) ≡ true
in_int b h = ground arith

-- Any IPv4 address of four bytes, printed by `to_string`, is parsed by `parse_string` as itself.
pub parse_ipv4-ipv4_text : (a : Ipv4Address) → IsWord32 a → parse_ipv4 (ipv4_text a) ≡ parsed a
unfolding parse_ipv4 of_numbers
parse_ipv4-ipv4_text a h =
    let xs : fields Radix.dec b'.' 4 (ipv4_text a)
        ≡ number a.b0 ∷ number a.b1 ∷ number a.b2 ∷ number a.b3 ∷ [] =
      ap (fields Radix.dec b'.' 4) (ipv4_text-eq a)
      ∙ fields_dot a.b0 3 _
      ∙ ap (◌∷◌ (number a.b0)) (
          fields_dot a.b1 2 _
          ∙ ap (◌∷◌ (number a.b1))
              (fields_dot a.b2 1 _ ∙ ap (◌∷◌ (number a.b2)) (fields_end a.b3 0))) in
    rw (xs, in_int a.b0 h.0, in_int a.b1 h.1, in_int a.b2 h.2, in_int a.b3 h.3)
      (rw (below a.b0 h.0, below a.b1 h.1, below a.b2 h.2, below a.b3 h.3))

-- Bytes.
abbrev pub IsMac : MacAddress → Type 0
IsMac m =
    (m.b0 < 2 ^ 8)
    × (m.b1 < 2 ^ 8)
    × (m.b2 < 2 ^ 8)
    × (m.b3 < 2 ^ 8)
    × (m.b4 < 2 ^ 8)
    × (m.b5 < 2 ^ 8)

mac_text-eq :
    (m : MacAddress)
    → IsMac m
    → mac_text m
      ≡ two_digits m.b0
        ++ (b':'
            ∷ (two_digits m.b1
                ++ (b':'
                    ∷ (two_digits m.b2
                        ++ (b':'
                            ∷ (two_digits m.b3
                                ++ (b':'
                                    ∷ (two_digits m.b4 ++ (b':' ∷ (two_digits m.b5 ++ []))))))))))
unfolding mac_text put_number
mac_text-eq m h = rw (
  padded m.b0 h.0,
  padded m.b1 h.1,
  padded m.b2 h.2,
  padded m.b3 h.3,
  padded m.b4 h.4,
  padded m.b5 h.5,
)

fields_colon :
    (b k : ℕ) (s : List ℕ)
    → b < 2 ^ 8
    → fields Radix.hex b':' (suc k) (two_digits b ++ (b':' ∷ s))
      ≡ number b ∷ fields Radix.hex b':' k s
unfolding fields
fields_colon b k s h = rw (scan-two_digits b (b':' ∷ s) h (read_digits-colon b s), fields)

fields_last :
    (b k : ℕ) → b < 2 ^ 8 → fields Radix.hex b':' (suc k) (two_digits b ++ []) ≡ number b ∷ []
unfolding fields
fields_last b k h = rw (scan-two_digits b [] h (read_digits-nil Radix.hex b), fields)

in_range : (b : ℕ) → b < 2 ^ 8 → ltb b (2 ^ 8) ≡ true
in_range b h = ground arith

-- Any hardware address of six bytes, printed by `to_string` with two hexadecimal digits for each, is
-- parsed by `parse_string` as itself.
pub parse_mac-mac_text : (m : MacAddress) → IsMac m → parse_mac (mac_text m) ≡ parsed m
unfolding parse_mac of_bytes
parse_mac-mac_text m h =
    let xs : fields Radix.hex b':' 6 (mac_text m)
        ≡ number m.b0 ∷ number m.b1 ∷ number m.b2 ∷ number m.b3 ∷ number m.b4 ∷ number m.b5 ∷ [] =
      ap (fields Radix.hex b':' 6) (mac_text-eq m h)
      ∙ fields_colon m.b0 5 _ h.0
      ∙ ap (◌∷◌ (number m.b0)) (
          fields_colon m.b1 4 _ h.1
          ∙ ap (◌∷◌ (number m.b1)) (
              fields_colon m.b2 3 _ h.2
              ∙ ap (◌∷◌ (number m.b2)) (
                  fields_colon m.b3 2 _ h.3
                  ∙ ap (◌∷◌ (number m.b3)) (
                      fields_colon m.b4 1 _ h.4
                      ∙ ap (◌∷◌ (number m.b4)) (fields_last m.b5 0 h.5))))) in
    rw xs (
      rw (
        in_range m.b0 h.0,
        in_range m.b1 h.1,
        in_range m.b2 h.2,
        in_range m.b3 h.3,
        in_range m.b4 h.4,
        in_range m.b5 h.5,
      ))

of_numbers-IsWord32 : (xs : List Scanned) {a : Ipv4Address} → of_numbers xs ≡ parsed a → IsWord32 a
unfolding of_numbers
of_numbers-IsWord32 [] e = ground arith
of_numbers-IsWord32 (x1 ∷ []) e = ground arith
of_numbers-IsWord32 (x1 ∷ x2 ∷ []) e = ground arith
of_numbers-IsWord32 (x1 ∷ x2 ∷ x3 ∷ []) e = ground arith
of_numbers-IsWord32 (x1 ∷ x2 ∷ x3 ∷ x4 ∷ []) e = ground arith
of_numbers-IsWord32 (x1 ∷ x2 ∷ x3 ∷ x4 ∷ x5 ∷ xs) e = ground arith

-- Whatever is parsed is four bytes.
pub parse_ipv4-IsWord32 : (s : List ℕ) {a : Ipv4Address} → parse_ipv4 s ≡ parsed a → IsWord32 a
unfolding parse_ipv4
parse_ipv4-IsWord32 s e = of_numbers-IsWord32 (fields Radix.dec b'.' 4 s) (ground arith)
