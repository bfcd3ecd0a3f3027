-- ===== src/Addr/Text.antt =====
-- defs.h: `to_string` and `parse_string` of `MacAddress` and `Ipv4Address`. `parse_string` takes the text
-- as a C string: what stands behind a NUL is not read, since a NUL ends every field.
use dnet_core.Base.{
  ◌≡◌, ◌⊎◌, inl, inr, refl, ℕ, leb, ◌==◌, ◌&&◌, ◌||◌, not, if◌then◌else◌, Bool, true, List, [], ◌∷◌,
}
use dnet_core.Addr.{MacAddress, Ipv4Address}
use dnet_core.Text.{
  Radix, Ostream, fresh_stream, put, put_number, setw, setfill, set_radix, ◌|>◌, codes,
}
use dnet_core.Text.Scan.{Scanned, fields, fits_int, fits_byte}

-- How `parse_string` ends: with a value, by `std::invalid_argument`, or undefined, where a number is too
-- large for the variable that `sscanf` assigns.
pub data Parsed (A : Type 0) : Type 0 where
  parsed : A → Parsed A
  invalid : Parsed A
  undefined : Parsed A

pub Parsed-cases :
    {A : Type 0} (p : Parsed A) → ((p ≡ invalid) ⊎ (p ≡ undefined)) ⊎ ((a : A) × (p ≡ parsed a))
Parsed-cases (parsed a) = inr (a, refl)
Parsed-cases invalid = inl (inl refl)
Parsed-cases undefined = inl (inr refl)

abbrev pub all_fit : (Scanned → Bool) → List Scanned → Bool
all_fit p [] = true
all_fit p (v ∷ vs) = p v && all_fit p vs

-- `x >= 0 && x <= 255`
abbrev pub in_byte : Scanned → Bool
in_byte v = (not v.minus || v.size == 0) && leb v.size 255

-- The range test of `Ipv4Address::parse_string`, with four numbers.
unfoldable pub of_numbers : List Scanned → Parsed Ipv4Address
of_numbers (x1 ∷ x2 ∷ x3 ∷ x4 ∷ []) =
    if in_byte x1 && in_byte x2 && in_byte x3 && in_byte x4
    then parsed (record { b0 = x1.size; b1 = x2.size; b2 = x3.size; b3 = x4.size })
    else invalid
of_numbers _ = invalid

unfoldable pub parse_ipv4 : List ℕ → Parsed Ipv4Address
unfolding of_numbers fields
parse_ipv4 s =
    let xs = fields Radix.dec b'.' 4 s in if all_fit fits_int xs then of_numbers xs else undefined

unfoldable pub of_bytes : List Scanned → Parsed MacAddress
of_bytes (x0 ∷ x1 ∷ x2 ∷ x3 ∷ x4 ∷ x5 ∷ []) =
    parsed (record {
      b0 = x0.size;
      b1 = x1.size;
      b2 = x2.size;
      b3 = x3.size;
      b4 = x4.size;
      b5 = x5.size;
    })
of_bytes _ = invalid

unfoldable pub parse_mac : List ℕ → Parsed MacAddress
unfolding of_bytes fields
parse_mac s =
    let xs = fields Radix.hex b':' 6 s in if all_fit fits_byte xs then of_bytes xs else undefined

unfoldable pub ipv4_text : Ipv4Address → List ℕ
unfolding put_number
ipv4_text a =
    (fresh_stream
      |> put_number a.b0
      |> put (codes ".")
      |> put_number a.b1
      |> put (codes ".")
      |> put_number a.b2
      |> put (codes ".")
      |> put_number a.b3).text

-- One round of the loop of `MacAddress::to_string`.
abbrev pub put_byte : ℕ → List ℕ → Ostream → Ostream
put_byte b sep os = os |> set_radix Radix.hex |> setw 2 |> setfill b'0' |> put_number b |> put sep

unfoldable pub mac_text : MacAddress → List ℕ
unfolding put_number
mac_text m =
    (fresh_stream
      |> put_byte m.b0 (codes ":")
      |> put_byte m.b1 (codes ":")
      |> put_byte m.b2 (codes ":")
      |> put_byte m.b3 (codes ":")
      |> put_byte m.b4 (codes ":")
      |> put_byte m.b5 []).text
