-- ===== src/Addr.antt =====
-- defs.h: `MacAddress`, `Ipv4Address` and `Ipv4Subnet`.
pub mod Laws
pub mod Text
pub mod TextLaws
use dnet_core.Base.{ℕ, Bool, ◌&&◌, ◌==◌, List, [], ◌∷◌, bit_and, ◌≡◌, true, arith}
use dnet_core.Words.{U32Be, val32}
use dnet_core.Dict.{Key}

pub record MacAddress : Type 0 where
  pub b0 : ℕ
  pub b1 : ℕ
  pub b2 : ℕ
  pub b3 : ℕ
  pub b4 : ℕ
  pub b5 : ℕ

abbrev pub bytes_mac : MacAddress → List ℕ
bytes_mac m = m.b0 ∷ m.b1 ∷ m.b2 ∷ m.b3 ∷ m.b4 ∷ m.b5 ∷ []

-- `MacAddress::get_broadcast_address`.
abbrev pub broadcast : MacAddress
broadcast = record { b0 = 0xff; b1 = 0xff; b2 = 0xff; b3 = 0xff; b4 = 0xff; b5 = 0xff }

unfoldable pub is_broadcast : MacAddress → Bool
is_broadcast m =
    m.b0 == 0xff && m.b1 == 0xff && m.b2 == 0xff && m.b3 == 0xff && m.b4 == 0xff && m.b5 == 0xff

-- The union of `data`, a `uint32_be`, and its four bytes.
abbrev pub Ipv4Address : Type 0
Ipv4Address = U32Be

-- `operator==`, on the values of the two words.
abbrev pub addr_beq : Ipv4Address → Ipv4Address → Bool
addr_beq a b = val32 a == val32 b

pub addr_beq_refl : (a : Ipv4Address) → addr_beq a a ≡ true
addr_beq_refl a = ground arith

pub addr_beq_symm : (a b : Ipv4Address) → addr_beq a b ≡ true → addr_beq b a ≡ true
addr_beq_symm a b h = ground arith

pub addr_beq_trans :
    (a b c : Ipv4Address) → addr_beq a b ≡ true → addr_beq b c ≡ true → addr_beq a c ≡ true
addr_beq_trans a b c h k = ground arith

instance abbrev pub addr_key : Key Ipv4Address
addr_key = record {
  beq = addr_beq;
  beq_refl = addr_beq_refl;
  beq_symm = addr_beq_symm;
  beq_trans = addr_beq_trans;
}

pub record Ipv4Subnet : Type 0 where
  pub network : Ipv4Address
  pub mask : Ipv4Address

unfoldable pub contains : Ipv4Subnet → Ipv4Address → Bool
contains s a =
    bit_and a.b0 s.mask.b0 == s.network.b0
    && bit_and a.b1 s.mask.b1 == s.network.b1
    && bit_and a.b2 s.mask.b2 == s.network.b2
    && bit_and a.b3 s.mask.b3 == s.network.b3
