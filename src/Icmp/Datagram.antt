-- ===== src/Icmp/Datagram.antt =====
-- layers/L3/icmp/ICMP.h: `ICMPDatagram` in memory.
use dnet_core.Base.{ℕ, List, ◌∷◌, ◌++◌, Option, some}
use dnet_core.Words.{U32Be, be16, bytes16, bytes32}
use dnet_core.Memory.{◌>>=◌, field8, field16, field_addr}

pub record IcmpDatagram : Type 0 where
  pub type : ℕ
  pub code : ℕ
  pub checksum : ℕ
  pub rest_of_header : U32Be
  pub payload : List ℕ

-- `sizeof(ICMPDatagram)`
abbrev pub sizeof_icmp_datagram : ℕ
sizeof_icmp_datagram = 8

unfoldable pub to_datagram : List ℕ → Option IcmpDatagram
to_datagram p = do
  (type, p) ← field8 p
  (code, p) ← field8 p
  (checksum, p) ← field16 p
  (rest, p) ← field_addr p
  some
      (record { type = type; code = code; checksum = checksum; rest_of_header = rest; payload = p })

abbrev pub bytes_datagram : IcmpDatagram → List ℕ
bytes_datagram d =
    d.type ∷ d.code ∷ (bytes16 (be16 d.checksum) ++ (bytes32 d.rest_of_header ++ d.payload))
