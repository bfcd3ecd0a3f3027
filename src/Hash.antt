-- ===== src/Hash.antt =====
-- defs.h and layers/L4/tcp/TCP.h: the hashes of the keys of the tables.
pub mod Buckets
use dnet_core.Base.{ℕ, ◌+◌, ◌*◌, ◌/◌, ◌%◌, ◌^◌, bit_xor, List}
use dnet_core.Words.{val32}
use dnet_core.Addr.{Ipv4Address}
use dnet_core.Tcp.Conn.{TcpConnTuple}
use dnet_core.Dns.Record.{RecordKey}

-- `std::hash` of the types it is given for: `uint16_t`, `uint32_t` and `std::string`.
pub record StdHash : Type 0 where
  pub of_u16 : ℕ → ℕ
  pub of_u32 : ℕ → ℕ
  pub of_text : List ℕ → ℕ

-- The constant of `hash_combine`, from the golden ratio.
abbrev pub golden : ℕ
golden = 0x9e3779b9

-- `hash_combine` with the hash of its value.
unfoldable pub hash_combine : ℕ → ℕ → ℕ
hash_combine seed hash =
    bit_xor seed ((hash + golden + seed * 2 ^ 6 % 2 ^ 64 + seed / 2 ^ 2) % 2 ^ 64)

abbrev pub address_hash : Ipv4Address → ℕ
address_hash a = val32 a

unfoldable pub connection_hash : StdHash → TcpConnTuple → ℕ
connection_hash h k =
    let seed = hash_combine 0 (h.of_u32 (val32 k.src_ip)) in
    let seed = hash_combine seed (h.of_u16 k.src_port) in
    let seed = hash_combine seed (h.of_u32 (val32 k.dest_ip)) in
    hash_combine seed (h.of_u16 k.dest_port)

-- `HashValueImpl` on a `record_key`: from the first component to the last.
unfoldable pub record_hash : StdHash → RecordKey → ℕ
record_hash h k = hash_combine (hash_combine 0 (h.of_u16 k.rtype)) (h.of_text k.name)
