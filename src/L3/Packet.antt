-- ===== src/L3/Packet.antt =====
-- layers/L3/L3.h: `Ipv4Packet` in memory, with the bit-fields where x86-64 puts them.
use dnet_core.Base.{ℕ, ◌+◌, ◌*◌, ◌/◌, ◌%◌, ◌^◌, ◌==◌, if◌then◌else◌, List, ◌∷◌, ◌++◌, Option, some}
use dnet_core.Words.{be16, bytes16, bytes32}
use dnet_core.Addr.{Ipv4Address}
use dnet_core.Memory.{◌>>=◌, field8, field16, field_addr}

pub data Ipv4Protocol : Type 0 where
  icmp igmp tcp udp encap ospf sctp : Ipv4Protocol
  other : ℕ → Ipv4Protocol

abbrev pub protocol_code : Ipv4Protocol → ℕ
protocol_code icmp = 1
protocol_code igmp = 2
protocol_code tcp = 6
protocol_code udp = 17
protocol_code encap = 41
protocol_code ospf = 89
protocol_code sctp = 132
protocol_code (other v) = v

-- `(IPV4_PROTOCOL) v`.
unfoldable pub to_protocol : ℕ → Ipv4Protocol
to_protocol v =
    if v == 1
    then icmp
    else if v == 2
    then igmp
    else if v == 6
    then tcp
    else if v == 17
    then udp
    else if v == 41
    then encap
    else if v == 89
    then ospf
    else if v == 132
    then sctp
    else other v

pub record L3Context : Type 0 where
  pub src_ip : Ipv4Address
  pub dest_ip : Ipv4Address
  pub protocol : Ipv4Protocol

-- The 20 bytes of the header; `payload` is the pointer behind them.
pub record Ipv4Packet : Type 0 where
  pub ihl : ℕ
  pub version : ℕ
  pub ecn : ℕ
  pub ds : ℕ
  pub total_len : ℕ
  pub identification : ℕ
  pub fragment_offset : ℕ
  pub flags : ℕ
  pub ttl : ℕ
  pub protocol : ℕ
  pub header_checksum : ℕ
  pub src_ip : Ipv4Address
  pub dest_ip : Ipv4Address
  pub payload : List ℕ

-- `sizeof(Ipv4Packet)`
abbrev pub sizeof_ipv4_packet : ℕ
sizeof_ipv4_packet = 20

-- The two bytes of `fragment_offset` and `flags` are one host-order word, of 13 and 3 bits.
unfoldable pub to_packet : List ℕ → Option Ipv4Packet
to_packet p = do
  (versions, p) ← field8 p
  (services, p) ← field8 p
  (total_len, p) ← field16 p
  (identification, p) ← field16 p
  (fragment_lo, p) ← field8 p
  (fragment_hi, p) ← field8 p
  (ttl, p) ← field8 p
  (protocol, p) ← field8 p
  (header_checksum, p) ← field16 p
  (src_ip, p) ← field_addr p
  (dest_ip, p) ← field_addr p
  some (record {
    ihl = versions % 2 ^ 4;
    version = versions / 2 ^ 4;
    ecn = services % 2 ^ 2;
    ds = services / 2 ^ 2;
    total_len = total_len;
    identification = identification;
    fragment_offset = (fragment_lo + fragment_hi * 2 ^ 8) % 2 ^ 13;
    flags = fragment_hi / 2 ^ 5;
    ttl = ttl;
    protocol = protocol;
    header_checksum = header_checksum;
    src_ip = src_ip;
    dest_ip = dest_ip;
    payload = p;
  })

abbrev pub bytes_header : Ipv4Packet → List ℕ
bytes_header h =
    (h.version * 2 ^ 4 + h.ihl)
    ∷ (h.ds * 2 ^ 2 + h.ecn)
    ∷ (bytes16 (be16 h.total_len)
        ++ (bytes16 (be16 h.identification)
            ++ (h.fragment_offset % 2 ^ 8
                ∷ (h.flags * 2 ^ 5 + h.fragment_offset / 2 ^ 8)
                ∷ h.ttl
                ∷ h.protocol
                ∷ (bytes16 (be16 h.header_checksum) ++ (bytes32 h.src_ip ++ bytes32 h.dest_ip)))))

abbrev pub bytes_packet : Ipv4Packet → List ℕ
bytes_packet h = bytes_header h ++ h.payload
