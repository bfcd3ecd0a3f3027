-- ===== src/L3/Send.antt =====
-- layers/L3/L3.cpp: `L3::send`, and `L4::send` of layers/L4/L4.cpp, which only forwards to it.
use dnet_core.Base.{ℕ, ◌+◌, Bool, true, false, Option, none, some, List, length}
use dnet_core.Words.{u8, u16}
use dnet_core.Addr.{MacAddress, Ipv4Address, contains}
use dnet_core.Checksum.{checksum_16bit_be}
use dnet_core.Net.{M, pure, ◌>>=◌, this}
use dnet_core.L2.Send.{EtherType}
use dnet_core.L2.Send as L2Send
use dnet_core.Arp
use dnet_core.L3.Packet.{
  Ipv4Protocol, protocol_code, L3Context, Ipv4Packet, sizeof_ipv4_packet, bytes_header,
  bytes_packet,
}

-- The header with a zero checksum; what the source does not set is zero.
abbrev pub blank_packet : Ipv4Address → Ipv4Address → Ipv4Protocol → List ℕ → Ipv4Packet
blank_packet src target protocol buf = record {
  ihl = 5;
  version = 4;
  ecn = 0;
  ds = 0;
  total_len = u16 (sizeof_ipv4_packet + length buf);
  identification = 0;
  fragment_offset = 0;
  flags = 0;
  ttl = 64;
  protocol = u8 (protocol_code protocol);
  header_checksum = 0;
  src_ip = src;
  dest_ip = target;
  payload = buf;
}

-- The packet as it is sent.
unfoldable pub make_packet : Ipv4Address → Ipv4Address → Ipv4Protocol → List ℕ → Ipv4Packet
make_packet src target protocol buf =
    let blank = blank_packet src target protocol buf in
    record blank { header_checksum = checksum_16bit_be (bytes_header blank) }

-- Inside the subnet: to the address that ARP knows, or nowhere.
unfoldable pub deliver : List ℕ → Option MacAddress → M (Unit {0})
deliver packet none = pure tt
deliver packet (some mac) = L2Send.l2_send packet mac EtherType.ip

-- Outside the subnet the kernel routes.
unfoldable pub route : Bool → Ipv4Address → List ℕ → M (Unit {0})
route true target packet = do mac ← Arp.arp_lookup target; deliver packet mac
route false target packet = do n ← this; L2Send.l2_send packet n.tap_mac EtherType.ip

-- `L3::send(src, target, protocol, buf, size)`; the list is the `size` bytes at `buf`.
unfoldable pub send : Ipv4Address → Ipv4Address → Ipv4Protocol → List ℕ → M (Unit {0})
send src target protocol buf = do
  n ← this
  route (contains n.subnet target) target (bytes_packet (make_packet src target protocol buf))

-- `DNet::L3_send`
abbrev pub l3_send : Ipv4Address → Ipv4Address → Ipv4Protocol → List ℕ → M (Unit {0})
l3_send src target protocol buf = send src target protocol buf

-- `L4::send(buf, size, l3_context)`.
unfoldable pub l4_send : List ℕ → L3Context → M (Unit {0})
l4_send buf ctx = l3_send ctx.src_ip ctx.dest_ip ctx.protocol buf
