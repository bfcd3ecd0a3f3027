-- ===== src/L3.antt =====
-- layers/L3/L3.cpp: `L3::on_recv`.
pub mod Packet
pub mod Send
pub mod Output
pub mod Accept
use dnet_core.Base.{ℕ, ◌*◌, ◌==◌, List}
use dnet_core.Words.{sub_size}
use dnet_core.Checksum.{checksum_16bit_be}
use dnet_core.Memory.{read_bytes}
use dnet_core.Net.{
  Net, M, ◌>>=◌, ◌>>◌, dnet_assert, load, version_mismatch, options_unsupported, checksum_mismatch,
}
use dnet_core.Icmp
use dnet_core.L4
use Packet.{Ipv4Protocol, to_protocol, L3Context, Ipv4Packet, sizeof_ipv4_packet, to_packet}

abbrev pub context_of : Ipv4Packet → L3Context
context_of h = record { src_ip = h.src_ip; dest_ip = h.dest_ip; protocol = to_protocol h.protocol }

-- The switch of `on_recv`.
unfoldable pub dispatch : Ipv4Protocol → Ipv4Packet → ℕ → M (Unit {0})
dispatch Ipv4Protocol.icmp h size =
    Icmp.on_recv h.payload (sub_size size (h.ihl * 4)) h.src_ip h.dest_ip
dispatch p h size = L4.l4_on_recv h.payload (sub_size size (h.ihl * 4)) (context_of h)

unfoldable pub on_recv : List ℕ → ℕ → M (Unit {0})
on_recv buf size = do
  h ← load (to_packet buf)
  dnet_assert (h.version == 4) version_mismatch
  dnet_assert (h.ihl * 4 == sizeof_ipv4_packet) options_unsupported
  header ← load (read_bytes sizeof_ipv4_packet buf)
  dnet_assert (checksum_16bit_be header == 0) checksum_mismatch
  dispatch (to_protocol h.protocol) h size

-- `DNet::L3_on_recv`
abbrev pub l3_on_recv : List ℕ → ℕ → M (Unit {0})
l3_on_recv buf size = on_recv buf size
