-- ===== src/Udp/Send.antt =====
-- layers/L4/udp/UDP.cpp: `UDP::send`.
use dnet_core.Base.{ℕ, ◌+◌, List, length}
use dnet_core.Words.{u16}
use dnet_core.Addr.{Ipv4Address}
use dnet_core.Net.{M}
use dnet_core.L3.Packet.{Ipv4Protocol}
use dnet_core.L3.Send.{l4_send}
use dnet_core.Udp.Datagram.{UdpDatagram, sizeof_udp_datagram, bytes_datagram}

-- A datagram without a checksum, which is optional over IPv4.
abbrev pub make_datagram : List ℕ → ℕ → ℕ → UdpDatagram
make_datagram buf dest_port src_port = record {
  src_port = src_port;
  dest_port = dest_port;
  len = u16 (length buf + sizeof_udp_datagram);
  checksum = 0;
  payload = buf;
}

-- `UDP::send(buf, size, dest, dest_port, src, src_port)`; the list is the `size` bytes at `buf`.
unfoldable pub send : List ℕ → Ipv4Address → ℕ → Ipv4Address → ℕ → M (Unit {0})
send buf dest dest_port src src_port =
    l4_send (bytes_datagram (make_datagram buf dest_port src_port))
      (record { src_ip = src; dest_ip = dest; protocol = Ipv4Protocol.udp })

-- `DNet::UDP_send`
abbrev pub udp_send : List ℕ → Ipv4Address → ℕ → Ipv4Address → ℕ → M (Unit {0})
udp_send buf dest dest_port src src_port = send buf dest dest_port src src_port
