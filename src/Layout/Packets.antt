-- ===== src/Layout/Packets.antt =====
-- `Ipv4Packet` and `ICMPDatagram`.
use dnet_core.Base.{◌<◌, ◌^◌, ◌≡◌, some, arith}
use dnet_core.L3.Packet.{Ipv4Packet, to_packet, bytes_packet}
use dnet_core.Icmp.Datagram.{IcmpDatagram, to_datagram, bytes_datagram}

pub record FitsPacket (h : Ipv4Packet) : Type 0 where
  pub ihl_in : h.ihl < 2 ^ 4
  pub ecn_in : h.ecn < 2 ^ 2
  pub total_len_in : h.total_len < 2 ^ 16
  pub identification_in : h.identification < 2 ^ 16
  pub fragment_offset_in : h.fragment_offset < 2 ^ 13
  pub header_checksum_in : h.header_checksum < 2 ^ 16

-- A packet whose fields fit their widths is read back.
pub to_packet-bytes_packet : (h : Ipv4Packet) → FitsPacket h → to_packet (bytes_packet h) ≡ some h
unfolding to_packet
to_packet-bytes_packet h fits = ground arith

pub icmp_roundtrip :
    (d : IcmpDatagram) → d.checksum < 2 ^ 16 → to_datagram (bytes_datagram d) ≡ some d
unfolding to_datagram
icmp_roundtrip d h = ground arith
