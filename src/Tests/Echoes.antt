-- ===== src/Tests/Echoes.antt =====
-- ICMP and UDP echoes.
use dnet_core.Base.{ℕ, List, [], ◌∷◌, ◌≡◌, refl}
use dnet_core.Checksum.{checksum_16bit_be}
use dnet_core.Memory.{read_bytes}
use dnet_core.Net.{thrown, checksum_mismatch}
use dnet_core.L3.Packet.{Ipv4Protocol, L3Context}
use dnet_core.Words.{U32Be}
use dnet_core.L2
use dnet_core.Icmp
use dnet_core.Icmp.{make_datagram}
use dnet_core.Icmp.Datagram as IcmpDatagram
use dnet_core.Udp
use dnet_core.Udp.{verify}
use dnet_core.Udp.Datagram as UdpDatagram
use dnet_core.Udp.Send as Send
use dnet_core.Udp.Echo.{all_ones_refused}
use dnet_core.Tests.{us, guest, start}

abbrev asked : IcmpDatagram.IcmpDatagram
asked = record {
  type = 8;
  code = 0;
  checksum = 13210;
  rest_of_header = record { b0 = 0; b1 = 1; b2 = 0; b3 = 2 };
  payload = 97 ∷ 98 ∷ 99 ∷ [];
}

abbrev ctx : L3Context
ctx = record { src_ip = guest; dest_ip = us; protocol = Ipv4Protocol.udp }

-- A datagram whose checksum comes out as zero, and is sent as 0xffff.
abbrev all_ones : List ℕ
all_ones = 16 ∷ 0 ∷ 0 ∷ 7 ∷ 0 ∷ 10 ∷ 255 ∷ 255 ∷ 218 ∷ 204 ∷ []

abbrev all_ones_datagram : UdpDatagram.UdpDatagram
all_ones_datagram = record {
  src_port = 4096;
  dest_port = 7;
  len = 10;
  checksum = 0xffff;
  payload = 218 ∷ 204 ∷ [];
}

all_ones_refused_example : Udp.on_recv all_ones 10 ctx start ≡ thrown checksum_mismatch start
unfolding UdpDatagram.to_datagram read_bytes checksum_16bit_be
all_ones_refused_example =
    all_ones_refused start all_ones 10 ctx {d = all_ones_datagram} refl
      {datagram = 16 ∷ 0 ∷ 0 ∷ 7 ∷ 0 ∷ 10 ∷ 0 ∷ 0 ∷ 218 ∷ 204 ∷ []} refl refl refl refl

-- A ping from the TAP device's side, built by the same code.
abbrev number : U32Be
number = record { b0 = 0; b1 = 1; b2 = 0; b3 = 2 }

-- "abc" to the echo port, built by the same code.
abbrev said_abc : List ℕ
said_abc = UdpDatagram.bytes_datagram (Send.make_datagram (97 ∷ 98 ∷ 99 ∷ []) 7 4096)
