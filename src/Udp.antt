-- ===== src/Udp.antt =====
-- layers/L4/udp/UDP.cpp: `UDP::on_recv`.
pub mod Datagram
pub mod Echo
pub mod Send
use dnet_core.Base.{ℕ, ◌+◌, ◌-◌, leb, ◌==◌, ◌&&◌, if◌then◌else◌, List, ◌++◌, map, set}
use dnet_core.Words.{sub_size}
use dnet_core.Addr.{Ipv4Address}
use dnet_core.Checksum.{checksum_16bit_be}
use dnet_core.Memory.{read_bytes}
use dnet_core.Net.{Net, M, pure, ◌>>=◌, ◌>>◌, dnet_assert, load, length_mismatch, checksum_mismatch}
use dnet_core.L3.Packet.{L3Context}
use dnet_core.L4.Pseudo.{bytes_pseudo}
use dnet_core.Udp.Send as UdpSend
use dnet_core.Dns
use Datagram.{UdpDatagram, sizeof_udp_datagram, to_datagram}

-- The port that the name server listens on.
abbrev pub dns_port : ℕ
dns_port = 53

-- `datagram->checksum = 0x0000`, in place.
abbrev pub blank_checksum : List ℕ → List ℕ
blank_checksum buf = set (set buf 6 0) 7 0

-- The validation of a checksum that is present.
unfoldable pub verify : List ℕ → ℕ → UdpDatagram → L3Context → M (Unit {0})
verify buf size d ctx = if d.checksum == 0 then pure tt else (do
  datagram ← load (read_bytes size (blank_checksum buf))
  dnet_assert
      (checksum_16bit_be (bytes_pseudo ctx.src_ip ctx.dest_ip 17 d.len ++ datagram) == d.checksum)
      checksum_mismatch)

unfoldable pub to_upper : ℕ → ℕ
to_upper c = if leb b'a' c && leb c b'z' then c - (b'a' - b'A') else c

-- The echo of every port but the name server's.
unfoldable pub echo : UdpDatagram → ℕ → L3Context → M (Unit {0})
echo d size ctx = do
  bytes ← load (read_bytes (sub_size size sizeof_udp_datagram) d.payload)
  UdpSend.udp_send (map to_upper bytes) ctx.src_ip d.src_port ctx.dest_ip d.dest_port

unfoldable pub on_recv : List ℕ → ℕ → L3Context → M (Unit {0})
on_recv buf size ctx = do
  d ← load (to_datagram buf)
  dnet_assert (d.len == size) length_mismatch
  verify buf size d ctx
  if d.dest_port == dns_port
      then Dns.on_recv d.payload (sub_size size sizeof_udp_datagram) ctx.src_ip d.src_port
          ctx.dest_ip d.dest_port
      else echo d size ctx
