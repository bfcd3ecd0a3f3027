-- ===== src/Icmp.antt =====
-- layers/L3/icmp: ICMP echo.
pub mod Datagram
pub mod Echo
use dnet_core.Base.{ℕ, ◌==◌, if◌then◌else◌, List, [], ◌∷◌, ◌++◌, Bool, false}
use dnet_core.Words.{U32Be, be16, bytes16, bytes32, sub_size}
use dnet_core.Addr.{Ipv4Address}
use dnet_core.Checksum.{checksum_16bit_be}
use dnet_core.Memory.{read_bytes}
use dnet_core.Net.{
  Net, M, pure, ◌>>=◌, ◌>>◌, dnet_assert, load, checksum_mismatch, unknown_icmp_type,
}
use dnet_core.L3.Packet.{Ipv4Protocol}
use dnet_core.L3.Send as L3Send
use Datagram.{IcmpDatagram, sizeof_icmp_datagram, to_datagram, bytes_datagram}

pub data IcmpType : Type 0 where
  echo_reply echo_request : IcmpType
  other : ℕ → IcmpType

unfoldable pub to_icmp_type : ℕ → IcmpType
to_icmp_type v = if v == 0 then echo_reply else if v == 8 then echo_request else other v

-- The datagram with a zero checksum, and with the checksum of that.
abbrev pub blank_datagram : ℕ → ℕ → U32Be → List ℕ → IcmpDatagram
blank_datagram type code rest body = record {
  type = type;
  code = code;
  checksum = 0;
  rest_of_header = rest;
  payload = body;
}

unfoldable pub make_datagram : ℕ → ℕ → U32Be → List ℕ → IcmpDatagram
make_datagram type code rest body =
    let blank = blank_datagram type code rest body in
    record blank { checksum = checksum_16bit_be (bytes_datagram blank) }

-- `ICMP::send(type, code, rest_of_header, data, size, src, dest)`.
unfoldable pub send : ℕ → ℕ → U32Be → List ℕ → ℕ → Ipv4Address → Ipv4Address → M (Unit {0})
send type code rest p size src dest = do
  body ← load (read_bytes size p)
  L3Send.l3_send src dest Ipv4Protocol.icmp (bytes_datagram (make_datagram type code rest body))

-- The switch of `on_recv`.
unfoldable pub handle : IcmpType → IcmpDatagram → ℕ → Ipv4Address → Ipv4Address → M (Unit {0})
handle echo_reply d size src dest = pure tt
handle echo_request d size src dest =
    send 0 0 d.rest_of_header d.payload (sub_size size sizeof_icmp_datagram) dest src
handle (other _) d size src dest = dnet_assert false unknown_icmp_type

unfoldable pub on_recv : List ℕ → ℕ → Ipv4Address → Ipv4Address → M (Unit {0})
on_recv buf size src dest = do
  d ← load (to_datagram buf)
  whole ← load (read_bytes size buf)
  dnet_assert (checksum_16bit_be whole == 0) checksum_mismatch
  handle (to_icmp_type d.type) d size src dest
