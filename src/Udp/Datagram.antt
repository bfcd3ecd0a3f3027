-- ===== src/Udp/Datagram.antt =====
-- layers/L4/udp/UDP.h: `UdpDatagram` in memory.
use dnet_core.Base.{ℕ, List, ◌++◌, Option, some}
use dnet_core.Words.{be16, bytes16}
use dnet_core.Memory.{◌>>=◌, field16}

pub record UdpDatagram : Type 0 where
  pub src_port : ℕ
  pub dest_port : ℕ
  pub len : ℕ
  pub checksum : ℕ
  pub payload : List ℕ

-- `sizeof(UdpDatagram)`
abbrev pub sizeof_udp_datagram : ℕ
sizeof_udp_datagram = 8

unfoldable pub to_datagram : List ℕ → Option UdpDatagram
to_datagram p = do
  (src_port, p) ← field16 p
  (dest_port, p) ← field16 p
  (len, p) ← field16 p
  (checksum, p) ← field16 p
  some (record {
    src_port = src_port;
    dest_port = dest_port;
    len = len;
    checksum = checksum;
    payload = p;
  })

abbrev pub bytes_datagram : UdpDatagram → List ℕ
bytes_datagram d =
    bytes16 (be16 d.src_port)
    ++ (bytes16 (be16 d.dest_port)
        ++ (bytes16 (be16 d.len) ++ (bytes16 (be16 d.checksum) ++ d.payload)))
