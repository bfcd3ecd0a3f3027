-- ===== src/Layout/Transports.antt =====
-- `UdpDatagram` and `TcpSegment`.
use dnet_core.Base.{ℕ, ◌<◌, ◌^◌, ◌≡◌, List, ◌++◌, some, arith}
use dnet_core.Udp.Datagram.{UdpDatagram, to_datagram, bytes_datagram}
use dnet_core.Tcp.Segment.{TcpSegment, to_segment, bytes_segment}

pub record FitsDatagram (d : UdpDatagram) : Type 0 where
  pub src_port_in : d.src_port < 2 ^ 16
  pub dest_port_in : d.dest_port < 2 ^ 16
  pub len_in : d.len < 2 ^ 16
  pub checksum_in : d.checksum < 2 ^ 16

pub udp_roundtrip : (d : UdpDatagram) → FitsDatagram d → to_datagram (bytes_datagram d) ≡ some d
unfolding to_datagram
udp_roundtrip d fits = ground arith

pub record FitsSegment (s : TcpSegment) : Type 0 where
  pub src_port_in : s.src_port < 2 ^ 16
  pub dest_port_in : s.dest_port < 2 ^ 16
  pub seq_in : s.seq < 2 ^ 32
  pub ack_in : s.ack < 2 ^ 32
  pub window_in : s.window < 2 ^ 16
  pub checksum_in : s.checksum < 2 ^ 16
  pub urgent_ptr_in : s.urgent_ptr < 2 ^ 16

-- A segment header is read back, whatever options and data follow it.
pub to_segment-bytes_segment :
    (s : TcpSegment) (rest : List ℕ) → FitsSegment s → to_segment (bytes_segment s ++ rest) ≡ some s
unfolding to_segment
to_segment-bytes_segment s rest fits = ground arith
