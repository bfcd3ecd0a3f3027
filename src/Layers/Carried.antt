-- ===== src/Layers/Carried.antt =====
-- Frames that carry a TCP segment, and what the layers below TCP make of them.
use dnet_core.Base.{ℕ, ◌-◌, ◌*◌, ◌≤◌, ◌<◌, ◌^◌, ◌≡◌, ◌∙◌, List, some, drop, arith}
use dnet_core.Words.{sub_size}
use dnet_core.Memory.{read_bytes}
use dnet_core.Checksum.{checksum_16bit_be}
use dnet_core.Net.{Net, load}
use dnet_core.L2
use dnet_core.L2.Send.{to_ether_type, EthernetFrame, to_frame}
use dnet_core.L3
use dnet_core.L3.Packet.{Ipv4Protocol, to_protocol, L3Context, Ipv4Packet, to_packet}
use dnet_core.L3.Accept.{checked}
use dnet_core.L4
use dnet_core.Tcp
use dnet_core.Tcp.{tuple_of, header_size, payload_size}
use dnet_core.Tcp.Conn.{TcpConnTuple}
use dnet_core.Tcp.Segment.{TcpSegment, to_segment}
use dnet_core.Tcp.Runs.{InFlight}
use dnet_core.Driver.{Arrival}

abbrev pub context : Ipv4Packet → L3Context
context h = record { src_ip = h.src_ip; dest_ip = h.dest_ip; protocol = Ipv4Protocol.tcp }

-- A frame of IPv4 around a packet without options and with a right header checksum, around a segment of
-- the connection `t` whose payload lies in the memory.
pub record Carried (t : TcpConnTuple) (a : Arrival) : Type 0 where
  pub frame : EthernetFrame
  pub framed : to_frame a.memory ≡ some frame
  pub is_ip : frame.ether_type ≡ 0x0800
  pub packet : Ipv4Packet
  pub packed : to_packet frame.payload ≡ some packet
  pub version : packet.version ≡ 4
  pub no_options : packet.ihl ≡ 5
  pub is_tcp : packet.protocol ≡ 6
  pub header : List ℕ
  pub header_read : read_bytes 20 frame.payload ≡ some header
  pub sum : checksum_16bit_be header ≡ 0
  pub long : 34 ≤ a.size
  pub small : a.size < 2 ^ 64
  pub segment : TcpSegment
  pub parsed : to_segment packet.payload ≡ some segment
  pub ours : tuple_of segment (context packet) ≡ t
  pub payload : List ℕ
  pub read :
      read_bytes (payload_size segment (a.size - 34)) (drop (header_size segment) packet.payload)
      ≡ some payload

abbrev pub flight : {t : TcpConnTuple} {a : Arrival} → Carried t a → InFlight t
flight {a = a} c = record {
  buf = c.packet.payload;
  size = a.size - 34;
  ctx = context c.packet;
  segment = c.segment;
  payload = c.payload;
  parsed = c.parsed;
  ours = c.ours;
  read = c.read;
}

module _ (n : Net) {t : TcpConnTuple} {a : Arrival} (c : Carried t a) where
  packet_reaches :
      L3.on_recv c.frame.payload (sub_size a.size 14) n
      ≡ Tcp.on_recv c.packet.payload (a.size - 34) (context c.packet) n
  unfolding L3.dispatch L4.on_recv L4.dispatch to_protocol
  packet_reaches =
      let taken =
        (checked n c.frame.payload (sub_size a.size 14) c.packed c.header_read c.version
            c.no_options).0
          c.sum in
      let left : sub_size (sub_size a.size 14) (c.packet.ihl * 4) ≡ a.size - 34 =
        omega (arith, c.no_options, c.long, c.small) in
      taken ∙ rw (c.is_tcp, left)

  -- The link layer and IPv4 hand the segment on as it is.
  pub segment_reaches :
      L2.on_recv a.memory a.size n ≡ Tcp.on_recv c.packet.payload (a.size - 34) (context c.packet) n
  unfolding L2.on_recv L2.dispatch load to_ether_type
  segment_reaches = rw (c.framed, c.is_ip) packet_reaches
