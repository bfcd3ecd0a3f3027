-- ===== src/Tests/Services.antt =====
-- A client that connects and sends "hi" twice, while another host asks for an address and pings.
use dnet_core.Base.{ℕ, ◌≡◌, refl, List, [], ◌∷◌, ◌++◌, some, arith}
use dnet_core.Dict.{find}
use dnet_core.Memory.Laws.{read_bytes-append}
use dnet_core.Checksum.{checksum_16bit_be}
use dnet_core.RingBuffer.Refine.{contents}
use dnet_core.Net.{Net}
use dnet_core.L2.Send.{EthernetFrame, to_frame, to_ether_type}
use dnet_core.L3.Packet.{Ipv4Packet, to_packet, to_protocol}
use dnet_core.Tcp.Conn.{TcpConnTuple, tuple_key, TcpConn}
use dnet_core.Tcp.{tuple_of}
use dnet_core.Dns.Table.{registered}
use dnet_core.Layers.Carried.{Carried, flight}
use dnet_core.Layers.Elsewhere.{carried_tuple, frame_tuple, packet_tuple}
use dnet_core.Driver.{Arrival, do_listen}
use dnet_core.Sound.Traffic.{Other, finished, ours, other}
use dnet_core.Sound.Session.{session_served}
use dnet_core.Tests.{us, guest, our_mac, peer_mac, framed, arrives, arp_question, ping, ping_header}
use dnet_core.Tests.Rounds.{server, arp_question-Frame, ping-Frame}
use dnet_core.Tests.Conns.{
  ctx, syn, syn_bytes, parsed_syn, ack_segment, ack_bytes, parsed_ack, data_segment, data_bytes,
  parsed_data, hi, payload_read, nothing_read,
}
use dnet_core.Tests.Streams.{second_segment, second_bytes, parsed_second}

-- The connection.
abbrev client : TcpConnTuple
client = tuple_of syn ctx

-- Headers of packets of 40 and 42 bytes.
abbrev bare : List ℕ
bare = 69 ∷ 0 ∷ 0 ∷ 40 ∷ 0 ∷ 0 ∷ 0 ∷ 0 ∷ 64 ∷ 6 ∷ 101 ∷ 202 ∷ 10 ∷ 0 ∷ 1 ∷ 2 ∷ 10 ∷ 0 ∷ 0 ∷ 5 ∷ []

abbrev full : List ℕ
full = 69 ∷ 0 ∷ 0 ∷ 42 ∷ 0 ∷ 0 ∷ 0 ∷ 0 ∷ 64 ∷ 6 ∷ 101 ∷ 200 ∷ 10 ∷ 0 ∷ 1 ∷ 2 ∷ 10 ∷ 0 ∷ 0 ∷ 5 ∷ []

abbrev packet : ℕ → ℕ → List ℕ → Ipv4Packet
packet total sum bytes = record {
  ihl = 5;
  version = 4;
  ecn = 0;
  ds = 0;
  total_len = total;
  identification = 0;
  fragment_offset = 0;
  flags = 0;
  ttl = 64;
  protocol = 6;
  header_checksum = sum;
  src_ip = guest;
  dest_ip = us;
  payload = bytes;
}

abbrev frame : List ℕ → EthernetFrame
frame bytes = record {
  dest_mac = our_mac;
  src_mac = peer_mac;
  ether_type = 0x0800;
  payload = bytes;
}

framed_read : (bytes : List ℕ) → to_frame (framed 0 bytes) ≡ some (frame bytes)
unfolding to_frame
framed_read bytes = refl

bare_read : (bytes : List ℕ) → to_packet (bare ++ bytes) ≡ some (packet 40 26058 bytes)
unfolding to_packet
bare_read bytes = refl

bare_right : checksum_16bit_be bare ≡ 0
unfolding checksum_16bit_be
bare_right = refl

full_read : (bytes : List ℕ) → to_packet (full ++ bytes) ≡ some (packet 42 26056 bytes)
unfolding to_packet
full_read bytes = refl

full_right : checksum_16bit_be full ≡ 0
unfolding checksum_16bit_be
full_right = refl

abbrev syn_carried : Carried client (arrives (framed 0 (bare ++ syn_bytes)))
syn_carried = record {
  frame = frame (bare ++ syn_bytes);
  framed = framed_read (bare ++ syn_bytes);
  is_ip = refl;
  packet = packet 40 26058 syn_bytes;
  packed = bare_read syn_bytes;
  version = refl;
  no_options = refl;
  is_tcp = refl;
  header = bare;
  header_read = read_bytes-append bare syn_bytes;
  sum = bare_right;
  long = omega arith;
  small = omega arith;
  segment = syn;
  parsed = parsed_syn;
  ours = refl;
  payload = [];
  read = nothing_read;
}

abbrev ack_carried : Carried client (arrives (framed 0 (bare ++ ack_bytes)))
ack_carried = record {
  frame = frame (bare ++ ack_bytes);
  framed = framed_read (bare ++ ack_bytes);
  is_ip = refl;
  packet = packet 40 26058 ack_bytes;
  packed = bare_read ack_bytes;
  version = refl;
  no_options = refl;
  is_tcp = refl;
  header = bare;
  header_read = read_bytes-append bare ack_bytes;
  sum = bare_right;
  long = omega arith;
  small = omega arith;
  segment = ack_segment;
  parsed = parsed_ack;
  ours = refl;
  payload = [];
  read = nothing_read;
}

abbrev hi_carried : Carried client (arrives (framed 0 (full ++ data_bytes)))
hi_carried = record {
  frame = frame (full ++ data_bytes);
  framed = framed_read (full ++ data_bytes);
  is_ip = refl;
  packet = packet 42 26056 data_bytes;
  packed = full_read data_bytes;
  version = refl;
  no_options = refl;
  is_tcp = refl;
  header = full;
  header_read = read_bytes-append full data_bytes;
  sum = full_right;
  long = omega arith;
  small = omega arith;
  segment = data_segment;
  parsed = parsed_data;
  ours = refl;
  payload = hi;
  read = payload_read;
}

abbrev second_carried : Carried client (arrives (framed 0 (full ++ second_bytes)))
second_carried = record {
  frame = frame (full ++ second_bytes);
  framed = framed_read (full ++ second_bytes);
  is_ip = refl;
  packet = packet 42 26056 second_bytes;
  packed = full_read second_bytes;
  version = refl;
  no_options = refl;
  is_tcp = refl;
  header = full;
  header_read = read_bytes-append full second_bytes;
  sum = full_right;
  long = omega arith;
  small = omega arith;
  segment = second_segment;
  parsed = parsed_second;
  ours = refl;
  payload = hi;
  read = payload_read;
}

abbrev asks : Arrival
asks = arrives (framed 6 arp_question)

abbrev pings : Arrival
pings = arrives (framed 0 (ping_header ++ ping))

asks-Other : Other client registered asks
unfolding carried_tuple to_frame to_ether_type frame_tuple
asks-Other = (arp_question-Frame, tt)

pings-Other : Other client registered pings
unfolding carried_tuple to_frame to_ether_type frame_tuple to_packet to_protocol packet_tuple
pings-Other = (ping-Frame, tt)

abbrev after : List Arrival
after =
    arrives (framed 0 (full ++ data_bytes)) ∷ pings ∷ arrives (framed 0 (full ++ second_bytes)) ∷ []

session_served_example :
    (n' : Net) × (c : TcpConn) × (do_listen server (
        (asks ∷ [])
        ++ arrives (framed 0 (bare ++ syn_bytes))
          ∷ ([] ++ arrives (framed 0 (bare ++ ack_bytes)) ∷ after))
      ≡ some n')
    × (find client n'.connections ≡ some c)
    × (contents c.rcvbuf ≡ b'h' ∷ b'i' ∷ b'h' ∷ b'i' ∷ [])
unfolding find
session_served_example =
    session_served client server (asks ∷ []) [] after syn_carried ack_carried
      (flight hi_carried ∷ flight second_carried ∷ []) tt refl (asks-Other, tt) tt
      (ours _ hi_carried (other _ pings-Other (ours _ second_carried finished))) refl refl refl
      (refl, (refl, tt)) (omega arith)
