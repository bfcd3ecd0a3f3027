-- ===== src/Tests/Rounds.antt =====
-- Rounds that bring an ARP request, a question to the name server, a ping and a segment.
use dnet_core.Base.{drop, ℕ, ◌≡◌, refl, List, [], ◌∷◌, ◌++◌, some, arith}
use dnet_core.Text.{codes}
use dnet_core.Net.{Net}
use dnet_core.L2.Send.{to_frame, to_ether_type}
use dnet_core.L3.Packet.{Ipv4Protocol, to_protocol, Ipv4Packet, to_packet, bytes_packet}
use dnet_core.L3.Send.{make_packet}
use dnet_core.Checksum.{checksum_16bit_be}
use dnet_core.Layers.Frames.{ip_frame}
use dnet_core.Layers.Question.{datagram}
use dnet_core.Udp.Datagram.{to_datagram}
use dnet_core.Udp.Send.{make_datagram}
use dnet_core.Dns.Header.{to_header}
use dnet_core.Dns.Register.{encode_from, type_a}
use dnet_core.Dns.Serve.{query_bytes}
use dnet_core.Dns.Table.{registered}
use dnet_core.Dns.NameLaws.{labels_of}
use dnet_core.Driver.Read.{received, Round, listen}
use dnet_core.Driver.Runs.{Runs}
use dnet_core.Tcp.Segment.{to_segment}
use dnet_core.Sound.Segments.{Segment}
use dnet_core.Sound.Questions.{Question}
use dnet_core.Sound.Datagrams.{asks}
use dnet_core.Sound.Frames.{Packet, Frame}
use dnet_core.Sound.Loop.{AllBring, listen_total}
use dnet_core.Tests.{
  plain, us, guest, start, our_mac, peer_mac, framed, arp_question, ping, ping_header,
}

abbrev pub server : Net
server = record start { dns_records = registered }

-- A frame in an array with four more bytes of whatever was there.
abbrev round : List ℕ → Round
round bytes = record {
  array = bytes ++ 1 ∷ 2 ∷ 3 ∷ 4 ∷ [];
  answer = received bytes;
  now = 1000;
  rand = 77;
}

pub arp_question-Frame : Frame registered (framed 6 arp_question) 42
unfolding to_frame to_ether_type
arp_question-Frame = record {
  header = record {
    dest_mac = our_mac;
    src_mac = peer_mac;
    ether_type = 0x0806;
    payload = arp_question;
  };
  parsed = refl;
  long = omega arith;
  small = omega arith;
  carried = omega arith;
}

abbrev asked : List ℕ
asked = query_bytes (0, 9) plain 1 0 (codes "Example.COM") type_a []

-- The packet that brings the question, in the frame that `ip_frame` makes.
abbrev packet : Ipv4Packet
packet = make_packet guest us Ipv4Protocol.udp (datagram 4096 asked)

asked-Question : Question registered asked 29
unfolding to_header encode_from
asked-Question = record {
  labels = labels_of (codes "Example.COM");
  rest = 0 ∷ 1 ∷ 0 ∷ 1 ∷ [];
  header = record {
    id = 9;
    rd = 1;
    tc = 0;
    aa = 0;
    opcode = 0;
    qr = 0;
    rcode = 0;
    reserved = 0;
    ra = 0;
    qdcount = 1;
    ancount = 0;
    nscount = 0;
    arcount = 0;
    payload = drop 12 asked;
  };
  parsed = refl;
  written = refl;
  some_label = omega arith;
  no_empty = (omega arith, (omega arith, tt));
  type_class = omega arith;
  name_fits = omega arith;
  held = (refl, (refl, (refl, (refl, (refl, (refl, tt))))));
  long = omega arith;
  size_fits = omega arith;
  inside = omega arith;
  answer_fits = omega arith;
}

packet-Packet : Packet registered (bytes_packet packet) 57
unfolding to_packet to_protocol make_packet checksum_16bit_be to_datagram encode_from
packet-Packet = record {
  header = packet;
  parsed = refl;
  long = omega arith;
  inside = omega arith;
  small = omega arith;
  body =
      asks (make_datagram asked 53 4096) refl (record { long = omega arith; inside = omega arith })
        (omega arith) refl asked-Question;
}

asked-Frame : Frame registered (ip_frame our_mac peer_mac (bytes_packet packet)) 71
unfolding to_frame to_ether_type
asked-Frame = record {
  header = record {
    dest_mac = our_mac;
    src_mac = peer_mac;
    ether_type = 0x0800;
    payload = bytes_packet packet;
  };
  parsed = refl;
  long = omega arith;
  small = omega arith;
  carried = packet-Packet;
}

pub ping-Frame : Frame registered (framed 0 (ping_header ++ ping)) 45
unfolding to_frame to_ether_type to_packet to_protocol
ping-Frame = record {
  header = record {
    dest_mac = our_mac;
    src_mac = peer_mac;
    ether_type = 0x0800;
    payload = ping_header ++ ping;
  };
  parsed = refl;
  long = omega arith;
  small = omega arith;
  carried = record {
    header = record {
      ihl = 5;
      version = 4;
      ecn = 0;
      ds = 0;
      total_len = 31;
      identification = 0;
      fragment_offset = 0;
      flags = 0;
      ttl = 64;
      protocol = 1;
      header_checksum = 26072;
      src_ip = guest;
      dest_ip = us;
      payload = ping;
    };
    parsed = refl;
    long = omega arith;
    inside = omega arith;
    small = omega arith;
    body = record { long = omega arith; inside = omega arith };
  };
}

-- A SYN from port 4096 to port 80, with one option.
abbrev syn : List ℕ
syn =
    16 ∷ 0 ∷ 0 ∷ 80 ∷ 0 ∷ 0 ∷ 0 ∷ 1 ∷ 0 ∷ 0 ∷ 0 ∷ 0 ∷ 96 ∷ 2 ∷ 16 ∷ 0 ∷ 0 ∷ 0 ∷ 0 ∷ 0 ∷ 2 ∷ 4 ∷ 5
    ∷ 180 ∷ []

abbrev syn_header : List ℕ
syn_header =
    69 ∷ 0 ∷ 0 ∷ 44 ∷ 0 ∷ 0 ∷ 0 ∷ 0 ∷ 64 ∷ 6 ∷ 101 ∷ 198 ∷ 10 ∷ 0 ∷ 1 ∷ 2 ∷ 10 ∷ 0 ∷ 0 ∷ 5 ∷ []

syn-Segment : Segment syn 24
unfolding to_segment
syn-Segment = record {
  segment = record {
    src_port = 4096;
    dest_port = 80;
    seq = 1;
    ack = 0;
    data_offset = 96;
    flags = 2;
    window = 4096;
    checksum = 0;
    urgent_ptr = 0;
  };
  parsed = refl;
  whole = omega arith;
  inside = omega arith;
}

syn-Frame : Frame registered (framed 0 (syn_header ++ syn)) 58
unfolding to_frame to_ether_type to_packet to_protocol
syn-Frame = record {
  header = record {
    dest_mac = our_mac;
    src_mac = peer_mac;
    ether_type = 0x0800;
    payload = syn_header ++ syn;
  };
  parsed = refl;
  long = omega arith;
  small = omega arith;
  carried = record {
    header = record {
      ihl = 5;
      version = 4;
      ecn = 0;
      ds = 0;
      total_len = 44;
      identification = 0;
      fragment_offset = 0;
      flags = 0;
      ttl = 64;
      protocol = 6;
      header_checksum = 26054;
      src_ip = guest;
      dest_ip = us;
      payload = syn;
    };
    parsed = refl;
    long = omega arith;
    inside = omega arith;
    small = omega arith;
    body = syn-Segment;
  };
}

abbrev pub rounds : List Round
rounds =
    round (framed 6 arp_question)
    ∷ round (ip_frame our_mac peer_mac (bytes_packet packet))
    ∷ round (framed 0 (ping_header ++ ping))
    ∷ round (framed 0 (syn_header ++ syn))
    ∷ []

pub rounds-AllBring : AllBring registered rounds
unfolding encode_from make_packet
rounds-AllBring = (
  (omega arith, arp_question-Frame),
  ((omega arith, asked-Frame), ((omega arith, ping-Frame), ((omega arith, syn-Frame), tt))),
)

listen_total_example : (n' : Net) × (listen server rounds ≡ some n') × Runs server n' 4
listen_total_example = listen_total server rounds tt rounds-AllBring
