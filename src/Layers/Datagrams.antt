-- ===== src/Layers/Datagrams.antt =====
-- A UDP datagram as one stack sends it, and the way it takes through another.
use dnet_core.Base.{ℕ, ◌+◌, ◌*◌, ◌<◌, ◌^◌, ◌≡◌, ◌∙◌, ap, List, ltb, true, length, some, arith}
use dnet_core.Words.{sub_size}
use dnet_core.Words.Laws.{IsWord32}
use dnet_core.Addr.{MacAddress, Ipv4Address}
use dnet_core.Checksum.Fold.{FoldsOnce, folded}
use dnet_core.Net.{Net}
use dnet_core.L2
use dnet_core.L3
use dnet_core.L3.Packet.{Ipv4Protocol, L3Context, to_protocol, bytes_packet}
use dnet_core.L3.Send.{make_packet}
use dnet_core.L3.Accept.{blank_header, own_packet_lem}
use dnet_core.L4
use dnet_core.Udp
use dnet_core.Udp.Datagram.{to_datagram, bytes_datagram}
use dnet_core.Udp.Send.{make_datagram}
use dnet_core.Layout.Transports.{udp_roundtrip}
use dnet_core.Layers.Frames.{ip_frame, ip_frame_lem}

module _ (n : Net) (src dest : Ipv4Address) (src_port dest_port : ℕ) (message : List ℕ)
    (src_in : IsWord32 src) (dest_in : IsWord32 dest) (src_port_in : src_port < 2 ^ 16)
    (dest_port_in : dest_port < 2 ^ 16) (short : length message + 28 < 2 ^ 16) where
  -- The datagram as `UDP::send` builds it, and where it comes from.
  abbrev pub sent : List ℕ
  sent = bytes_datagram (make_datagram message dest_port src_port)

  abbrev pub udp_context : L3Context
  udp_context = record { src_ip = src; dest_ip = dest; protocol = Ipv4Protocol.udp }

  pub sent_parsed : to_datagram sent ≡ some (make_datagram message dest_port src_port)
  sent_parsed = udp_roundtrip (make_datagram message dest_port src_port) (record {
    src_port_in = src_port_in;
    dest_port_in = dest_port_in;
    len_in = omega arith;
    checksum_in = omega arith;
  })

  handed_on :
      L3.dispatch
        (to_protocol (make_packet src dest Ipv4Protocol.udp sent).protocol)
        (make_packet src dest Ipv4Protocol.udp sent)
        (length message + 28)
        n
      ≡ Udp.on_recv sent (length message + 8) udp_context n
  unfolding L3.dispatch to_protocol make_packet L4.on_recv L4.dispatch
  handed_on =
      let left : sub_size (length message + 28) (5 * 4) ≡ length message + 8 = omega arith in
      ap (λ k. Udp.on_recv sent k udp_context n) left

  -- A datagram that `UDP::send` builds reaches `UDP::on_recv` of another stack through the layers below.
  pub datagram_reaches :
      (dest_mac src_mac : MacAddress)
      → FoldsOnce (blank_header src dest Ipv4Protocol.udp sent)
      → L2.on_recv
          (ip_frame dest_mac src_mac (bytes_packet (make_packet src dest Ipv4Protocol.udp sent)))
          (length message + 42)
          n
        ≡ Udp.on_recv sent (length message + 8) udp_context n
  datagram_reaches dest_mac src_mac once =
      let left : sub_size (length message + 42) 14 ≡ length message + 28 = omega arith in
      let folds : ltb (folded (blank_header src dest Ipv4Protocol.udp sent)) (2 ^ 16) ≡ true =
        ground (arith, once) in
      ip_frame_lem n dest_mac src_mac _ (length message + 42)
      ∙ ap (λ k. L3.on_recv (bytes_packet (make_packet src dest Ipv4Protocol.udp sent)) k n) left
      ∙ (rw folds at
          (own_packet_lem src dest Ipv4Protocol.udp sent n (length message + 28) src_in dest_in))
      ∙ handed_on
