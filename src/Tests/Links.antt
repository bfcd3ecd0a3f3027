-- ===== src/Tests/Links.antt =====
-- Frames, ARP and IPv4 headers.
use dnet_core.Base.{ℕ, List, if◌then◌else◌, ltb, ◌==◌, ◌^◌, ◌++◌, ◌+◌, length, ◌≡◌, refl, arith}
use dnet_core.Addr.{contains}
use dnet_core.Checksum.Fold.{folded, FoldsOnce, word_sum}
use dnet_core.Dict.{find}
use dnet_core.Checksum.Reference.{rfc_sum}
use dnet_core.Memory.{read_bytes}
use dnet_core.Net.{Net, ok, thrown, emit, checksum_mismatch}
use dnet_core.Arp.{fresh_entry}
use dnet_core.L3
use dnet_core.L3.Packet.{Ipv4Protocol, Ipv4Packet, to_packet, to_protocol, bytes_packet}
use dnet_core.L3.Send
use dnet_core.L3.Send.{make_packet}
use dnet_core.L3.Output.{request_for}
use dnet_core.L3.Accept.{blank_header, header_checked, own_packet_lem}
use dnet_core.L2
use dnet_core.Layers.Delivery.{packet_frame, retried_packet_delivered}
use dnet_core.Tests.{peer_mac, us, guest, start, ping, ping_header}

-- The host on the other side, which answers for `us`.
abbrev peer : Net
peer = record start { mac = peer_mac }

header_once : FoldsOnce (blank_header guest us Ipv4Protocol.icmp ping)
unfolding word_sum
header_once = omega arith

-- The first packet from `start` to `us` is lost to the resolution, the second arrives.
retried_packet_delivered_example :
    let question = request_for start us in
    (reply : List ℕ) × (a' : Net) × (Send.send guest us Ipv4Protocol.icmp ping start
      ≡ ok tt (emit question start))
    × (L2.on_recv question 42 peer ≡ ok tt (emit reply peer))
    × (L2.on_recv reply 42 (emit question start) ≡ ok tt a')
    × (Send.send guest us Ipv4Protocol.icmp ping (record a' { now = 1100 })
        ≡ ok tt (
            emit
              (packet_frame guest us Ipv4Protocol.icmp ping start peer_mac)
              (record a' { now = 1100 })))
    × (L2.on_recv
          (packet_frame guest us Ipv4Protocol.icmp ping start peer_mac)
          (length ping + 34)
          peer
        ≡ L3.dispatch
            (to_protocol (make_packet guest us Ipv4Protocol.icmp ping).protocol)
            (make_packet guest us Ipv4Protocol.icmp ping)
            (length ping + 20)
            peer)
unfolding contains find fresh_entry
retried_packet_delivered_example =
    retried_packet_delivered guest us Ipv4Protocol.icmp ping start peer peer 1100 refl refl refl
      (omega arith) (omega arith) (omega arith) header_once (omega arith)

abbrev ping_packet : Ipv4Packet
ping_packet = record {
  ihl = 5;
  version = 4;
  ecn = 0;
  ds = 0;
  total_len = 31;
  identification = 0;
  fragment_offset = 0;
  flags = 0;
  ttl = 64;
  protocol = 1;
  header_checksum = 26072;
  src_ip = guest;
  dest_ip = us;
  payload = ping;
}

header_checked_example : L3.on_recv (ping_header ++ ping) 31 start ≡ (
    if rfc_sum ping_header == 0xffff
    then L3.dispatch (to_protocol 1) ping_packet 31 start
    else thrown checksum_mismatch start)
unfolding to_packet read_bytes
header_checked_example =
    header_checked start (ping_header ++ ping) 31 {h = ping_packet} {header = ping_header} refl refl
      refl refl (omega arith)

own_packet_lem_example :
    let h = make_packet us guest Ipv4Protocol.icmp ping in
    L3.on_recv (bytes_packet h) 31 start ≡ (
      if ltb (folded (blank_header us guest Ipv4Protocol.icmp ping)) (2 ^ 16)
      then L3.dispatch (to_protocol h.protocol) h 31 start
      else thrown checksum_mismatch start)
own_packet_lem_example =
    own_packet_lem us guest Ipv4Protocol.icmp ping start 31 (omega arith) (omega arith)
