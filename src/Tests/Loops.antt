-- ===== src/Tests/Loops.antt =====
-- The listening loop over a question, a malformed frame and a ping.
use dnet_core.Base.{List, [], ◌∷◌, ◌++◌, ◌≡◌, refl, some}
use dnet_core.Net.{Net, emit, load, dnet_assert, driver_send}
use dnet_core.Net.Rules.{After}
use dnet_core.Net.Advance.{Advances}
use dnet_core.Driver.{Arrival, caught, receive, do_listen}
use dnet_core.Driver.Runs.{Runs, do_listen-Runs}
use dnet_core.Layers.{on_recv-Advances}
use dnet_core.L2
use dnet_core.Addr.{contains}
use dnet_core.Memory.{read_bytes}
use dnet_core.Checksum.{checksum_16bit_be}
use dnet_core.L2.Send.{EtherType, to_ether_type, to_frame}
use dnet_core.L2.Send as L2Send
use dnet_core.L3
use dnet_core.L3.Send as L3Send
use dnet_core.L3.Send.{make_packet, route, deliver}
use dnet_core.Arp
use dnet_core.Icmp
use dnet_core.L3.Output.{output, frame_from}
use dnet_core.L3.Packet.{Ipv4Protocol, to_packet, to_protocol}
use dnet_core.Arp.{message, arp_response, to_opcode}
use dnet_core.Arp.Payload.{to_payload, bytes_payload}
use dnet_core.Icmp.{make_datagram}
use dnet_core.Icmp.Datagram.{to_datagram, bytes_datagram}
use dnet_core.Tests.{
  addr, us, guest, our_mac, peer_mac, start, framed, arrives, arp_question, ping, ping_header,
}

abbrev frames : List Arrival
frames =
    arrives (framed 6 arp_question)
    ∷ arrives (framed 7 (1 ∷ 2 ∷ []))
    ∷ arrives (framed 0 (ping_header ++ ping))
    ∷ []

on_recv-Advances_example :
    After (Advances start) (L2.on_recv (framed 0 (ping_header ++ ping)) 45 start)
on_recv-Advances_example = on_recv-Advances start tt (framed 0 (ping_header ++ ping)) 45

-- The question and the ping are answered, and the malformed frame is dropped.
abbrev answered : Net
answered =
    emit
      (output start us guest Ipv4Protocol.icmp (
        bytes_datagram
          (make_datagram 0 0 (record { b0 = 0; b1 = 1; b2 = 0; b3 = 2 }) (97 ∷ 98 ∷ 99 ∷ []))))
      (emit
        (frame_from start peer_mac EtherType.arp
          (bytes_payload (message arp_response our_mac us peer_mac (addr 10 0 0 9))))
        start)

listened : do_listen start frames ≡ some answered
unfolding do_listen receive caught load dnet_assert driver_send L2.on_recv to_frame L2.dispatch
    to_ether_type Arp.on_recv to_payload Arp.handle to_opcode contains Arp.send_response L2Send.send
    L3.on_recv to_packet read_bytes checksum_16bit_be L3.dispatch to_protocol Icmp.on_recv
    to_datagram Icmp.to_icmp_type Icmp.handle Icmp.send make_datagram L3Send.send make_packet route
    deliver output
listened = refl

do_listen-Runs_example : Runs start answered 3
do_listen-Runs_example = do_listen-Runs start frames tt listened
