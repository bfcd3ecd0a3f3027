-- ===== src/Sound/Frames.antt =====
-- Frames that `L2::on_recv` handles inside their buffer, layer by layer.
use dnet_core.Base.{ℕ, ◌-◌, ◌*◌, ◌≤◌, ◌<◌, ◌^◌, ◌≡◌, refl, List, some, arith, length}
use dnet_core.Addr.{contains}
use dnet_core.Words.{sub_size}
use dnet_core.Net.{Net, dnet_assert, driver_send}
use dnet_core.Net.Ends.{Ends, Ends-load, Ends-assert, Ends-if}
use dnet_core.Layout.Inside.{to_payload-inside}
use dnet_core.L2
use dnet_core.L2.Send.{EtherType, to_ether_type, EthernetFrame, to_frame}
use dnet_core.L2.Send as L2Send
use dnet_core.Arp
use dnet_core.Arp.{ArpOpcode, to_opcode}
use dnet_core.Arp.Payload.{ArpPayload}
use dnet_core.L3
use dnet_core.L3.Packet.{Ipv4Protocol, to_protocol, Ipv4Packet, to_packet, sizeof_ipv4_packet}
use dnet_core.L4
use dnet_core.Dns.{Records}
use dnet_core.Sound.Sizes.{sub_size_lem, Ends-read}
use dnet_core.Sound.Segments.{Segment, segment_ends}
use dnet_core.Sound.Datagrams.{Message, icmp_ends, Datagram, datagram_ends}

-- What the packet carries is well formed for its protocol. A protocol that no layer handles is refused
-- whatever it carries.
abbrev pub Body : Records → Ipv4Protocol → List ℕ → ℕ → Type 0
Body rs Ipv4Protocol.icmp buf size = Message buf size
Body rs Ipv4Protocol.tcp buf size = Segment buf size
Body rs Ipv4Protocol.udp buf size = Datagram rs buf size
Body rs _ buf size = Unit {0}

-- A packet of `size` bytes with at least its header.
pub record Packet (rs : Records) (buf : List ℕ) (size : ℕ) : Type 0 where
  pub header : Ipv4Packet
  pub parsed : to_packet buf ≡ some header
  pub long : sizeof_ipv4_packet ≤ size
  pub inside : size ≤ length buf
  pub small : size < 2 ^ 64
  pub body : Body rs (to_protocol header.protocol) header.payload (size - sizeof_ipv4_packet)

-- What a frame carries. For ARP the memory holds a message, whatever the size.
abbrev pub Carried : Records → EtherType → List ℕ → ℕ → Type 0
Carried rs EtherType.arp buf size = 28 ≤ length buf
Carried rs EtherType.ip buf size = Packet rs buf size
Carried rs (EtherType.other v) buf size = Unit {0}

-- A frame of `size` bytes with at least its header.
pub record Frame (rs : Records) (buf : List ℕ) (size : ℕ) : Type 0 where
  pub header : EthernetFrame
  pub parsed : to_frame buf ≡ some header
  pub long : 14 ≤ size
  pub small : size < 2 ^ 64
  pub carried : Carried rs (to_ether_type header.ether_type) header.payload (size - 14)

arp_handled : (op : ArpOpcode) (p : ArpPayload) (n : Net) → Ends (Arp.handle op p n)
unfolding Arp.handle Arp.send_response Arp.remember L2Send.send driver_send Ends
arp_handled ArpOpcode.arp_request p n =
    Ends-if (contains n.subnet p.target_ip) _ _ n (λ inside. tt) (λ outside. tt)
arp_handled ArpOpcode.arp_response p n = tt
arp_handled (ArpOpcode.other v) p n = tt

arp_ends : (n : Net) (buf : List ℕ) (size : ℕ) → 28 ≤ length buf → Ends (Arp.on_recv buf size n)
unfolding Arp.on_recv
arp_ends n buf size long =
    let (p, e, _) = to_payload-inside buf long in
    Ends-assert _ _ _ n λ sized. Ends-load _ p _ n e (
      Ends-assert _ _ _ n λ htype. Ends-assert _ _ _ n λ ptype.
        Ends-assert _ _ _ n
          λ hlen. Ends-assert _ _ _ n λ plen. arp_handled (to_opcode p.opcode) p n)

body_ends :
    (n : Net) (p : Ipv4Protocol) (h : Ipv4Packet) (size : ℕ)
    → to_protocol h.protocol ≡ p
    → sub_size size (h.ihl * 4) ≡ size - sizeof_ipv4_packet
    → Body n.dns_records p h.payload (size - sizeof_ipv4_packet)
    → Ends (L3.dispatch p h size n)
unfolding L3.dispatch L4.on_recv L4.dispatch Ends dnet_assert
body_ends n Ipv4Protocol.icmp h size e s b = rw s (icmp_ends n _ _ _ _ b)
body_ends n Ipv4Protocol.tcp h size e s b = rw (s, e) (segment_ends n _ _ _ b)
body_ends n Ipv4Protocol.udp h size e s b = rw (s, e) (datagram_ends n _ _ _ b)
body_ends n _ h size e s b = rw e tt

packet_ends :
    (n : Net) (buf : List ℕ) (size : ℕ)
    → Packet n.dns_records buf size
    → Ends (L3.on_recv buf size n)
unfolding L3.on_recv
packet_ends n buf size p = Ends-load _ p.header _ n p.parsed (
    Ends-assert _ _ _ n λ version. Ends-assert _ _ _ n λ options.
      Ends-read sizeof_ipv4_packet buf _ n (omega (arith, p.long, p.inside)) λ bytes.
        Ends-assert _ _ _ n λ right.
          let five : p.header.ihl * 4 ≡ sizeof_ipv4_packet = ground arith in
          body_ends n (to_protocol p.header.protocol) p.header size refl
            (rw five (sub_size_lem size sizeof_ipv4_packet p.long p.small)) p.body)

carried_ends :
    (n : Net) (type : EtherType) (f : EthernetFrame) (size : ℕ)
    → sub_size size 14 ≡ size - 14
    → Carried n.dns_records type f.payload (size - 14)
    → Ends (L2.dispatch type f size n)
unfolding L2.dispatch Ends dnet_assert
carried_ends n EtherType.arp f size s c = arp_ends n f.payload (sub_size size 14) c
carried_ends n EtherType.ip f size s c = rw s (packet_ends n f.payload (size - 14) c)
carried_ends n (EtherType.other v) f size s c = tt

-- A well-formed frame is handled to an end.
pub frame_ends :
    (n : Net) (buf : List ℕ) (size : ℕ)
    → Frame n.dns_records buf size
    → Ends (L2.on_recv buf size n)
unfolding L2.on_recv
frame_ends n buf size f = Ends-load _ f.header _ n f.parsed (
    carried_ends n (to_ether_type f.header.ether_type) f.header size
      (sub_size_lem size 14 f.long f.small) f.carried)
