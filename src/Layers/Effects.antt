-- ===== src/Layers/Effects.antt =====
-- What every layer below TCP does to the state: it sends at most one frame and sets the ARP cache.
use dnet_core.Base.{
  ℕ, ◌≡◌, some, refl, sym, subst, List, ◌==◌, Bool-cases, Option-cases, inl, inr, map, ◌++◌,
}
use dnet_core.Addr.{Ipv4Address, contains}
use dnet_core.Memory.{read_bytes}
use dnet_core.Checksum.{checksum_16bit_be}
use dnet_core.L4.Pseudo.{bytes_pseudo}
use dnet_core.Net.{Net, M, ok, emit, ◌>>◌, load, dnet_assert, driver_send}
use dnet_core.Net.Rules.{After, After-load, After-load-some, After-assert, After-if}
use dnet_core.L2.Send as L2Send
use dnet_core.L3.Packet.{to_packet, Ipv4Protocol, L3Context, Ipv4Packet, to_protocol}
use dnet_core.L3.Send as L3Send
use dnet_core.L3.Output.{send_lem}
use dnet_core.Arp
use dnet_core.Arp.Cache.{ArpCacheEntry}
use dnet_core.Arp.{ArpOpcode}
use dnet_core.Arp.Payload.{ArpPayload}
use dnet_core.Icmp
use dnet_core.Icmp.{IcmpType, to_icmp_type}
use dnet_core.Icmp.Datagram.{IcmpDatagram}
use dnet_core.Udp
use dnet_core.Udp.Send as UdpSend
use dnet_core.Udp.Datagram.{UdpDatagram}
use dnet_core.Dns
use dnet_core.Tcp
use dnet_core.L4
use dnet_core.L3
use dnet_core.L2
use dnet_core.L2.Send.{EtherType, to_ether_type, EthernetFrame, to_frame}

module _ (n : Net) (P : Net → Type 0) (kept : P n) (sent : (frame : List ℕ) → P (emit frame n))
    (learnt : (cache : List (Ipv4Address × ArpCacheEntry))
      → P (record n { arp_cache = cache })) where
  emits : (frame : List ℕ) → After P (ok tt (emit frame n))
  unfolding After
  emits frame = sent frame

  -- A send from the starting state.
  l3_sends :
      (src target : Ipv4Address) (p : Ipv4Protocol) (buf : List ℕ)
      → After P (L3Send.send src target p buf n)
  l3_sends src target p buf = subst (After P) (sym (send_lem n src target p buf)) (emits _)

  arp_handle : (op : ArpOpcode) (p : ArpPayload) → After P (Arp.handle op p n)
  unfolding After Arp.handle Arp.send_response Arp.remember L2Send.send driver_send
  arp_handle ArpOpcode.arp_request p =
      After-if P (contains n.subnet p.target_ip) _ _ n (sent _) kept
  arp_handle ArpOpcode.arp_response p = learnt _
  arp_handle (ArpOpcode.other v) p = kept

  arp_keeps : (buf : List ℕ) (size : ℕ) → After P (Arp.on_recv buf size n)
  unfolding Arp.on_recv
  arp_keeps buf size = After-assert P _ _ _ n kept (
      After-load P _ _ n λ p. After-assert P _ _ _ n kept (
        After-assert P _ _ _ n kept
          (After-assert P _ _ _ n kept (After-assert P _ _ _ n kept (arp_handle _ p)))))

  icmp_handle :
      (t : IcmpType) (d : IcmpDatagram) (size : ℕ) (src dest : Ipv4Address)
      → After P (Icmp.handle t d size src dest n)
  unfolding After dnet_assert Icmp.handle Icmp.send
  icmp_handle IcmpType.echo_reply d size src dest = kept
  icmp_handle IcmpType.echo_request d size src dest =
      After-load P _ _ n λ body. l3_sends dest src Ipv4Protocol.icmp _
  icmp_handle (IcmpType.other v) d size src dest = kept

  icmp_keeps :
      (buf : List ℕ) (size : ℕ) (src dest : Ipv4Address)
      → After P (Icmp.on_recv buf size src dest n)
  unfolding Icmp.on_recv
  icmp_keeps buf size src dest =
      After-load P _ _ n
        λ d. After-load P _ _ n λ whole. After-assert P _ _ _ n kept (icmp_handle _ d size src dest)

  udp_sends :
      (buf : List ℕ) (dest : Ipv4Address) (dest_port : ℕ) (src : Ipv4Address) (src_port : ℕ)
      → After P (UdpSend.send buf dest dest_port src src_port n)
  unfolding UdpSend.send L3Send.l4_send
  udp_sends buf dest dest_port src src_port = l3_sends src dest Ipv4Protocol.udp _

  dns_keeps :
      (buf : List ℕ) (size : ℕ) (src : Ipv4Address) (src_port : ℕ) (dest : Ipv4Address) (port : ℕ)
      → After P (Dns.on_recv buf size src src_port dest port n)
  unfolding Dns.on_recv
  dns_keeps buf size src src_port dest port = After-load P _ _ n λ header.
      After-assert P _ _ _ n kept (
        After-assert P _ _ _ n kept (
          After-load P _ _ n λ question. After-load P _ _ n λ qtype. After-load P _ _ n λ qclass.
            After-assert P _ _ _ n kept
              (After-load P _ _ n λ response. udp_sends response src src_port dest port)))

  -- The checksum test of UDP changes nothing: what follows it starts from the same state.
  verify_then :
      (buf : List ℕ) (size : ℕ) (d : UdpDatagram) (ctx : L3Context) (m : M (Unit {0}))
      → After P (m n)
      → After P ((Udp.verify buf size d ctx >> m) n)
  unfolding After Udp.verify load dnet_assert
  verify_then buf size d ctx m h = elim (Bool-cases (d.checksum == 0)) [
    | inl none_sent ↦ rw none_sent h
    | inr sent ↦ rw sent (elim (Option-cases (read_bytes size (Udp.blank_checksum buf))) [
      | inl outside ↦ rw outside tt
      | inr (datagram, inside) ↦
          rw inside
            (elim (Bool-cases (
              checksum_16bit_be (bytes_pseudo ctx.src_ip ctx.dest_ip 17 d.len ++ datagram)
              == d.checksum)) [
                | inl right ↦ rw (right, After) h
                | inr wrong ↦ rw (wrong, After) kept
              ])
    ])
  ]

  udp_keeps : (buf : List ℕ) (size : ℕ) (ctx : L3Context) → After P (Udp.on_recv buf size ctx n)
  unfolding Udp.on_recv Udp.echo
  udp_keeps buf size ctx = After-load P _ _ n λ d. After-assert P _ _ _ n kept (
      verify_then buf size d ctx _ (
        After-if P (d.dest_port == Udp.dns_port) _ _ n
          (dns_keeps d.payload _ ctx.src_ip d.src_port ctx.dest_ip d.dest_port)
          (After-load P _ _ n λ bytes.
            udp_sends (map Udp.to_upper bytes) ctx.src_ip d.src_port ctx.dest_ip d.dest_port)))

  l4_keeps :
      (p : Ipv4Protocol) (buf : List ℕ) (size : ℕ) (ctx : L3Context)
      → (p ≡ Ipv4Protocol.tcp → After P (Tcp.on_recv buf size ctx n))
      → After P (L4.dispatch p buf size ctx n)
  unfolding After dnet_assert L4.dispatch
  l4_keeps Ipv4Protocol.udp buf size ctx tcp = udp_keeps buf size ctx
  l4_keeps Ipv4Protocol.tcp buf size ctx tcp = tcp refl
  l4_keeps _ buf size ctx tcp = kept

  l3_dispatch :
      (p : Ipv4Protocol) (h : Ipv4Packet) (size : ℕ)
      → (to_protocol h.protocol ≡ Ipv4Protocol.tcp
          → (size' : ℕ) → After P (Tcp.on_recv h.payload size' (L3.context_of h) n))
      → After P (L3.dispatch p h size n)
  unfolding L3.dispatch L4.on_recv
  l3_dispatch Ipv4Protocol.icmp h size tcp = icmp_keeps h.payload _ h.src_ip h.dest_ip
  l3_dispatch _ h size tcp = l4_keeps (to_protocol h.protocol) h.payload _ _ (λ e. tcp e _)

  l3_keeps :
      (buf : List ℕ) (size : ℕ)
      → ((h : Ipv4Packet)
          → to_packet buf ≡ some h
          → to_protocol h.protocol ≡ Ipv4Protocol.tcp
          → (size' : ℕ) → After P (Tcp.on_recv h.payload size' (L3.context_of h) n))
      → After P (L3.on_recv buf size n)
  unfolding L3.on_recv
  l3_keeps buf size tcp = After-load-some P _ _ n λ h e. After-assert P _ _ _ n kept (
      After-assert P _ _ _ n kept (
        After-load P _ _ n λ header.
          After-assert P _ _ _ n kept (l3_dispatch (to_protocol h.protocol) h size (tcp h e))))

  l2_dispatch :
      (t : EtherType) (f : EthernetFrame) (size : ℕ)
      → (t ≡ EtherType.ip
          → (h : Ipv4Packet) → to_packet f.payload ≡ some h
          → to_protocol h.protocol ≡ Ipv4Protocol.tcp
          → (size' : ℕ) → After P (Tcp.on_recv h.payload size' (L3.context_of h) n))
      → After P (L2.dispatch t f size n)
  unfolding After dnet_assert L2.dispatch
  l2_dispatch EtherType.arp f size tcp = arp_keeps f.payload _
  l2_dispatch EtherType.ip f size tcp = l3_keeps f.payload _ (tcp refl)
  l2_dispatch (EtherType.other v) f size tcp = kept

  -- A frame keeps `P` when the segment that it may carry does.
  pub on_recv_keeps :
      (buf : List ℕ) (size : ℕ)
      → ((f : EthernetFrame) (h : Ipv4Packet)
          → to_frame buf ≡ some f
          → to_ether_type f.ether_type ≡ EtherType.ip
          → to_packet f.payload ≡ some h
          → to_protocol h.protocol ≡ Ipv4Protocol.tcp
          → (size' : ℕ) → After P (Tcp.on_recv h.payload size' (L3.context_of h) n))
      → After P (L2.on_recv buf size n)
  unfolding L2.on_recv
  on_recv_keeps buf size tcp =
      After-load-some P _ _ n
        λ f e. l2_dispatch (to_ether_type f.ether_type) f size (λ ip h. tcp f h e ip)
