-- ===== src/Layers.antt =====
-- Every layer's `on_recv` advances the state: what one received frame can do.
pub mod Effects
pub mod Frames
pub mod Ping
pub mod Datagrams
pub mod Question
pub mod Delivery
pub mod Exchange
pub mod Carried
pub mod Elsewhere
use dnet_core.Base.{ℕ, refl, sym, subst, List, ◌==◌, Bool-cases, Option-cases, inl, inr, map, ◌++◌}
use dnet_core.Addr.{Ipv4Address, contains}
use dnet_core.Memory.{read_bytes}
use dnet_core.Checksum.{checksum_16bit_be}
use dnet_core.L4.Pseudo.{bytes_pseudo}
use dnet_core.Net.{Net, M, ok, emit, ◌>>◌, load, dnet_assert, driver_send}
use dnet_core.Net.Rules.{After, After-load, After-assert, After-if}
use dnet_core.Net.Advance.{Advances, Advances-refl, Advances-emit, same}
use dnet_core.Tcp.Invariant.{ConnsOk}
use dnet_core.L2.Send as L2Send
use dnet_core.L3.Packet.{Ipv4Protocol, L3Context, Ipv4Packet, to_protocol}
use dnet_core.L3.Send as L3Send
use dnet_core.L3.Output.{send_lem}
use dnet_core.Arp
use dnet_core.Arp.Cache.{ArpCacheEntry}
use dnet_core.Arp.{ArpOpcode}
use dnet_core.Arp.Payload.{ArpPayload}
use dnet_core.Icmp
use dnet_core.Icmp.{IcmpType, to_icmp_type}
use dnet_core.Icmp.Datagram.{IcmpDatagram}
use dnet_core.Udp
use dnet_core.Udp.Send as UdpSend
use dnet_core.Udp.Datagram.{UdpDatagram}
use dnet_core.Dns
use dnet_core.Tcp.Safe.{After-Lands, on_recv_safe}
use dnet_core.L4
use dnet_core.L3
use dnet_core.L2
use dnet_core.L2.Send.{EtherType, to_ether_type, EthernetFrame}
use dnet_core.Tcp
use Effects.{on_recv_keeps}

module _ (n : Net) (inv : ConnsOk n.connections) where
  Advances-cache :
      (cache : List (Ipv4Address × ArpCacheEntry)) → Advances n (record n { arp_cache = cache })
  Advances-cache cache = record {
    mac_kept = refl;
    tap_mac_kept = refl;
    subnet_kept = refl;
    records_kept = refl;
    sends = same refl;
    conns = inv;
  }

  -- Whatever bytes arrive, and however handling them ends short of undefined behaviour: the addresses,
  -- the subnet and the DNS records stay, at most one frame is sent, and every TCP connection keeps
  -- its invariant.
  pub on_recv-Advances : (buf : List ℕ) (size : ℕ) → After (Advances n) (L2.on_recv buf size n)
  on_recv-Advances buf size =
      on_recv_keeps n (Advances n) (Advances-refl n inv) (λ frame. Advances-emit n inv frame)
        Advances-cache buf size
        (λ f h framed ip packed tcp size'.
          After-Lands (Advances n) _ (on_recv_safe n h.payload size' (L3.context_of h) inv))
