-- ===== src/Layers/Elsewhere.antt =====
-- Frames that are none of a connection's: they leave its entry in the table alone.
use dnet_core.Base.{
  ℕ, ◌≡◌, refl, sym, subst, List, Option, none, some, false, Option-cases, inl, inr,
}
use dnet_core.Memory.{◌>>=◌}
use dnet_core.Dict.{find}
use dnet_core.Net.{Net}
use dnet_core.Net.Rules.{After}
use dnet_core.L2
use dnet_core.L2.Send.{EtherType, to_ether_type, EthernetFrame, to_frame}
use dnet_core.L3.{context_of}
use dnet_core.L3.Packet.{Ipv4Protocol, to_protocol, Ipv4Packet, to_packet}
use dnet_core.Tcp.{tuple_of}
use dnet_core.Tcp.Conn.{TcpConnTuple, tuple_key, tuple_beq}
use dnet_core.Tcp.Segment.{to_segment}
use dnet_core.Tcp.Safe.{short_faults}
use dnet_core.Tcp.Isolation.{others_kept}
use dnet_core.Layers.Effects.{on_recv_keeps}

-- The addresses and ports of the segment that a frame carries, if it carries one.
unfoldable pub packet_tuple : Ipv4Protocol → Ipv4Packet → Option TcpConnTuple
packet_tuple Ipv4Protocol.tcp h = do s ← to_segment h.payload; some (tuple_of s (context_of h))
packet_tuple _ h = none

unfoldable pub frame_tuple : EtherType → EthernetFrame → Option TcpConnTuple
frame_tuple EtherType.ip f = do h ← to_packet f.payload; packet_tuple (to_protocol h.protocol) h
frame_tuple _ f = none

unfoldable pub carried_tuple : List ℕ → Option TcpConnTuple
carried_tuple memory = do f ← to_frame memory; frame_tuple (to_ether_type f.ether_type) f

-- No segment, or one of another connection.
abbrev pub IsOther : TcpConnTuple → Option TcpConnTuple → Type 0
IsOther t none = Unit {0}
IsOther t (some u) = tuple_beq u t ≡ false

abbrev pub Elsewhere : TcpConnTuple → List ℕ → Type 0
Elsewhere t memory = IsOther t (carried_tuple memory)

carried_tuple_lem :
    (memory : List ℕ) (f : EthernetFrame) (h : Ipv4Packet)
    → to_frame memory ≡ some f
    → to_ether_type f.ether_type ≡ EtherType.ip
    → to_packet f.payload ≡ some h
    → to_protocol h.protocol ≡ Ipv4Protocol.tcp
    → carried_tuple memory ≡ (to_segment h.payload >>= λ s. some (tuple_of s (context_of h)))
unfolding carried_tuple frame_tuple packet_tuple
carried_tuple_lem memory f h framed ip packed tcp = rw (framed, ip, packed, tcp) refl

pub Elsewhere-on_recv :
    (t : TcpConnTuple) (n : Net) (memory : List ℕ) (size : ℕ)
    → Elsewhere t memory
    → After (λ m. find t m.connections ≡ find t n.connections) (L2.on_recv memory size n)
unfolding After
Elsewhere-on_recv t n memory size other =
    on_recv_keeps n (λ m. find t m.connections ≡ find t n.connections) refl (λ frame. refl)
      (λ cache. refl) memory size
      (λ f h framed ip packed tcp size'. elim (Option-cases (to_segment h.payload)) [
        | inl short ↦ subst (After _) (sym (short_faults n h.payload size' (context_of h) short)) tt
        | inr (s, e) ↦
            others_kept n h.payload size' (context_of h) t e
              (rw (carried_tuple_lem memory f h framed ip packed tcp, e) at other)
      ])
