-- ===== src/L3/Output.antt =====
-- What `L3::send` puts on the wire.
use dnet_core.Base.{
  if◌then◌else◌, Bool-cases, inl, inr, ap, ◌∙◌, ℕ, ◌≡◌, refl, List, Option, none, some, Bool, true,
  false, arith,
}
use dnet_core.Words.{u16}
use dnet_core.Addr.{MacAddress, broadcast, Ipv4Address, addr_key, contains}
use dnet_core.Dict.{find}
use dnet_core.Net.{Net, Outcome, ok, emit, driver_send}
use dnet_core.L2.Send.{EtherType, ether_type_code, bytes_frame}
use dnet_core.L2.Send as L2Send
use dnet_core.Arp.{arp_request, message, fresh_entry, lookup, answer, send_request}
use dnet_core.Arp.Payload.{bytes_payload}
use dnet_core.L3.Packet.{Ipv4Protocol, bytes_packet}
use dnet_core.L3.Send.{make_packet, deliver, route, send}

-- A frame from this host.
abbrev pub frame_from : Net → MacAddress → EtherType → List ℕ → List ℕ
frame_from n dest type payload = bytes_frame (record {
  dest_mac = dest;
  src_mac = n.mac;
  ether_type = u16 (ether_type_code type);
  payload = payload;
})

-- The question that a cache miss asks.
abbrev pub request_for : Net → Ipv4Address → List ℕ
request_for n target =
    frame_from n broadcast EtherType.arp
      (bytes_payload (message arp_request n.mac n.subnet.network broadcast target))

-- The address that the ARP table gives now.
abbrev pub resolved : Net → Ipv4Address → Option MacAddress
resolved n target = fresh_entry (find target n.arp_cache) n.now

abbrev towards : Net → Ipv4Address → List ℕ → Option MacAddress → List ℕ
towards n target packet none = request_for n target
towards n target packet (some mac) = frame_from n mac EtherType.ip packet

abbrev routed : Net → Ipv4Address → List ℕ → Bool → List ℕ
routed n target packet true = towards n target packet (resolved n target)
routed n target packet false = frame_from n n.tap_mac EtherType.ip packet

-- The hardware address that a packet goes to now: inside the subnet what the ARP table gives, if it knows
-- the address, and outside the TAP device's own.
abbrev pub next_hop : Net → Ipv4Address → Option MacAddress
next_hop n target = if contains n.subnet target then resolved n target else some n.tap_mac

-- The frame of a packet to the hardware address `mac`.
abbrev pub packet_frame :
    Net → MacAddress → Ipv4Address → Ipv4Address → Ipv4Protocol → List ℕ → List ℕ
packet_frame n mac src target protocol buf =
    frame_from n mac EtherType.ip (bytes_packet (make_packet src target protocol buf))

-- The one frame: the packet to the resolved address inside the subnet, the ARP question in its place
-- when there is none, and the packet to the TAP device's own address outside the subnet.
unfoldable pub output : Net → Ipv4Address → Ipv4Address → Ipv4Protocol → List ℕ → List ℕ
output n src target protocol buf =
    routed n target (bytes_packet (make_packet src target protocol buf)) (contains n.subnet target)

route_lem :
    (n : Net) (target : Ipv4Address) (packet : List ℕ) (inside : Bool)
    → route inside target packet n ≡ ok tt (emit (routed n target packet inside) n)
unfolding route L2Send.send driver_send lookup answer deliver send_request
route_lem n target packet false = refl
route_lem n target packet true = ground arith

-- `L3::send` ends normally in every state and sends exactly the frame `output`, which changes
-- nothing else.
pub send_lem :
    (n : Net) (src target : Ipv4Address) (protocol : Ipv4Protocol) (buf : List ℕ)
    → send src target protocol buf n ≡ ok tt (emit (output n src target protocol buf) n)
unfolding send output
send_lem n src target protocol buf = route_lem n target _ (contains n.subnet target)

-- With a next hop that is known, the frame is that of the packet.
pub output_known :
    (n : Net) {mac : MacAddress} (src target : Ipv4Address) (protocol : Ipv4Protocol) (buf : List ℕ)
    → next_hop n target ≡ some mac
    → output n src target protocol buf ≡ packet_frame n mac src target protocol buf
unfolding output
output_known n {mac} src target protocol buf known = elim (Bool-cases (contains n.subnet target)) [
  | inl inside ↦
      let found : resolved n target ≡ some mac = rw inside at known in rw inside (rw found refl)
  | inr outside ↦
      let tap : some n.tap_mac ≡ some mac = rw outside at known in
      let same : n.tap_mac ≡ mac = cc tap in
      rw outside (ap (λ m. packet_frame n m src target protocol buf) same)
]

pub sent_packet :
    (n m : Net) {mac : MacAddress} (src target : Ipv4Address) (protocol : Ipv4Protocol)
    (buf : List ℕ) {o : Outcome (Unit {0})}
    → next_hop n target ≡ some mac
    → o ≡ ok tt (emit (output n src target protocol buf) m)
    → o ≡ ok tt (emit (packet_frame n mac src target protocol buf) m)
sent_packet n m src target protocol buf known e =
    e ∙ ap (λ f. ok tt (emit f m)) (output_known n src target protocol buf known)
