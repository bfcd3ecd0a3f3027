-- ===== src/Layers/Exchange.antt =====
-- Address resolution between two stacks on one network.
use dnet_core.Base.{ℕ, ◌+◌, ◌≤◌, ◌^◌, ◌<◌, ◌≡◌, refl, ◌∙◌, List, [], some, true, leb, arith}
use dnet_core.Addr.{MacAddress, Ipv4Address, broadcast, contains}
use dnet_core.Net.{Net, ok, emit, load}
use dnet_core.L2
use dnet_core.L2.Send.{EtherType, to_ether_type}
use dnet_core.L3.Output.{frame_from, request_for}
use dnet_core.Arp
use dnet_core.Arp.{
  arp_cache_ttl, arp_request, arp_response, ArpOpcode, opcode_code, message, lookup,
}
use dnet_core.Arp.Payload.{ArpPayload, to_payload, bytes_payload}
use dnet_core.Arp.Resolve.{IsEthernetIp, learnt, request_answered, response_learnt, lookup-learnt}
use dnet_core.Layout.Links.{to_frame-bytes_frame, to_payload-bytes_payload}

arp_frame_lem :
    (sender receiver : Net) (dest : MacAddress) (payload : List ℕ)
    → L2.on_recv (frame_from sender dest EtherType.arp payload) 42 receiver
      ≡ Arp.on_recv payload 28 receiver
unfolding L2.on_recv load L2.dispatch to_ether_type
arp_frame_lem sender receiver dest payload =
    let parsed =
      to_frame-bytes_frame
        (record { dest_mac = dest; src_mac = sender.mac; ether_type = 0x0806; payload = payload })
        (omega arith) in
    ground (arith, parsed)

module _ (op : ArpOpcode) (small : opcode_code op < 2 ^ 16) (sender_mac : MacAddress)
    (sender_ip : Ipv4Address) (target_mac : MacAddress) (target_ip : Ipv4Address) where
  abbrev sent : ArpPayload
  sent = message op sender_mac sender_ip target_mac target_ip

  message_parsed : to_payload (bytes_payload sent) ≡ some sent
  message_parsed =
      to_payload-bytes_payload sent []
        (record { htype_in = omega arith; ptype_in = omega arith; opcode_in = small })

  message-IsEthernetIp : IsEthernetIp sent
  message-IsEthernetIp = record { htype_ok = refl; ptype_ok = refl; hlen_ok = refl; plen_ok = refl }

module _ (a b : Net) (target : Ipv4Address) where
  abbrev question : ArpPayload
  question = message arp_request a.mac a.subnet.network broadcast target

  abbrev answer : ArpPayload
  answer = message arp_response b.mac target a.mac a.subnet.network

  -- The answer of stack `b` to the question of stack `a`, and what `a` is when it has taken it.
  abbrev pub answer_frame : List ℕ
  answer_frame = frame_from b a.mac EtherType.arp (bytes_payload answer)

  abbrev pub informed : Net
  informed = learnt a answer

  pub question_answered_lem :
      contains b.subnet target ≡ true
      → L2.on_recv (request_for a target) 42 b ≡ ok tt (emit answer_frame b)
  question_answered_lem inside =
      arp_frame_lem a b broadcast (bytes_payload question)
      ∙ (rw inside at (
          request_answered b (bytes_payload question) 28 (omega arith)
            (message_parsed arp_request (omega arith) a.mac a.subnet.network broadcast target)
            (message-IsEthernetIp arp_request (omega arith) a.mac a.subnet.network broadcast target)
            refl))

  pub answer_taken : L2.on_recv answer_frame 42 a ≡ ok tt informed
  answer_taken =
      arp_frame_lem b a a.mac (bytes_payload answer)
      ∙ response_learnt a (bytes_payload answer) 28 (omega arith)
          (message_parsed arp_response (omega arith) b.mac target a.mac a.subnet.network)
          (message-IsEthernetIp arp_response (omega arith) b.mac target a.mac a.subnet.network) refl

  pub informed-lookup :
      (later : ℕ)
      → later ≤ a.now + arp_cache_ttl
      → let a' = record informed { now = later } in lookup target a' ≡ ok (some b.mac) a'
  informed-lookup later soon =
      let fresh : leb later (a.now + arp_cache_ttl) ≡ true = ground (arith, soon) in
      rw fresh at (lookup-learnt a answer later)

-- The question that stack `a` broadcasts for an address that it does not know is answered by any stack
-- `b` whose subnet holds the address, with one frame, and from that answer `a` knows the hardware address
-- of `b` under the address it asked for: it looks it up without a frame for the next 120 seconds.
pub addresses_exchanged :
    (a b : Net) (target : Ipv4Address) (later : ℕ)
    → contains b.subnet target ≡ true
    → later ≤ a.now + arp_cache_ttl
    → (reply : List ℕ) × (a' : Net) × (L2.on_recv (request_for a target) 42 b
        ≡ ok tt (emit reply b))
      × (L2.on_recv reply 42 a ≡ ok tt a')
      × (lookup target (record a' { now = later }) ≡ ok (some b.mac) (record a' { now = later }))
addresses_exchanged a b target later inside soon = (
  answer_frame a b target,
  informed a b target,
  question_answered_lem a b target inside,
  answer_taken a b target,
  informed-lookup a b target later soon,
)
