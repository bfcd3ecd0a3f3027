-- ===== src/Layers/Delivery.antt =====
-- A packet from one stack to another on the same network, with the resolution of the address before it.
use dnet_core.Base.{
  ℕ, ◌+◌, ◌≤◌, ◌<◌, ◌^◌, ◌≡◌, refl, ◌∙◌, ap, List, length, none, some, true, ltb, arith,
}
use dnet_core.Words.{sub_size}
use dnet_core.Words.Laws.{IsWord32}
use dnet_core.Addr.{MacAddress, Ipv4Address, contains}
use dnet_core.Checksum.Fold.{FoldsOnce, folded}
use dnet_core.Net.{Net, ok, emit, driver_send}
use dnet_core.L2
use dnet_core.L2.Send as L2Send
use dnet_core.L2.Send.{EtherType}
use dnet_core.L3
use dnet_core.L3.Packet.{Ipv4Protocol, Ipv4Packet, to_protocol, bytes_packet}
use dnet_core.L3.Send.{make_packet, route, deliver, send}
use dnet_core.L3.Output.{frame_from, request_for, resolved, output, send_lem}
use dnet_core.L3.Accept.{blank_header, own_packet_lem}
use dnet_core.Arp.{arp_cache_ttl, lookup}
use dnet_core.Layers.Exchange.{
  answer_frame, informed, question_answered_lem, answer_taken, informed-lookup,
}
use dnet_core.Layers.Frames.{ip_frame_lem}

route_resolved :
    (n : Net) (target : Ipv4Address) (packet : List ℕ) {mac : MacAddress}
    → lookup target n ≡ ok (some mac) n
    → route true target packet n ≡ ok tt (emit (frame_from n mac EtherType.ip packet) n)
unfolding route deliver L2Send.send driver_send
route_resolved n target packet known = ground (arith, known)

module _ (src target : Ipv4Address) (p : Ipv4Protocol) (buf : List ℕ) where
  -- The packet around `buf`, and its frame from `n` to the hardware address `mac`.
  abbrev pub packet : Ipv4Packet
  packet = make_packet src target p buf

  abbrev pub packet_frame : Net → MacAddress → List ℕ
  packet_frame n mac = frame_from n mac EtherType.ip (bytes_packet packet)

  send-unresolved :
      (n : Net)
      → contains n.subnet target ≡ true
      → resolved n target ≡ none
      → send src target p buf n ≡ ok tt (emit (request_for n target) n)
  unfolding output
  send-unresolved n inside unknown = send_lem n src target p buf ∙ (rw inside (rw unknown refl))

  send-resolved :
      (n : Net) {mac : MacAddress}
      → contains n.subnet target ≡ true
      → lookup target n ≡ ok (some mac) n
      → send src target p buf n ≡ ok tt (emit (packet_frame n mac) n)
  unfolding send
  send-resolved n inside known = rw inside (route_resolved n target (bytes_packet packet) known)

  packet_arrives :
      (n b : Net) (mac : MacAddress)
      → IsWord32 src
      → IsWord32 target
      → FoldsOnce (blank_header src target p buf)
      → length buf + 34 < 2 ^ 16
      → L2.on_recv (packet_frame n mac) (length buf + 34) b
        ≡ L3.dispatch (to_protocol packet.protocol) packet (length buf + 20) b
  packet_arrives n b mac src_in target_in once short =
      let left : sub_size (length buf + 34) 14 ≡ length buf + 20 = omega arith in
      let folds : ltb (folded (blank_header src target p buf)) (2 ^ 16) ≡ true =
        ground (arith, once) in
      ip_frame_lem b mac n.mac (bytes_packet packet) (length buf + 34)
      ∙ ap (λ k. L3.on_recv (bytes_packet packet) k b) left
      ∙ (rw folds at (own_packet_lem src target p buf b (length buf + 20) src_in target_in))

  -- A packet of stack `a` to an address of its subnet that it does not know is not sent: one question
  -- for the address goes out in its place. Any stack `b` whose subnet holds the address answers that
  -- question with one frame, and once `a` has taken that frame, for 120 seconds the same packet, sent
  -- again, goes out in one frame to the hardware address of `b`. Any stack that receives it hands the
  -- packet, with the data unchanged, to the layer of its protocol, when the frame is shorter than 64 KiB
  -- and the sum over the blank header folds once.
  pub retried_packet_delivered :
      (a b c : Net) (later : ℕ)
      → contains a.subnet target ≡ true
      → contains b.subnet target ≡ true
      → resolved a target ≡ none
      → later ≤ a.now + arp_cache_ttl
      → IsWord32 src
      → IsWord32 target
      → FoldsOnce (blank_header src target p buf)
      → length buf + 34 < 2 ^ 16
      → let question = request_for a target in
        (reply : List ℕ) × (a' : Net) × (send src target p buf a ≡ ok tt (emit question a))
        × (L2.on_recv question 42 b ≡ ok tt (emit reply b))
        × (L2.on_recv reply 42 (emit question a) ≡ ok tt a')
        × (send src target p buf (record a' { now = later })
            ≡ ok tt (emit (packet_frame a b.mac) (record a' { now = later })))
        × (L2.on_recv (packet_frame a b.mac) (length buf + 34) c
            ≡ L3.dispatch (to_protocol packet.protocol) packet (length buf + 20) c)
  retried_packet_delivered a b c later here there unknown soon src_in target_in once short =
      let asked = emit (request_for a target) a in
      (
        answer_frame asked b target,
        informed asked b target,
        send-unresolved a here unknown,
        question_answered_lem asked b target there,
        answer_taken asked b target,
        send-resolved (record (informed asked b target) { now = later }) here
            (informed-lookup asked b target later soon),
        packet_arrives a c b.mac src_in target_in once short,
      )
