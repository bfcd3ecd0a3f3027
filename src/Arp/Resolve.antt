-- ===== src/Arp/Resolve.antt =====
-- Address resolution as seen from the network and from the layer above.
use dnet_core.Arp.Cache.{ArpCacheEntry}
use dnet_core.Base.{
  ℕ, ◌+◌, ◌≤◌, ◌≡◌, ◌≢◌, ◌∙◌, List, none, some, arith, ◌==◌, Bool-cases, inl, inr, leb,
  if◌then◌else◌,
}
use dnet_core.Addr.{addr_key, contains}
use dnet_core.Dict.{assign, find-assign_self}
use dnet_core.Net.{
  Net, Error, ok, thrown, emit, load, dnet_assert, driver_send, arp_htype, arp_ptype, arp_hlen,
  arp_plen,
}
use dnet_core.L2.Send.{EtherType}
use dnet_core.L2.Send as L2Send
use dnet_core.L3.Output.{frame_from, request_for}
use dnet_core.Arp.Payload.{ArpPayload, sizeof_arp_payload, to_payload, bytes_payload}
use dnet_core.Arp.{
  arp_cache_ttl, arp_response, to_opcode, message, send_response, send_request, remember, handle,
  on_recv, fresh_entry, answer, lookup,
}

-- A payload of Ethernet and IPv4.
pub record IsEthernetIp (p : ArpPayload) : Type 0 where
  pub htype_ok : p.htype ≡ 0x0001
  pub ptype_ok : p.ptype ≡ 0x0800
  pub hlen_ok : p.hlen ≡ 6
  pub plen_ok : p.plen ≡ 4

-- The entry that an answer leaves in the cache.
abbrev pub learnt : Net → ArpPayload → Net
learnt n p = record n {
  arp_cache =
      assign p.sender_ip (record { address = p.sender_mac; last_update = n.now }) n.arp_cache;
}

module _ (n : Net) (buf : List ℕ) (size : ℕ) {p : ArpPayload} (long : sizeof_arp_payload ≤ size)
    (parsed : to_payload buf ≡ some p) where
  -- A message of at least 28 bytes over anything but Ethernet and IPv4 is refused with an error, and
  -- nothing changes.
  pub other_hardware_refused : ¬ IsEthernetIp p → (e : Error) × (on_recv buf size n ≡ thrown e n)
  unfolding load dnet_assert on_recv
  other_hardware_refused bad = elim (Bool-cases (p.htype == 0x0001)) [
    | inr h ↦ (arp_htype, ground arith)
    | inl htype_ok ↦ elim (Bool-cases (p.ptype == 0x0800)) [
      | inr h ↦ (arp_ptype, ground arith)
      | inl ptype_ok ↦ elim (Bool-cases (p.hlen == 6)) [
        | inr h ↦ (arp_hlen, ground arith)
        | inl hlen_ok ↦ elim (Bool-cases (p.plen == 4)) [
          | inr h ↦ (arp_plen, ground arith)
          | inl plen_ok ↦ absurd (bad (ground arith))
        ]
      ]
    ]
  ]

  module _ (v : IsEthernetIp p) where
    dispatched : on_recv buf size n ≡ handle (to_opcode p.opcode) p n
    unfolding load dnet_assert on_recv
    dispatched = ground arith

    -- A request of at least 28 bytes over Ethernet and IPv4 for an address of the subnet is answered
    -- to its sender, with this host's hardware address for the address asked for; a request for any
    -- other address is ignored.
    pub request_answered :
        p.opcode ≡ 1
        → on_recv buf size n ≡ (
            if contains n.subnet p.target_ip
            then ok tt (
                emit
                  (frame_from n p.sender_mac EtherType.arp (
                    bytes_payload
                      (message arp_response n.mac p.target_ip p.sender_mac p.sender_ip)))
                  n)
            else ok tt n)
    unfolding handle to_opcode send_response L2Send.send driver_send
    request_answered e = dispatched ∙ ground arith

    -- An answer is remembered under its sender's protocol address, and nothing is sent.
    pub response_learnt : p.opcode ≡ 2 → on_recv buf size n ≡ ok tt (learnt n p)
    unfolding handle to_opcode remember
    response_learnt e = dispatched ∙ ground arith

    pub unknown_opcode_ignored : p.opcode ≢ 1 → p.opcode ≢ 2 → on_recv buf size n ≡ ok tt n
    unfolding handle to_opcode
    unknown_opcode_ignored e f = dispatched ∙ ground arith

-- Up to 120 seconds after an answer its sender's address is looked up without a frame; after that a
-- look-up finds nothing and broadcasts a request from the network's address.
pub lookup-learnt :
    (n : Net) (p : ArpPayload) (later : ℕ)
    → let n' = record (learnt n p) { now = later } in
      lookup p.sender_ip n' ≡ (
        if leb later (n.now + arp_cache_ttl)
        then ok (some p.sender_mac) n'
        else ok none (emit (request_for n' p.sender_ip) n'))
unfolding lookup fresh_entry answer send_request L2Send.send driver_send
lookup-learnt n p later =
    let entry : ArpCacheEntry = record { address = p.sender_mac; last_update = n.now } in
    ground (arith, find-assign_self p.sender_ip entry n.arp_cache)
