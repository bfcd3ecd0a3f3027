-- ===== src/Arp.antt =====
-- layers/L2/arp/ARP.cpp: address resolution over the cache in `Net`.
pub mod Cache
pub mod Payload
pub mod Resolve
use dnet_core.Base.{
  ℕ, ◌+◌, ◌==◌, leb, ltb, if◌then◌else◌, Bool, true, false, List, Option, none, some,
}
use dnet_core.Addr.{MacAddress, broadcast, Ipv4Address, contains, addr_key}
use dnet_core.Dict.{find, assign}
use dnet_core.Net.{Net, Error, arp_size, arp_htype, arp_ptype, arp_hlen, arp_plen}
use dnet_core.Net.{M, pure, ◌>>=◌, ◌>>◌, this, dnet_assert, load}
use dnet_core.L2.Send.{EtherType}
use dnet_core.L2.Send as L2Send
use Cache.{ArpCacheEntry}
use Payload.{ArpPayload, sizeof_arp_payload, to_payload, bytes_payload}

-- `ARP_CACHE_TTL`, in seconds.
abbrev pub arp_cache_ttl : ℕ
arp_cache_ttl = 120

pub data ArpOpcode : Type 0 where
  arp_request arp_response : ArpOpcode
  other : ℕ → ArpOpcode

unfoldable pub to_opcode : ℕ → ArpOpcode
to_opcode v = if v == 1 then arp_request else if v == 2 then arp_response else other v

abbrev pub opcode_code : ArpOpcode → ℕ
opcode_code arp_request = 1
opcode_code arp_response = 2
opcode_code (other v) = v

-- The payload that `send_response` and `send_request` build.
abbrev pub message : ArpOpcode → MacAddress → Ipv4Address → MacAddress → Ipv4Address → ArpPayload
message op sender_mac sender_ip target_mac target_ip = record {
  htype = 0x0001;
  ptype = 0x0800;
  hlen = 6;
  plen = 4;
  opcode = opcode_code op;
  sender_mac = sender_mac;
  sender_ip = sender_ip;
  target_mac = target_mac;
  target_ip = target_ip;
}

unfoldable pub send_response : MacAddress → Ipv4Address → MacAddress → Ipv4Address → M (Unit {0})
send_response sender_mac sender_ip target_mac target_ip =
    L2Send.l2_send (bytes_payload (message arp_response sender_mac sender_ip target_mac target_ip))
      target_mac EtherType.arp

unfoldable pub send_request : MacAddress → Ipv4Address → MacAddress → Ipv4Address → M (Unit {0})
send_request sender_mac sender_ip target_mac target_ip =
    L2Send.l2_send (bytes_payload (message arp_request sender_mac sender_ip target_mac target_ip))
      target_mac EtherType.arp

-- `cache[payload->sender_ip] = ArpCacheEntry(payload->sender_mac, time(nullptr))`.
unfoldable pub remember : Ipv4Address → MacAddress → M (Unit {0})
remember ip mac n =
    pure tt (record n {
      arp_cache = assign ip (record { address = mac; last_update = n.now }) n.arp_cache;
    })

-- The switch of `on_recv`.
unfoldable pub handle : ArpOpcode → ArpPayload → M (Unit {0})
handle arp_request p = do
  n ← this
  if contains n.subnet p.target_ip
      then send_response n.mac p.target_ip p.sender_mac p.sender_ip
      else pure tt
handle arp_response p = remember p.sender_ip p.sender_mac
handle (other _) p = pure tt

unfoldable pub on_recv : List ℕ → ℕ → M (Unit {0})
on_recv buf size = do
  dnet_assert (leb sizeof_arp_payload size) arp_size
  p ← load (to_payload buf)
  dnet_assert (p.htype == 0x0001) arp_htype
  dnet_assert (p.ptype == 0x0800) arp_ptype
  dnet_assert (p.hlen == 6) arp_hlen
  dnet_assert (p.plen == 4) arp_plen
  handle (to_opcode p.opcode) p

-- An entry that is there and not older than the time to live.
unfoldable pub fresh_entry : Option ArpCacheEntry → ℕ → Option MacAddress
fresh_entry none now = none
fresh_entry (some e) now = if ltb (e.last_update + arp_cache_ttl) now then none else some e.address

-- A miss asks the network for the address and gives up on the packet at hand.
unfoldable pub answer : Option MacAddress → Ipv4Address → M (Option MacAddress)
answer none address = do n ← this; send_request n.mac n.subnet.network broadcast address; pure none
answer (some mac) address = pure (some mac)

unfoldable pub lookup : Ipv4Address → M (Option MacAddress)
lookup address = do n ← this; answer (fresh_entry (find address n.arp_cache) n.now) address

-- `DNet::arp_lookup`
abbrev pub arp_lookup : Ipv4Address → M (Option MacAddress)
arp_lookup address = lookup address
