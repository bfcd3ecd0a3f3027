-- ===== src/Tests.antt =====
-- Runs of the stack on concrete frames: a host 10.0.0.0/24 behind a TAP device.
mod Sums
mod Rings
mod Links
mod Echoes
mod Conns
mod Streams
mod Names
mod Loops
mod Boots
mod Zone
mod Tables
mod Rounds
mod Services
use dnet_core.Base.{ℕ, List, [], ◌∷◌, ◌++◌, ◌≡◌, refl, Option, none, some, length}
use dnet_core.Addr.{MacAddress, Ipv4Address, Ipv4Subnet}
use dnet_core.Net.{Net}
use dnet_core.Words.{U16Be}
use dnet_core.Dns.Serve.{Counts}
use dnet_core.Driver.{Arrival}

abbrev our_mac : MacAddress
our_mac = record { b0 = 0x11; b1 = 0x45; b2 = 0x14; b3 = 0x19; b4 = 0x19; b5 = 0x81 }

abbrev peer_mac : MacAddress
peer_mac = record { b0 = 2; b1 = 0; b2 = 0; b3 = 0; b4 = 0; b5 = 9 }

abbrev addr : ℕ → ℕ → ℕ → ℕ → Ipv4Address
addr a b c d = record { b0 = a; b1 = b; b2 = c; b3 = d }

abbrev zero16 : U16Be
zero16 = record { b0 = 0; b1 = 0 }

-- The counts of a plain query, and of one with an OPT record behind the question.
abbrev plain : Counts
plain = record { answers = zero16; authority = zero16; additional = zero16 }

abbrev edns : Counts
edns = record plain { additional = record { b0 = 0; b1 = 1 } }

abbrev opt : List ℕ
opt = 0 ∷ 0 ∷ 41 ∷ 4 ∷ 208 ∷ 0 ∷ 0 ∷ 0 ∷ 0 ∷ 0 ∷ 0 ∷ []

-- An address of the subnet, and one outside it.
abbrev us : Ipv4Address
us = addr 10 0 0 5

abbrev guest : Ipv4Address
guest = addr 10 0 1 2

abbrev start : Net
start = record {
  mac = our_mac;
  tap_mac = peer_mac;
  subnet = record { network = addr 10 0 0 0; mask = addr 255 255 255 0 };
  dns_records = [];
  now = 1000;
  rand = 77;
  arp_cache = [];
  connections = [];
  sent = [];
}

-- The Ethernet header of a frame from `peer_mac` to `our_mac`.
abbrev framed : ℕ → List ℕ → List ℕ
framed type payload =
    0x11 ∷ 0x45 ∷ 0x14 ∷ 0x19 ∷ 0x19 ∷ 0x81 ∷ 2 ∷ 0 ∷ 0 ∷ 0 ∷ 0 ∷ 9 ∷ 8 ∷ type ∷ payload

abbrev arrives : List ℕ → Arrival
arrives frame = record { memory = frame; size = length frame; now = 1000; rand = 77 }

-- Who has 10.0.0.5? Tell 10.0.0.9.
abbrev arp_question : List ℕ
arp_question =
    0 ∷ 1 ∷ 8 ∷ 0 ∷ 6 ∷ 4 ∷ 0 ∷ 1 ∷ 2 ∷ 0 ∷ 0 ∷ 0 ∷ 0 ∷ 9 ∷ 10 ∷ 0 ∷ 0 ∷ 9 ∷ 0 ∷ 0 ∷ 0 ∷ 0 ∷ 0 ∷ 0
    ∷ 10 ∷ 0 ∷ 0 ∷ 5 ∷ []

-- An echo request with the data "abc".
abbrev ping : List ℕ
ping = 8 ∷ 0 ∷ 51 ∷ 154 ∷ 0 ∷ 1 ∷ 0 ∷ 2 ∷ 97 ∷ 98 ∷ 99 ∷ []

abbrev ping_header : List ℕ
ping_header =
    69 ∷ 0 ∷ 0 ∷ 31 ∷ 0 ∷ 0 ∷ 0 ∷ 0 ∷ 64 ∷ 1 ∷ 101 ∷ 216 ∷ 10 ∷ 0 ∷ 1 ∷ 2 ∷ 10 ∷ 0 ∷ 0 ∷ 5 ∷ []
