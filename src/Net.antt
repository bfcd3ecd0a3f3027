-- ===== src/Net.antt =====
-- DNet.h and DNet.cpp: the object that the layers share, as the state of a monad. An operation ends
-- normally, throws (`DNET_ASSERT`), or does what C++ leaves undefined, such as an access outside an
-- object. What an operation did before it throws stays done.
pub mod Rules
pub mod Advance
pub mod Ends
use dnet_core.Base.{ℕ, ◌+◌, Bool, true, false, Option, none, some, List, [], ◌∷◌, ◌++◌, arith}
use dnet_core.Addr.{MacAddress, Ipv4Subnet, Ipv4Address}
use dnet_core.Arp.Cache.{ArpCacheEntry}
use dnet_core.Tcp.Conn.{TcpConnTuple, TcpConn}
use dnet_core.Dns.Record.{RecordKey, RecordValue}

pub record Net : Type 0 where
  -- Set by the constructor.
  pub mac : MacAddress
  pub tap_mac : MacAddress
  pub subnet : Ipv4Subnet
  pub dns_records : List (RecordKey × RecordValue)
  -- What `time(nullptr)` and `rand()` return while one frame is handled, which calls each at most
  -- once.
  pub now : ℕ
  pub rand : ℕ
  -- The tables of `ARP` and `TCP`.
  pub arp_cache : List (Ipv4Address × ArpCacheEntry)
  pub connections : List (TcpConnTuple × TcpConn)
  -- The frames given to `driver::write` so far, oldest first.
  pub sent : List (List ℕ)

-- The assertions of the sources.
pub data Error : Type 0 where
  unsupported_ether_type : ℕ → Error
  arp_size arp_htype arp_ptype arp_hlen arp_plen : Error
  version_mismatch options_unsupported checksum_mismatch : Error
  unknown_icmp_type : Error
  unknown_protocol : ℕ → Error
  length_mismatch : Error
  unexpected_tcp_state missing_tcp_connection : Error
  dns_response dns_qdcount dns_class : Error

pub data Outcome (A : Type 0) : Type 0 where
  ok : A → Net → Outcome A
  thrown : Error → Net → Outcome A
  fault : Outcome A

abbrev pub M : Type 0 → Type 0
M A = Net → Outcome A

abbrev pub pure : {A : Type 0} → A → M A
pure a n = ok a n

infixl 5 ◌>>=◌ ◌>>◌
abbrev pub ◌>>=◌ : {A B : Type 0} → M A → (A → M B) → M B
◌>>=◌ m f n = elim (m n) [ ok a n' ↦ f a n' | thrown e n' ↦ thrown e n' | fault ↦ fault ]

abbrev pub ◌>>◌ : {B : Type 0} → M (Unit {0}) → M B → M B
m >> k = m >>= λ _. k

-- The current state.
abbrev pub this : M Net
this n = ok n n

-- `DNET_ASSERT(expr, …)`.
unfoldable pub dnet_assert : Bool → Error → M (Unit {0})
dnet_assert true e n = ok tt n
dnet_assert false e n = thrown e n

-- A read through a pointer, which is undefined outside the object.
unfoldable pub load : {A : Type 0} → Option A → M A
load none n = fault
load (some a) n = ok a n

-- One more frame on the wire.
abbrev pub emit : List ℕ → Net → Net
emit frame n = record n { sent = n.sent ++ frame ∷ [] }

-- `DNet::driver_send`: one write to the TAP device. What `write(2)` returns no caller reads.
unfoldable pub driver_send : List ℕ → M (Unit {0})
driver_send buf n = ok tt (emit buf n)
