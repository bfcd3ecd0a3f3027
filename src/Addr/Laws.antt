-- ===== src/Addr/Laws.antt =====
-- What the address comparisons decide.
use dnet_core.Base.{◌≡◌, ◌↔◌, true, arith}
use dnet_core.Words.Laws.{IsWord32}
use dnet_core.Addr.{MacAddress, broadcast, is_broadcast, Ipv4Address, addr_beq}

-- On addresses of bytes, `operator==` is equality.
pub addr_beq_iff : (a b : Ipv4Address) → IsWord32 a → IsWord32 b → (addr_beq a b ≡ true) ↔ (a ≡ b)
addr_beq_iff a b ha hb = ground arith

pub is_broadcast_iff : (m : MacAddress) → (is_broadcast m ≡ true) ↔ (m ≡ broadcast)
unfolding is_broadcast
is_broadcast_iff m = ground arith
