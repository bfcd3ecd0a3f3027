-- ===== src/Arp/Cache.antt =====
-- layers/L2/arp/ARP.h: an entry of the ARP cache.
use dnet_core.Base.{ℕ}
use dnet_core.Addr.{MacAddress}

pub record ArpCacheEntry : Type 0 where
  pub address : MacAddress
  pub last_update : ℕ
