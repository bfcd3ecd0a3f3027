-- ===== src/L2.antt =====
-- layers/L2/L2.cpp: `L2::on_recv`.
pub mod Send
use dnet_core.Base.{ℕ, List, false}
use dnet_core.Words.{sub_size}
use dnet_core.Net.{Net, M, ◌>>=◌, dnet_assert, load, unsupported_ether_type}
use dnet_core.Arp
use dnet_core.L3
use Send.{EtherType, to_ether_type, EthernetFrame, sizeof_ethernet_frame, to_frame}

-- The switch of `on_recv`.
unfoldable pub dispatch : EtherType → EthernetFrame → ℕ → M (Unit {0})
dispatch EtherType.arp f size = Arp.on_recv f.payload (sub_size size sizeof_ethernet_frame)
dispatch EtherType.ip f size = L3.l3_on_recv f.payload (sub_size size sizeof_ethernet_frame)
dispatch (EtherType.other v) f size = dnet_assert false (unsupported_ether_type v)

unfoldable pub on_recv : List ℕ → ℕ → M (Unit {0})
on_recv buf size = do f ← load (to_frame buf); dispatch (to_ether_type f.ether_type) f size
