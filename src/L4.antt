-- ===== src/L4.antt =====
-- layers/L4/L4.cpp: `L4::on_recv`.
pub mod Pseudo
use dnet_core.Base.{ℕ, List, false}
use dnet_core.Net.{Net, M, dnet_assert, unknown_protocol}
use dnet_core.L3.Packet.{Ipv4Protocol, protocol_code, L3Context}
use dnet_core.Words.{u8}
use dnet_core.Udp
use dnet_core.Tcp

-- The switch of `on_recv`.
unfoldable pub dispatch : Ipv4Protocol → List ℕ → ℕ → L3Context → M (Unit {0})
dispatch Ipv4Protocol.udp buf size ctx = Udp.on_recv buf size ctx
dispatch Ipv4Protocol.tcp buf size ctx = Tcp.on_recv buf size ctx
dispatch p buf size ctx = dnet_assert false (unknown_protocol (u8 (protocol_code p)))

unfoldable pub on_recv : List ℕ → ℕ → L3Context → M (Unit {0})
on_recv buf size ctx = dispatch ctx.protocol buf size ctx

-- `DNet::L4_on_recv`
abbrev pub l4_on_recv : List ℕ → ℕ → L3Context → M (Unit {0})
l4_on_recv buf size ctx = on_recv buf size ctx
