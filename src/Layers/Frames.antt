-- ===== src/Layers/Frames.antt =====
-- A frame around an IPv4 packet.
use dnet_core.Base.{ℕ, ◌≡◌, List, arith}
use dnet_core.Words.{sub_size}
use dnet_core.Addr.{MacAddress}
use dnet_core.Net.{Net, load}
use dnet_core.L2
use dnet_core.L2.Send.{to_ether_type, bytes_frame}
use dnet_core.L3
use dnet_core.Layout.Links.{to_frame-bytes_frame}

-- The frame with the type of IPv4, between any two hardware addresses.
abbrev pub ip_frame : MacAddress → MacAddress → List ℕ → List ℕ
ip_frame dest_mac src_mac packet =
    bytes_frame
      (record { dest_mac = dest_mac; src_mac = src_mac; ether_type = 0x0800; payload = packet })

pub ip_frame_lem :
    (n : Net) (dest_mac src_mac : MacAddress) (packet : List ℕ) (size : ℕ)
    → L2.on_recv (ip_frame dest_mac src_mac packet) size n ≡ L3.on_recv packet (sub_size size 14) n
unfolding L2.on_recv load L2.dispatch to_ether_type
ip_frame_lem n dest_mac src_mac packet size =
    let parsed =
      to_frame-bytes_frame
        (record { dest_mac = dest_mac; src_mac = src_mac; ether_type = 0x0800; payload = packet })
        (omega arith) in
    ground (arith, parsed)
