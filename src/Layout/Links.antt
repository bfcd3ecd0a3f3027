-- ===== src/Layout/Links.antt =====
-- `EthernetFrame` and `ArpPayload`.
use dnet_core.Base.{ℕ, ◌<◌, ◌^◌, ◌≡◌, List, ◌++◌, some, arith}
use dnet_core.L2.Send.{EthernetFrame, to_frame, bytes_frame}
use dnet_core.Arp.Payload.{ArpPayload, to_payload, bytes_payload}

-- A frame that was written is read back, whatever its addresses and payload.
pub to_frame-bytes_frame :
    (f : EthernetFrame) → f.ether_type < 2 ^ 16 → to_frame (bytes_frame f) ≡ some f
unfolding to_frame
to_frame-bytes_frame f h = ground arith

pub record FitsArp (a : ArpPayload) : Type 0 where
  pub htype_in : a.htype < 2 ^ 16
  pub ptype_in : a.ptype < 2 ^ 16
  pub opcode_in : a.opcode < 2 ^ 16

-- So is an ARP payload, whatever padding follows it.
pub to_payload-bytes_payload :
    (a : ArpPayload) (padding : List ℕ)
    → FitsArp a
    → to_payload (bytes_payload a ++ padding) ≡ some a
unfolding to_payload
to_payload-bytes_payload a padding h = ground arith
