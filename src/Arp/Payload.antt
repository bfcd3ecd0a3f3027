-- ===== src/Arp/Payload.antt =====
-- layers/L2/arp/ARP.h: `ArpPayload` in memory.
use dnet_core.Base.{ℕ, List, ◌∷◌, ◌++◌, Option, some}
use dnet_core.Words.{be16, bytes16, bytes32}
use dnet_core.Addr.{MacAddress, bytes_mac, Ipv4Address}
use dnet_core.Memory.{◌>>=◌, field8, field16, field_mac, field_addr}

pub record ArpPayload : Type 0 where
  pub htype : ℕ
  pub ptype : ℕ
  pub hlen : ℕ
  pub plen : ℕ
  pub opcode : ℕ
  pub sender_mac : MacAddress
  pub sender_ip : Ipv4Address
  pub target_mac : MacAddress
  pub target_ip : Ipv4Address

-- `sizeof(ArpPayload)`
abbrev pub sizeof_arp_payload : ℕ
sizeof_arp_payload = 28

unfoldable pub to_payload : List ℕ → Option ArpPayload
to_payload p = do
  (htype, p) ← field16 p
  (ptype, p) ← field16 p
  (hlen, p) ← field8 p
  (plen, p) ← field8 p
  (opcode, p) ← field16 p
  (sender_mac, p) ← field_mac p
  (sender_ip, p) ← field_addr p
  (target_mac, p) ← field_mac p
  (target_ip, p) ← field_addr p
  some (record {
    htype = htype;
    ptype = ptype;
    hlen = hlen;
    plen = plen;
    opcode = opcode;
    sender_mac = sender_mac;
    sender_ip = sender_ip;
    target_mac = target_mac;
    target_ip = target_ip;
  })

abbrev pub bytes_payload : ArpPayload → List ℕ
bytes_payload a =
    bytes16 (be16 a.htype)
    ++ (bytes16 (be16 a.ptype)
        ++ (a.hlen
            ∷ a.plen
            ∷ (bytes16 (be16 a.opcode)
                ++ (bytes_mac a.sender_mac
                    ++ (bytes32 a.sender_ip ++ (bytes_mac a.target_mac ++ bytes32 a.target_ip))))))
