-- ===== src/L2/Send.antt =====
-- layers/L2/L2.h and L2.cpp: the Ethernet frame, and `L2::send`.
use dnet_core.Base.{ℕ, ◌==◌, if◌then◌else◌, List, ◌++◌, Option, some}
use dnet_core.Words.{u16, be16, bytes16}
use dnet_core.Addr.{MacAddress, bytes_mac}
use dnet_core.Memory.{◌>>=◌, field_mac, field16}
use dnet_core.Net.{M, driver_send}

-- An `enum class` holds any value of its underlying type.
pub data EtherType : Type 0 where
  arp ip : EtherType
  other : ℕ → EtherType

-- `(EtherType) v`, and the number of a value.
unfoldable pub to_ether_type : ℕ → EtherType
to_ether_type v = if v == 0x0806 then arp else if v == 0x0800 then ip else other v

abbrev pub ether_type_code : EtherType → ℕ
ether_type_code arp = 0x0806
ether_type_code ip = 0x0800
ether_type_code (other v) = v

-- `payload` is the pointer to the bytes behind the header.
pub record EthernetFrame : Type 0 where
  pub dest_mac : MacAddress
  pub src_mac : MacAddress
  pub ether_type : ℕ
  pub payload : List ℕ

-- `sizeof(EthernetFrame)`
abbrev pub sizeof_ethernet_frame : ℕ
sizeof_ethernet_frame = 14

-- `(EthernetFrame*) buf`, and the memory of a frame.
unfoldable pub to_frame : List ℕ → Option EthernetFrame
to_frame p = do
  (dest, p) ← field_mac p
  (src, p) ← field_mac p
  (type, p) ← field16 p
  some (record { dest_mac = dest; src_mac = src; ether_type = type; payload = p })

abbrev pub bytes_frame : EthernetFrame → List ℕ
bytes_frame f =
    bytes_mac f.dest_mac ++ (bytes_mac f.src_mac ++ (bytes16 (be16 f.ether_type) ++ f.payload))

-- `L2::send(buf, size, dest, type)`; the list is the `size` bytes at `buf`.
unfoldable pub send : List ℕ → MacAddress → EtherType → M (Unit {0})
send buf dest type n =
    driver_send
      (bytes_frame (record {
        dest_mac = dest;
        src_mac = n.mac;
        ether_type = u16 (ether_type_code type);
        payload = buf;
      }))
      n

-- `DNet::L2_send`
abbrev pub l2_send : List ℕ → MacAddress → EtherType → M (Unit {0})
l2_send buf dest type = send buf dest type
