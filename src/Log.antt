-- ===== src/Log.antt =====
-- util/util.cpp and util.h, and what `to_string` and `operator<<` of the headers print for the log.
pub mod Laws
use dnet_core.Base.{ℕ, ◌+◌, ◌*◌, List, [], ◌∷◌, ◌++◌}
use dnet_core.Words.{val32}
use dnet_core.Addr.Text.{ipv4_text, mac_text}
use dnet_core.Text.{
  Radix, Ostream, fresh_stream, put, put_number, setw, setfill, set_radix, ◌|>◌, codes,
}
use dnet_core.L2.Send.{EtherType, to_ether_type, EthernetFrame}
use dnet_core.Arp.{ArpOpcode, to_opcode}
use dnet_core.Arp.Payload.{ArpPayload}
use dnet_core.L3.Packet.{Ipv4Protocol, to_protocol, Ipv4Packet}
use dnet_core.Icmp.{IcmpType, to_icmp_type}
use dnet_core.Icmp.Datagram as Icmp
use dnet_core.Udp.Datagram as Udp
use dnet_core.Tcp.Segment.{TcpSegment}
use dnet_core.Tcp.Conn.{TcpConnTuple}
use dnet_core.Dns.Header.{DnsHeader}

-- The loop of `bytes_to_hex_string`.
unfoldable pub put_bytes : List ℕ → Ostream → Ostream
put_bytes [] os = os
put_bytes (b ∷ bytes) os = put_bytes bytes (os |> setw 2 |> put_number b)

abbrev pub bytes_to_hex_string : List ℕ → List ℕ
bytes_to_hex_string bytes =
    (put_bytes bytes (fresh_stream |> set_radix Radix.hex |> setfill b'0')).text

-- `int_to_hex` of a type of `size` bytes, which is a uint16_t wherever it is called.
unfoldable pub int_to_hex : ℕ → ℕ → List ℕ
int_to_hex size i =
    (fresh_stream
      |> put (codes "0x")
      |> setfill b'0'
      |> setw (size * 2)
      |> set_radix Radix.hex
      |> put_number i).text

-- The default case of each `operator<<`.
abbrev pub put_unknown : ℕ → Ostream → Ostream
put_unknown v os = os |> put (codes "Unknown(") |> put_number v |> put (codes ")")

-- The stream stays hexadecimal: the flags that are put back are those of `std::cout`.
abbrev pub put_ether_type : EtherType → Ostream → Ostream
put_ether_type EtherType.arp os = os |> put (codes "ARP")
put_ether_type EtherType.ip os = os |> put (codes "IP")
put_ether_type (EtherType.other v) os = os |> set_radix Radix.hex |> put_unknown v

abbrev pub put_opcode : ArpOpcode → Ostream → Ostream
put_opcode ArpOpcode.arp_request os = os |> put (codes "ARP_REQUEST")
put_opcode ArpOpcode.arp_response os = os |> put (codes "ARP_RESPONSE")
put_opcode (ArpOpcode.other v) os = os |> put_unknown v

abbrev pub put_protocol : Ipv4Protocol → Ostream → Ostream
put_protocol Ipv4Protocol.icmp os = os |> put (codes "ICMP")
put_protocol Ipv4Protocol.igmp os = os |> put (codes "IGMP")
put_protocol Ipv4Protocol.tcp os = os |> put (codes "TCP")
put_protocol Ipv4Protocol.udp os = os |> put (codes "UDP")
put_protocol Ipv4Protocol.encap os = os |> put (codes "ENCAP")
put_protocol Ipv4Protocol.ospf os = os |> put (codes "OSPF")
put_protocol Ipv4Protocol.sctp os = os |> put (codes "SCTP")
put_protocol (Ipv4Protocol.other v) os = os |> put_unknown v

abbrev pub put_icmp_type : IcmpType → Ostream → Ostream
put_icmp_type IcmpType.echo_request os = os |> put (codes "ECHO_REQUEST")
put_icmp_type IcmpType.echo_reply os = os |> put (codes "ECHO_REPLY")
put_icmp_type (IcmpType.other v) os = os |> put_unknown v

unfoldable pub frame_text : EthernetFrame → List ℕ
frame_text f =
    (fresh_stream
      |> put (codes "EthernetFrame [dest_mac=")
      |> put (mac_text f.dest_mac)
      |> put (codes ", src_mac=")
      |> put (mac_text f.src_mac)
      |> put (codes ", ether_type=")
      |> put_ether_type (to_ether_type f.ether_type)
      |> put (codes "]")).text

unfoldable pub payload_text : ArpPayload → List ℕ
payload_text p =
    (fresh_stream
      |> put (codes "ARP Payload [op=")
      |> put_opcode (to_opcode p.opcode)
      |> put (codes ", sender_mac=")
      |> put (mac_text p.sender_mac)
      |> put (codes ", sender_ip=")
      |> put (ipv4_text p.sender_ip)
      |> put (codes ", target_mac=")
      |> put (mac_text p.target_mac)
      |> put (codes ", target_ip=")
      |> put (ipv4_text p.target_ip)
      |> put (codes "]")).text

unfoldable pub packet_text : Ipv4Packet → List ℕ
packet_text p =
    (fresh_stream
      |> put (codes "Ipv4Packet [version=")
      |> put_number p.version
      |> put (codes ", ihl=")
      |> put_number p.ihl
      |> put (codes ", ds_and_ecn=")
      |> set_radix Radix.hex
      |> put_number p.ds
      |> put (codes ", ")
      |> put_number p.ecn
      |> set_radix Radix.dec
      |> put (codes ", total_len=")
      |> put_number p.total_len
      |> put (codes ", identification=")
      |> put_number p.identification
      |> put (codes ", flags_and_fragment_offset=")
      |> set_radix Radix.hex
      |> put_number p.flags
      |> put (codes ", ")
      |> put_number p.fragment_offset
      |> set_radix Radix.dec
      |> put (codes ", ttl=")
      |> put_number p.ttl
      |> put (codes ", protocol=")
      |> put_protocol (to_protocol p.protocol)
      |> put (codes ", header_checksum=")
      |> set_radix Radix.hex
      |> put_number p.header_checksum
      |> set_radix Radix.dec
      |> put (codes ", src_ip=")
      |> put (ipv4_text p.src_ip)
      |> put (codes ", dest_ip=")
      |> put (ipv4_text p.dest_ip)
      |> put (codes "]")).text

-- What follows the checksum is printed in octal.
unfoldable pub icmp_text : Icmp.IcmpDatagram → List ℕ
icmp_text d =
    (fresh_stream
      |> put (codes "ICMPDatagram [type=")
      |> put_icmp_type (to_icmp_type d.type)
      |> put (codes ", code=")
      |> put_number d.code
      |> put (codes ", checksum=")
      |> set_radix Radix.hex
      |> put_number d.checksum
      |> set_radix Radix.oct
      |> put (codes ", rest_of_header=")
      |> put_number (val32 d.rest_of_header)
      |> put (codes "]")).text

unfoldable pub udp_text : Udp.UdpDatagram → List ℕ
udp_text d =
    (fresh_stream
      |> put (codes "UdpDatagram [src_port=")
      |> put_number d.src_port
      |> put (codes ", dest_port=")
      |> put_number d.dest_port
      |> put (codes ", length=")
      |> put_number d.len
      |> put (codes ", checksum=")
      |> put (int_to_hex 2 d.checksum)
      |> put (codes "]")).text

unfoldable pub segment_text : TcpSegment → List ℕ
segment_text s =
    (fresh_stream
      |> put (codes "TcpSegment [src_port=")
      |> put_number s.src_port
      |> put (codes ", dest_port=")
      |> put_number s.dest_port
      |> put (codes ", seq=")
      |> put_number s.seq
      |> put (codes ", ack=")
      |> put_number s.ack
      |> put (codes ", data_offset=")
      |> put_number s.data_offset
      |> put (codes ", flags=")
      |> put_number s.flags
      |> put (codes ", window=")
      |> put_number s.window
      |> put (codes ", checksum=")
      |> put (int_to_hex 2 s.checksum)
      |> put (codes ", urgent_ptr=")
      |> put_number s.urgent_ptr
      |> put (codes "]")).text

unfoldable pub tuple_text : TcpConnTuple → List ℕ
tuple_text t =
    (fresh_stream
      |> put (ipv4_text t.src_ip)
      |> put (codes ":")
      |> put_number t.src_port
      |> put (codes "->")
      |> put (ipv4_text t.dest_ip)
      |> put (codes ":")
      |> put_number t.dest_port).text

-- `DNSHeader::to_string`
unfoldable pub header_text : DnsHeader → List ℕ
header_text h =
    (fresh_stream
      |> put (codes "DNSHeader [id=")
      |> put_number h.id
      |> put (codes ", qr=")
      |> put_number h.qr
      |> put (codes ", opcode=")
      |> put_number h.opcode
      |> put (codes ", aa=")
      |> put_number h.aa
      |> put (codes ", tc=")
      |> put_number h.tc
      |> put (codes ", rd=")
      |> put_number h.rd
      |> put (codes ", ra=")
      |> put_number h.ra
      |> put (codes ", rcode=")
      |> put_number h.rcode
      |> put (codes ", qdcount=")
      |> put_number h.qdcount
      |> put (codes ", ancount=")
      |> put_number h.ancount
      |> put (codes ", nscount=")
      |> put_number h.nscount
      |> put (codes ", arcount=")
      |> put_number h.arcount
      |> put (codes "]")).text
