-- ===== src/Layers/Question.antt =====
-- A question to the name server, from the frame that brings it to the frame that answers it.
use dnet_core.Base.{ℕ, ◌+◌, ◌<◌, ◌^◌, ◌≡◌, ◌∙◌, List, length, arith}
use dnet_core.Words.{sub_size}
use dnet_core.Words.Laws.{IsWord32}
use dnet_core.Addr.{MacAddress, Ipv4Address}
use dnet_core.Checksum.Fold.{FoldsOnce}
use dnet_core.Net.{Net, load, dnet_assert}
use dnet_core.L2
use dnet_core.L3.Packet.{Ipv4Protocol, bytes_packet}
use dnet_core.L3.Send.{make_packet}
use dnet_core.L3.Accept.{blank_header}
use dnet_core.Udp
use dnet_core.Udp.{dns_port, verify}
use dnet_core.Udp.Datagram.{bytes_datagram}
use dnet_core.Udp.Send.{make_datagram}
use dnet_core.Layers.Datagrams.{sent_parsed, datagram_reaches}
use dnet_core.Dns
use dnet_core.Dns.{class_in, default_ttl}
use dnet_core.Dns.Serve.{Counts, query_bytes}
use dnet_core.Dns.NameLaws.{AllLabels, labels_of, NoNul}
use dnet_core.Layers.Frames.{ip_frame}

-- A message as `UDP::send` puts it into a datagram to the name server.
abbrev pub datagram : ℕ → List ℕ → List ℕ
datagram src_port message = bytes_datagram (make_datagram message dns_port src_port)

module _ (n : Net) (src dest : Ipv4Address) (src_port : ℕ) (message : List ℕ)
    (src_in : IsWord32 src) (dest_in : IsWord32 dest) (port_in : src_port < 2 ^ 16)
    (short : length message + 28 < 2 ^ 16) where
  udp_taken :
      Udp.on_recv
        (datagram src_port message)
        (length message + 8)
        (record { src_ip = src; dest_ip = dest; protocol = Ipv4Protocol.udp })
        n
      ≡ Dns.on_recv message (length message) src src_port dest dns_port n
  unfolding Udp.on_recv load dnet_assert verify
  udp_taken =
      let parsed =
        sent_parsed n src dest src_port dns_port message src_in dest_in port_in (omega arith)
          short in
      let sized : sub_size (length message + 8) 8 ≡ length message = omega arith in
      ground (arith, parsed, sized)

  -- A datagram to the port of the name server, as `UDP::send` builds it, reaches the name server through
  -- the layers below.
  pub message_reaches :
      (dest_mac src_mac : MacAddress)
      → FoldsOnce (blank_header src dest Ipv4Protocol.udp (datagram src_port message))
      → L2.on_recv
          (ip_frame dest_mac src_mac
            (bytes_packet (make_packet src dest Ipv4Protocol.udp (datagram src_port message))))
          (length message + 42)
          n
        ≡ Dns.on_recv message (length message) src src_port dest dns_port n
  message_reaches dest_mac src_mac once =
      datagram_reaches n src dest src_port dns_port message src_in dest_in port_in (omega arith)
        short dest_mac src_mac once
      ∙ udp_taken

module _ (n : Net) (ids : ℕ × ℕ) (ans : Counts) (flags codes : ℕ) (text rest : List ℕ) (qtype : ℕ)
    (src dest : Ipv4Address) (src_port : ℕ) (query : flags < 2 ^ 7) (known_type : qtype < 2 ^ 16)
    (labels : AllLabels (labels_of text)) (clean : NoNul text) where
  abbrev asked : List ℕ
  asked = query_bytes ids ans flags codes text qtype rest
