-- ===== src/Sound/Received.antt =====
-- A frame that is well formed in the bytes received is well formed in the array that holds them,
-- whatever the array holds behind.
use dnet_core.Base.{ℕ, ◌≤◌, ap, ◌∙◌, List, ◌++◌, append_assoc, length, length-append, arith}
use dnet_core.Layout.Behind.{
  to_frame-append, to_packet-append, to_segment-append, to_header-append, udp_datagram-append,
}
use dnet_core.L2.Send.{EtherType, to_ether_type}
use dnet_core.L3.Packet.{Ipv4Protocol, to_protocol}
use dnet_core.Dns.{Records}
use dnet_core.Dns.NameLaws.{wire}
use dnet_core.Sound.Questions.{Question}
use dnet_core.Sound.Datagrams.{Message, asks, echoes}
use dnet_core.Sound.Frames.{Body, Packet, Carried, Frame}

longer : (buf more : List ℕ) {size : ℕ} → size ≤ length buf → size ≤ length (buf ++ more)
longer buf more h = omega (arith, length-append buf more)

Question-append :
    {rs : Records} {size : ℕ} (buf more : List ℕ)
    → Question rs buf size
    → Question rs (buf ++ more) size
Question-append buf more q = record {
  labels = q.labels;
  rest = q.rest ++ more;
  header = record q.header { payload = q.header.payload ++ more };
  parsed = to_header-append buf more q.parsed;
  written = ap (λ p. p ++ more) q.written ∙ append_assoc (wire q.labels) q.rest more;
  some_label = q.some_label;
  no_empty = q.no_empty;
  type_class = longer q.rest more q.type_class;
  name_fits = q.name_fits;
  held = q.held;
  long = q.long;
  size_fits = q.size_fits;
  inside = longer buf more q.inside;
  answer_fits = q.answer_fits;
}

Message-append : {size : ℕ} (buf more : List ℕ) → Message buf size → Message (buf ++ more) size
Message-append buf more m = record { long = m.long; inside = longer buf more m.inside }

Body-append :
    (rs : Records) (size : ℕ) (p : Ipv4Protocol) (buf more : List ℕ)
    → Body rs p buf size
    → Body rs p (buf ++ more) size
Body-append rs size Ipv4Protocol.icmp buf more m = Message-append buf more m
Body-append rs size Ipv4Protocol.tcp buf more s = record {
  segment = s.segment;
  parsed = to_segment-append buf more s.parsed;
  whole = s.whole;
  inside = longer buf more s.inside;
}
Body-append rs size Ipv4Protocol.udp buf more (asks d e m small port q) =
    asks _ (udp_datagram-append buf more e) (Message-append buf more m) small port
      (Question-append d.payload more q)
Body-append rs size Ipv4Protocol.udp buf more (echoes d e m port) =
    echoes _ (udp_datagram-append buf more e) (Message-append buf more m) port
Body-append rs size _ buf more h = tt

Packet-append :
    {rs : Records} {size : ℕ} (buf more : List ℕ)
    → Packet rs buf size
    → Packet rs (buf ++ more) size
Packet-append buf more p = record {
  header = record p.header { payload = p.header.payload ++ more };
  parsed = to_packet-append buf more p.parsed;
  long = p.long;
  inside = longer buf more p.inside;
  small = p.small;
  body = Body-append _ _ (to_protocol p.header.protocol) p.header.payload more p.body;
}

Carried-append :
    (rs : Records) (size : ℕ) (type : EtherType) (buf more : List ℕ)
    → Carried rs type buf size
    → Carried rs type (buf ++ more) size
Carried-append rs size EtherType.arp buf more h = longer buf more h
Carried-append rs size EtherType.ip buf more p = Packet-append buf more p
Carried-append rs size (EtherType.other v) buf more h = tt

pub Frame-append :
    {rs : Records} {size : ℕ} (buf more : List ℕ) → Frame rs buf size → Frame rs (buf ++ more) size
Frame-append buf more f = record {
  header = record f.header { payload = f.header.payload ++ more };
  parsed = to_frame-append buf more f.parsed;
  long = f.long;
  small = f.small;
  carried = Carried-append _ _ (to_ether_type f.header.ether_type) f.header.payload more f.carried;
}
