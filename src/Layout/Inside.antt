-- ===== src/Layout/Inside.antt =====
-- The packed structs at a pointer: a header is read whenever the object is as long as the header, and
-- the pointer behind it has the rest.
use dnet_core.Base.{ℕ, ◌+◌, ◌≤◌, ◌≡◌, refl, List, [], ◌∷◌, Option, some, arith, length}
use dnet_core.Memory.{◌>>=◌, field8, field16, field32, field_addr, field_mac}
use dnet_core.L2.Send.{EthernetFrame, to_frame}
use dnet_core.Arp.Payload.{ArpPayload, to_payload}
use dnet_core.L3.Packet.{Ipv4Packet, to_packet}
use dnet_core.Icmp.Datagram as Icmp
use dnet_core.Udp.Datagram as Udp
use dnet_core.Tcp.Segment.{TcpSegment, to_segment}
use dnet_core.Dns.Header.{DnsHeader, to_header}

-- The pointer `p` into an object of `total` bytes, `before` of them passed and `left` still to read.
record Cut (total before left : ℕ) (p : List ℕ) : Type 0 where
  enough : left ≤ length p
  place : total ≡ length p + before

start : (k : ℕ) {p : List ℕ} → k ≤ length p → Cut (length p) 0 k p
start k h = record { enough = h; place = omega arith }

-- A field is read there, and the pointer behind it has passed its bytes.
abbrev Reads : {A : Type 0} → (List ℕ → Option (A × List ℕ)) → ℕ → List ℕ → ℕ → ℕ → ℕ → Type 0
Reads {A} field width p before left total =
    (v : A) × (q : List ℕ) × (field p ≡ some (v, q)) × Cut total (before + width) left q

field8-Reads :
    (p : List ℕ) (before left : ℕ) {total : ℕ}
    → Cut total before (1 + left) p
    → Reads field8 1 p before left total
field8-Reads [] m k h = absurd (omega (arith, h.enough))
field8-Reads (a ∷ p) m k h =
    (_, p, refl, record { enough = omega (arith, h.enough); place = omega (arith, h.place) })

field16-Reads :
    (p : List ℕ) (before left : ℕ) {total : ℕ}
    → Cut total before (2 + left) p
    → Reads field16 2 p before left total
field16-Reads [] m k h = absurd (omega (arith, h.enough))
field16-Reads (a ∷ []) m k h = absurd (omega (arith, h.enough))
field16-Reads (a ∷ b ∷ p) m k h =
    (_, p, refl, record { enough = omega (arith, h.enough); place = omega (arith, h.place) })

field_addr-Reads :
    (p : List ℕ) (before left : ℕ) {total : ℕ}
    → Cut total before (4 + left) p
    → Reads field_addr 4 p before left total
field_addr-Reads [] m k h = absurd (omega (arith, h.enough))
field_addr-Reads (a ∷ []) m k h = absurd (omega (arith, h.enough))
field_addr-Reads (a ∷ b ∷ []) m k h = absurd (omega (arith, h.enough))
field_addr-Reads (a ∷ b ∷ c ∷ []) m k h = absurd (omega (arith, h.enough))
field_addr-Reads (a ∷ b ∷ c ∷ d ∷ p) m k h =
    (_, p, refl, record { enough = omega (arith, h.enough); place = omega (arith, h.place) })

field32-Reads :
    (p : List ℕ) (before left : ℕ) {total : ℕ}
    → Cut total before (4 + left) p
    → Reads field32 4 p before left total
field32-Reads [] m k h = absurd (omega (arith, h.enough))
field32-Reads (a ∷ []) m k h = absurd (omega (arith, h.enough))
field32-Reads (a ∷ b ∷ []) m k h = absurd (omega (arith, h.enough))
field32-Reads (a ∷ b ∷ c ∷ []) m k h = absurd (omega (arith, h.enough))
field32-Reads (a ∷ b ∷ c ∷ d ∷ p) m k h =
    (_, p, refl, record { enough = omega (arith, h.enough); place = omega (arith, h.place) })

field_mac-Reads :
    (p : List ℕ) (before left : ℕ) {total : ℕ}
    → Cut total before (6 + left) p
    → Reads field_mac 6 p before left total
field_mac-Reads [] m k h = absurd (omega (arith, h.enough))
field_mac-Reads (a ∷ []) m k h = absurd (omega (arith, h.enough))
field_mac-Reads (a ∷ b ∷ []) m k h = absurd (omega (arith, h.enough))
field_mac-Reads (a ∷ b ∷ c ∷ []) m k h = absurd (omega (arith, h.enough))
field_mac-Reads (a ∷ b ∷ c ∷ d ∷ []) m k h = absurd (omega (arith, h.enough))
field_mac-Reads (a ∷ b ∷ c ∷ d ∷ e ∷ []) m k h = absurd (omega (arith, h.enough))
field_mac-Reads (a ∷ b ∷ c ∷ d ∷ e ∷ f ∷ p) m k h =
    (_, p, refl, record { enough = omega (arith, h.enough); place = omega (arith, h.place) })

-- What is done with the field that is there.
then :
    {A B : Type 0} {o : Option A} {a : A} (f : A → Option B) {P : B → Type 0}
    → o ≡ some a
    → (b : B) × (f a ≡ some b) × P b
    → (b : B) × ((o >>= f) ≡ some b) × P b
then f e (b, e', h) = (b, rw (e, e'), h)

pub to_frame-inside :
    (buf : List ℕ)
    → 14 ≤ length buf
    → (x : EthernetFrame) × (to_frame buf ≡ some x) × (length buf ≡ length x.payload + 14)
unfolding to_frame
to_frame-inside buf h =
    let (_, p0, e0, c0) = field_mac-Reads buf 0 8 (start 14 h) in
    let (_, p1, e1, c1) = field_mac-Reads p0 6 2 c0 in
    let (_, p2, e2, c2) = field16-Reads p1 12 0 c1 in
    then _ e0 (then _ e1 (then _ e2 (_, refl, c2.place)))

pub to_payload-inside :
    (buf : List ℕ) → 28 ≤ length buf → (x : ArpPayload) × (to_payload buf ≡ some x) × Unit {0}
unfolding to_payload
to_payload-inside buf h =
    let (_, p0, e0, c0) = field16-Reads buf 0 26 (start 28 h) in
    let (_, p1, e1, c1) = field16-Reads p0 2 24 c0 in
    let (_, p2, e2, c2) = field8-Reads p1 4 23 c1 in
    let (_, p3, e3, c3) = field8-Reads p2 5 22 c2 in
    let (_, p4, e4, c4) = field16-Reads p3 6 20 c3 in
    let (_, p5, e5, c5) = field_mac-Reads p4 8 14 c4 in
    let (_, p6, e6, c6) = field_addr-Reads p5 14 10 c5 in
    let (_, p7, e7, c7) = field_mac-Reads p6 18 4 c6 in
    let (_, p8, e8, c8) = field_addr-Reads p7 24 0 c7 in
    then _ e0 (
      then _ e1 (
        then _ e2
          (then _ e3 (then _ e4 (then _ e5 (then _ e6 (then _ e7 (then _ e8 (_, refl, tt)))))))))

pub to_packet-inside :
    (buf : List ℕ)
    → 20 ≤ length buf
    → (x : Ipv4Packet) × (to_packet buf ≡ some x) × (length buf ≡ length x.payload + 20)
unfolding to_packet
to_packet-inside buf h =
    let (_, p0, e0, c0) = field8-Reads buf 0 19 (start 20 h) in
    let (_, p1, e1, c1) = field8-Reads p0 1 18 c0 in
    let (_, p2, e2, c2) = field16-Reads p1 2 16 c1 in
    let (_, p3, e3, c3) = field16-Reads p2 4 14 c2 in
    let (_, p4, e4, c4) = field8-Reads p3 6 13 c3 in
    let (_, p5, e5, c5) = field8-Reads p4 7 12 c4 in
    let (_, p6, e6, c6) = field8-Reads p5 8 11 c5 in
    let (_, p7, e7, c7) = field8-Reads p6 9 10 c6 in
    let (_, p8, e8, c8) = field16-Reads p7 10 8 c7 in
    let (_, p9, e9, c9) = field_addr-Reads p8 12 4 c8 in
    let (_, p10, e10, c10) = field_addr-Reads p9 16 0 c9 in
    then _ e0 (
      then _ e1 (
        then _ e2 (
          then _ e3 (
            then _ e4 (
              then _ e5 (
                then _ e6
                  (then _ e7 (then _ e8 (then _ e9 (then _ e10 (_, refl, c10.place)))))))))))

pub to_segment-inside :
    (buf : List ℕ) → 20 ≤ length buf → (x : TcpSegment) × (to_segment buf ≡ some x) × Unit {0}
unfolding to_segment
to_segment-inside buf h =
    let (_, p0, e0, c0) = field16-Reads buf 0 18 (start 20 h) in
    let (_, p1, e1, c1) = field16-Reads p0 2 16 c0 in
    let (_, p2, e2, c2) = field32-Reads p1 4 12 c1 in
    let (_, p3, e3, c3) = field32-Reads p2 8 8 c2 in
    let (_, p4, e4, c4) = field8-Reads p3 12 7 c3 in
    let (_, p5, e5, c5) = field8-Reads p4 13 6 c4 in
    let (_, p6, e6, c6) = field16-Reads p5 14 4 c5 in
    let (_, p7, e7, c7) = field16-Reads p6 16 2 c6 in
    let (_, p8, e8, c8) = field16-Reads p7 18 0 c7 in
    then _ e0 (
      then _ e1 (
        then _ e2
          (then _ e3 (then _ e4 (then _ e5 (then _ e6 (then _ e7 (then _ e8 (_, refl, tt)))))))))

pub to_header-inside :
    (buf : List ℕ)
    → 12 ≤ length buf
    → (x : DnsHeader) × (to_header buf ≡ some x) × (length buf ≡ length x.payload + 12)
unfolding to_header
to_header-inside buf h =
    let (_, p0, e0, c0) = field16-Reads buf 0 10 (start 12 h) in
    let (_, p1, e1, c1) = field8-Reads p0 2 9 c0 in
    let (_, p2, e2, c2) = field8-Reads p1 3 8 c1 in
    let (_, p3, e3, c3) = field16-Reads p2 4 6 c2 in
    let (_, p4, e4, c4) = field16-Reads p3 6 4 c3 in
    let (_, p5, e5, c5) = field16-Reads p4 8 2 c4 in
    let (_, p6, e6, c6) = field16-Reads p5 10 0 c5 in
    then _ e0
      (then _ e1 (then _ e2 (then _ e3 (then _ e4 (then _ e5 (then _ e6 (_, refl, c6.place)))))))

pub icmp_datagram-inside :
    (buf : List ℕ)
    → 8 ≤ length buf
    → (x : Icmp.IcmpDatagram) × (Icmp.to_datagram buf ≡ some x)
      × (length buf ≡ length x.payload + 8)
unfolding Icmp.to_datagram
icmp_datagram-inside buf h =
    let (_, p0, e0, c0) = field8-Reads buf 0 7 (start 8 h) in
    let (_, p1, e1, c1) = field8-Reads p0 1 6 c0 in
    let (_, p2, e2, c2) = field16-Reads p1 2 4 c1 in
    let (_, p3, e3, c3) = field_addr-Reads p2 4 0 c2 in
    then _ e0 (then _ e1 (then _ e2 (then _ e3 (_, refl, c3.place))))

pub udp_datagram-inside :
    (buf : List ℕ)
    → 8 ≤ length buf
    → (x : Udp.UdpDatagram) × (Udp.to_datagram buf ≡ some x) × (length buf ≡ length x.payload + 8)
unfolding Udp.to_datagram
udp_datagram-inside buf h =
    let (_, p0, e0, c0) = field16-Reads buf 0 6 (start 8 h) in
    let (_, p1, e1, c1) = field16-Reads p0 2 4 c0 in
    let (_, p2, e2, c2) = field16-Reads p1 4 2 c1 in
    let (_, p3, e3, c3) = field16-Reads p2 6 0 c2 in
    then _ e0 (then _ e1 (then _ e2 (then _ e3 (_, refl, c3.place))))
