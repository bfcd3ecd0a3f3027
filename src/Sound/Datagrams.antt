-- ===== src/Sound/Datagrams.antt =====
-- ICMP and UDP datagrams that are handled inside their buffers.
use dnet_core.Base.{
  ℕ, ◌-◌, ◌≤◌, ◌<◌, ◌^◌, ◌≡◌, refl, ◌⊎◌, ◌≢◌, List, some, arith, length, length-set, set, ◌==◌,
  ◌++◌, Bool-cases, inl, inr,
}
use dnet_core.Addr.{Ipv4Address}
use dnet_core.Words.{sub_size}
use dnet_core.Memory.Laws.{read_bytes_inside}
use dnet_core.Net.{Net, M, ok, thrown, ◌>>◌, load, dnet_assert, checksum_mismatch}
use dnet_core.Net.Ends.{Ends, Ends-load, Ends-assert, Ends-if, Ends-then, Ends-refused}
use dnet_core.Layout.Inside.{icmp_datagram-inside, udp_datagram-inside}
use dnet_core.L3.Packet.{L3Context, Ipv4Protocol}
use dnet_core.Icmp
use dnet_core.Icmp.{IcmpType, to_icmp_type}
use dnet_core.Icmp.Datagram.{IcmpDatagram}
use dnet_core.Udp
use dnet_core.Udp.{dns_port, verify, echo, blank_checksum}
use dnet_core.Udp.Datagram.{UdpDatagram, to_datagram}
use dnet_core.Dns
use dnet_core.Checksum.{checksum_16bit_be}
use dnet_core.L4.Pseudo.{bytes_pseudo}
use dnet_core.Dns.{Records}
use dnet_core.Sound.Sizes.{sub_size_lem, Ends-read, Ends-send, Ends-udp_send}
use dnet_core.Sound.Questions.{Question, question_ends}

-- A message of at least its eight bytes of header.
pub record Message (buf : List ℕ) (size : ℕ) : Type 0 where
  pub long : 8 ≤ size
  pub inside : size ≤ length buf

echo_replied :
    (t : IcmpType) (d : IcmpDatagram) (size : ℕ) (src dest : Ipv4Address) (n : Net)
    → sub_size size 8 ≤ length d.payload
    → Ends (Icmp.handle t d size src dest n)
unfolding Icmp.handle Icmp.send Ends dnet_assert
echo_replied IcmpType.echo_reply d size src dest n h = tt
echo_replied IcmpType.echo_request d size src dest n h =
    Ends-read _ d.payload _ n h (λ body. Ends-send _ _ Ipv4Protocol.icmp _ n)
echo_replied (IcmpType.other v) d size src dest n h = tt

-- An ICMP message is answered, ignored or refused.
pub icmp_ends :
    (n : Net) (buf : List ℕ) (size : ℕ) (src dest : Ipv4Address)
    → Message buf size
    → Ends (Icmp.on_recv buf size src dest n)
unfolding Icmp.on_recv
icmp_ends n buf size src dest m =
    let (d, e, l) = icmp_datagram-inside buf (omega (arith, m.long, m.inside)) in
    Ends-load _ d _ n e (
      Ends-read size buf _ n m.inside λ whole. Ends-assert _ _ _ n λ right.
        echo_replied (to_icmp_type d.type) d size src dest n (omega (arith, m.long, m.inside, l)))

-- A datagram to the name server carries a well-formed question.
pub data Datagram (rs : Records) (buf : List ℕ) (size : ℕ) : Type 0 where
  asks :
      (d : UdpDatagram)
      → to_datagram buf ≡ some d
      → Message buf size
      → size < 2 ^ 64
      → d.dest_port ≡ dns_port
      → Question rs d.payload (size - 8)
      → Datagram rs buf size
  echoes :
      (d : UdpDatagram)
      → to_datagram buf ≡ some d
      → Message buf size
      → d.dest_port ≢ dns_port
      → Datagram rs buf size

-- A checksum is absent or right, or the datagram is refused; nothing else happens.
verify_ends :
    (n : Net) (buf : List ℕ) (size : ℕ) (d : UdpDatagram) (ctx : L3Context)
    → size ≤ length buf
    → (verify buf size d ctx n ≡ ok tt n) ⊎ (verify buf size d ctx n ≡ thrown checksum_mismatch n)
unfolding verify load dnet_assert
verify_ends n buf size d ctx inside = elim (Bool-cases (d.checksum == 0)) [
  | inl absent ↦ inl (rw absent)
  | inr present ↦
      let blank = blank_checksum buf in
      let (bytes, e) =
        read_bytes_inside size blank
          (omega (arith, inside, length-set buf 6 0, length-set (set buf 6 0) 7 0)) in
      elim (Bool-cases
        (checksum_16bit_be (bytes_pseudo ctx.src_ip ctx.dest_ip 17 d.len ++ bytes) == d.checksum)) [
          | inl right ↦ inl (rw (present, e, right) refl)
          | inr wrong ↦ inr (rw (present, e, wrong) refl)
        ]
]

verified :
    (n : Net) (buf : List ℕ) (size : ℕ) (d : UdpDatagram) (ctx : L3Context) (k : M (Unit {0}))
    → size ≤ length buf
    → Ends (k n)
    → Ends ((verify buf size d ctx >> k) n)
verified n buf size d ctx k inside h = elim (verify_ends n buf size d ctx inside) [
  | inl taken ↦ Ends-then (verify buf size d ctx) k n taken h
  | inr refused ↦ Ends-refused (verify buf size d ctx) k n refused
]

datagram_ends_at :
    (n : Net) (buf : List ℕ) (size : ℕ) (ctx : L3Context) (d : UdpDatagram)
    → to_datagram buf ≡ some d
    → Message buf size
    → (d.dest_port ≡ dns_port
        → Ends (
            Dns.on_recv d.payload
              (sub_size size 8)
              ctx.src_ip
              d.src_port
              ctx.dest_ip
              d.dest_port
              n))
    → (d.dest_port ≢ dns_port → Ends (echo d size ctx n))
    → Ends (Udp.on_recv buf size ctx n)
unfolding Udp.on_recv
datagram_ends_at n buf size ctx d e m asked other = Ends-load _ d _ n e (
    Ends-assert _ _ _ n λ sized. verified n buf size d ctx _ m.inside (
      Ends-if (d.dest_port == dns_port) _ _ n (λ q. asked (ground arith))
        (λ q. other (ground arith))))

echoed :
    (n : Net) (buf : List ℕ) (size : ℕ) (ctx : L3Context) (d : UdpDatagram)
    → to_datagram buf ≡ some d
    → Message buf size
    → Ends (echo d size ctx n)
unfolding echo
echoed n buf size ctx d e m =
    let (x, e', l) = udp_datagram-inside buf (omega (arith, m.long, m.inside)) in
    let same : x ≡ d = ground arith in
    let l' = rw same at l in
    Ends-read _ d.payload _ n (omega (arith, m.long, m.inside, l'))
      (λ bytes. Ends-udp_send _ _ _ _ _ n)

pub datagram_ends :
    (n : Net) (buf : List ℕ) (size : ℕ) (ctx : L3Context)
    → Datagram n.dns_records buf size
    → Ends (Udp.on_recv buf size ctx n)
datagram_ends n buf size ctx (asks d e m small port q) =
    datagram_ends_at n buf size ctx d e m
      (λ _.
        rw (sub_size_lem size 8 m.long small)
          (question_ends n d.payload (size - 8) ctx.src_ip d.src_port ctx.dest_ip d.dest_port q))
      (λ other. absurd (other port))
datagram_ends n buf size ctx (echoes d e m port) =
    datagram_ends_at n buf size ctx d e m (λ asked. absurd (port asked))
      (λ _. echoed n buf size ctx d e m)
