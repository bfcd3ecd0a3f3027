-- ===== src/Layout/Behind.antt =====
-- The packed structs at a pointer: bytes behind those that are read change nothing of a header.
use dnet_core.Base.{ℕ, ◌≡◌, ap, List, [], ◌∷◌, ◌++◌, Option, some, Option-cases, inl, inr, arith}
use dnet_core.Memory.{◌>>=◌, field8, field16, field32, field_addr, field_mac}
use dnet_core.L2.Send.{EthernetFrame, to_frame}
use dnet_core.L3.Packet.{Ipv4Packet, to_packet}
use dnet_core.Udp.Datagram as Udp
use dnet_core.Tcp.Segment.{TcpSegment, to_segment}
use dnet_core.Dns.Header.{DnsHeader, to_header}

-- A field is read as before, and the pointer behind it has the further bytes too.
Stable : {A : Type 0} → (List ℕ → Option (A × List ℕ)) → List ℕ → Type 0
Stable {A} field more =
    (p : List ℕ) (v : A) (q : List ℕ)
    → field p ≡ some (v, q)
    → field (p ++ more) ≡ some (v, q ++ more)

field8-Stable : (more : List ℕ) → Stable field8 more
unfolding Stable
field8-Stable more [] v q h = absurd (ground arith)
field8-Stable more (a ∷ p) v q h = ap (λ o. o >>= λ r. some (r.0, r.1 ++ more)) h

field16-Stable : (more : List ℕ) → Stable field16 more
unfolding Stable
field16-Stable more [] v q h = absurd (ground arith)
field16-Stable more (a ∷ []) v q h = absurd (ground arith)
field16-Stable more (a ∷ b ∷ p) v q h = ap (λ o. o >>= λ r. some (r.0, r.1 ++ more)) h

field_addr-Stable : (more : List ℕ) → Stable field_addr more
unfolding Stable
field_addr-Stable more [] v q h = absurd (ground arith)
field_addr-Stable more (a ∷ []) v q h = absurd (ground arith)
field_addr-Stable more (a ∷ b ∷ []) v q h = absurd (ground arith)
field_addr-Stable more (a ∷ b ∷ c ∷ []) v q h = absurd (ground arith)
field_addr-Stable more (a ∷ b ∷ c ∷ d ∷ p) v q h = ap (λ o. o >>= λ r. some (r.0, r.1 ++ more)) h

field32-Stable : (more : List ℕ) → Stable field32 more
unfolding Stable
field32-Stable more [] v q h = absurd (ground arith)
field32-Stable more (a ∷ []) v q h = absurd (ground arith)
field32-Stable more (a ∷ b ∷ []) v q h = absurd (ground arith)
field32-Stable more (a ∷ b ∷ c ∷ []) v q h = absurd (ground arith)
field32-Stable more (a ∷ b ∷ c ∷ d ∷ p) v q h = ap (λ o. o >>= λ r. some (r.0, r.1 ++ more)) h

field_mac-Stable : (more : List ℕ) → Stable field_mac more
unfolding Stable
field_mac-Stable more [] v q h = absurd (ground arith)
field_mac-Stable more (a ∷ []) v q h = absurd (ground arith)
field_mac-Stable more (a ∷ b ∷ []) v q h = absurd (ground arith)
field_mac-Stable more (a ∷ b ∷ c ∷ []) v q h = absurd (ground arith)
field_mac-Stable more (a ∷ b ∷ c ∷ d ∷ []) v q h = absurd (ground arith)
field_mac-Stable more (a ∷ b ∷ c ∷ d ∷ e ∷ []) v q h = absurd (ground arith)
field_mac-Stable more (a ∷ b ∷ c ∷ d ∷ e ∷ f ∷ p) v q h =
    ap (λ o. o >>= λ r. some (r.0, r.1 ++ more)) h

then :
    {A B : Type 0} (field : List ℕ → Option (A × List ℕ)) (more : List ℕ)
    (f : A × List ℕ → Option B) (g : B → B)
    → Stable field more
    → ((v : A) (q : List ℕ) (b : B) → f (v, q) ≡ some b → f (v, q ++ more) ≡ some (g b))
    → (p : List ℕ) (b : B) → (field p >>= f) ≡ some b
    → (field (p ++ more) >>= f) ≡ some (g b)
unfolding Stable
then field more f g stable rest p b e = elim (Option-cases (field p)) [
  | inl out ↦ absurd (ground arith)
  | inr ((v, q), r) ↦ rw (stable p v q r) (rest v q b (ground arith))
]

pub to_frame-append :
    (buf more : List ℕ) {x : EthernetFrame}
    → to_frame buf ≡ some x
    → to_frame (buf ++ more) ≡ some (record x { payload = x.payload ++ more })
unfolding to_frame
to_frame-append buf more {x} =
    let g : EthernetFrame → EthernetFrame = (λ x. record x { payload = x.payload ++ more }) in
    then field_mac more _ g (field_mac-Stable more)
      (λ v. then field_mac more _ g (field_mac-Stable more) (λ v.
        then field16 more _ g (field16-Stable more) (λ v q b e. ap (λ o. o >>= λ x. some (g x)) e)))
      buf x

pub to_packet-append :
    (buf more : List ℕ) {x : Ipv4Packet}
    → to_packet buf ≡ some x
    → to_packet (buf ++ more) ≡ some (record x { payload = x.payload ++ more })
unfolding to_packet
to_packet-append buf more {x} =
    let g : Ipv4Packet → Ipv4Packet = (λ x. record x { payload = x.payload ++ more }) in
    then field8 more _ g (field8-Stable more)
      (λ v. then field8 more _ g (field8-Stable more) (λ v.
        then field16 more _ g (field16-Stable more) (λ v.
          then field16 more _ g (field16-Stable more) (λ v.
            then field8 more _ g (field8-Stable more) (λ v.
              then field8 more _ g (field8-Stable more) (λ v.
                then field8 more _ g (field8-Stable more) (λ v.
                  then field8 more _ g (field8-Stable more) (λ v.
                    then field16 more _ g (field16-Stable more) (λ v.
                      then field_addr more _ g (field_addr-Stable more) (λ v.
                        then field_addr more _ g (field_addr-Stable more)
                          (λ v q b e. ap (λ o. o >>= λ x. some (g x)) e)))))))))))
      buf x

pub to_segment-append :
    (buf more : List ℕ) {x : TcpSegment}
    → to_segment buf ≡ some x
    → to_segment (buf ++ more) ≡ some (x)
unfolding to_segment
to_segment-append buf more {x} =
    let g : TcpSegment → TcpSegment = (λ x. x) in
    then field16 more _ g (field16-Stable more)
      (λ v. then field16 more _ g (field16-Stable more) (λ v.
        then field32 more _ g (field32-Stable more) (λ v.
          then field32 more _ g (field32-Stable more) (λ v.
            then field8 more _ g (field8-Stable more) (λ v.
              then field8 more _ g (field8-Stable more) (λ v.
                then field16 more _ g (field16-Stable more) (λ v.
                  then field16 more _ g (field16-Stable more) (λ v.
                    then field16 more _ g (field16-Stable more)
                      (λ v q b e. ap (λ o. o >>= λ x. some (g x)) e)))))))))
      buf x

pub to_header-append :
    (buf more : List ℕ) {x : DnsHeader}
    → to_header buf ≡ some x
    → to_header (buf ++ more) ≡ some (record x { payload = x.payload ++ more })
unfolding to_header
to_header-append buf more {x} =
    let g : DnsHeader → DnsHeader = (λ x. record x { payload = x.payload ++ more }) in
    then field16 more _ g (field16-Stable more)
      (λ v. then field8 more _ g (field8-Stable more) (λ v.
        then field8 more _ g (field8-Stable more) (λ v.
          then field16 more _ g (field16-Stable more) (λ v.
            then field16 more _ g (field16-Stable more) (λ v.
              then field16 more _ g (field16-Stable more) (λ v.
                then field16 more _ g (field16-Stable more)
                  (λ v q b e. ap (λ o. o >>= λ x. some (g x)) e)))))))
      buf x

pub udp_datagram-append :
    (buf more : List ℕ) {x : Udp.UdpDatagram}
    → Udp.to_datagram buf ≡ some x
    → Udp.to_datagram (buf ++ more) ≡ some (record x { payload = x.payload ++ more })
unfolding Udp.to_datagram
udp_datagram-append buf more {x} =
    let g : Udp.UdpDatagram → Udp.UdpDatagram = (λ x. record x { payload = x.payload ++ more }) in
    then field16 more _ g (field16-Stable more)
      (λ v. then field16 more _ g (field16-Stable more) (λ v.
        then field16 more _ g (field16-Stable more) (λ v.
          then field16 more _ g (field16-Stable more)
            (λ v q b e. ap (λ o. o >>= λ x. some (g x)) e))))
      buf x
