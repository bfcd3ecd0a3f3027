-- ===== src/Boot/Laws.antt =====
-- What a `DNet` that was constructed is like.
use dnet_core.Base.{
  ℕ, ◌≡◌, inl, inr, refl, sym, ◌∙◌, ap, Bool, true, Bool-cases, List, [], ◌∷◌, some, arith,
}
use dnet_core.Words.{bytes32}
use dnet_core.Words.Laws.{IsWord32}
use dnet_core.Addr.{MacAddress, Ipv4Address}
use dnet_core.Addr.Text.{parsed, Parsed-cases, parse_ipv4, parse_mac, ipv4_text}
use dnet_core.Addr.TextLaws.{parse_ipv4-IsWord32}
use dnet_core.Dns.Table.{registered, register_dns_records_lem}
use dnet_core.Net.{Net}
use dnet_core.Os.{Kernel, Call, Answer-cases, Trace, still_open}
use dnet_core.Driver.Device.{
  Device, new_device, init_dev, add_route, set_route, rtf_up, start_listen, Thread,
}
use dnet_core.Driver.Device.Descriptors.{add_route-still_open, init_dev-still_open, init_dev-fd}
use dnet_core.Boot.{started, Config, sign_extended, layers, build, open_device, construct}

abbrev pub listening : Device → Device
listening d = record d { has_callback = true; listening = true; thread = Thread.running }

pub build_lem :
    (mac : MacAddress) (network mask : Ipv4Address) (d : Device)
    → build mac network mask d ≡ started (layers mac network mask d registered) (listening d)
unfolding build start_listen
build_lem mac network mask d = rw (register_dns_records_lem, build)

-- The last two calls, after which the socket is closed again.
abbrev pub Routed : Device → List ℕ → List ℕ → Trace → Type 0
Routed d dest mask t =
    (s : ℕ) × (before : Trace) × (t
      ≡ Call.close s ∷ Call.add_rt s d.dev dest mask rtf_up 0 ∷ before)

set_route_lem :
    (k : Kernel) (s : ℕ) (dest mask : List ℕ) (d : Device) (t : Trace)
    → (set_route k s dest mask d t).0 ≡ true
    → (set_route k s dest mask d t).1
      ≡ Call.close s ∷ Call.add_rt s d.dev (k.inet_addr dest) (k.inet_addr mask) rtf_up 0 ∷ t
unfolding set_route
set_route_lem k s dest mask d t e = ground arith

add_route_lem :
    (k : Kernel) (dest mask : List ℕ) (d : Device) (t : Trace)
    → (add_route k dest mask d t).0 ≡ true
    → Routed d (k.inet_addr dest) (k.inet_addr mask) (add_route k dest mask d t).1
unfolding add_route
add_route_lem k dest mask d t e = elim (Answer-cases (k.answer t Call.open_socket)) [
  | inl f ↦ absurd (ground arith)
  | inr (s, x, f) ↦ (
    s,
    Call.open_socket ∷ t,
    ground (arith, set_route_lem k s dest mask d (Call.open_socket ∷ t)),
  )
]

module _ (k : Kernel) (c : Config) (t : Trace) where
  abbrev pub first : (Bool × Device) × Trace
  first = init_dev k (new_device c.ifname (sign_extended c.mtu)) t

  abbrev second : Ipv4Address → Ipv4Address → Bool × Trace
  second network mask = add_route k (ipv4_text network) (ipv4_text mask) first.0.1 first.1

  pub open_device_started :
      (mac : MacAddress) (network mask : Ipv4Address) {n : Net} {d : Device}
      → (open_device k c mac network mask t).0 ≡ started n d
      → (first.0.0 ≡ true)
        × ((second network mask).0 ≡ true)
        × (n ≡ layers mac network mask first.0.1 registered)
        × (d ≡ listening first.0.1)
        × ((open_device k c mac network mask t).1 ≡ (second network mask).1)
  unfolding open_device
  open_device_started mac network mask {n} {d} e = elim (Bool-cases first.0.0) [
    | inr refused ↦ absurd (ground arith)
    | inl ready ↦ elim (Bool-cases (second network mask).0) [
      | inr refused ↦ absurd (ground arith)
      | inl routed ↦
          let b = build_lem mac network mask first.0.1 in
          (ready, routed, ground (arith, b), ground (arith, b), ground arith)
    ]
  ]

  pub construct_opened :
      {n : Net} {d : Device}
      → (construct k c t).0 ≡ started n d
      → (mac : MacAddress) × (network : Ipv4Address) × (mask : Ipv4Address) × (parse_mac c.mac
          ≡ parsed mac)
        × (parse_ipv4 c.dest_ip ≡ parsed network)
        × (parse_ipv4 c.gen_mask ≡ parsed mask)
        × (construct k c t ≡ open_device k c mac network mask t)
  unfolding construct
  construct_opened e = elim (Parsed-cases (parse_mac c.mac)) [
    | inl (inl x) ↦ absurd (ground arith)
    | inl (inr x) ↦ absurd (ground arith)
    | inr (mac, x) ↦ elim (Parsed-cases (parse_ipv4 c.dest_ip)) [
      | inl (inl y) ↦ absurd (ground arith)
      | inl (inr y) ↦ absurd (ground arith)
      | inr (network, y) ↦ elim (Parsed-cases (parse_ipv4 c.gen_mask)) [
        | inl (inl z) ↦ absurd (ground arith)
        | inl (inr z) ↦ absurd (ground arith)
        | inr (mask, z) ↦ (mac, network, mask, x, y, z, rw (x, y, z, construct))
      ]
    ]
  ]

-- A stack that runs: configured as the arguments say, with the registered names and nothing else known
-- or sent, listening, with a route for its subnet and with the TAP device as its one new descriptor.
pub record Started (k : Kernel) (c : Config) (t : Trace) (n : Net) (d : Device) : Type 0 where
  pub mac_parsed : parse_mac c.mac ≡ parsed n.mac
  pub network_parsed : parse_ipv4 c.dest_ip ≡ parsed n.subnet.network
  pub mask_parsed : parse_ipv4 c.gen_mask ≡ parsed n.subnet.mask
  pub tap_mac : n.tap_mac ≡ d.mac
  pub records : n.dns_records ≡ registered
  pub nothing_known : (n.arp_cache ≡ []) × (n.connections ≡ [])
  pub nothing_sent : n.sent ≡ []
  pub listens : (d.listening ≡ true) × (d.thread ≡ Thread.running)
  pub routed : Routed d (bytes32 n.subnet.network) (bytes32 n.subnet.mask) (construct k c t).1
  pub descriptor :
      (fd : ℕ) × (d.fd ≡ some fd) × (still_open k (construct k c t).1 ≡ fd ∷ still_open k t)

-- Whenever the constructor of `DNet` ends normally, on a system whose `inet_addr` reads dotted quads,
-- the stack has the addresses that its arguments say and the records of `register_dns_records`, knows
-- no peer and has sent nothing; its thread listens; the last call but one added a route to its subnet,
-- and the last closed the socket for it; and the descriptor of the TAP device is the only new one.
pub construct-Started :
    (k : Kernel) (c : Config) (t : Trace) {n : Net} {d : Device}
    → ((a : Ipv4Address) → IsWord32 a → k.inet_addr (ipv4_text a) ≡ bytes32 a)
    → (construct k c t).0 ≡ started n d
    → Started k c t n d
construct-Started k c t {n} {d} quads e =
    let (mac, network, mask, x, y, z, same) = construct_opened k c t e in
    let (ready, routed, en, ed, et) =
      open_device_started k c t mac network mask (ap (λ r. r.0) (sym same) ∙ e) in
    let (fd, made, kept_fd) = init_dev-fd k (new_device c.ifname (sign_extended c.mtu)) t ready in
    let ends : (construct k c t).1 ≡ (second k c t network mask).1 = ap (λ r. r.1) same ∙ et in
    let (s, before, calls) =
      add_route_lem k (ipv4_text network) (ipv4_text mask) (first k c t).0.1 (first k c t).1
        routed in
    record {
      mac_parsed = rw en x;
      network_parsed = rw en y;
      mask_parsed = rw en z;
      tap_mac = rw (en, ed);
      records = rw en;
      nothing_known = rw en (refl, refl);
      nothing_sent = rw en;
      listens = rw ed (refl, refl);
      routed =
          rw (en, ed, ends)
            (
              s,
              before,
              rw
                  (
                    ← quads network (parse_ipv4-IsWord32 c.dest_ip y),
                    ← quads mask (parse_ipv4-IsWord32 c.gen_mask z),
                  )
                  calls,
            );
      descriptor = (
        fd,
        rw ed kept_fd,
        rw ends (
            add_route-still_open k (ipv4_text network) (ipv4_text mask) (first k c t).0.1
              (first k c t).1
            ∙ init_dev-still_open k (new_device c.ifname (sign_extended c.mtu)) t
            ∙ rw made),
      );
    }
