-- ===== src/Boot/Serve.antt =====
-- When the constructor of `DNet` succeeds, and what the stack does from then on.
use dnet_core.Base.{
  ℕ, ◌≤◌, ◌≡◌, ◌∙◌, refl, ap, sym, subst, List, [], ◌∷◌, length, some, true, arith,
}
use dnet_core.Addr.{MacAddress, Ipv4Address}
use dnet_core.Addr.Text.{parsed, parse_ipv4, parse_mac, ipv4_text}
use dnet_core.Dns.Table.{registered}
use dnet_core.Net.{Net}
use dnet_core.Os.{Kernel, Call, done, Trace}
use dnet_core.Driver.{Arrival, do_listen}
use dnet_core.Driver.Runs.{Runs, do_listen-Runs}
use dnet_core.Driver.Device.{
  Device, new_device, init_dev, with_tap, set_up, add_route, set_route, rtf_up, tap_flags, up_flags,
  stop_listen, terminated,
}
use dnet_core.Tcp.Invariant.{ConnsOk}
use dnet_core.Boot.{started, Config, sign_extended, layers, open_device, construct}
use dnet_core.Boot.Laws.{listening, build_lem, first, open_device_started, construct_opened}

-- A system on which every call succeeds.
abbrev pub NoneFails : Kernel → Type 0
NoneFails k = (t : Trace) (c : Call) → (n : ℕ) × (s : List ℕ) × (k.answer t c ≡ done n s)

set_up_total :
    (k : Kernel) (s : ℕ) (name : List ℕ) (d : Device) (t : Trace)
    → NoneFails k
    → (set_up k s name d t).0.0 ≡ true
unfolding set_up
set_up_total k s name d t all =
    let t1 = Call.set_flags s name up_flags ∷ t in
    let t2 = Call.get_hwaddr s name ∷ t1 in
    let (m, x, e) = all t (Call.set_flags s name up_flags) in
    let (m', bytes, e') = all t1 (Call.get_hwaddr s name) in
    let (m'', y, e'') = all t2 (Call.set_hwaddr s name bytes) in ground arith

init_dev_total : (k : Kernel) (d : Device) (t : Trace) → NoneFails k → (init_dev k d t).0.0 ≡ true
unfolding init_dev with_tap
init_dev_total k d t all =
    let (fd, x, e) = all t Call.open_tap in
    let t1 = Call.open_tap ∷ t in
    let (m, name, e') = all t1 (Call.tun_set_iff fd d.dev tap_flags) in
    let t2 = Call.tun_set_iff fd d.dev tap_flags ∷ t1 in
    let (s, y, e'') = all t2 Call.open_socket in
    ground (
      arith,
      set_up_total k s name (record d { fd = some fd; dev = name }) (Call.open_socket ∷ t2) all,
    )

add_route_total :
    (k : Kernel) (dest mask : List ℕ) (d : Device) (t : Trace)
    → NoneFails k
    → (add_route k dest mask d t).0 ≡ true
unfolding add_route set_route
add_route_total k dest mask d t all =
    let (s, x, e) = all t Call.open_socket in
    let (m, y, e') =
      all (Call.open_socket ∷ t)
        (Call.add_rt s d.dev (k.inet_addr dest) (k.inet_addr mask) rtf_up 0) in
    ground arith

open_device_total :
    (k : Kernel) (c : Config) (t : Trace) (mac : MacAddress) (network mask : Ipv4Address)
    → NoneFails k
    → (n : Net) × (d : Device) × ((open_device k c mac network mask t).0 ≡ started n d)
unfolding open_device
open_device_total k c t mac network mask all =
    let ready = init_dev_total k (new_device c.ifname (sign_extended c.mtu)) t all in
    let routed =
      add_route_total k (ipv4_text network) (ipv4_text mask) (first k c t).0.1 (first k c t).1
        all in
    (
      layers mac network mask (first k c t).0.1 registered,
      listening (first k c t).0.1,
      ground (arith, build_lem mac network mask (first k c t).0.1),
    )

-- With three texts that `parse_string` accepts, on a system on which every call succeeds, the
-- constructor of `DNet` ends normally with a stack and a device.
pub construct_total :
    (k : Kernel) (c : Config) (t : Trace) {mac : MacAddress} {network mask : Ipv4Address}
    → parse_mac c.mac ≡ parsed mac
    → parse_ipv4 c.dest_ip ≡ parsed network
    → parse_ipv4 c.gen_mask ≡ parsed mask
    → NoneFails k
    → (n : Net) × (d : Device) × ((construct k c t).0 ≡ started n d)
unfolding construct
construct_total k c t {mac} {network} {mask} x y z all =
    rw (x, y, z, construct) (open_device_total k c t mac network mask all)

starts_empty :
    (k : Kernel) (c : Config) (t : Trace) {n : Net} {d : Device}
    → (construct k c t).0 ≡ started n d
    → (n.connections ≡ []) × (n.sent ≡ [])
starts_empty k c t e =
    let (mac, network, mask, x, y, z, same) = construct_opened k c t e in
    let (ready, routed, en, ed, et) =
      open_device_started k c t mac network mask (ap (λ r. r.0) (sym same) ∙ e) in
    (ap (λ m. m.connections) en, ap (λ m. m.sent) en)

-- A stack as the constructor of `DNet` leaves it, over any arrivals and short of undefined behaviour,
-- has its addresses and DNS records unchanged and its connections in order, and has sent at most one
-- frame for each that arrived.
pub construct-Runs :
    (k : Kernel) (c : Config) (t : Trace) {n : Net} {d : Device} (as' : List Arrival) {n' : Net}
    → (construct k c t).0 ≡ started n d
    → do_listen n as' ≡ some n'
    → Runs n n' (length as') × (length n'.sent ≤ length as')
construct-Runs k c t {n} as' e r =
    let (known, unsent) = starts_empty k c t e in
    let runs = do_listen-Runs n as' (subst ConnsOk (sym known) tt) r in
    (runs, omega (arith, runs.no_amplification, ap length unsent))

-- Whenever the constructor of `DNet` ends normally, `stop_listen` on its device ends the program by
-- `std::terminate`: the thread that it deletes has been neither joined nor detached.
pub construct-stop_listen :
    (k : Kernel) (c : Config) (t : Trace) {n : Net} {d : Device}
    → (construct k c t).0 ≡ started n d
    → stop_listen d ≡ terminated
unfolding stop_listen
construct-stop_listen k c t e =
    let (mac, network, mask, x, y, z, same) = construct_opened k c t e in
    let (ready, routed, en, ed, et) =
      open_device_started k c t mac network mask (ap (λ r. r.0) (sym same) ∙ e) in
    rw ed refl
