-- ===== src/Sound/Loop.antt =====
-- The listening loop over well-formed frames: it handles all of them.
use dnet_core.Base.{
  ℕ, ◌≤◌, ◌≡◌, refl, sym, ◌∙◌, subst, ap, List, [], ◌∷◌, some, length, length-map, drop, map, arith,
}
use dnet_core.Words.{bytes32}
use dnet_core.Words.Laws.{IsWord32}
use dnet_core.Addr.{MacAddress, Ipv4Address}
use dnet_core.Addr.Text.{parsed, parse_ipv4, parse_mac, ipv4_text}
use dnet_core.Net.{Net, Outcome, ok, thrown, fault}
use dnet_core.Net.Ends.{Ends}
use dnet_core.Tcp.Invariant.{ConnsOk}
use dnet_core.L2
use dnet_core.Dns.{Records}
use dnet_core.Dns.Table.{registered}
use dnet_core.Driver.{Arrival, caught, receive, do_listen}
use dnet_core.Driver.Read.{Received, failed, received, read, Round, arrival, listen}
use dnet_core.Driver.Runs.{receive-Advances, Runs, do_listen-Runs}
use dnet_core.Driver.Device.{Device}
use dnet_core.Os.{Kernel, Trace}
use dnet_core.Boot.{started, Config, construct}
use dnet_core.Boot.Laws.{construct-Started}
use dnet_core.Boot.Serve.{NoneFails, construct_total}
use dnet_core.Sound.Received.{Frame-append}
use dnet_core.Sound.Frames.{Frame, frame_ends}

-- Rounds that each bring a well-formed frame, for a stack with these DNS records.
abbrev pub AllFrames : Records → List Arrival → Type 0
AllFrames rs [] = Unit {0}
AllFrames rs (a ∷ as') = Frame rs a.memory a.size × AllFrames rs as'

caught-Ends : (o : Outcome (Unit {0})) → Ends o → (n : Net) × (caught o ≡ some n)
unfolding caught Ends
caught-Ends (ok a n) h = (n, refl)
caught-Ends (thrown e n) h = (n, refl)
caught-Ends fault h = absurd h

pub receive_ends :
    (n : Net) (a : Arrival)
    → Frame n.dns_records a.memory a.size
    → (n' : Net) × (receive n a ≡ some n')
unfolding receive
receive_ends n a f =
    caught-Ends (L2.on_recv a.memory a.size (record n { now = a.now; rand = a.rand }))
      (frame_ends (record n { now = a.now; rand = a.rand }) a.memory a.size f)

pub do_listen-cons :
    (n : Net) (a : Arrival) (as' : List Arrival) {m : Net}
    → receive n a ≡ some m
    → do_listen n (a ∷ as') ≡ do_listen m as'
unfolding do_listen
do_listen-cons n a as' r = ground arith

goes_on :
    (n : Net) (as' : List Arrival)
    → ConnsOk n.connections
    → AllFrames n.dns_records as'
    → (n' : Net) × (do_listen n as' ≡ some n')
unfolding do_listen
goes_on n [] inv all = (n, refl)
goes_on n (a ∷ as') inv (f, all) =
    let (m, r) = receive_ends n a f in
    let step = receive-Advances n a inv r in
    let (n', e) =
      goes_on m as' step.conns (subst (λ rs. AllFrames rs as') (sym step.records_kept) all) in
    (n', do_listen-cons n a as' r ∙ e)

-- A round whose `read` succeeds, with no more bytes than the array has room for, which are a well-formed
-- frame by themselves.
abbrev pub Brings : Records → Round → Type 0
Brings rs r = elim r.answer [
  | failed ↦ ⊥
  | received bytes ↦ (length bytes ≤ length r.array) × Frame rs bytes (length bytes)
]

abbrev pub AllBring : Records → List Round → Type 0
AllBring rs [] = Unit {0}
AllBring rs (r ∷ rounds) = Brings rs r × AllBring rs rounds

read-Frame :
    (rs : Records) (answer : Received) (array : List ℕ) (now rand : ℕ)
    → Brings rs (record { array = array; answer = answer; now = now; rand = rand })
    → Frame rs (read answer array).0 (read answer array).1
unfolding read
read-Frame rs failed array now rand h = absurd h
read-Frame rs (received bytes) array now rand h = Frame-append bytes (drop (length bytes) array) h.1

arrivals-AllFrames :
    (rs : Records) (rounds : List Round) → AllBring rs rounds → AllFrames rs (map arrival rounds)
unfolding arrival
arrivals-AllFrames rs [] h = tt
arrivals-AllFrames rs (r ∷ rounds) h =
    (read-Frame rs r.answer r.array r.now r.rand h.0, arrivals-AllFrames rs rounds h.1)

-- From a table of connections in order, over any number of rounds that each receive a well-formed frame,
-- the loop handles every frame to an end, answered, ignored or refused with an exception: no access
-- leaves a buffer, whatever the array holds behind a frame. The addresses and records stay, the
-- connections are in order at the end, and no more frames have been sent than were received.
pub listen_total :
    (n : Net) (rounds : List Round)
    → ConnsOk n.connections
    → AllBring n.dns_records rounds
    → (n' : Net) × (listen n rounds ≡ some n') × Runs n n' (length rounds)
unfolding listen
listen_total n rounds inv all =
    let (n', e) =
      goes_on n (map arrival rounds) inv (arrivals-AllFrames n.dns_records rounds all) in
    (
      n',
      e,
      subst (Runs n n') (length-map rounds arrival) (do_listen-Runs n (map arrival rounds) inv e),
    )

-- With three texts that `parse_string` accepts, on a system on which every call succeeds and whose
-- `inet_addr` reads dotted quads, the constructor ends with a stack whose loop handles any number of
-- rounds to an end, when each of them receives a frame that is well formed for the records of
-- `register_dns_records`; and it has sent no more frames than it received.
pub construct-listen :
    (k : Kernel) (c : Config) (t : Trace) (rounds : List Round) {mac : MacAddress}
    {network mask : Ipv4Address}
    → parse_mac c.mac ≡ parsed mac
    → parse_ipv4 c.dest_ip ≡ parsed network
    → parse_ipv4 c.gen_mask ≡ parsed mask
    → NoneFails k
    → ((a : Ipv4Address) → IsWord32 a → k.inet_addr (ipv4_text a) ≡ bytes32 a)
    → AllBring registered rounds
    → (n n' : Net) × (d : Device) × ((construct k c t).0 ≡ started n d)
      × (listen n rounds ≡ some n')
      × (length n'.sent ≤ length rounds)
construct-listen k c t rounds x y z all quads frames =
    let (n, d, e) = construct_total k c t x y z all in
    let s = construct-Started k c t quads e in
    let (n', handled, runs) =
      listen_total n rounds (subst ConnsOk (sym s.nothing_known.1) tt)
        (subst (λ rs. AllBring rs rounds) (sym s.records) frames) in
    (n, n', d, e, handled, omega (arith, runs.no_amplification, ap length s.nothing_sent))
