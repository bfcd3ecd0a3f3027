-- ===== src/Sound/Session.antt =====
-- A TCP connection that the loop serves among other traffic.
use dnet_core.Base.{◌+◌, ◌<◌, ◌≡◌, refl, ap, ◌∙◌, List, ◌∷◌, ◌++◌, none, some, true, length, arith}
use dnet_core.Words.{u32}
use dnet_core.Dict.{find, find-assign_self}
use dnet_core.RingBuffer.{buffer_size}
use dnet_core.RingBuffer.Refine.{contents}
use dnet_core.Net.{Net}
use dnet_core.Tcp.Conn.{TcpConnTuple, tuple_key, TcpState, TcpConn}
use dnet_core.Tcp.Segment.{has_syn, has_ack}
use dnet_core.Tcp.Invariant.{ConnsOk}
use dnet_core.Tcp.Stream.{Stream, view}
use dnet_core.Tcp.Runs.{InFlight, deliver_all-joined, AllConsecutive, joined}
use dnet_core.Tcp.Handshake.{half_open, with_conn, syn_recved_lem}
use dnet_core.Tcp.Session.{syn_handled}
use dnet_core.Dns.{Records}
use dnet_core.Layers.Carried.{Carried, flight}
use dnet_core.Driver.{Arrival, receive, do_listen}
use dnet_core.Sound.Loop.{do_listen-cons}
use dnet_core.Sound.Traffic.{
  at_round, Ready, Ready-receive, AllOther, AllOther-do_listen, segment_received, do_listen-append,
  Mixed, Mixed-do_listen,
}

module _ (t : TcpConnTuple) (rs : Records) {s a : Arrival} (syn : Carried t s)
    (ack : Carried t a) where
  -- The connection once its SYN has come, and once its SYN-ACK is acknowledged.
  abbrev half : TcpConn
  half = half_open t syn.segment.seq s.rand

  abbrev open_conn : TcpConn
  open_conn = record half { state = TcpState.established; snd_una = ack.segment.ack }

  syn_received :
      (n : Net)
      → Ready rs n
      → find t n.connections ≡ none
      → has_syn syn.segment ≡ true
      → (n' : Net) × (receive n s ≡ some n') × Ready rs n' × (find t n'.connections ≡ some half)
  syn_received n r unknown is_syn =
      let e = segment_received n syn (syn_handled t (at_round n s) (flight syn) unknown is_syn) in
      (_, e, Ready-receive rs n s r e, find-assign_self t half n.connections)

  ack_received :
      (n : Net)
      → Ready rs n
      → find t n.connections ≡ some half
      → has_ack ack.segment ≡ true
      → ack.segment.ack ≡ u32 (u32 s.rand + 1)
      → (n' : Net) × (receive n a ≡ some n')
        × Ready rs n'
        × (find t n'.connections ≡ some open_conn)
  ack_received n r known is_ack acknowledges =
      let p = flight ack in
      let step =
        syn_recved_lem (at_round n a) p.buf p.size p.ctx {s = p.segment} p.parsed {c = half}
          (rw p.ours known) refl in
      let step' = rw p.ours at step in
      let e : receive n a ≡ some (with_conn (at_round n a) t open_conn) =
        segment_received n ack (ground (arith, step')) in
      (_, e, Ready-receive rs n a r e, find-assign_self t open_conn n.connections)

-- From a table in order that does not know the connection, through any arrivals that are its SYN, then
-- an ACK of the number after the one that `rand()` gave when the SYN came, then segments that follow
-- each other from the byte behind the SYN and leave a byte of the connection's buffer free together, in
-- frames that IPv4 accepts and with payloads that lie in their memory, and among them at any place any
-- well-formed frames that carry no segment of the connection: the loop handles every one to an end, the
-- connection is in the table, and the application's bytes are the payloads, in order and with none lost.
pub session_served :
    (t : TcpConnTuple) (n : Net) (before between after : List Arrival) {s a : Arrival}
    (syn : Carried t s) (ack : Carried t a) (ps : List (InFlight t))
    → ConnsOk n.connections
    → find t n.connections ≡ none
    → AllOther t n.dns_records before
    → AllOther t n.dns_records between
    → Mixed t n.dns_records after ps
    → has_syn syn.segment ≡ true
    → has_ack ack.segment ≡ true
    → ack.segment.ack ≡ u32 (u32 s.rand + 1)
    → AllConsecutive (u32 (syn.segment.seq + 1)) ps
    → length (joined ps) < buffer_size
    → (n' : Net) × (c : TcpConn) × (do_listen n (before ++ s ∷ (between ++ a ∷ after)) ≡ some n')
      × (find t n'.connections ≡ some c)
      × (contents c.rcvbuf ≡ joined ps)
session_served t n before between after {s} {a} syn ack ps table unknown first then' mixed is_syn
      is_ack acknowledges next room =
    let rs = n.dns_records in
    let (n1, e1, r1, same1) =
      AllOther-do_listen t rs n before (record { table = table; records = refl }) first in
    let (n2, e2, r2, known2) = syn_received t rs syn ack n1 r1 (same1 ∙ unknown) is_syn in
    let (n3, e3, r3, same3) = AllOther-do_listen t rs n2 between r2 then' in
    let (n4, e4, r4, known4) =
      ack_received t rs syn ack n3 r3 (same3 ∙ known2) is_ack acknowledges in
    let c0 = open_conn t rs syn ack in
    let (n', c, e, known, moved) = Mixed-do_listen t rs after ps n4 c0 mixed r4 known4 refl in
    (
      n',
      c,
      do_listen-append n before (s ∷ (between ++ a ∷ after)) e1
          ∙ do_listen-cons n1 s (between ++ a ∷ after) e2
          ∙ do_listen-append n2 between (a ∷ after) e3
          ∙ do_listen-cons n3 a after e4
          ∙ e,
      known,
      ap (λ (v : Stream). v.queue) moved
          ∙ deliver_all-joined ps (view c0) next (omega (arith, room)),
    )
