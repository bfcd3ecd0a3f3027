-- ===== src/Sound/Traffic.antt =====
-- Segments of one connection among other traffic, as the loop receives them.
use dnet_core.Base.{
  ◌≡◌, refl, sym, ap, ◌∙◌, subst, List, [], ◌∷◌, ◌++◌, some, arith, Option-cases, inl, inr,
}
use dnet_core.Dict.{find}
use dnet_core.Net.{Net, ok}
use dnet_core.Tcp
use dnet_core.Tcp.Conn.{TcpConnTuple, tuple_key, TcpState, TcpConn}
use dnet_core.Tcp.Invariant.{ConnsOk, find-ConnOk}
use dnet_core.Tcp.Stream.{view, stream_refines}
use dnet_core.Tcp.Runs.{InFlight, deliver_all}
use dnet_core.Dns.{Records}
use dnet_core.Layers.Carried.{Carried, flight, segment_reaches}
use dnet_core.Layers.Elsewhere.{Elsewhere, Elsewhere-on_recv}
use dnet_core.Driver.{Arrival, caught, receive, do_listen}
use dnet_core.Driver.Runs.{caught_lem, receive-Advances}
use dnet_core.Sound.Frames.{Frame}
use dnet_core.Sound.Loop.{do_listen-cons, receive_ends}

-- The clock and `rand()` of a round.
abbrev pub at_round : Net → Arrival → Net
at_round n a = record n { now = a.now; rand = a.rand }

-- What the rest of the traffic needs of a state, for the records `rs`.
pub record Ready (rs : Records) (n : Net) : Type 0 where
  pub table : ConnsOk n.connections
  pub records : n.dns_records ≡ rs

pub Ready-receive :
    (rs : Records) (n : Net) (a : Arrival) {n' : Net}
    → Ready rs n
    → receive n a ≡ some n'
    → Ready rs n'
Ready-receive rs n a r e =
    let step = receive-Advances n a r.table e in
    record { table = step.conns; records = step.records_kept ∙ r.records }

-- A well-formed frame that carries no segment of the connection.
abbrev pub Other : TcpConnTuple → Records → Arrival → Type 0
Other t rs a = Frame rs a.memory a.size × Elsewhere t a.memory

Other-receive :
    (t : TcpConnTuple) (rs : Records) (n : Net) (a : Arrival)
    → Ready rs n
    → Other t rs a
    → (n' : Net) × (receive n a ≡ some n')
      × Ready rs n'
      × (find t n'.connections ≡ find t n.connections)
unfolding receive
Other-receive t rs n a r (frame, other) =
    let (n', e) = receive_ends n a (subst (λ x. Frame x a.memory a.size) (sym r.records) frame) in
    (
      n',
      e,
      Ready-receive rs n a r e,
      caught_lem _ _ (Elsewhere-on_recv t (at_round n a) a.memory a.size other) e,
    )

-- A segment of the connection, by what TCP makes of it.
pub segment_received :
    (n : Net) {t : TcpConnTuple} {a : Arrival} (c : Carried t a) {n' : Net}
    → Tcp.on_recv (flight c).buf (flight c).size (flight c).ctx (at_round n a) ≡ ok tt n'
    → receive n a ≡ some n'
unfolding receive caught
segment_received n {a = a} c e = ap caught (segment_reaches (at_round n a) c ∙ e)

abbrev pub AllOther : TcpConnTuple → Records → List Arrival → Type 0
AllOther t rs [] = Unit {0}
AllOther t rs (a ∷ as') = Other t rs a × AllOther t rs as'

pub AllOther-do_listen :
    (t : TcpConnTuple) (rs : Records) (n : Net) (as' : List Arrival)
    → Ready rs n
    → AllOther t rs as'
    → (n' : Net) × (do_listen n as' ≡ some n')
      × Ready rs n'
      × (find t n'.connections ≡ find t n.connections)
unfolding do_listen
AllOther-do_listen t rs n [] r h = (n, refl, r, refl)
AllOther-do_listen t rs n (a ∷ as') r (h, hs) =
    let (m, e, r', same) = Other-receive t rs n a r h in
    let (n', e', r'', same') = AllOther-do_listen t rs m as' r' hs in
    (n', do_listen-cons n a as' e ∙ e', r'', same' ∙ same)

pub do_listen-append :
    (n : Net) (as' bs : List Arrival) {m : Net}
    → do_listen n as' ≡ some m
    → do_listen n (as' ++ bs) ≡ do_listen m bs
unfolding do_listen
do_listen-append n [] bs e = ap (λ k. do_listen k bs) (ground arith)
do_listen-append n (a ∷ as') bs e = elim (Option-cases (receive n a)) [
  | inl stuck ↦ absurd (ground (arith, e))
  | inr (m, r) ↦
      do_listen-cons n a (as' ++ bs) r
      ∙ do_listen-append m as' bs (sym (do_listen-cons n a as' r) ∙ e)
]

-- The arrivals, with the segments of the connection among them in their order.
pub data Mixed (t : TcpConnTuple) (rs : Records) : List Arrival → List (InFlight t) → Type 0 where
  finished : Mixed t rs [] []
  ours :
      {as' : List Arrival} {ps : List (InFlight t)} (a : Arrival) (c : Carried t a)
      → Mixed t rs as' ps
      → Mixed t rs (a ∷ as') (flight c ∷ ps)
  other :
      {as' : List Arrival} {ps : List (InFlight t)} (a : Arrival)
      → Other t rs a
      → Mixed t rs as' ps
      → Mixed t rs (a ∷ as') ps

pub Mixed-do_listen :
    (t : TcpConnTuple) (rs : Records) (as' : List Arrival) (ps : List (InFlight t)) (n : Net)
    (c : TcpConn)
    → Mixed t rs as' ps
    → Ready rs n
    → find t n.connections ≡ some c
    → c.state ≡ TcpState.established
    → (n' : Net) × (c' : TcpConn) × (do_listen n as' ≡ some n')
      × (find t n'.connections ≡ some c')
      × (view c' ≡ deliver_all (view c) ps)
unfolding do_listen deliver_all
Mixed-do_listen t rs as' ps n c finished r known state = (n, c, refl, known, refl)
Mixed-do_listen t rs as' ps n c (ours {as' = bs} {ps = qs} a s mixed) r known state =
    let p = flight s in
    let (m, c1, handled, known1, moved, state1, ring1) =
      stream_refines (at_round n a) p.buf p.size p.ctx {s = p.segment} {c = c} {payload = p.payload}
        p.parsed (rw p.ours known) state (find-ConnOk t c n.connections r.table known).ring
        p.read in
    let e = segment_received n s handled in
    let (n', c', e', known', moved') =
      Mixed-do_listen t rs bs qs m c1 mixed (Ready-receive rs n a r e) (rw p.ours at known1)
        state1 in
    (n', c', do_listen-cons n a bs e ∙ e', known', moved' ∙ ap (λ v. deliver_all v qs) moved)
Mixed-do_listen t rs as' ps n c (other {as' = bs} a h mixed) r known state =
    let (m, e, r', same) = Other-receive t rs n a r h in
    let (n', c', e', known', moved) =
      Mixed-do_listen t rs bs ps m c mixed r' (same ∙ known) state in
    (n', c', do_listen-cons n a bs e ∙ e', known', moved)
