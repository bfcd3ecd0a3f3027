-- ===== src/Tcp/Interleaved.antt =====
-- Segments of many connections in any order, as one of the connections sees them.
use dnet_core.Base.{ℕ, ◌≡◌, refl, ap, ◌∙◌, subst, List, [], ◌∷◌, some, false}
use dnet_core.Dict.{find}
use dnet_core.RingBuffer.Bounds.{IsValid}
use dnet_core.Net.{Net, Outcome, ok}
use dnet_core.Net.Rules.{After}
use dnet_core.L3.Packet.{L3Context}
use dnet_core.Tcp.Conn.{TcpConnTuple, tuple_key, tuple_beq, TcpState, TcpConn}
use dnet_core.Tcp.Segment.{TcpSegment, to_segment}
use dnet_core.Tcp.Stream.{view, stream_refines}
use dnet_core.Tcp.Runs.{InFlight, deliver_all}
use dnet_core.Tcp.Isolation.{others_kept}
use dnet_core.Tcp.{tuple_of, on_recv}

-- The stack goes from one state to another over segments of the connection `t`, which the list holds,
-- over segments of other connections, and over whatever leaves the connections alone.
pub data Interleaved (t : TcpConnTuple) : Net → List (InFlight t) → Net → Type 0 where
  finished : {n : Net} → Interleaved t n [] n
  ours :
      {n n1 n' : Net} {ps : List (InFlight t)} (p : InFlight t)
      → on_recv p.buf p.size p.ctx n ≡ ok tt n1
      → Interleaved t n1 ps n'
      → Interleaved t n (p ∷ ps) n'
  theirs :
      {n n1 n' : Net} {ps : List (InFlight t)} (buf : List ℕ) (size : ℕ) (ctx : L3Context)
      (s : TcpSegment)
      → to_segment buf ≡ some s
      → tuple_beq (tuple_of s ctx) t ≡ false
      → on_recv buf size ctx n ≡ ok tt n1
      → Interleaved t n1 ps n'
      → Interleaved t n ps n'
  elsewhere :
      {n n1 n' : Net} {ps : List (InFlight t)}
      → n1.connections ≡ n.connections
      → Interleaved t n1 ps n'
      → Interleaved t n ps n'

ended : {n1 n2 : Net} {o : Outcome (Unit {0})} → o ≡ ok tt n1 → o ≡ ok tt n2 → n1 ≡ n2
ended e f = cc

theirs-find :
    (t : TcpConnTuple) (n : Net) {n1 : Net} (buf : List ℕ) (size : ℕ) (ctx : L3Context)
    {s : TcpSegment}
    → to_segment buf ≡ some s
    → tuple_beq (tuple_of s ctx) t ≡ false
    → on_recv buf size ctx n ≡ ok tt n1
    → find t n1.connections ≡ find t n.connections
unfolding After
theirs-find t n buf size ctx parsed other e =
    subst (After (λ m. find t m.connections ≡ find t n.connections)) e
      (others_kept n buf size ctx t parsed other)

-- However the segments of an established connection with a valid buffer, whose payloads lie in their
-- receive buffers, arrive among segments of other connections that are handled without an error, and
-- among whatever leaves the table alone: the stream of the connection moves by one `deliver` for each of
-- its own and by nothing else, and it stays established with a valid buffer.
pub streams_apart :
    (t : TcpConnTuple) (ps : List (InFlight t)) {n n' : Net} {c : TcpConn}
    → find t n.connections ≡ some c
    → c.state ≡ TcpState.established
    → IsValid c.rcvbuf
    → Interleaved t n ps n'
    → (c' : TcpConn) × (find t n'.connections ≡ some c')
      × (view c' ≡ deliver_all (view c) ps)
      × (c'.state ≡ TcpState.established)
      × IsValid c'.rcvbuf
unfolding deliver_all
streams_apart t ps {c = c} known state ring finished = (c, known, refl, state, ring)
streams_apart t ps {n} {n'} {c} known state ring (ours {n1 = n1} {ps = rest} p e steps) =
    let (m, c1, handled, known1, moved, state1, ring1) =
      stream_refines n p.buf p.size p.ctx {s = p.segment} {c = c} {payload = p.payload} p.parsed
        (rw p.ours known) state ring p.read in
    let found : find t n1.connections ≡ some c1 = rw (ended e handled) (rw p.ours at known1) in
    let (c', known', moved', state', ring') = streams_apart t rest found state1 ring1 steps in
    (c', known', moved' ∙ ap (λ v. deliver_all v rest) moved, state', ring')
streams_apart t ps {n} known state ring (theirs buf size ctx s parsed other e steps) =
    streams_apart t ps (theirs-find t n buf size ctx parsed other e ∙ known) state ring steps
streams_apart t ps known state ring (elsewhere same steps) =
    streams_apart t ps (ap (find t) same ∙ known) state ring steps
