-- ===== src/Tcp/Runs.antt =====
-- Any number of segments on an established connection.
use dnet_core.Base.{arith, ℕ, ◌≡◌, refl, ap, ◌∙◌, List, [], ◌∷◌, some, drop}
use dnet_core.Memory.{read_bytes}
use dnet_core.Dict.{find}
use dnet_core.Base.{
  ◌+◌, ◌-◌, ◌<◌, sym, ◌++◌, length, length-append, append-nil, append_assoc, take_all,
}
use dnet_core.Words.{u32}
use dnet_core.RingBuffer.{buffer_size, size}
use dnet_core.RingBuffer.Refine.{contents, length-contents}
use dnet_core.RingBuffer.Bounds.{IsValid}
use dnet_core.Net.{Net, M, ok, ◌>>=◌}
use dnet_core.L3.Packet.{L3Context}
use dnet_core.Tcp.Conn.{TcpConnTuple, tuple_key, TcpState, TcpConn}
use dnet_core.Tcp.Segment.{TcpSegment, to_segment}
use dnet_core.Tcp.Stream.{Stream, view, deliver, stream_refines}
use dnet_core.Tcp.{tuple_of, header_size, payload_size, on_recv}

-- A segment of the connection `t` as it arrives, with a payload that lies in the receive buffer.
pub record InFlight (t : TcpConnTuple) : Type 0 where
  pub buf : List ℕ
  pub size : ℕ
  pub ctx : L3Context
  pub segment : TcpSegment
  pub payload : List ℕ
  pub parsed : to_segment buf ≡ some segment
  pub ours : tuple_of segment ctx ≡ t
  pub read : read_bytes (payload_size segment size) (drop (header_size segment) buf) ≡ some payload

-- `TCP::on_recv` on one segment after another.
unfoldable pub feed : {t : TcpConnTuple} → List (InFlight t) → M (Unit {0})
feed [] n = ok tt n
feed (p ∷ ps) n = (on_recv p.buf p.size p.ctx >>= λ _. feed ps) n

unfoldable pub deliver_all : {t : TcpConnTuple} → Stream → List (InFlight t) → Stream
deliver_all v [] = v
deliver_all v (p ∷ ps) = deliver_all (deliver v p.segment.seq p.payload) ps

pub feed_cons :
    {t : TcpConnTuple} (p : InFlight t) (ps : List (InFlight t)) (n n1 n2 : Net)
    → on_recv p.buf p.size p.ctx n ≡ ok tt n1
    → feed ps n1 ≡ ok tt n2
    → feed (p ∷ ps) n ≡ ok tt n2
unfolding feed
feed_cons p ps n n1 n2 e f = ground arith

-- Segments of a connection that is established and has a valid buffer, in any order and with any
-- repetition, whose payloads lie in their receive buffers, are all handled without an error, and the
-- stream moves by one `deliver` for each.
pub stream_runs :
    (t : TcpConnTuple) (ps : List (InFlight t)) (n : Net) (c : TcpConn)
    → find t n.connections ≡ some c
    → c.state ≡ TcpState.established
    → IsValid c.rcvbuf
    → (n' : Net) × (c' : TcpConn) × (feed ps n ≡ ok tt n')
      × (find t n'.connections ≡ some c')
      × (view c' ≡ deliver_all (view c) ps)
unfolding feed deliver_all
stream_runs t [] n c known state ring = (n, c, refl, known, refl)
stream_runs t (p ∷ ps) n c known state ring =
    let (n1, c1, handled, known1, moved, state1, ring1) =
      stream_refines n p.buf p.size p.ctx {s = p.segment} {c = c} {payload = p.payload} p.parsed
        (rw p.ours known) state ring p.read in
    let (n2, c2, handled2, known2, moved2) =
      stream_runs t ps n1 c1 (rw p.ours at known1) state1 ring1 in
    (
      n2,
      c2,
      feed_cons p ps n n1 n2 handled handled2,
      known2,
      moved2 ∙ ap (λ v. deliver_all v ps) moved,
    )

-- Segments each of which starts where the one before it ends.
abbrev pub AllConsecutive : {t : TcpConnTuple} → ℕ → List (InFlight t) → Type 0
AllConsecutive next [] = Unit {0}
AllConsecutive next (p ∷ ps) =
    (p.segment.seq ≡ next) × AllConsecutive (u32 (next + length p.payload)) ps

abbrev pub joined : {t : TcpConnTuple} → List (InFlight t) → List ℕ
joined [] = []
joined (p ∷ ps) = p.payload ++ joined ps

deliver_next :
    (v : Stream) (payload : List ℕ)
    → length v.queue + length payload < buffer_size
    → deliver v v.next payload
      ≡ record { next = u32 (v.next + length payload); queue = v.queue ++ payload }
unfolding deliver
deliver_next v payload room =
    ground (arith, take_all (buffer_size - 1 - length v.queue) payload (omega arith))

pub deliver_all-joined :
    {t : TcpConnTuple} (ps : List (InFlight t)) (v : Stream)
    → AllConsecutive v.next ps
    → length v.queue + length (joined ps) < buffer_size
    → (deliver_all v ps).queue ≡ v.queue ++ joined ps
unfolding deliver_all
deliver_all-joined [] v h room = sym (append-nil v.queue)
deliver_all-joined (p ∷ ps) v h room =
    let n = length-append p.payload (joined ps) in
    let after : Stream = record {
      next = u32 (v.next + length p.payload);
      queue = v.queue ++ p.payload;
    } in
    let step : deliver v p.segment.seq p.payload ≡ after =
      ap (λ k. deliver v k p.payload) h.0 ∙ deliver_next v p.payload (omega (arith, n)) in
    ap (λ w. (deliver_all w ps).queue) step
    ∙ deliver_all-joined ps after h.1 (omega (arith, n, length-append v.queue p.payload))
    ∙ append_assoc v.queue p.payload (joined ps)

-- Consecutive segments from the next byte on, of a connection that is established and has a valid
-- buffer, whose payloads lie in their receive buffers and leave a byte of the connection's buffer
-- free together, are all handled without an error, and the application's bytes are those that waited
-- and then the payloads, in order and with none lost.
pub in_order_run :
    (t : TcpConnTuple) (ps : List (InFlight t)) (n : Net) (c : TcpConn)
    → find t n.connections ≡ some c
    → c.state ≡ TcpState.established
    → IsValid c.rcvbuf
    → AllConsecutive c.rcv_nxt ps
    → size c.rcvbuf + length (joined ps) < buffer_size
    → (n' : Net) × (c' : TcpConn) × (feed ps n ≡ ok tt n')
      × (find t n'.connections ≡ some c')
      × (contents c'.rcvbuf ≡ contents c.rcvbuf ++ joined ps)
in_order_run t ps n c known state ring next room =
    let (n', c', handled, known', moved) = stream_runs t ps n c known state ring in
    (
      n',
      c',
      handled,
      known',
      ap (λ (v : Stream). v.queue) moved
          ∙ deliver_all-joined ps (view c) next (omega (arith, length-contents c.rcvbuf)),
    )
