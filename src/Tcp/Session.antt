-- ===== src/Tcp/Session.antt =====
-- A connection from its first segment on.
use dnet_core.Base.{subst, ◌+◌, ◌<◌, ◌≡◌, refl, List, ◌∷◌, none, some, true, length, arith}
use dnet_core.Words.{u32}
use dnet_core.Dict.{find, find-assign_self}
use dnet_core.RingBuffer.{buffer_size}
use dnet_core.RingBuffer.Refine.{contents}
use dnet_core.Net.{Net, ok, emit}
use dnet_core.Tcp.Conn.{TcpConnTuple, tuple_key, TcpState, TcpConn}
use dnet_core.Tcp.Segment.{has_syn, has_ack, syn_ack_flags}
use dnet_core.Tcp.{on_recv}
use dnet_core.Tcp.Handshake.{half_open, with_conn, reply_frame, syn_opens, syn_recved_lem}
use dnet_core.Tcp.Runs.{InFlight, feed, feed_cons, AllConsecutive, joined, in_order_run}

module _ (t : TcpConnTuple) (n : Net) (syn : InFlight t) (unknown : find t n.connections ≡ none)
    (is_syn : has_syn syn.segment ≡ true) where
  abbrev pub opening : TcpConn
  opening = half_open t syn.segment.seq n.rand

  -- With the SYN answered.
  abbrev pub answered : Net
  answered =
      emit (reply_frame (with_conn n t opening) t opening.snd_una opening.rcv_nxt syn_ack_flags)
        (with_conn n t opening)

  pub syn_handled : on_recv syn.buf syn.size syn.ctx n ≡ ok tt answered
  syn_handled =
      subst
        (λ u.
          let c = half_open u syn.segment.seq n.rand in
          let n' = with_conn n u c in
          on_recv syn.buf syn.size syn.ctx n
          ≡ ok tt (emit (reply_frame n' u c.snd_una c.rcv_nxt syn_ack_flags) n'))
        syn.ours
        (syn_opens n syn.buf syn.size syn.ctx {s = syn.segment} syn.parsed (rw syn.ours unknown)
          is_syn)

  pub answered-found : find t answered.connections ≡ some opening
  answered-found = find-assign_self t opening n.connections

  module _ (ack : InFlight t) (is_ack : has_ack ack.segment ≡ true)
      (acknowledges : ack.segment.ack ≡ u32 (u32 n.rand + 1)) where
    abbrev pub open_conn : TcpConn
    open_conn = record opening { state = TcpState.established; snd_una = ack.segment.ack }

    pub ack_handled :
        on_recv ack.buf ack.size ack.ctx answered ≡ ok tt (with_conn answered t open_conn)
    ack_handled =
        let step =
          syn_recved_lem answered ack.buf ack.size ack.ctx {s = ack.segment} ack.parsed
            {c = opening} (rw ack.ours answered-found) refl in
        let step' = rw ack.ours at step in ground (arith, step')

    -- A SYN from an unknown peer, the ACK of its SYN-ACK, and then segments that follow each other from
    -- the byte behind the SYN, with payloads that lie in their receive buffers and leave a byte of the
    -- connection's buffer free together: all are handled without an error, the connection is in the table
    -- at the end, and the application's bytes are the payloads, in order and with none lost.
    pub session_delivers :
        (ps : List (InFlight t))
        → AllConsecutive (u32 (syn.segment.seq + 1)) ps
        → length (joined ps) < buffer_size
        → (n' : Net) × (c' : TcpConn) × (feed (syn ∷ ack ∷ ps) n ≡ ok tt n')
          × (find t n'.connections ≡ some c')
          × (contents c'.rcvbuf ≡ joined ps)
    session_delivers ps next room =
        let (n', c', handled, known, bytes) =
          in_order_run t ps (with_conn answered t open_conn) open_conn
            (find-assign_self t open_conn answered.connections) refl (omega arith) next
            (omega (arith, room)) in
        (
          n',
          c',
          feed_cons syn (ack ∷ ps) n answered n' syn_handled
              (feed_cons ack ps answered (with_conn answered t open_conn) n' ack_handled handled),
          known,
          bytes,
        )
