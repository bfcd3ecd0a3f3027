-- ===== src/Tcp/Isolation.antt =====
-- What a segment of one connection does to the others in the table.
use dnet_core.Base.{
  ℕ, ◌≡◌, refl, ◌∙◌, List, some, false, ◌&&◌, ◌==◌, drop, Bool-cases, Option-cases, inl, inr,
}
use dnet_core.Memory.{read_bytes}
use dnet_core.Dict.{find, find-assign, find-assign_self}
use dnet_core.RingBuffer.{write_all}
use dnet_core.Net.{Net, load, dnet_assert}
use dnet_core.Net.Rules.{After, After-load, After-if}
use dnet_core.L3.Packet.{L3Context}
use dnet_core.Tcp.Conn.{TcpConnTuple, tuple_key, tuple_beq, TcpState, TcpConn}
use dnet_core.Tcp.Segment.{TcpSegment, has_syn, has_ack, to_segment}
use dnet_core.Tcp.Handshake.{with_conn, on_listen_lem, listening}
use dnet_core.Tcp.Data.{accept_lem}
use dnet_core.Tcp.{
  tuple_of, header_size, payload_size, store, admit, the_conn, on_syn_recved, on_established,
  accept, dispatch, on_recv,
}

module _ (n : Net) (t u : TcpConnTuple) (other : tuple_beq t u ≡ false) where
  -- The connection `u` is as it was in `n`.
  abbrev Kept : Net → Type 0
  Kept m = find u m.connections ≡ find u n.connections

  stored-Kept : (m : Net) (c : TcpConn) → Kept m → Kept (with_conn m t c)
  stored-Kept m c h = find-assign t u c m.connections ∙ rw other h

  accept-Kept :
      (c : TcpConn) (s : TcpSegment) (len : ℕ) (payload : List ℕ) (m : Net)
      → Kept m
      → After Kept (accept t c s len payload m)
  unfolding After
  accept-Kept c s len payload m h = elim (Bool-cases (write_all c.rcvbuf payload).1) [
    | inl done ↦ rw ((accept_lem m t c s len payload).0 done) (stored-Kept m _ h)
    | inr full ↦ rw ((accept_lem m t c s len payload).1 full) h
  ]

  established-Kept :
      (c : TcpConn) (s : TcpSegment) (buf : List ℕ) (size : ℕ) (m : Net)
      → Kept m
      → After Kept (on_established t c s buf size m)
  unfolding on_established After
  established-Kept c s buf size m h =
      After-if Kept (s.seq == c.rcv_nxt) _ _ m
        (After-load Kept (read_bytes (payload_size s size) (drop (header_size s) buf)) _ m
          (λ payload. accept-Kept c s (payload_size s size) payload m h))
        h

  syn_recved-Kept :
      (c : TcpConn) (s : TcpSegment) (m : Net) → Kept m → After Kept (on_syn_recved t c s m)
  unfolding on_syn_recved After store
  syn_recved-Kept c s m h =
      After-if Kept (has_ack s && s.ack == c.snd_nxt) _ _ m (stored-Kept m _ h) h

  dispatch-Kept :
      (state : TcpState) (c : TcpConn) (s : TcpSegment) (buf : List ℕ) (size : ℕ) (m : Net)
      → Kept m
      → After Kept (dispatch state t c s buf size m)
  unfolding dispatch After dnet_assert
  dispatch-Kept TcpState.listen c s buf size m h = rw (on_listen_lem m t c s) (stored-Kept m _ h)
  dispatch-Kept TcpState.syn_recved c s buf size m h = syn_recved-Kept c s m h
  dispatch-Kept TcpState.established c s buf size m h = established-Kept c s buf size m h
  dispatch-Kept TcpState.syn_sent c s buf size m h = h
  dispatch-Kept TcpState.fin_wait_1 c s buf size m h = h
  dispatch-Kept TcpState.fin_wait_2 c s buf size m h = h
  dispatch-Kept TcpState.closing_wait c s buf size m h = h
  dispatch-Kept TcpState.closing c s buf size m h = h
  dispatch-Kept TcpState.last_ack c s buf size m h = h
  dispatch-Kept TcpState.time_wait c s buf size m h = h
  dispatch-Kept TcpState.closed c s buf size m h = h

-- A segment whose header lies in the receive buffer, whatever it holds and however its handling ends
-- short of undefined behaviour, leaves the connection of every other pair of addresses and ports as it
-- was, or unknown as it was.
pub others_kept :
    (n : Net) (buf : List ℕ) (size : ℕ) (ctx : L3Context) {s : TcpSegment} (u : TcpConnTuple)
    → to_segment buf ≡ some s
    → tuple_beq (tuple_of s ctx) u ≡ false
    → After (λ m. find u m.connections ≡ find u n.connections) (on_recv buf size ctx n)
unfolding on_recv load admit the_conn store After
others_kept n buf size ctx {s} u parsed other =
    let t = tuple_of s ctx in
    rw parsed (elim (Option-cases (find t n.connections)) [
      | inr (c, e) ↦ rw (e, e) (dispatch-Kept n t u other c.state c s buf size n refl)
      | inl e ↦ rw e (elim (Bool-cases (has_syn s)) [
        | inr no_syn ↦ rw no_syn refl
        | inl syn ↦
            rw (syn, find-assign_self t (listening t) n.connections)
              (dispatch-Kept n t u other TcpState.listen (listening t) s buf size
                (with_conn n t (listening t)) (stored-Kept n t u other n (listening t) refl))
      ])
    ])
