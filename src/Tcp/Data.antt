-- ===== src/Tcp/Data.antt =====
-- Segments on an established connection, against a receiver that takes the next bytes of a stream.
use dnet_core.Base.{ℕ, ◌+◌, ◌≡◌, ◌≢◌, ◌∙◌, List, Option, none, some, true, false, arith, drop}
use dnet_core.Words.{u32}
use dnet_core.Memory.{read_bytes}
use dnet_core.Dict.{find}
use dnet_core.RingBuffer.{write_all}
use dnet_core.Net.{Net, ok, fault, emit, load}
use dnet_core.L3.Packet.{L3Context}
use dnet_core.Tcp.Conn.{TcpConnTuple, tuple_key, TcpState, TcpConn}
use dnet_core.Tcp.Segment.{TcpSegment, ack_flag, to_segment}
use dnet_core.Tcp.{
  tuple_of, store, admit, the_conn, dispatch, on_recv, on_established, accept, header_size,
  payload_size,
}
use dnet_core.Tcp.Handshake.{reply_frame, send_reply_lem, with_conn}

-- The connection after an in-order payload of `len` bytes.
abbrev pub received : TcpConn → TcpSegment → ℕ → List ℕ → TcpConn
received c s len payload = record c {
  rcvbuf = (write_all c.rcvbuf payload).0;
  rcv_nxt = u32 (s.seq + len);
}

pub accept_lem :
    (n : Net) (t : TcpConnTuple) (c : TcpConn) (s : TcpSegment) (len : ℕ) (payload : List ℕ)
    → let c' = received c s len payload in
      let n' = with_conn n t c' in
      ((write_all c.rcvbuf payload).1 ≡ true
        → accept t c s len payload n
          ≡ ok tt (emit (reply_frame n' t c.snd_nxt c'.rcv_nxt ack_flag) n'))
      × ((write_all c.rcvbuf payload).1 ≡ false → accept t c s len payload n ≡ ok tt n)
unfolding accept store
accept_lem n t c s len payload = (
  λ h. ground (
    arith,
    send_reply_lem (with_conn n t (received c s len payload)) t c.snd_nxt
        (received c s len payload).rcv_nxt ack_flag,
  ),
  λ h. ground arith,
)

module _ (n : Net) (buf : List ℕ) (n_bytes : ℕ) (ctx : L3Context) {s : TcpSegment} {c : TcpConn}
    (parsed : to_segment buf ≡ some s) (known : find (tuple_of s ctx) n.connections ≡ some c)
    (state : c.state ≡ TcpState.established) where
  abbrev found_payload : Option (List ℕ)
  found_payload = read_bytes (payload_size s n_bytes) (drop (header_size s) buf)

  established_step : on_recv buf n_bytes ctx n ≡ on_established (tuple_of s ctx) c s buf n_bytes n
  unfolding load on_recv admit the_conn dispatch
  established_step = ground arith

  -- A segment that does not start at `rcv_nxt` is ignored.
  pub out_of_order_ignored : s.seq ≢ c.rcv_nxt → on_recv buf n_bytes ctx n ≡ ok tt n
  unfolding load on_established
  out_of_order_ignored ne = established_step ∙ ground arith

  -- An in-order segment whose payload lies in the receive buffer is stored and acknowledged when
  -- `writeAll` takes its payload, and ignored when it does not.
  pub in_order_received :
      (payload : List ℕ)
      → s.seq ≡ c.rcv_nxt
      → found_payload ≡ some payload
      → let len = payload_size s n_bytes in
        let t = tuple_of s ctx in
        let c' = received c s len payload in
        let n' = with_conn n t c' in
        ((write_all c.rcvbuf payload).1 ≡ true
          → on_recv buf n_bytes ctx n
            ≡ ok tt (emit (reply_frame n' t c.snd_nxt c'.rcv_nxt ack_flag) n'))
        × ((write_all c.rcvbuf payload).1 ≡ false → on_recv buf n_bytes ctx n ≡ ok tt n)
  unfolding load on_established
  in_order_received payload e read =
      let a = accept_lem n (tuple_of s ctx) c s (payload_size s n_bytes) payload in
      (λ h. established_step ∙ ground (arith, a.0 h), λ h. established_step ∙ ground (arith, a.1 h))

  -- An in-order segment whose payload, by its lengths, does not lie in the receive buffer is copied
  -- from outside it.
  pub payload_outside_faults :
      s.seq ≡ c.rcv_nxt → found_payload ≡ none → on_recv buf n_bytes ctx n ≡ fault
  unfolding load on_established
  payload_outside_faults e read = established_step ∙ ground arith
