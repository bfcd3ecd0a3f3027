-- ===== src/Sound/Segments.antt =====
-- Segments that `TCP::on_recv` handles inside their buffer.
use dnet_core.Base.{
  ℕ, ◌≤◌, ◌≡◌, List, Bool, true, false, Bool-cases, inl, inr, Option, none, some, arith, length,
  length-drop, drop, ◌==◌, ◌&&◌,
}
use dnet_core.Net.{Net, M, ◌>>=◌, dnet_assert}
use dnet_core.Net.Ends.{Ends, Ends-load, Ends-if}
use dnet_core.RingBuffer.{write_all}
use dnet_core.L3.Packet.{L3Context, Ipv4Protocol}
use dnet_core.L3.Send.{l4_send}
use dnet_core.Tcp.Conn.{TcpConnTuple, tuple_key, TcpState, TcpConn}
use dnet_core.Tcp.Segment.{TcpSegment, has_syn, has_ack, to_segment}
use dnet_core.Dict.{find}
use dnet_core.Tcp.{
  tuple_of, store, admit, the_conn, send_reply, on_listen, on_syn_recved, accept, on_established,
  header_size, payload_size, dispatch, on_recv,
}
use dnet_core.Sound.Sizes.{Ends-send, Ends-read}

-- A segment of `size` bytes at a pointer: its header, options included, is not longer than it.
pub record Segment (buf : List ℕ) (size : ℕ) : Type 0 where
  pub segment : TcpSegment
  pub parsed : to_segment buf ≡ some segment
  pub whole : header_size segment ≤ size
  pub inside : size ≤ length buf

replies : (t : TcpConnTuple) (seq ack flags : ℕ) (n : Net) → Ends (send_reply t seq ack flags n)
unfolding send_reply l4_send
replies t seq ack flags n = Ends-send _ _ Ipv4Protocol.tcp _ n

accepts :
    (t : TcpConnTuple) (c : TcpConn) (s : TcpSegment) (len : ℕ) (payload : List ℕ) (n : Net)
    → Ends (accept t c s len payload n)
unfolding accept store Ends
accepts t c s len payload n =
    Ends-if (write_all c.rcvbuf payload).1 _ _ n (λ done. replies _ _ _ _ _) (λ full. tt)

-- What the payload's size wraps to is behind the header.
room :
    (s : TcpSegment) (buf : List ℕ) (size : ℕ)
    → header_size s ≤ size
    → size ≤ length buf
    → payload_size s size ≤ length (drop (header_size s) buf)
room s buf size whole inside = omega (arith, length-drop (header_size s) buf)

-- The payload of a segment in order is read inside the buffer.
established :
    (t : TcpConnTuple) (c : TcpConn) (s : TcpSegment) (buf : List ℕ) (size : ℕ) (n : Net)
    → header_size s ≤ size
    → size ≤ length buf
    → Ends (on_established t c s buf size n)
unfolding on_established Ends
established t c s buf size n whole inside =
    Ends-if (s.seq == c.rcv_nxt) _ _ n
      (λ in_order.
        Ends-read (payload_size s size) (drop (header_size s) buf) _ n
          (room s buf size whole inside) (λ payload. accepts t c s _ payload n))
      (λ off. tt)

dispatched :
    (st : TcpState) (t : TcpConnTuple) (c : TcpConn) (s : TcpSegment) (buf : List ℕ) (size : ℕ)
    (n : Net)
    → header_size s ≤ size
    → size ≤ length buf
    → Ends (dispatch st t c s buf size n)
unfolding dispatch on_listen on_syn_recved store Ends dnet_assert
dispatched TcpState.listen t c s buf size n whole inside = replies _ _ _ _ _
dispatched TcpState.syn_recved t c s buf size n whole inside =
    Ends-if (has_ack s && s.ack == c.snd_nxt) _ _ n (λ acked. tt) (λ other. tt)
dispatched TcpState.established t c s buf size n whole inside =
    established t c s buf size n whole inside
dispatched _ t c s buf size n whole inside = tt

known :
    (o : Option TcpConn) (t : TcpConnTuple) (s : TcpSegment) (buf : List ℕ) (size : ℕ) (n : Net)
    → header_size s ≤ size
    → size ≤ length buf
    → Ends ((the_conn o >>= λ c. dispatch c.state t c s buf size) n)
unfolding the_conn dnet_assert dispatch Ends
known none t s buf size n whole inside = tt
known (some c) t s buf size n whole inside = dispatched c.state t c s buf size n whole inside

admitted :
    (o : Option TcpConn) (t : TcpConnTuple) (s : TcpSegment) (k : Bool → M (Unit {0})) (n : Net)
    → ((n' : Net) → Ends (k true n'))
    → Ends (k false n)
    → Ends ((admit o t s >>= k) n)
unfolding admit store Ends
admitted (some c) t s k n h h' = h n
admitted none t s k n h h' = elim (Bool-cases (has_syn s)) [
  | inl syn ↦ rw syn (h _)
  | inr other ↦ rw other h'
]

-- A well-formed segment is handled to an end, whatever the connections are.
pub segment_ends :
    (n : Net) (buf : List ℕ) (size : ℕ) (ctx : L3Context)
    → Segment buf size
    → Ends (on_recv buf size ctx n)
unfolding on_recv Ends
segment_ends n buf size ctx g = Ends-load _ g.segment _ n g.parsed (
    admitted (find (tuple_of g.segment ctx) n.connections) _ _ _ n
      (λ n'. known (find _ n'.connections) _ _ buf size n' g.whole g.inside) tt)
