-- ===== src/Tcp.antt =====
-- layers/L4/tcp/TCP.cpp: connections, over the table in `Net`.
pub mod Conn
pub mod Segment
pub mod Invariant
pub mod Handshake
pub mod Data
pub mod Safe
pub mod Stream
pub mod Runs
pub mod Session
pub mod Acks
pub mod Replies
pub mod Isolation
pub mod Interleaved
use dnet_core.Base.{
  ℕ, ◌+◌, ◌*◌, ◌/◌, ◌^◌, ◌==◌, ◌&&◌, not, if◌then◌else◌, Bool, true, false, List, [], ◌∷◌, Option,
  none, some, drop,
}
use dnet_core.Words.{u16, u32, sub_size}
use dnet_core.Dict.{find, assign}
use dnet_core.RingBuffer.{write_all}
use dnet_core.Memory.{read_bytes}
use dnet_core.Net.{
  Net, M, pure, ◌>>=◌, ◌>>◌, this, dnet_assert, load, unexpected_tcp_state, missing_tcp_connection,
}
use dnet_core.L3.Packet.{L3Context, Ipv4Protocol}
use dnet_core.L3.Send.{l4_send}
use Conn.{TcpConnTuple, tuple_key, TcpState, TcpConn, fresh_conn}
use Segment.{
  TcpSegment, sizeof_tcp_segment, has_syn, has_ack, ack_flag, syn_ack_flags, to_segment,
  bytes_segment, tcp_checksum,
}

-- `WINDOW_SIZE`
abbrev pub window_size : ℕ
window_size = 4096

abbrev pub tuple_of : TcpSegment → L3Context → TcpConnTuple
tuple_of s ctx = record {
  src_ip = ctx.src_ip;
  src_port = s.src_port;
  dest_ip = ctx.dest_ip;
  dest_port = s.dest_port;
}

-- A write through the `shared_ptr` that the table holds.
unfoldable pub store : TcpConnTuple → TcpConn → M (Unit {0})
store t c n = pure tt (record n { connections = assign t c n.connections })

-- `connections.emplace(tuple, conn)` for the first packet of a connection; false drops the packet.
unfoldable pub admit : Option TcpConn → TcpConnTuple → TcpSegment → M Bool
admit (some _) t s = pure true
admit none t s =
    if has_syn s
    then (store t (record fresh_conn { tuple = t; state = TcpState.listen }) >> pure true)
    else pure false

unfoldable pub the_conn : Option TcpConn → M TcpConn
the_conn none = dnet_assert false missing_tcp_connection >> pure fresh_conn
the_conn (some c) = pure c

-- The header of every reply, and the reply once its checksum is filled in.
abbrev pub reply_header : TcpConnTuple → ℕ → ℕ → ℕ → TcpSegment
reply_header t seq ack flags = record {
  src_port = t.dest_port;
  dest_port = t.src_port;
  seq = seq;
  ack = ack;
  data_offset = 5 * 2 ^ 4;
  flags = flags;
  window = window_size;
  checksum = 0;
  urgent_ptr = 0;
}

unfoldable pub make_reply : TcpConnTuple → ℕ → ℕ → ℕ → TcpSegment
make_reply t seq ack flags =
    let blank = reply_header t seq ack flags in
    record blank { checksum = tcp_checksum blank t.dest_ip t.src_ip [] }

unfoldable pub send_reply : TcpConnTuple → ℕ → ℕ → ℕ → M (Unit {0})
send_reply t seq ack flags =
    l4_send (bytes_segment (make_reply t seq ack flags))
      (record { src_ip = t.dest_ip; dest_ip = t.src_ip; protocol = Ipv4Protocol.tcp })

-- `case TcpState::LISTEN`; `isn` is what `rand()` returns.
abbrev pub opened : TcpConn → TcpSegment → ℕ → TcpConn
opened c s isn = record c {
  state = TcpState.syn_recved;
  rcv_nxt = u32 (s.seq + 1);
  snd_una = u32 isn;
  snd_nxt = u32 (u32 isn + 1);
}

unfoldable pub on_listen : TcpConnTuple → TcpConn → TcpSegment → M (Unit {0})
on_listen t c s = do
  n ← this
  let c' = opened c s n.rand
  store t c'
  send_reply t c'.snd_una c'.rcv_nxt syn_ack_flags

-- `case TcpState::SYN_RECVED`.
unfoldable pub on_syn_recved : TcpConnTuple → TcpConn → TcpSegment → M (Unit {0})
on_syn_recved t c s =
    if has_ack s && s.ack == c.snd_nxt
    then store t (record c { state = TcpState.established; snd_una = s.ack })
    else pure tt

-- `case TcpState::ESTABLISHED`.
abbrev pub header_size : TcpSegment → ℕ
header_size s = u16 (s.data_offset / 2 ^ 4 * 4)

abbrev pub payload_size : TcpSegment → ℕ → ℕ
payload_size s size = u16 (sub_size size (header_size s))

-- An in-order segment with the bytes of its payload.
unfoldable pub accept : TcpConnTuple → TcpConn → TcpSegment → ℕ → List ℕ → M (Unit {0})
accept t c s len payload =
    let (buf, done) = write_all c.rcvbuf payload in
    let c' = record c { rcvbuf = buf; rcv_nxt = u32 (s.seq + len) } in
    if done then (store t c' >> send_reply t c.snd_nxt c'.rcv_nxt ack_flag) else pure tt

unfoldable pub on_established : TcpConnTuple → TcpConn → TcpSegment → List ℕ → ℕ → M (Unit {0})
on_established t c s buf size =
    if s.seq == c.rcv_nxt
    then (do
      payload ← load (read_bytes (payload_size s size) (drop (header_size s) buf))
      accept t c s (payload_size s size) payload)
    else pure tt

-- The switch of `on_recv`.
unfoldable pub dispatch : TcpState → TcpConnTuple → TcpConn → TcpSegment → List ℕ → ℕ → M (Unit {0})
dispatch TcpState.listen t c s buf size = on_listen t c s
dispatch TcpState.syn_recved t c s buf size = on_syn_recved t c s
dispatch TcpState.established t c s buf size = on_established t c s buf size
dispatch _ t c s buf size = dnet_assert false unexpected_tcp_state

unfoldable pub on_recv : List ℕ → ℕ → L3Context → M (Unit {0})
on_recv buf size ctx = do
  s ← load (to_segment buf)
  let t = tuple_of s ctx
  n ← this
  known ← admit (find t n.connections) t s
  if known
      then (do n ← this; c ← the_conn (find t n.connections); dispatch c.state t c s buf size)
      else pure tt
