-- ===== src/Tests/Streams.antt =====
-- More than one segment on an established connection.
use dnet_core.Base.{ℕ, ◌*◌, ◌^◌, ◌++◌, ◌↔◌, ◌≡◌, refl, List, [], ◌∷◌, some, arith}
use dnet_core.Dict.{find}
use dnet_core.Net.{Net, ok}
use dnet_core.Tcp.Conn.{tuple_key, TcpConn, TcpState}
use dnet_core.Tcp.Segment.{TcpSegment, to_segment, bytes_segment, ack_flag, syn_ack_flags}
use dnet_core.Tcp.{tuple_of, make_reply, reply_header}
use dnet_core.Tcp.Acks.{session_acknowledged}
use dnet_core.Tcp.Replies.{covered, reply_read}
use dnet_core.Tcp.Handshake.{segment_frame}
use dnet_core.Checksum.{checksum_16bit_be}
use dnet_core.Checksum.Fold.{FoldsOnce}
use dnet_core.L4.Pseudo.{bytes_pseudo}
use dnet_core.Tcp.Runs.{InFlight, feed, deliver_all, stream_runs}
use dnet_core.Tcp
use dnet_core.Tcp.Stream.{view, stream_refines}
use dnet_core.Tcp.Handshake.{stray_dropped}
use dnet_core.Tcp.Interleaved.{Interleaved, finished, ours, theirs, streams_apart}
use dnet_core.RingBuffer.Bounds.{IsValid}
use dnet_core.Tests.Conns.{
  ctx, segment, syn, conn, open', data_segment, data_bytes, hi, empty, parsed_data, known_conn,
  payload_read, syn_bytes, parsed_syn, nothing_read, ack_bytes, ack_segment, parsed_ack,
}
use dnet_core.Addr.{contains}
use dnet_core.Tests.{start, peer_mac}

abbrev flight : InFlight (tuple_of syn ctx)
flight = record {
  buf = data_bytes;
  size = 22;
  ctx = ctx;
  segment = data_segment;
  payload = hi;
  parsed = parsed_data;
  ours = refl;
  read = payload_read;
}

-- The data, and the same segment again.
stream_runs_example :
    (n' : Net) × (c' : TcpConn) × (feed (flight ∷ flight ∷ []) (open' empty) ≡ ok tt n')
    × (find (tuple_of syn ctx) n'.connections ≡ some c')
    × (view c' ≡ deliver_all (view (conn empty)) (flight ∷ flight ∷ []))
stream_runs_example =
    stream_runs (tuple_of syn ctx) (flight ∷ flight ∷ []) (open' empty) (conn empty)
      (known_conn empty) refl (omega arith)

-- "hi", and then "hi" once more.
abbrev pub second_segment : TcpSegment
second_segment = segment 12 78 80 24

abbrev pub second_bytes : List ℕ
second_bytes =
    16 ∷ 0 ∷ 0 ∷ 7 ∷ 0 ∷ 0 ∷ 0 ∷ 12 ∷ 0 ∷ 0 ∷ 0 ∷ 78 ∷ 80 ∷ 24 ∷ 0 ∷ 0 ∷ 0 ∷ 0 ∷ 0 ∷ 0 ∷ b'h' ∷ b'i'
    ∷ []

pub parsed_second : to_segment second_bytes ≡ some second_segment
unfolding to_segment
parsed_second = refl

abbrev second_flight : InFlight (tuple_of syn ctx)
second_flight = record {
  buf = second_bytes;
  size = 22;
  ctx = ctx;
  segment = second_segment;
  payload = hi;
  parsed = parsed_second;
  ours = refl;
  read = payload_read;
}

abbrev syn_flight : InFlight (tuple_of syn ctx)
syn_flight = record {
  buf = syn_bytes;
  size = 20;
  ctx = ctx;
  segment = syn;
  payload = [];
  parsed = parsed_syn;
  ours = refl;
  read = nothing_read;
}

abbrev ack_flight : InFlight (tuple_of syn ctx)
ack_flight = record {
  buf = ack_bytes;
  size = 20;
  ctx = ctx;
  segment = ack_segment;
  payload = [];
  parsed = parsed_ack;
  ours = refl;
  read = nothing_read;
}

-- A client connects and sends "hi" twice.
session_acknowledged_example :
    let t = tuple_of syn ctx in
    (n' : Net) × (feed (syn_flight ∷ ack_flight ∷ flight ∷ second_flight ∷ []) start ≡ ok tt n')
    × (n'.sent
        ≡ segment_frame start peer_mac t 77 10 syn_ack_flags
          ∷ segment_frame start peer_mac t 78 12 ack_flag
          ∷ segment_frame start peer_mac t 78 14 ack_flag
          ∷ [])
unfolding find contains
session_acknowledged_example =
    session_acknowledged (tuple_of syn ctx) start syn_flight refl refl ack_flight refl refl
      (flight ∷ second_flight ∷ []) refl (refl, (refl, tt)) (omega arith)

reply_read_example :
    let t = tuple_of syn ctx in
    let reply = bytes_segment (make_reply t 78 12 ack_flag) in
    (sum : ℕ) × (to_segment reply
      ≡ some (record {
        src_port = t.dest_port;
        dest_port = t.src_port;
        seq = 78;
        ack = 12;
        data_offset = 5 * 2 ^ 4;
        flags = ack_flag;
        window = 4096;
        checksum = sum;
        urgent_ptr = 0;
      }))
    × ((checksum_16bit_be (bytes_pseudo t.dest_ip t.src_ip 6 20 ++ reply) ≡ 0)
        ↔ FoldsOnce (covered t (reply_header t 78 12 ack_flag)))
reply_read_example =
    reply_read (tuple_of syn ctx) 78 12 ack_flag (omega arith) (omega arith) (omega arith)
      (omega arith) (omega arith) (omega arith) (omega arith)

-- A segment from another port, for no connection.
abbrev stray_segment : TcpSegment
stray_segment = record (segment 9 78 80 16) { src_port = 5000 }

abbrev stray_bytes : List ℕ
stray_bytes =
    19 ∷ 136 ∷ 0 ∷ 7 ∷ 0 ∷ 0 ∷ 0 ∷ 9 ∷ 0 ∷ 0 ∷ 0 ∷ 78 ∷ 80 ∷ 16 ∷ 0 ∷ 0 ∷ 0 ∷ 0 ∷ 0 ∷ 0 ∷ []

parsed_stray : to_segment stray_bytes ≡ some stray_segment
unfolding to_segment
parsed_stray = refl

stray_ignored : Tcp.on_recv stray_bytes 20 ctx (open' empty) ≡ ok tt (open' empty)
unfolding find
stray_ignored =
    stray_dropped (open' empty) stray_bytes 20 ctx {s = stray_segment} parsed_stray refl refl

-- The data behind it.
abbrev with_data : Net
with_data =
    (stream_refines (open' empty) data_bytes 22 ctx {s = data_segment} {c = conn empty}
      {payload = hi} parsed_data (known_conn empty) refl (omega arith) payload_read).0

data_handled : Tcp.on_recv data_bytes 22 ctx (open' empty) ≡ ok tt with_data
data_handled =
    (stream_refines (open' empty) data_bytes 22 ctx {s = data_segment} {c = conn empty}
      {payload = hi} parsed_data (known_conn empty) refl (omega arith) payload_read).2

mixed : Interleaved (tuple_of syn ctx) (open' empty) (flight ∷ []) with_data
mixed =
    theirs stray_bytes 20 ctx stray_segment parsed_stray refl stray_ignored
      (ours flight data_handled finished)

streams_apart_example :
    (c' : TcpConn) × (find (tuple_of syn ctx) with_data.connections ≡ some c')
    × (view c' ≡ deliver_all (view (conn empty)) (flight ∷ []))
    × (c'.state ≡ TcpState.established)
    × IsValid c'.rcvbuf
streams_apart_example =
    streams_apart (tuple_of syn ctx) (flight ∷ []) {n = open' empty} {n' = with_data}
      {c = conn empty} (known_conn empty) refl (omega arith) mixed
