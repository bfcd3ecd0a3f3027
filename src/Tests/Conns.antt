-- ===== src/Tests/Conns.antt =====
-- TCP segments from port 4096 of `guest` to port 7 of `us`.
use dnet_core.Base.{ℕ, ◌+◌, ◌≡◌, refl, List, [], ◌∷◌, ◌++◌, length, some, arith}
use dnet_core.Words.{u32}
use dnet_core.Dict.{find}
use dnet_core.Memory.{read_bytes}
use dnet_core.RingBuffer.{RingBuffer, fresh}
use dnet_core.RingBuffer.Refine.{contents}
use dnet_core.Net.{Net, ok, fault, emit}
use dnet_core.Net.Advance.{Advances}
use dnet_core.L3.Packet.{L3Context, Ipv4Protocol}
use dnet_core.Tcp.Conn.{tuple_key, TcpState, TcpConn}
use dnet_core.Tcp.Segment.{TcpSegment, syn_ack_flags, to_segment}
use dnet_core.Tcp
use dnet_core.Tcp.{tuple_of, opened}
use dnet_core.Tcp.Handshake.{listening, half_open, with_conn, segment_frame, syn_answered}
use dnet_core.Tcp.Data.{received}
use dnet_core.Tcp.Safe.{Lands, on_recv_safe}
use dnet_core.Tcp.Stream.{taken, full_buffer_loses_byte, overlong_header_faults}
use dnet_core.Addr.{contains}
use dnet_core.Tests.{peer_mac, us, guest, start}

abbrev pub ctx : L3Context
ctx = record { src_ip = guest; dest_ip = us; protocol = Ipv4Protocol.tcp }

abbrev pub segment : ℕ → ℕ → ℕ → ℕ → TcpSegment
segment seq ack data_offset flags = record {
  src_port = 4096;
  dest_port = 7;
  seq = seq;
  ack = ack;
  data_offset = data_offset;
  flags = flags;
  window = 0;
  checksum = 0;
  urgent_ptr = 0;
}

abbrev pub syn : TcpSegment
syn = segment 9 0 80 2

abbrev pub syn_bytes : List ℕ
syn_bytes = 16 ∷ 0 ∷ 0 ∷ 7 ∷ 0 ∷ 0 ∷ 0 ∷ 9 ∷ 0 ∷ 0 ∷ 0 ∷ 0 ∷ 80 ∷ 2 ∷ 0 ∷ 0 ∷ 0 ∷ 0 ∷ 0 ∷ 0 ∷ []

syn_answered_example :
    let t = tuple_of syn ctx in
    Tcp.on_recv syn_bytes 20 ctx start
    ≡ ok tt (
        emit
          (segment_frame start peer_mac t 77 10 syn_ack_flags)
          (with_conn start t (half_open t 9 77)))
unfolding to_segment find contains
syn_answered_example = syn_answered start syn_bytes 20 ctx {s = syn} refl refl refl refl

on_recv_safe_example : Lands (Advances start) (Tcp.on_recv syn_bytes 20 ctx start)
on_recv_safe_example = on_recv_safe start syn_bytes 20 ctx tt

abbrev opening : TcpConn
opening = opened (listening (tuple_of syn ctx)) syn 77

-- The ACK of the SYN-ACK.
abbrev pub ack_segment : TcpSegment
ack_segment = segment 10 78 80 16

abbrev pub ack_bytes : List ℕ
ack_bytes = 16 ∷ 0 ∷ 0 ∷ 7 ∷ 0 ∷ 0 ∷ 0 ∷ 10 ∷ 0 ∷ 0 ∷ 0 ∷ 78 ∷ 80 ∷ 16 ∷ 0 ∷ 0 ∷ 0 ∷ 0 ∷ 0 ∷ 0 ∷ []

-- An established connection with a receive buffer.
abbrev pub conn : RingBuffer → TcpConn
conn ring = record opening { state = TcpState.established; snd_una = 78; rcvbuf = ring }

abbrev pub open' : RingBuffer → Net
open' ring = record start { connections = (tuple_of syn ctx, conn ring) ∷ [] }

abbrev pub data_segment : TcpSegment
data_segment = segment 10 78 80 24

abbrev pub data_bytes : List ℕ
data_bytes =
    16 ∷ 0 ∷ 0 ∷ 7 ∷ 0 ∷ 0 ∷ 0 ∷ 10 ∷ 0 ∷ 0 ∷ 0 ∷ 78 ∷ 80 ∷ 24 ∷ 0 ∷ 0 ∷ 0 ∷ 0 ∷ 0 ∷ 0 ∷ b'h' ∷ b'i'
    ∷ []

abbrev pub hi : List ℕ
hi = b'h' ∷ b'i' ∷ []

abbrev pub empty : RingBuffer
empty = fresh (λ _. 0)

-- All bytes but two are stored.
abbrev nearly_full : RingBuffer
nearly_full = record { buf = λ _. 0; start = 1; end = 65535 }

pub parsed_data : to_segment data_bytes ≡ some data_segment
unfolding to_segment
parsed_data = refl

pub known_conn :
    (ring : RingBuffer)
    → find (tuple_of data_segment ctx) (open' ring).connections ≡ some (conn ring)
unfolding find
known_conn ring = refl

pub parsed_syn : to_segment syn_bytes ≡ some syn
unfolding to_segment
parsed_syn = refl

pub parsed_ack : to_segment ack_bytes ≡ some ack_segment
unfolding to_segment
parsed_ack = refl

pub nothing_read : read_bytes 0 [] ≡ some []
unfolding read_bytes
nothing_read = refl

pub payload_read : read_bytes (Tcp.payload_size data_segment 22) (b'h' ∷ b'i' ∷ []) ≡ some hi
unfolding read_bytes
payload_read = refl

full_buffer_loses_byte_example :
    let p = Tcp.payload_size data_segment 22 in
    let c' = received (conn nearly_full) data_segment p hi in
    (Tcp.on_recv data_bytes 22 ctx (open' nearly_full)
      ≡ ok tt (
          taken
            (open' nearly_full)
            data_bytes
            22
            ctx
            {s = data_segment}
            {c = conn nearly_full}
            {payload = hi}
            parsed_data
            (known_conn nearly_full)
            refl
            (omega arith)
            payload_read))
    × (c'.rcv_nxt ≡ u32 (10 + length hi))
    × (contents c'.rcvbuf ≡ contents nearly_full ++ b'h' ∷ [])
full_buffer_loses_byte_example =
    full_buffer_loses_byte (open' nearly_full) data_bytes 22 ctx {s = data_segment}
      {c = conn nearly_full} {payload = hi} parsed_data (known_conn nearly_full) refl (omega arith)
      payload_read (b'h' ∷ []) b'i' refl refl (omega arith)

-- A data offset of 60 bytes in a segment of 20.
abbrev overlong_bytes : List ℕ
overlong_bytes =
    16 ∷ 0 ∷ 0 ∷ 7 ∷ 0 ∷ 0 ∷ 0 ∷ 10 ∷ 0 ∷ 0 ∷ 0 ∷ 78 ∷ 240 ∷ 16 ∷ 0 ∷ 0 ∷ 0 ∷ 0 ∷ 0 ∷ 0 ∷ []

overlong_header_faults_example : Tcp.on_recv overlong_bytes 20 ctx (open' empty) ≡ fault
unfolding to_segment
overlong_header_faults_example =
    overlong_header_faults (open' empty) overlong_bytes 20 ctx {s = segment 10 78 240 16}
      {c = conn empty} refl (known_conn empty) refl refl (omega arith) (omega arith) (omega arith)
