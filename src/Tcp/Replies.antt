-- ===== src/Tcp/Replies.antt =====
-- The replies of a connection, as the host on the other side reads them.
use dnet_core.Base.{ℕ, ◌*◌, ◌<◌, ◌^◌, ◌≡◌, ◌↔◌, List, [], ◌∷◌, ◌++◌, some, arith}
use dnet_core.Words.{be16, be32, bytes16, bytes32}
use dnet_core.Words.Laws.{IsWord32}
use dnet_core.Checksum.{checksum_16bit_be}
use dnet_core.Checksum.Fold.{FoldsOnce, checksum_16bit_be-lt}
use dnet_core.Checksum.Fill.{fill-verifies}
use dnet_core.L4.Pseudo.{bytes_pseudo}
use dnet_core.Tcp.Conn.{TcpConnTuple}
use dnet_core.Tcp.Segment.{TcpSegment, to_segment, bytes_segment, tcp_checksum}
use dnet_core.Layout.Transports.{to_segment-bytes_segment}
use dnet_core.Tcp.{reply_header, make_reply}

-- What the checksum of a reply without data covers, from the server's side of the connection.
abbrev pub covered : TcpConnTuple → TcpSegment → List ℕ
covered t s = bytes_pseudo t.dest_ip t.src_ip 6 20 ++ bytes_segment s

-- A segment up to its checksum.
abbrev before_checksum : TcpConnTuple → TcpSegment → List ℕ
before_checksum t s =
    bytes_pseudo t.dest_ip t.src_ip 6 20
    ++ (bytes16 (be16 s.src_port)
        ++ (bytes16 (be16 s.dest_port)
            ++ (bytes32 (be32 s.seq)
                ++ (bytes32 (be32 s.ack) ++ (s.data_offset ∷ s.flags ∷ bytes16 (be16 s.window))))))

make_reply-verifies :
    (t : TcpConnTuple) (seq ack flags : ℕ)
    → IsWord32 t.src_ip
    → IsWord32 t.dest_ip
    → flags < 2 ^ 8
    → (checksum_16bit_be (covered t (make_reply t seq ack flags)) ≡ 0)
      ↔ FoldsOnce (covered t (reply_header t seq ack flags))
unfolding make_reply tcp_checksum
make_reply-verifies t seq ack flags src_in dest_in small =
    fill-verifies (before_checksum t (reply_header t seq ack flags)) (bytes16 (be16 0))
      (omega arith) (omega (arith, src_in, dest_in, small)) (omega arith)

-- Every reply on a connection between IPv4 addresses and ports of 16 bits, with numbers of 32 bits and
-- flags of 8, is read by the peer as a segment from the port that it sent to, to the port that it sent
-- from, with those numbers and flags, the window and a header of 20 bytes; and with the pseudo header of
-- its packet it passes the routine's own test of a checksum exactly when the sum over the blank field
-- folds once.
pub reply_read :
    (t : TcpConnTuple) (seq ack flags : ℕ)
    → IsWord32 t.src_ip
    → IsWord32 t.dest_ip
    → t.src_port < 2 ^ 16
    → t.dest_port < 2 ^ 16
    → seq < 2 ^ 32
    → ack < 2 ^ 32
    → flags < 2 ^ 8
    → let reply = bytes_segment (make_reply t seq ack flags) in
      (sum : ℕ) × (to_segment reply
        ≡ some (record {
          src_port = t.dest_port;
          dest_port = t.src_port;
          seq = seq;
          ack = ack;
          data_offset = 5 * 2 ^ 4;
          flags = flags;
          window = 4096;
          checksum = sum;
          urgent_ptr = 0;
        }))
      × ((checksum_16bit_be (bytes_pseudo t.dest_ip t.src_ip 6 20 ++ reply) ≡ 0)
          ↔ FoldsOnce (covered t (reply_header t seq ack flags)))
unfolding make_reply tcp_checksum
reply_read t seq ack flags src_in dest_in src_port_in dest_port_in seq_in ack_in small = (
  (make_reply t seq ack flags).checksum,
  to_segment-bytes_segment (make_reply t seq ack flags) [] (record {
    src_port_in = dest_port_in;
    dest_port_in = src_port_in;
    seq_in = seq_in;
    ack_in = ack_in;
    window_in = omega arith;
    checksum_in = checksum_16bit_be-lt (covered t (reply_header t seq ack flags));
    urgent_ptr_in = omega arith;
  }),
  make_reply-verifies t seq ack flags src_in dest_in small,
)
