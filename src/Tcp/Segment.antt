-- ===== src/Tcp/Segment.antt =====
-- layers/L4/tcp/TCP.h: `TcpSegment` in memory, and `TCP_CHECKSUM`.
use dnet_core.Base.{ℕ, ◌+◌, ◌/◌, ◌%◌, ◌^◌, ◌==◌, Bool, List, ◌∷◌, ◌++◌, Option, some, length}
use dnet_core.Words.{be16, be32, bytes16, bytes32, u16}
use dnet_core.Addr.{Ipv4Address}
use dnet_core.Memory.{◌>>=◌, field8, field16, field32}
use dnet_core.Checksum.{checksum_16bit_be}
use dnet_core.L4.Pseudo.{bytes_pseudo}

-- The 20 bytes of the header.
pub record TcpSegment : Type 0 where
  pub src_port : ℕ
  pub dest_port : ℕ
  pub seq : ℕ
  pub ack : ℕ
  pub data_offset : ℕ
  pub flags : ℕ
  pub window : ℕ
  pub checksum : ℕ
  pub urgent_ptr : ℕ

-- `sizeof(TcpSegment)`
abbrev pub sizeof_tcp_segment : ℕ
sizeof_tcp_segment = 20

-- `flag_bits.syn` and `flag_bits.ack` are the bits 1 and 4 of `flags`.
abbrev pub has_syn : TcpSegment → Bool
has_syn s = s.flags / 2 ^ 1 % 2 == 1

abbrev pub has_ack : TcpSegment → Bool
has_ack s = s.flags / 2 ^ 4 % 2 == 1

abbrev pub ack_flag : ℕ
ack_flag = 16

abbrev pub syn_ack_flags : ℕ
syn_ack_flags = 18

unfoldable pub to_segment : List ℕ → Option TcpSegment
to_segment p = do
  (src_port, p) ← field16 p
  (dest_port, p) ← field16 p
  (seq, p) ← field32 p
  (ack, p) ← field32 p
  (data_offset, p) ← field8 p
  (flags, p) ← field8 p
  (window, p) ← field16 p
  (checksum, p) ← field16 p
  (urgent_ptr, p) ← field16 p
  some (record {
    src_port = src_port;
    dest_port = dest_port;
    seq = seq;
    ack = ack;
    data_offset = data_offset;
    flags = flags;
    window = window;
    checksum = checksum;
    urgent_ptr = urgent_ptr;
  })

abbrev pub bytes_segment : TcpSegment → List ℕ
bytes_segment s =
    bytes16 (be16 s.src_port)
    ++ (bytes16 (be16 s.dest_port)
        ++ (bytes32 (be32 s.seq)
            ++ (bytes32 (be32 s.ack)
                ++ (s.data_offset
                    ∷ s.flags
                    ∷ (bytes16 (be16 s.window)
                        ++ (bytes16 (be16 s.checksum) ++ bytes16 (be16 s.urgent_ptr)))))))

-- `TCP_CHECKSUM(segment, seg_src_ip, seg_dst_ip, body, body_len)`.
unfoldable pub tcp_checksum : TcpSegment → Ipv4Address → Ipv4Address → List ℕ → ℕ
tcp_checksum s src dest body =
    checksum_16bit_be (
      bytes_pseudo src dest 6 (u16 (sizeof_tcp_segment + length body)) ++ (bytes_segment s ++ body))
