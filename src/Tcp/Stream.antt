-- ===== src/Tcp/Stream.antt =====
-- An established connection as the receiving end of a byte stream.
use dnet_core.Base.{
  ℕ, ◌+◌, ◌-◌, ◌<◌, ◌≤◌, ◌^◌, ◌≡◌, ◌≢◌, ◌⊎◌, ap, List, [], ◌∷◌, ◌++◌, some, Bool, ◌==◌, ◌&&◌, leb,
  arith, drop, take, length, length-drop, Bool-cases, inl, inr, if◌then◌else◌,
}
use dnet_core.Words.{u32}
use dnet_core.Memory.{read_bytes}
use dnet_core.Memory.Laws.{length-read_bytes, read_bytes_outside}
use dnet_core.Dict.{find, find-assign_self}
use dnet_core.RingBuffer.{RingBuffer, buffer_size, size}
use dnet_core.RingBuffer.Bounds.{IsValid, write_all-IsValid}
use dnet_core.RingBuffer.Refine.{contents, length-contents}
use dnet_core.RingBuffer.Bulk.{write_all_cases, write_all_fits, write_all_loses_last}
use dnet_core.Net.{Net, ok, fault, emit}
use dnet_core.L3.Packet.{L3Context}
use dnet_core.Tcp.Conn.{tuple_key, TcpState, TcpConn}
use dnet_core.Tcp.Segment.{TcpSegment, ack_flag, to_segment}
use dnet_core.Tcp.{tuple_of, on_recv, header_size, payload_size}
use dnet_core.Tcp.Handshake.{reply_frame, with_conn}
use dnet_core.Tcp.Data.{received, in_order_received, out_of_order_ignored, payload_outside_faults}

-- The number of the next byte, and the bytes that wait for the application.
pub record Stream : Type 0 where
  pub next : ℕ
  pub queue : List ℕ

abbrev pub view : TcpConn → Stream
view c = record { next = c.rcv_nxt; queue = contents c.rcvbuf }

-- A receiver that takes a payload whole, if it is the next one and the array is long enough; of that
-- it keeps what leaves one byte of the array free.
unfoldable pub deliver : Stream → ℕ → List ℕ → Stream
deliver v seq payload =
    if seq == v.next && leb (length v.queue + length payload) buffer_size
    then record {
      next = u32 (v.next + length payload);
      queue = v.queue ++ take (buffer_size - 1 - length v.queue) payload;
    }
    else v

module _ (n : Net) (buf : List ℕ) (n_bytes : ℕ) (ctx : L3Context) {s : TcpSegment} {c : TcpConn}
    {payload : List ℕ} (parsed : to_segment buf ≡ some s)
    (known : find (tuple_of s ctx) n.connections ≡ some c) (state : c.state ≡ TcpState.established)
    (ring : IsValid c.rcvbuf)
    (read : read_bytes (payload_size s n_bytes) (drop (header_size s) buf) ≡ some payload) where
  -- The state after a payload that was taken, with the ACK that it is answered with.
  abbrev pub taken : Net
  taken =
      let t = tuple_of s ctx in
      let c' = received c s (payload_size s n_bytes) payload in
      emit (reply_frame (with_conn n t c') t c.snd_nxt c'.rcv_nxt ack_flag) (with_conn n t c')

  received-found :
      find (tuple_of s ctx) taken.connections ≡ some (received c s (payload_size s n_bytes) payload)
  received-found = find-assign_self (tuple_of s ctx) _ n.connections

  payload_length : payload_size s n_bytes ≡ length payload
  payload_length = omega (arith, length-read_bytes _ _ read)

  taken_whole :
      s.seq ≡ c.rcv_nxt
      → size c.rcvbuf + length payload ≤ buffer_size
      → on_recv buf n_bytes ctx n ≡ ok tt taken
  taken_whole e fits =
      (in_order_received n buf n_bytes ctx parsed known state payload e read).0
        ((write_all_cases payload ring).0 fits).1

  refused_whole :
      s.seq ≡ c.rcv_nxt
      → buffer_size < size c.rcvbuf + length payload
      → on_recv buf n_bytes ctx n ≡ ok tt n
  refused_whole e big =
      (in_order_received n buf n_bytes ctx parsed known state payload e read).1
        (ap (λ (p : RingBuffer × Bool). p.1) ((write_all_cases payload ring).1 big))

  deliver_taken :
      s.seq ≡ c.rcv_nxt
      → size c.rcvbuf + length payload ≤ buffer_size
      → view (received c s (payload_size s n_bytes) payload) ≡ deliver (view c) s.seq payload
  unfolding deliver
  deliver_taken e fits =
      ground
        (arith, length-contents c.rcvbuf, ((write_all_cases payload ring).0 fits).0, payload_length)

  deliver_refused :
      (s.seq ≢ c.rcv_nxt) ⊎ (buffer_size < size c.rcvbuf + length payload)
      → view c ≡ deliver (view c) s.seq payload
  unfolding deliver
  deliver_refused h = ground (arith, length-contents c.rcvbuf)

  -- Every segment on an established connection with a valid buffer, whose payload lies in the receive
  -- buffer, is handled without an error and moves the stream as `deliver` does, whether it is in order
  -- or not, and whether its payload fits or not. The connection stays established, its buffer valid.
  pub stream_refines :
      (n' : Net) × (c' : TcpConn) × (on_recv buf n_bytes ctx n ≡ ok tt n')
      × (find (tuple_of s ctx) n'.connections ≡ some c')
      × (view c' ≡ deliver (view c) s.seq payload)
      × (c'.state ≡ TcpState.established)
      × IsValid c'.rcvbuf
  stream_refines = elim (Bool-cases (s.seq == c.rcv_nxt)) [
    | inr off ↦ (
      n,
      c,
      out_of_order_ignored n buf n_bytes ctx parsed known state (ground arith),
      known,
      deliver_refused (inl (ground arith)),
      state,
      ring,
    )
    | inl on ↦ elim (Bool-cases (leb (size c.rcvbuf + length payload) buffer_size)) [
      | inl fits ↦ (
        taken,
        received c s (payload_size s n_bytes) payload,
        taken_whole (ground arith) (ground arith),
        received-found,
        deliver_taken (ground arith) (ground arith),
        state,
        write_all-IsValid payload ring,
      )
      | inr big ↦ (
        n,
        c,
        refused_whole (ground arith) (ground arith),
        known,
        deliver_refused (inr (ground arith)),
        state,
        ring,
      )
    ]
  ]

  -- On an established connection with a valid buffer, an in-order payload that leaves a byte of the
  -- buffer free is appended whole, acknowledged up to its last byte, and answered with exactly one
  -- frame.
  pub payload_appended :
      s.seq ≡ c.rcv_nxt
      → size c.rcvbuf + length payload < buffer_size
      → (on_recv buf n_bytes ctx n ≡ ok tt taken)
        × (contents (received c s (payload_size s n_bytes) payload).rcvbuf
            ≡ contents c.rcvbuf ++ payload)
        × ((received c s (payload_size s n_bytes) payload).rcv_nxt
            ≡ u32 (c.rcv_nxt + length payload))
  payload_appended e fits = (
    taken_whole e (omega arith),
    (write_all_fits payload ring fits).0,
    omega (arith, payload_length),
  )

  -- On an established connection with a valid buffer, an in-order payload of exactly the capacity that
  -- the buffer reports is acknowledged whole, and its last byte is lost.
  pub full_buffer_loses_byte :
      (xs : List ℕ) (x : ℕ)
      → payload ≡ xs ++ x ∷ []
      → s.seq ≡ c.rcv_nxt
      → size c.rcvbuf + length payload ≡ buffer_size
      → (on_recv buf n_bytes ctx n ≡ ok tt taken)
        × ((received c s (payload_size s n_bytes) payload).rcv_nxt
            ≡ u32 (c.rcv_nxt + length payload))
        × (contents (received c s (payload_size s n_bytes) payload).rcvbuf
            ≡ contents c.rcvbuf ++ xs)
  full_buffer_loses_byte xs x split e full = (
    taken_whole e (omega arith),
    omega (arith, payload_length),
    rw split (write_all_loses_last xs x ring (rw split at full)).0,
  )

-- On an established connection, a data offset past the end of an in-order segment makes the length of
-- the payload wrap round, so that the copy leaves any receive buffer of less than 65476 bytes.
pub overlong_header_faults :
    (n : Net) (buf : List ℕ) (n_bytes : ℕ) (ctx : L3Context) {s : TcpSegment} {c : TcpConn}
    → to_segment buf ≡ some s
    → find (tuple_of s ctx) n.connections ≡ some c
    → c.state ≡ TcpState.established
    → s.seq ≡ c.rcv_nxt
    → s.data_offset < 2 ^ 8
    → n_bytes < header_size s
    → length buf < 65476
    → on_recv buf n_bytes ctx n ≡ fault
overlong_header_faults n buf n_bytes ctx {s} parsed known state e byte short room =
    payload_outside_faults n buf n_bytes ctx parsed known state e (
      read_bytes_outside (payload_size s n_bytes) (drop (header_size s) buf)
        (omega (arith, length-drop (header_size s) buf)))
