-- ===== src/Tcp/Handshake.antt =====
-- The three-way handshake, from the side of the server: what `TCP::on_recv` does with each segment
-- before a connection is established.
use dnet_core.Base.{◌+◌, ℕ, ◌≡◌, List, none, some, true, false, ◌&&◌, ◌==◌, arith, if◌then◌else◌}
use dnet_core.Words.{u32}
use dnet_core.Dict.{find, assign, assign-assign, find-assign_self}
use dnet_core.Addr.{MacAddress}
use dnet_core.Net.{Net, ok, emit, load}
use dnet_core.L3.Packet.{L3Context, Ipv4Protocol}
use dnet_core.L3.Send.{l4_send}
use dnet_core.L3.Output.{output, send_lem, next_hop, packet_frame, sent_packet}
use dnet_core.Tcp.Conn.{TcpConnTuple, tuple_key, TcpState, TcpConn, fresh_conn}
use dnet_core.Tcp.Segment.{TcpSegment, has_syn, has_ack, syn_ack_flags, to_segment, bytes_segment}
use dnet_core.Tcp.{
  tuple_of, store, admit, the_conn, make_reply, send_reply, opened, on_listen, on_syn_recved,
  dispatch, on_recv,
}

-- The frame of a reply on the connection `t`.
abbrev pub reply_frame : Net → TcpConnTuple → ℕ → ℕ → ℕ → List ℕ
reply_frame n t seq ack flags =
    output n t.dest_ip t.src_ip Ipv4Protocol.tcp (bytes_segment (make_reply t seq ack flags))

-- The frame of the packet with a reply, to the hardware address `mac`.
abbrev pub segment_frame : Net → MacAddress → TcpConnTuple → ℕ → ℕ → ℕ → List ℕ
segment_frame n mac t seq ack flags =
    packet_frame n mac t.dest_ip t.src_ip Ipv4Protocol.tcp
      (bytes_segment (make_reply t seq ack flags))

pub send_reply_lem :
    (n : Net) (t : TcpConnTuple) (seq ack flags : ℕ)
    → send_reply t seq ack flags n ≡ ok tt (emit (reply_frame n t seq ack flags) n)
unfolding send_reply l4_send
send_reply_lem n t seq ack flags = send_lem n t.dest_ip t.src_ip Ipv4Protocol.tcp _

-- The state with a connection written to the table.
abbrev pub with_conn : Net → TcpConnTuple → TcpConn → Net
with_conn n t c = record n { connections = assign t c n.connections }

pub on_listen_lem :
    (n : Net) (t : TcpConnTuple) (c : TcpConn) (s : TcpSegment)
    → let c' = opened c s n.rand in
      let n' = with_conn n t c' in
      on_listen t c s n ≡ ok tt (emit (reply_frame n' t c'.snd_una c'.rcv_nxt syn_ack_flags) n')
unfolding on_listen store
on_listen_lem n t c s = send_reply_lem _ t _ _ syn_ack_flags

-- A new connection as `on_recv` enters it.
abbrev pub listening : TcpConnTuple → TcpConn
listening t = record fresh_conn { tuple = t; state = TcpState.listen }

-- A connection whose SYN is answered: the client's SYN and the server's take one number each.
abbrev pub half_open : TcpConnTuple → ℕ → ℕ → TcpConn
half_open t seq isn = record {
  tuple = t;
  state = TcpState.syn_recved;
  snd_una = u32 isn;
  snd_nxt = u32 (u32 isn + 1);
  rcv_nxt = u32 (seq + 1);
  rcvbuf = fresh_conn.rcvbuf;
  sndbuf = fresh_conn.sndbuf;
}

module _ (n : Net) (buf : List ℕ) (size : ℕ) (ctx : L3Context) {s : TcpSegment}
    (parsed : to_segment buf ≡ some s) where
  -- The state and the frame that the first SYN of a connection leads to.
  pub syn_opens :
      find (tuple_of s ctx) n.connections ≡ none
      → has_syn s ≡ true
      → let t = tuple_of s ctx in
        let c = half_open t s.seq n.rand in
        let n' = with_conn n t c in
        on_recv buf size ctx n
        ≡ ok tt (emit (reply_frame n' t c.snd_una c.rcv_nxt syn_ack_flags) n')
  unfolding load on_recv admit store the_conn dispatch
  syn_opens e syn =
      let t = tuple_of s ctx in
      ground (
        arith,
        find-assign_self t (listening t) n.connections,
        on_listen_lem (with_conn n t (listening t)) t (listening t) s,
        assign-assign t (opened (listening t) s n.rand) (listening t) n.connections,
      )

  -- The first SYN of a connection enters it in state SYN_RECVED, with the initial sequence number that
  -- `rand` gave and the client's number plus one expected next, and is answered with one packet to the
  -- hardware address of the next hop, if that is known: a SYN-ACK that carries both.
  pub syn_answered :
      {mac : MacAddress}
      → next_hop n ctx.src_ip ≡ some mac
      → find (tuple_of s ctx) n.connections ≡ none
      → has_syn s ≡ true
      → let t = tuple_of s ctx in
        on_recv buf size ctx n
        ≡ ok tt (
            emit
              (segment_frame n mac t (u32 n.rand) (u32 (s.seq + 1)) syn_ack_flags)
              (with_conn n t (half_open t s.seq n.rand)))
  syn_answered hop e syn =
      let t = tuple_of s ctx in
      let n' = with_conn n t (half_open t s.seq n.rand) in
      sent_packet n' n' t.dest_ip t.src_ip Ipv4Protocol.tcp _ hop (syn_opens e syn)

  -- Any other segment for an unknown connection is dropped without a trace.
  pub stray_dropped :
      find (tuple_of s ctx) n.connections ≡ none
      → has_syn s ≡ false
      → on_recv buf size ctx n ≡ ok tt n
  unfolding load on_recv admit
  stray_dropped e syn = ground arith

  -- On a connection in SYN_RECVED an ACK of the SYN-ACK establishes it; every other segment, another
  -- SYN included, changes nothing and sends nothing.
  pub syn_recved_lem :
      {c : TcpConn}
      → find (tuple_of s ctx) n.connections ≡ some c
      → c.state ≡ TcpState.syn_recved
      → on_recv buf size ctx n
        ≡ ok tt (
            if has_ack s && s.ack == c.snd_nxt
            then with_conn n
                (tuple_of s ctx)
                (record c { state = TcpState.established; snd_una = s.ack })
            else n)
  unfolding load on_recv admit the_conn dispatch on_syn_recved store
  syn_recved_lem e st = ground arith
