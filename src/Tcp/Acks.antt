-- ===== src/Tcp/Acks.antt =====
-- What a connection answers: the frames that its segments are acknowledged with.
use dnet_core.Base.{
  ℕ, ◌+◌, ◌<◌, ◌≡◌, refl, sym, ap, subst, ◌∙◌, List, [], ◌∷◌, ◌++◌, length, length-append,
  append-nil, append_assoc, none, some, true, arith,
}
use dnet_core.Words.{u32}
use dnet_core.Dict.{find, find-assign_self}
use dnet_core.RingBuffer.{buffer_size, size}
use dnet_core.RingBuffer.Refine.{contents, length-contents}
use dnet_core.RingBuffer.Bounds.{IsValid, write_all-IsValid}
use dnet_core.Addr.{MacAddress}
use dnet_core.Net.{Net, ok, emit}
use dnet_core.L3.Output.{output, next_hop, output_known}
use dnet_core.L3.Packet.{Ipv4Protocol}
use dnet_core.Tcp.Conn.{TcpConnTuple, tuple_key, TcpState, TcpConn}
use dnet_core.Tcp.Segment.{ack_flag, has_syn, has_ack, syn_ack_flags}
use dnet_core.Tcp.{on_recv, payload_size}
use dnet_core.Tcp.Data.{received}
use dnet_core.Tcp.Stream.{payload_appended}
use dnet_core.Tcp.Runs.{InFlight, feed, feed_cons, AllConsecutive, joined}
use dnet_core.Tcp.Handshake.{reply_frame, segment_frame, with_conn}
use dnet_core.Tcp.Session.{answered, open_conn, syn_handled, ack_handled}

-- One ACK for each payload, of the number behind it.
abbrev pub acks : {t : TcpConnTuple} → Net → ℕ → ℕ → List (InFlight t) → List (List ℕ)
acks n snd next [] = []
acks {t} n snd next (p ∷ ps) =
    let next' = u32 (next + length p.payload) in
    reply_frame n t snd next' ack_flag ∷ acks n snd next' ps

-- The same, in packets to the hardware address `mac`.
abbrev pub ack_packets :
    {t : TcpConnTuple} → Net → MacAddress → ℕ → ℕ → List (InFlight t) → List (List ℕ)
ack_packets n mac snd next [] = []
ack_packets {t} n mac snd next (p ∷ ps) =
    let next' = u32 (next + length p.payload) in
    segment_frame n mac t snd next' ack_flag ∷ ack_packets n mac snd next' ps

reply_known :
    (n : Net) (t : TcpConnTuple) {mac : MacAddress} (seq ack flags : ℕ)
    → next_hop n t.src_ip ≡ some mac
    → reply_frame n t seq ack flags ≡ segment_frame n mac t seq ack flags
reply_known n t seq ack flags hop = output_known n t.dest_ip t.src_ip Ipv4Protocol.tcp _ hop

acks_known :
    (n : Net) {t : TcpConnTuple} {mac : MacAddress} (snd next : ℕ) (ps : List (InFlight t))
    → next_hop n t.src_ip ≡ some mac
    → acks n snd next ps ≡ ack_packets n mac snd next ps
acks_known n snd next [] hop = refl
acks_known n {t} {mac} snd next (p ∷ ps) hop =
    let next' = u32 (next + length p.payload) in
    ap (λ f. f ∷ acks n snd next' ps) (reply_known n t snd next' ack_flag hop)
    ∙ ap (λ fs. segment_frame n mac t snd next' ack_flag ∷ fs) (acks_known n snd next' ps hop)

-- They depend on the state only by what a reply does.
acks_kept :
    (m n : Net) {t : TcpConnTuple}
    → ((seq ack flags : ℕ) → reply_frame m t seq ack flags ≡ reply_frame n t seq ack flags)
    → (snd next : ℕ) (ps : List (InFlight t)) → acks m snd next ps ≡ acks n snd next ps
acks_kept m n same snd next [] = refl
acks_kept m n {t} same snd next (p ∷ ps) =
    let next' = u32 (next + length p.payload) in
    ap (λ f. f ∷ acks m snd next' ps) (same snd next' ack_flag)
    ∙ ap (λ fs. reply_frame n t snd next' ack_flag ∷ fs) (acks_kept m n same snd next' ps)

-- The state with the connection written back and its ACK sent.
abbrev acked : Net → TcpConnTuple → TcpConn → Net
acked n t c = emit (reply_frame (with_conn n t c) t c.snd_nxt c.rcv_nxt ack_flag) (with_conn n t c)

sent-acked :
    {t : TcpConnTuple} (n : Net) (c : TcpConn) (ps : List (InFlight t))
    → (acked n t c).sent ++ acks (acked n t c) c.snd_nxt c.rcv_nxt ps
      ≡ n.sent ++ reply_frame n t c.snd_nxt c.rcv_nxt ack_flag ∷ acks n c.snd_nxt c.rcv_nxt ps
unfolding output
sent-acked {t} n c ps =
    let frame = reply_frame n t c.snd_nxt c.rcv_nxt ack_flag in
    append_assoc n.sent (frame ∷ []) _
    ∙ ap (λ fs. n.sent ++ frame ∷ fs)
        (acks_kept (acked n t c) n (λ seq ack flags. refl) c.snd_nxt c.rcv_nxt ps)

-- One payload that leaves a byte of the buffer free.
segment_acked :
    {t : TcpConnTuple} (p : InFlight t) (n : Net) (c : TcpConn)
    → find t n.connections ≡ some c
    → c.state ≡ TcpState.established
    → IsValid c.rcvbuf
    → p.segment.seq ≡ c.rcv_nxt
    → size c.rcvbuf + length p.payload < buffer_size
    → let c' = received c p.segment (payload_size p.segment p.size) p.payload in
      (on_recv p.buf p.size p.ctx n ≡ ok tt (acked n t c'))
      × (size c'.rcvbuf ≡ size c.rcvbuf + length p.payload)
      × (c'.rcv_nxt ≡ u32 (c.rcv_nxt + length p.payload))
segment_acked p n c known state ring next room =
    let (handled, stored, moved) =
      payload_appended n p.buf p.size p.ctx {s = p.segment} {c = c} {payload = p.payload} p.parsed
        (rw p.ours known) state ring p.read next room in
    let c' = received c p.segment (payload_size p.segment p.size) p.payload in
    (
      subst (λ u. on_recv p.buf p.size p.ctx n ≡ ok tt (acked n u c')) p.ours handled,
      sym (length-contents c'.rcvbuf)
          ∙ ap length stored
          ∙ omega (arith, length-contents c.rcvbuf, length-append (contents c.rcvbuf) p.payload),
      moved,
    )

acked_run :
    {t : TcpConnTuple} (ps : List (InFlight t)) (n : Net) (c : TcpConn)
    → find t n.connections ≡ some c
    → c.state ≡ TcpState.established
    → IsValid c.rcvbuf
    → AllConsecutive c.rcv_nxt ps
    → size c.rcvbuf + length (joined ps) < buffer_size
    → (n' : Net) × (feed ps n ≡ ok tt n') × (n'.sent ≡ n.sent ++ acks n c.snd_nxt c.rcv_nxt ps)
unfolding feed
acked_run [] n c known state ring next room = (n, refl, sym (append-nil n.sent))
acked_run {t} (p ∷ ps) n c known state ring next room =
    let c' = received c p.segment (payload_size p.segment p.size) p.payload in
    let split = length-append p.payload (joined ps) in
    let (handled, grown, moved) =
      segment_acked p n c known state ring next.0 (omega (arith, room, split)) in
    let (n', rest, frames) =
      acked_run ps (acked n t c') c' (find-assign_self t c' n.connections) state
        (write_all-IsValid p.payload ring) (rw moved next.1) (omega (arith, room, split, grown)) in
    (
      n',
      feed_cons p ps n (acked n t c') n' handled rest,
      frames
          ∙ sent-acked n c' ps
          ∙ ap (λ k. n.sent ++ reply_frame n t c.snd_nxt k ack_flag ∷ acks n c.snd_nxt k ps) moved,
    )

module _ (t : TcpConnTuple) (n : Net) (syn : InFlight t) (unknown : find t n.connections ≡ none)
    (is_syn : has_syn syn.segment ≡ true) (ack : InFlight t) (is_ack : has_ack ack.segment ≡ true)
    (acknowledges : ack.segment.ack ≡ u32 (u32 n.rand + 1)) where
  -- The number behind the client's SYN, the state and the connection once the handshake is over.
  abbrev first : ℕ
  first = u32 (syn.segment.seq + 1)

  abbrev begun : TcpConn
  begun = open_conn t n syn unknown is_syn ack is_ack acknowledges

  abbrev greeted : Net
  greeted = with_conn (answered t n syn unknown is_syn) t begun

  sent-greeted :
      (ps : List (InFlight t))
      → greeted.sent ++ acks greeted begun.snd_nxt first ps
        ≡ n.sent
          ++ reply_frame n t (u32 n.rand) first syn_ack_flags
            ∷ acks n (u32 (u32 n.rand + 1)) first ps
  unfolding output
  sent-greeted ps =
      let frame = reply_frame n t (u32 n.rand) first syn_ack_flags in
      append_assoc n.sent (frame ∷ []) _
      ∙ ap (λ fs. n.sent ++ frame ∷ fs)
          (acks_kept greeted n (λ seq ack' flags. refl) begun.snd_nxt first ps)

  -- A SYN from an unknown peer, the ACK of its SYN-ACK, and then segments that follow each other from
  -- the byte behind the SYN, with payloads that lie in their receive buffers and leave a byte of the
  -- connection's buffer free together, handled one after another with nothing between them, when the next
  -- hop for the peer is known: the frames sent are packets to its hardware address, with one SYN-ACK of
  -- the number behind the SYN, with the number that `rand()` gave, and then one ACK for each payload, of
  -- the number behind it, with the number behind that of the SYN-ACK, in this order and no others.
  pub session_acknowledged :
      {mac : MacAddress} (ps : List (InFlight t))
      → next_hop n t.src_ip ≡ some mac
      → AllConsecutive first ps
      → length (joined ps) < buffer_size
      → (n' : Net) × (feed (syn ∷ ack ∷ ps) n ≡ ok tt n')
        × (n'.sent
            ≡ n.sent
              ++ segment_frame n mac t (u32 n.rand) first syn_ack_flags
                ∷ ack_packets n mac (u32 (u32 n.rand + 1)) first ps)
  session_acknowledged {mac} ps hop next room =
      let (n', handled, frames) =
        acked_run ps greeted begun
          (find-assign_self t begun (answered t n syn unknown is_syn).connections) refl
          (omega arith) next (omega (arith, room)) in
      let later = u32 (u32 n.rand + 1) in
      (
        n',
        feed_cons syn (ack ∷ ps) n (answered t n syn unknown is_syn) n'
            (syn_handled t n syn unknown is_syn)
            (feed_cons ack ps (answered t n syn unknown is_syn) greeted n'
              (ack_handled t n syn unknown is_syn ack is_ack acknowledges) handled),
        frames
            ∙ sent-greeted ps
            ∙ ap (λ f. n.sent ++ f ∷ acks n later first ps)
                (reply_known n t (u32 n.rand) first syn_ack_flags hop)
            ∙ ap (λ fs. n.sent ++ segment_frame n mac t (u32 n.rand) first syn_ack_flags ∷ fs)
                (acks_known n later first ps hop),
      )
