-- ===== src/Tcp/Safe.antt =====
-- `TCP::on_recv` on any segment, from any table that keeps the invariant.
use dnet_core.Base.{
  ℕ, ◌≡◌, refl, sym, subst, inl, inr, List, none, some, ◌&&◌, ◌==◌, arith, drop, Bool-cases,
  Option-cases,
}
use dnet_core.Memory.{read_bytes}
use dnet_core.Dict.{find}
use dnet_core.RingBuffer.{write_all}
use dnet_core.RingBuffer.Bounds.{fresh-IsValid, write_all-IsValid}
use dnet_core.Net.{Net, Outcome, ok, thrown, fault, emit, load}
use dnet_core.Net.Rules.{After}
use dnet_core.Net.Advance.{Advances, Advances-refl, same, one}
use dnet_core.L3.Packet.{L3Context}
use dnet_core.Tcp.Conn.{TcpConnTuple, tuple_key, TcpState, TcpConn}
use dnet_core.Tcp.Segment.{TcpSegment, has_syn, has_ack, to_segment}
use dnet_core.Tcp.Invariant.{
  Phase, opening, open_phase, ConnOk, ConnsOk, assign-ConnsOk, find-ConnOk,
}
use dnet_core.Tcp.Handshake.{listening, with_conn, syn_opens, stray_dropped, syn_recved_lem}
use dnet_core.Tcp.Data.{received, out_of_order_ignored, in_order_received, payload_outside_faults}
use dnet_core.Tcp.{tuple_of, opened, header_size, payload_size, on_recv}

-- The operation throws nothing, and `P` holds of the state in which it ends.
abbrev pub Lands : {A : Type 0} → (Net → Type 0) → Outcome A → Type 0
Lands P (ok a n) = P n
Lands P (thrown e n) = ⊥
Lands P fault = Unit {0}

pub After-Lands : {A : Type 0} (P : Net → Type 0) (o : Outcome A) → Lands P o → After P o
unfolding After
After-Lands P (ok a n) h = h
After-Lands P (thrown e n) h = absurd h
After-Lands P fault h = tt

Advances-conn :
    (n : Net) (t : TcpConnTuple) {c : TcpConn}
    → ConnOk c
    → ConnsOk n.connections
    → Advances n (with_conn n t c)
Advances-conn n t {c} good h = record {
  mac_kept = refl;
  tap_mac_kept = refl;
  subnet_kept = refl;
  records_kept = refl;
  sends = same refl;
  conns = assign-ConnsOk t c n.connections good h;
}

Advances-conn_emit :
    (n : Net) (t : TcpConnTuple) {c : TcpConn} (frame : List ℕ)
    → ConnOk c
    → ConnsOk n.connections
    → Advances n (emit frame (with_conn n t c))
Advances-conn_emit n t {c} frame good h = record {
  mac_kept = refl;
  tap_mac_kept = refl;
  subnet_kept = refl;
  records_kept = refl;
  sends = one frame refl;
  conns = assign-ConnsOk t c n.connections good h;
}

opened-ConnOk : (t : TcpConnTuple) (s : TcpSegment) (isn : ℕ) → ConnOk (opened (listening t) s isn)
opened-ConnOk t s isn = record {
  phase = opening refl (omega arith);
  ring = fresh-IsValid (λ _. 0);
  rcv_nxt_in = omega arith;
  snd_nxt_in = omega arith;
}

established-ConnOk :
    {c : TcpConn} (s : TcpSegment)
    → ConnOk c
    → s.ack ≡ c.snd_nxt
    → ConnOk (record c { state = TcpState.established; snd_una = s.ack })
established-ConnOk s v e = record {
  phase = open_phase refl e;
  ring = v.ring;
  rcv_nxt_in = v.rcv_nxt_in;
  snd_nxt_in = v.snd_nxt_in;
}

received-ConnOk :
    {c : TcpConn} (s : TcpSegment) (len : ℕ) (payload : List ℕ)
    → ConnOk c
    → c.state ≡ TcpState.established
    → c.snd_una ≡ c.snd_nxt
    → ConnOk (received c s len payload)
received-ConnOk s len payload v e acked = record {
  phase = open_phase e acked;
  ring = write_all-IsValid payload v.ring;
  rcv_nxt_in = omega arith;
  snd_nxt_in = v.snd_nxt_in;
}

pub short_faults :
    (n : Net) (buf : List ℕ) (size : ℕ) (ctx : L3Context)
    → to_segment buf ≡ none
    → on_recv buf size ctx n ≡ fault
unfolding load on_recv
short_faults n buf size ctx e = ground arith

module _ (n : Net) (buf : List ℕ) (size : ℕ) (ctx : L3Context) (inv : ConnsOk n.connections) where
  Goal : Type 0
  Goal = Lands (Advances n) (on_recv buf size ctx n)

  ends : {n' : Net} → on_recv buf size ctx n ≡ ok tt n' → Advances n n' → Goal
  unfolding Goal
  ends e a = subst (Lands (Advances n)) (sym e) a

  unknown :
      {s : TcpSegment} → to_segment buf ≡ some s → find (tuple_of s ctx) n.connections ≡ none → Goal
  unknown {s} p e = elim (Bool-cases (has_syn s)) [
    | inl syn ↦
        ends (syn_opens n buf size ctx p e syn)
          (Advances-conn_emit n (tuple_of s ctx) _ (opened-ConnOk (tuple_of s ctx) s n.rand) inv)
    | inr no_syn ↦ ends (stray_dropped n buf size ctx p e no_syn) (Advances-refl n inv)
  ]

  module _ {s : TcpSegment} {c : TcpConn} (p : to_segment buf ≡ some s)
      (e : find (tuple_of s ctx) n.connections ≡ some c) where
    good : ConnOk c
    good = find-ConnOk (tuple_of s ctx) c n.connections inv e

    half_open : c.state ≡ TcpState.syn_recved → Goal
    half_open st = elim (Bool-cases (has_ack s && s.ack == c.snd_nxt)) [
      | inl acked ↦
          ends (rw acked at (syn_recved_lem n buf size ctx p e st))
            (Advances-conn n (tuple_of s ctx) (established-ConnOk s good (ground arith)) inv)
      | inr other ↦ ends (rw other at (syn_recved_lem n buf size ctx p e st)) (Advances-refl n inv)
    ]

    in_order : c.state ≡ TcpState.established → c.snd_una ≡ c.snd_nxt → s.seq ≡ c.rcv_nxt → Goal
    unfolding Goal
    in_order st acked seq =
        elim (Option-cases (read_bytes (payload_size s size) (drop (header_size s) buf))) [
          | inl outside ↦
              subst (Lands (Advances n))
                (sym (payload_outside_faults n buf size ctx p e st seq outside)) tt
          | inr (payload, r) ↦ elim (Bool-cases (write_all c.rcvbuf payload).1) [
            | inl done ↦ ends ((in_order_received n buf size ctx p e st payload seq r).0 done) (
                Advances-conn_emit n (tuple_of s ctx) _ (received-ConnOk s _ payload good st acked)
                  inv)
            | inr full ↦
                ends ((in_order_received n buf size ctx p e st payload seq r).1 full)
                  (Advances-refl n inv)
          ]
        ]

    established : c.state ≡ TcpState.established → c.snd_una ≡ c.snd_nxt → Goal
    established st acked = elim (Bool-cases (s.seq == c.rcv_nxt)) [
      | inl seq ↦ in_order st acked (ground arith)
      | inr off ↦
          ends (out_of_order_ignored n buf size ctx p e st (ground arith)) (Advances-refl n inv)
    ]

    in_phase : Phase c → Goal
    in_phase (opening st next) = half_open st
    in_phase (open_phase st acked) = established st acked

  -- From a table in order, every segment leaves the table in order, sends at most one frame, and
  -- neither assertion of `on_recv` fails: the states other than LISTEN, SYN_RECVED and ESTABLISHED
  -- are never met. It says nothing of a segment whose handling is undefined.
  pub on_recv_safe : Lands (Advances n) (on_recv buf size ctx n)
  unfolding Goal
  on_recv_safe = elim (Option-cases (to_segment buf)) [
    | inl short ↦ subst (Lands (Advances n)) (sym (short_faults n buf size ctx short)) tt
    | inr (s, p) ↦ elim (Option-cases (find (tuple_of s ctx) n.connections)) [
      | inl e ↦ unknown p e
      | inr (c, e) ↦ in_phase p e (good p e).phase
    ]
  ]
