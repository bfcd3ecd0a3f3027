-- ===== src/Tcp/Invariant.antt =====
-- What holds of every connection in the table between two packets.
use dnet_core.Base.{◌+◌, ◌<◌, ◌^◌, ◌≡◌, inl, inr, List, [], ◌∷◌, some, arith, Bool-cases, subst}
use dnet_core.Words.{u32}
use dnet_core.Dict.{find, assign}
use dnet_core.RingBuffer.Bounds.{IsValid}
use dnet_core.Tcp.Conn.{TcpConnTuple, tuple_key, tuple_beq, TcpState, TcpConn}

-- Before the handshake is complete, one number is sent and not acknowledged; after it, none is.
pub data Phase (c : TcpConn) : Type 0 where
  opening : c.state ≡ TcpState.syn_recved → c.snd_nxt ≡ u32 (c.snd_una + 1) → Phase c
  open_phase : c.state ≡ TcpState.established → c.snd_una ≡ c.snd_nxt → Phase c

pub record ConnOk (c : TcpConn) : Type 0 where
  pub phase : Phase c
  pub ring : IsValid c.rcvbuf
  pub rcv_nxt_in : c.rcv_nxt < 2 ^ 32
  pub snd_nxt_in : c.snd_nxt < 2 ^ 32

abbrev pub ConnsOk : List (TcpConnTuple × TcpConn) → Type 0
ConnsOk [] = Unit {0}
ConnsOk ((t, c) ∷ cs) = ConnOk c × ConnsOk cs

pub assign-ConnsOk :
    (t : TcpConnTuple) (c : TcpConn) (cs : List (TcpConnTuple × TcpConn))
    → ConnOk c
    → ConnsOk cs
    → ConnsOk (assign t c cs)
unfolding assign
assign-ConnsOk t c [] h hs = (h, tt)
assign-ConnsOk t c ((u, d) ∷ cs) h hs = ground (arith, assign-ConnsOk t c cs h hs.1)

pub find-ConnOk :
    (t : TcpConnTuple) (c : TcpConn) (cs : List (TcpConnTuple × TcpConn))
    → ConnsOk cs
    → find t cs ≡ some c
    → ConnOk c
unfolding find
find-ConnOk t c [] hs e = cc
find-ConnOk t c ((u, d) ∷ cs) hs e = elim (Bool-cases (tuple_beq u t)) [
  | inl hit ↦ subst ConnOk (ground arith) hs.0
  | inr miss ↦ find-ConnOk t c cs hs.1 (ground arith)
]
