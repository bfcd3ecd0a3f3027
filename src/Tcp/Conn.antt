-- ===== src/Tcp/Conn.antt =====
-- layers/L4/tcp/TCP.h: `TcpConnTuple`, `TcpState` and `TcpConn`.
use dnet_core.Base.{ℕ, Bool, true, ◌&&◌, ◌==◌, ◌≡◌, arith}
use dnet_core.Dict.{Key}
use dnet_core.Addr.{Ipv4Address, addr_beq}
use dnet_core.RingBuffer.{RingBuffer, fresh}

pub record TcpConnTuple : Type 0 where
  pub src_ip : Ipv4Address
  pub src_port : ℕ
  pub dest_ip : Ipv4Address
  pub dest_port : ℕ

abbrev pub tuple_beq : TcpConnTuple → TcpConnTuple → Bool
tuple_beq s t =
    addr_beq s.src_ip t.src_ip
    && s.src_port == t.src_port
    && addr_beq s.dest_ip t.dest_ip
    && s.dest_port == t.dest_port

pub tuple_beq_refl : (a : TcpConnTuple) → tuple_beq a a ≡ true
tuple_beq_refl a = ground arith

pub tuple_beq_symm : (a b : TcpConnTuple) → tuple_beq a b ≡ true → tuple_beq b a ≡ true
tuple_beq_symm a b h = ground arith

pub tuple_beq_trans :
    (a b c : TcpConnTuple) → tuple_beq a b ≡ true → tuple_beq b c ≡ true → tuple_beq a c ≡ true
tuple_beq_trans a b c h k = ground arith

instance abbrev pub tuple_key : Key TcpConnTuple
tuple_key = record {
  beq = tuple_beq;
  beq_refl = tuple_beq_refl;
  beq_symm = tuple_beq_symm;
  beq_trans = tuple_beq_trans;
}

pub data TcpState : Type 0 where
  listen syn_sent syn_recved established fin_wait_1 fin_wait_2 : TcpState
  closing_wait closing last_ack time_wait closed : TcpState

pub record TcpConn : Type 0 where
  pub tuple : TcpConnTuple
  pub state : TcpState
  pub snd_una : ℕ
  pub snd_nxt : ℕ
  pub rcv_nxt : ℕ
  pub rcvbuf : RingBuffer
  pub sndbuf : RingBuffer

-- `std::make_shared<TcpConn>()`. The constructor leaves the sequence numbers and the arrays of the
-- buffers as the memory was; here they are 0. `on_recv` sets the numbers before it reads them.
abbrev pub fresh_conn : TcpConn
fresh_conn = record {
  tuple = record { src_ip = zero_addr; src_port = 0; dest_ip = zero_addr; dest_port = 0 };
  state = closed;
  snd_una = 0;
  snd_nxt = 0;
  rcv_nxt = 0;
  rcvbuf = fresh (λ _. 0);
  sndbuf = fresh (λ _. 0);
}
  where
    zero_addr : Ipv4Address
    zero_addr = record { b0 = 0; b1 = 0; b2 = 0; b3 = 0 }
