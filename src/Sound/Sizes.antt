-- ===== src/Sound/Sizes.antt =====
-- Sizes and reads that stay inside a buffer, and operations that end.
use dnet_core.Base.{ℕ, ◌-◌, ◌≤◌, ◌<◌, ◌^◌, ◌≡◌, List, arith, length}
use dnet_core.Words.{sub_size}
use dnet_core.Addr.{Ipv4Address}
use dnet_core.Memory.{read_bytes}
use dnet_core.Memory.Laws.{read_bytes_inside}
use dnet_core.Net.{Net, M, ◌>>=◌, load}
use dnet_core.Net.Ends.{Ends, Ends-ok, Ends-load}
use dnet_core.L3.Packet.{Ipv4Protocol}
use dnet_core.L3.Send.{l4_send}
use dnet_core.L3.Send as L3Send
use dnet_core.Udp.Send as UdpSend
use dnet_core.L3.Output.{send_lem}

-- A header that is not larger than the size is subtracted from it without wrapping.
pub sub_size_lem :
    (size header : ℕ) → header ≤ size → size < 2 ^ 64 → sub_size size header ≡ size - header
sub_size_lem size header h small = omega arith

pub Ends-read :
    {B : Type 0} (size : ℕ) (buf : List ℕ) (f : List ℕ → M B) (n : Net)
    → size ≤ length buf
    → ((bytes : List ℕ) → Ends (f bytes n))
    → Ends ((load (read_bytes size buf) >>= f) n)
Ends-read size buf f n inside h =
    let (bytes, e) = read_bytes_inside size buf inside in Ends-load _ bytes f n e (h bytes)

-- `L3::send` always ends.
pub Ends-send :
    (src target : Ipv4Address) (p : Ipv4Protocol) (buf : List ℕ) (n : Net)
    → Ends (L3Send.send src target p buf n)
Ends-send src target p buf n = Ends-ok _ (send_lem n src target p buf)

pub Ends-udp_send :
    (buf : List ℕ) (dest : Ipv4Address) (dest_port : ℕ) (src : Ipv4Address) (src_port : ℕ) (n : Net)
    → Ends (UdpSend.send buf dest dest_port src src_port n)
unfolding UdpSend.send l4_send
Ends-udp_send buf dest dest_port src src_port n = Ends-send src dest Ipv4Protocol.udp _ n
