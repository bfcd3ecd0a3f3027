-- ===== src/Layers/Ping.antt =====
-- An echo request as one stack sends it, and what another does with it, from the link layer up and down.
use dnet_core.Base.{ℕ, ◌+◌, ◌<◌, ◌^◌, List, length}
use dnet_core.Words.{U32Be}
use dnet_core.Words.Laws.{IsWord32}
use dnet_core.Addr.{Ipv4Address}
use dnet_core.Checksum.Fold.{IsBytes}
use dnet_core.Net.{Net}
use dnet_core.L2
use dnet_core.L3
use dnet_core.Icmp
use dnet_core.Icmp.{make_datagram}
use dnet_core.Icmp.Datagram.{bytes_datagram}

module _ (n : Net) (src dest : Ipv4Address) (rest : U32Be) (body : List ℕ) (src_in : IsWord32 src)
    (dest_in : IsWord32 dest) (rest_in : IsWord32 rest) (bytes : IsBytes body)
    (short : length body + 28 < 2 ^ 16) where
  abbrev request : List ℕ
  request = bytes_datagram (make_datagram 8 0 rest body)
