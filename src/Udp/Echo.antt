-- ===== src/Udp/Echo.antt =====
-- Datagrams to the ports that echo.
use dnet_core.Base.{ℕ, ◌<◌, ◌≤◌, ◌^◌, ◌≡◌, ◌≢◌, ◌↔◌, ◌∙◌, List, ◌++◌, length, some, map, arith}
use dnet_core.Words.{sub_size}
use dnet_core.Checksum.{checksum_16bit_be}
use dnet_core.Checksum.Fold.{IsBytes, max_len, FoldsOnce}
use dnet_core.Checksum.Reference.{rfc_checksum, checksum_16bit_be-eq-rfc_checksum}
use dnet_core.Memory.{read_bytes}
use dnet_core.Memory.Laws.{read_bytes_outside}
use dnet_core.Net.{
  Net, ok, thrown, fault, emit, load, dnet_assert, checksum_mismatch, length_mismatch,
}
use dnet_core.L3.Packet.{Ipv4Protocol, L3Context}
use dnet_core.L3.Send.{l4_send}
use dnet_core.L3.Output
use dnet_core.L3.Output.{output}
use dnet_core.L4.Pseudo.{bytes_pseudo}
use dnet_core.Udp.Datagram.{UdpDatagram, to_datagram, bytes_datagram}
use dnet_core.Udp.Send.{make_datagram}
use dnet_core.Udp.Send as UdpSend
use dnet_core.Udp.{dns_port, blank_checksum, verify, to_upper, echo, on_recv}

-- The reply to the data `bytes` of the datagram `d`, as the layer below is given it.
abbrev pub reply_frame : Net → UdpDatagram → L3Context → List ℕ → List ℕ
reply_frame n d ctx bytes =
    output n ctx.dest_ip ctx.src_ip Ipv4Protocol.udp
      (bytes_datagram (make_datagram bytes d.src_port d.dest_port))

udp_send_lem :
    (n : Net) (d : UdpDatagram) (ctx : L3Context) (bytes : List ℕ)
    → UdpSend.send bytes ctx.src_ip d.src_port ctx.dest_ip d.dest_port n
      ≡ ok tt (emit (reply_frame n d ctx bytes) n)
unfolding UdpSend.send l4_send
udp_send_lem n d ctx bytes = Output.send_lem n ctx.dest_ip ctx.src_ip Ipv4Protocol.udp _

-- What the checksum of a datagram covers.
abbrev pub covered : UdpDatagram → L3Context → List ℕ → List ℕ
covered d ctx datagram = bytes_pseudo ctx.src_ip ctx.dest_ip 17 d.len ++ datagram

module _ (n : Net) (buf : List ℕ) (size : ℕ) (ctx : L3Context) {d : UdpDatagram}
    (parsed : to_datagram buf ≡ some d) where
  echo_lem :
      {bytes : List ℕ}
      → read_bytes (sub_size size 8) d.payload ≡ some bytes
      → echo d size ctx n ≡ ok tt (emit (reply_frame n d ctx (map to_upper bytes)) n)
  unfolding load echo
  echo_lem {bytes} read = rw read (udp_send_lem n d ctx (map to_upper bytes))

  unverified :
      d.len ≡ size
      → d.checksum ≡ 0
      → d.dest_port ≢ dns_port
      → on_recv buf size ctx n ≡ echo d size ctx n
  unfolding load dnet_assert verify on_recv
  unverified l c port = ground arith

  -- The length field must be the size of the datagram.
  pub wrong_length_refused : d.len ≢ size → on_recv buf size ctx n ≡ thrown length_mismatch n
  unfolding load dnet_assert on_recv
  wrong_length_refused h = ground arith

  -- A checksum that is present, over a datagram that lies in the receive buffer, is accepted exactly
  -- when it is that of RFC 768 before its exception for zero, given that the sum of what it covers folds
  -- once.
  pub verify_iff :
      {datagram : List ℕ}
      → d.checksum ≢ 0
      → read_bytes size (blank_checksum buf) ≡ some datagram
      → IsBytes (covered d ctx datagram)
      → length (covered d ctx datagram) ≤ max_len
      → FoldsOnce (covered d ctx datagram)
      → (verify buf size d ctx n ≡ ok tt n) ↔ (d.checksum ≡ rfc_checksum (covered d ctx datagram))
  unfolding load dnet_assert verify
  verify_iff {datagram} present read bytes len folds = (
    λ e.
        ground
          (arith, (checksum_16bit_be-eq-rfc_checksum (covered d ctx datagram) bytes len).1 folds),
    λ e.
        ground
          (arith, (checksum_16bit_be-eq-rfc_checksum (covered d ctx datagram) bytes len).1 folds),
  )

  -- RFC 768 sends a checksum that comes out as zero as 0xffff. Every such datagram, if its length field
  -- is its size and it lies in the receive buffer, is refused for its checksum.
  pub all_ones_refused :
      {datagram : List ℕ}
      → d.len ≡ size
      → d.checksum ≡ 0xffff
      → read_bytes size (blank_checksum buf) ≡ some datagram
      → checksum_16bit_be (covered d ctx datagram) ≡ 0
      → on_recv buf size ctx n ≡ thrown checksum_mismatch n
  unfolding load dnet_assert verify on_recv
  all_ones_refused l c read zero = ground arith

  -- A datagram without a checksum, whose length field is its size and whose data lies in the receive
  -- buffer, to any port but that of the name server, goes back to IPv4 for its sender, with the ports
  -- exchanged and its lower-case letters in upper case.
  pub echoed :
      {bytes : List ℕ}
      → d.len ≡ size
      → d.checksum ≡ 0
      → d.dest_port ≢ dns_port
      → read_bytes (sub_size size 8) d.payload ≡ some bytes
      → on_recv buf size ctx n ≡ ok tt (emit (reply_frame n d ctx (map to_upper bytes)) n)
  echoed {bytes} l c port read = unverified l c port ∙ echo_lem read

  -- A datagram whose length field, like its size, is less than the 8 bytes of the header makes the
  -- length of the data to echo wrap round, so that the copy leaves the receive buffer; it has no
  -- checksum and does not go to the name server's port.
  pub short_datagram_faults :
      d.len ≡ size
      → d.checksum ≡ 0
      → d.dest_port ≢ dns_port
      → size < 8
      → length d.payload < 2 ^ 63
      → on_recv buf size ctx n ≡ fault
  unfolding load dnet_assert verify on_recv echo
  short_datagram_faults l c port small fits =
      ground (arith, read_bytes_outside (sub_size size 8) d.payload (omega arith))
