-- ===== src/Icmp/Echo.antt =====
-- Echo requests and what they are answered with.
use dnet_core.Base.{ℕ, ◌+◌, ◌<◌, ◌≤◌, ◌^◌, ◌≡◌, ◌≢◌, ◌↔◌, List, [], ◌∷◌, ◌++◌, length, some, arith}
use dnet_core.Words.{U32Be, sub_size, bytes32}
use dnet_core.Words.Laws.{IsWord32}
use dnet_core.Addr.{Ipv4Address}
use dnet_core.Checksum.{checksum_16bit_be}
use dnet_core.Checksum.Fold.{IsBytes, max_len, FoldsOnce}
use dnet_core.Checksum.Fill.{fill-verifies}
use dnet_core.Memory.{read_bytes}
use dnet_core.Memory.Laws.{read_bytes_outside}
use dnet_core.Net.{Net, ok, thrown, fault, emit, load, dnet_assert, checksum_mismatch}
use dnet_core.L3.Packet.{Ipv4Protocol}
use dnet_core.L3.Output.{output, send_lem}
use dnet_core.Icmp.Datagram.{IcmpDatagram, to_datagram, bytes_datagram}
use dnet_core.Icmp.{blank_datagram, make_datagram, send, handle, to_icmp_type, on_recv}

-- The checksum of a datagram that `send` builds passes the test of `on_recv` exactly when the sum
-- over the blank field folds once.
pub make_datagram-verifies :
    (type code : ℕ) (rest : U32Be) (body : List ℕ)
    → type < 2 ^ 8
    → code < 2 ^ 8
    → IsWord32 rest
    → IsBytes body
    → length body + 8 ≤ max_len
    → (checksum_16bit_be (bytes_datagram (make_datagram type code rest body)) ≡ 0)
      ↔ FoldsOnce (bytes_datagram (blank_datagram type code rest body))
unfolding make_datagram
make_datagram-verifies type code rest body ht hc hr hb hl =
    fill-verifies (type ∷ code ∷ []) (bytes32 rest ++ body) (omega arith)
      (ht, (hc, (omega arith, (omega arith, (hr.0, (hr.1, (hr.2, (hr.3, hb)))))))) (omega arith)

module _ (n : Net) (buf : List ℕ) (size : ℕ) (src dest : Ipv4Address) {d : IcmpDatagram}
    {whole : List ℕ} (parsed : to_datagram buf ≡ some d)
    (summed : read_bytes size buf ≡ some whole) where
  -- A datagram with a wrong checksum is refused, and nothing changes.
  pub bad_checksum_refused :
      checksum_16bit_be whole ≢ 0 → on_recv buf size src dest n ≡ thrown checksum_mismatch n
  unfolding load dnet_assert on_recv
  bad_checksum_refused h = ground arith

  -- The frame that it sends for an echo request with a right checksum, whose data lies in the receive
  -- buffer.
  pub echo_request_answered :
      {body : List ℕ}
      → checksum_16bit_be whole ≡ 0
      → d.type ≡ 8
      → read_bytes (sub_size size 8) d.payload ≡ some body
      → on_recv buf size src dest n
        ≡ ok tt (
            emit
              (output n dest src Ipv4Protocol.icmp
                (bytes_datagram (make_datagram 0 0 d.rest_of_header body)))
              n)
  unfolding load dnet_assert on_recv to_icmp_type handle send
  echo_request_answered {body} h e r = ground (
    arith,
    send_lem n dest src Ipv4Protocol.icmp
        (bytes_datagram (make_datagram 0 0 d.rest_of_header body)),
  )

  -- An echo request whose size is less than that of the ICMP header makes the length of its data wrap
  -- round, so that the copy leaves the receive buffer, whatever the buffer holds.
  pub short_request_faults :
      checksum_16bit_be whole ≡ 0
      → d.type ≡ 8
      → size < 8
      → length d.payload < 2 ^ 63
      → on_recv buf size src dest n ≡ fault
  unfolding load dnet_assert on_recv to_icmp_type handle send
  short_request_faults h e small fits =
      ground (arith, read_bytes_outside (sub_size size 8) d.payload (omega arith))
