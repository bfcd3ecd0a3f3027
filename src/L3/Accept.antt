-- ===== src/L3/Accept.antt =====
-- The header that `L3::send` builds, as `L3::on_recv` reads it.
use dnet_core.Base.{
  ℕ, ◌+◌, ◌/◌, ◌%◌, ◌^◌, ◌≡◌, ◌≢◌, ◌↔◌, refl, List, [], ◌∷◌, ◌++◌, length, some, arith, ltb, ◌==◌,
  if◌then◌else◌, Bool-cases, inl, inr,
}
use dnet_core.Words.{u8, u16, bytes32}
use dnet_core.Words.Laws.{IsWord32}
use dnet_core.Addr.{Ipv4Address}
use dnet_core.Checksum.{checksum_16bit_be}
use dnet_core.Checksum.Fold.{IsBytes, FoldsOnce, folded, checksum_16bit_be-lt}
use dnet_core.Checksum.Fill.{fill-verifies}
use dnet_core.Memory.{read_bytes}
use dnet_core.Checksum.Reference.{rfc_sum, checksum_16bit_be-eq-zero}
use dnet_core.Memory.Laws.{read_bytes-append, length-read_bytes}
use dnet_core.Net.{
  Net, thrown, load, dnet_assert, version_mismatch, options_unsupported, checksum_mismatch,
}
use dnet_core.Layout.Packets.{FitsPacket, to_packet-bytes_packet}
use dnet_core.L3.Packet.{
  Ipv4Protocol, protocol_code, to_protocol, Ipv4Packet, to_packet, bytes_header, bytes_packet,
}
use dnet_core.L3.Send.{blank_packet, make_packet}
use dnet_core.L3.{dispatch, on_recv}

module _ (n : Net) (buf : List ℕ) (size : ℕ) {h : Ipv4Packet} {header : List ℕ}
    (parsed : to_packet buf ≡ some h) (read : read_bytes 20 buf ≡ some header) where
  pub checked :
      h.version ≡ 4
      → h.ihl ≡ 5
      → (checksum_16bit_be header ≡ 0
          → on_recv buf size n ≡ dispatch (to_protocol h.protocol) h size n)
        × (checksum_16bit_be header ≢ 0 → on_recv buf size n ≡ thrown checksum_mismatch n)
  unfolding load dnet_assert on_recv
  checked v l = (λ e. ground arith, λ e. ground arith)

  -- A header of the right version and length is passed on exactly when its one's complement sum is
  -- 0xffff, and otherwise refused for its checksum with nothing changed.
  pub header_checked :
      h.version ≡ 4
      → h.ihl ≡ 5
      → IsBytes header
      → on_recv buf size n ≡ (
          if rfc_sum header == 0xffff
          then dispatch (to_protocol h.protocol) h size n
          else thrown checksum_mismatch n)
  header_checked v l bytes =
      let z =
        checksum_16bit_be-eq-zero header bytes (omega (arith, length-read_bytes 20 buf read)) in
      elim (Bool-cases (rfc_sum header == 0xffff)) [
        | inl right ↦ rw right ((checked v l).0 (z.1 (ground arith)))
        | inr wrong ↦ rw wrong ((checked v l).1 (λ o. absurd (ground (arith, z.0 o))))
      ]

  -- A header of another version, or with options, is refused with nothing changed.
  pub header_refused :
      (h.version ≢ 4 → on_recv buf size n ≡ thrown version_mismatch n)
      × (h.version ≡ 4 → h.ihl ≢ 5 → on_recv buf size n ≡ thrown options_unsupported n)
  unfolding load dnet_assert on_recv
  header_refused = (λ v. ground arith, λ v l. ground arith)

module _ (src target : Ipv4Address) (p : Ipv4Protocol) (buf : List ℕ) where
  abbrev pub blank_header : List ℕ
  blank_header = bytes_header (blank_packet src target p buf)

  FitsPacket-make_packet : FitsPacket (make_packet src target p buf)
  unfolding make_packet
  FitsPacket-make_packet = record {
    ihl_in = omega arith;
    ecn_in = omega arith;
    total_len_in = omega arith;
    identification_in = omega arith;
    fragment_offset_in = omega arith;
    header_checksum_in = checksum_16bit_be-lt blank_header;
  }

  -- The routine's own test of the header.
  pub header-verifies :
      IsWord32 src
      → IsWord32 target
      → (checksum_16bit_be (bytes_header (make_packet src target p buf)) ≡ 0)
        ↔ FoldsOnce blank_header
  unfolding make_packet
  header-verifies hs ht =
      fill-verifies
        (0x45
          ∷ 0
          ∷ (u16 (20 + length buf) / 2 ^ 8 % 2 ^ 8)
          ∷ (u16 (20 + length buf) % 2 ^ 8)
          ∷ 0
          ∷ 0
          ∷ 0
          ∷ 0
          ∷ 64
          ∷ u8 (protocol_code p)
          ∷ [])
        (bytes32 src ++ bytes32 target) refl (omega arith) (omega arith)

  own_checked :
      (n : Net) (size : ℕ)
      → to_packet (bytes_packet (make_packet src target p buf))
        ≡ some (make_packet src target p buf)
      → read_bytes 20 (bytes_packet (make_packet src target p buf))
        ≡ some (bytes_header (make_packet src target p buf))
      → let h = make_packet src target p buf in
        (checksum_16bit_be (bytes_header h) ≡ 0
          → on_recv (bytes_packet h) size n ≡ dispatch (to_protocol h.protocol) h size n)
        × (checksum_16bit_be (bytes_header h) ≢ 0
            → on_recv (bytes_packet h) size n ≡ thrown checksum_mismatch n)
  unfolding make_packet
  own_checked n size parsed read = checked n _ size parsed read refl refl

  -- A packet that `L3::send` builds is passed on to the layer of its protocol by `L3::on_recv` when
  -- the sum over its blank header folds once, and is refused for its checksum when it does not.
  pub own_packet_lem :
      (n : Net) (size : ℕ)
      → IsWord32 src
      → IsWord32 target
      → let h = make_packet src target p buf in
        on_recv (bytes_packet h) size n ≡ (
          if ltb (folded blank_header) (2 ^ 16)
          then dispatch (to_protocol h.protocol) h size n
          else thrown checksum_mismatch n)
  unfolding make_packet
  own_packet_lem n size hs ht =
      let v = header-verifies hs ht in
      let parsed = to_packet-bytes_packet (make_packet src target p buf) FitsPacket-make_packet in
      let read = read_bytes-append (bytes_header (make_packet src target p buf)) buf in
      let c = own_checked n size parsed read in
      elim (Bool-cases (ltb (folded blank_header) (2 ^ 16))) [
        | inl once ↦ rw once (c.0 (v.1 (ground arith)))
        | inr again ↦ rw again (c.1 (λ o. absurd (ground (arith, v.0 o))))
      ]
