-- ===== src/Dns/Serve.antt =====
-- A question from the bytes that arrive to the datagram that leaves.
use dnet_core.Base.{
  ℕ, ◌+◌, ◌*◌, ◌/◌, ◌<◌, ◌≤◌, ◌%◌, ◌^◌, ◌≡◌, ◌∙◌, false, leb, ap, subst, append_assoc, List, [],
  ◌∷◌, ◌++◌, map, some, arith, length, length-append,
}
use dnet_core.Words.{U16Be, be16, bytes16}
use dnet_core.Addr.{MacAddress, Ipv4Address}
use dnet_core.Net.{Net, ok, fault, emit, load, dnet_assert}
use dnet_core.L3.Packet.{Ipv4Protocol}
use dnet_core.L3.Send.{l4_send}
use dnet_core.L3.Output.{output, send_lem, next_hop, packet_frame, sent_packet}
use dnet_core.Udp.Datagram.{bytes_datagram}
use dnet_core.Udp.Send.{make_datagram}
use dnet_core.Udp.Send as UdpSend
use dnet_core.Dns.Record.{RecordKey, RecordValue}
use dnet_core.Dns.Name.{buf_size, to_lower}
use dnet_core.Dns.Header.{to_header}
use dnet_core.Dns.Register.{encode_name}
use dnet_core.Dns.NameLaws.{AllLabels, labels_of, NoNul, read_name-encode_name}
use dnet_core.Dns.Sections.{AllHeld, sections}
use dnet_core.Dns.Response.Whole.{counted, append_answers-counted}
use dnet_core.Memory.{read_bytes}
use dnet_core.Memory.Laws.{read_bytes-append, read_bytes_all}
use dnet_core.Dns.{Records, answers, copy_request, respond, on_recv}

-- A datagram of the name server from its port to the one that asked.
abbrev pub dns_frame : Net → Ipv4Address → ℕ → Ipv4Address → ℕ → List ℕ → List ℕ
dns_frame n src src_port dest dest_port response =
    output n dest src Ipv4Protocol.udp (bytes_datagram (make_datagram response src_port dest_port))

-- The frame of a packet with that datagram to the hardware address `mac`.
abbrev pub dns_packet : Net → MacAddress → Ipv4Address → ℕ → Ipv4Address → ℕ → List ℕ → List ℕ
dns_packet n mac src src_port dest dest_port response =
    packet_frame n mac dest src Ipv4Protocol.udp
      (bytes_datagram (make_datagram response src_port dest_port))

dns_sends :
    (n : Net) (response : List ℕ) (src : Ipv4Address) (src_port : ℕ) (dest : Ipv4Address) (port : ℕ)
    → UdpSend.send response src src_port dest port n
      ≡ ok tt (emit (dns_frame n src src_port dest port response) n)
unfolding UdpSend.send l4_send
dns_sends n response src src_port dest port = send_lem n dest src Ipv4Protocol.udp _

-- The counts of a header but that of the questions.
pub record Counts : Type 0 where
  pub answers : U16Be
  pub authority : U16Be
  pub additional : U16Be

-- The header of a message of one question, before `tail`.
abbrev query_header : ℕ × ℕ → Counts → ℕ → ℕ → List ℕ → List ℕ
query_header ids ans flags codes tail =
    ids.0 ∷ ids.1 ∷ flags ∷ codes ∷ 0 ∷ 1 ∷ ans.answers.b0 ∷ ans.answers.b1 ∷ ans.authority.b0
    ∷ ans.authority.b1 ∷ ans.additional.b0 ∷ ans.additional.b1 ∷ tail

-- A message of one question: the two bytes of its identifier, its counts, the two bytes of flags, the
-- name, the type, class IN, and what follows the question.
abbrev pub query_bytes : ℕ × ℕ → Counts → ℕ → ℕ → List ℕ → ℕ → List ℕ → List ℕ
query_bytes ids ans flags codes text qtype rest =
    query_header ids ans flags codes (encode_name text ++ (bytes16 (be16 qtype) ++ 0 ∷ 1 ∷ rest))

-- The answer to such a message with the records `rs`: QR and AA are set, the records are counted and
-- stand behind the question, and the other sections are empty; the rest is the question's.
abbrev pub answer_bytes : ℕ × ℕ → ℕ → ℕ → List ℕ → ℕ → Records → List ℕ
answer_bytes ids flags codes text qtype rs =
    query_bytes ids
      (record { answers = be16 (length rs % 2 ^ 16); authority = be16 0; additional = be16 0 })
      (2 ^ 7 + flags / 2 ^ 3 * 2 ^ 3 + 2 ^ 2 + flags % 2 ^ 2) codes text qtype (sections 1 rs)

module _ (n : Net) (ids : ℕ × ℕ) (ans : Counts) (flags codes : ℕ) (text rest : List ℕ)
    (qtype size : ℕ) (src dest : Ipv4Address) (src_port dest_port : ℕ) (query : flags < 2 ^ 7)
    (known_type : qtype < 2 ^ 16) (labels : AllLabels (labels_of text)) (clean : NoNul text)
    (short : length text < buf_size) where
  abbrev bytes : List ℕ
  bytes = query_bytes ids ans flags codes text qtype rest

  abbrev question_end : ℕ
  question_end = length (encode_name text) + 16

  reaches :
      {response : List ℕ}
      → respond bytes size question_end 1 (answers qtype (map to_lower text) n.dns_records)
        ≡ some response
      → on_recv bytes size src src_port dest dest_port n
        ≡ ok tt (emit (dns_frame n src src_port dest dest_port response) n)
  unfolding to_header load dnet_assert on_recv
  reaches {response} e =
      let named =
        read_name-encode_name text (bytes16 (be16 qtype) ++ 0 ∷ 1 ∷ rest) labels clean short in
      ground (
        arith,
        named,
        length-append (encode_name text) (bytes16 (be16 qtype) ++ 0 ∷ 1 ∷ rest),
        dns_sends n response src src_port dest dest_port,
      )

  copied_whole :
      size ≡ length bytes → length bytes ≤ buf_size → copy_request size bytes ≡ some bytes
  unfolding copy_request
  copied_whole whole fits =
      let r : read_bytes size bytes ≡ some bytes = rw whole (read_bytes_all bytes) in ground arith

  -- The question without what follows it.
  abbrev question : List ℕ
  question = query_bytes ids ans flags codes text qtype []

  copied_question : question_end ≤ buf_size → copy_request question_end bytes ≡ some question
  unfolding copy_request
  copied_question fits =
      let tail = bytes16 (be16 qtype) ++ 0 ∷ 1 ∷ [] in
      let long : length question ≡ question_end =
        omega (arith, length-append (encode_name text) tail) in
      let whole : question ++ rest ≡ bytes =
        ap (λ t. query_header ids ans flags codes t) (append_assoc (encode_name text) tail rest) in
      let r : read_bytes question_end bytes ≡ some question =
        subst (λ k. read_bytes k bytes ≡ some question) long
          (subst (λ b. read_bytes (length question) b ≡ some question) whole
            (read_bytes-append question rest)) in
      ground arith

  answered_bytes :
      (r : RecordKey × RecordValue) (rs : Records)
      → AllHeld (r ∷ rs)
      → question_end + length (sections 1 (r ∷ rs)) ≤ buf_size
      → respond bytes size question_end 1 (r ∷ rs)
        ≡ some (answer_bytes ids flags codes text qtype (r ∷ rs))
  unfolding respond
  answered_bytes r rs held fits =
      let tail = bytes16 (be16 qtype) ++ 0 ∷ 1 ∷ [] in
      let q = flags % 2 ^ 7 + 2 ^ 7 in
      let flag = q / 2 ^ 3 * 2 ^ 3 + 2 ^ 2 + q % 2 ^ 2 in
      let flag' = 2 ^ 7 + flags / 2 ^ 3 * 2 ^ 3 + 2 ^ 2 + flags % 2 ^ 2 in
      let asked = encode_name text ++ tail in
      let count = length (r ∷ rs) % 2 ^ 16 in
      let appended =
        append_answers-counted ids.0 ids.1 flag codes 0 1 1 0 (0 ∷ 0 ∷ 0 ∷ 0 ∷ asked) (r ∷ rs)
          (omega arith) held (omega (arith, fits, length-append (encode_name text) tail)) in
      (rw (copied_question (omega (arith, fits))) appended)
      ∙ ap
          (λ k.
            some (
              counted ids.0 ids.1 flag codes 0 1 k
                (0 ∷ 0 ∷ 0 ∷ 0 ∷ (asked ++ sections 1 (r ∷ rs)))))
          {x = (0 + length (r ∷ rs)) % 2 ^ 16} {y = count} (omega arith)
      ∙ ap
          (λ f. some (
            counted ids.0 ids.1 f codes 0 1 count (0 ∷ 0 ∷ 0 ∷ 0 ∷ (asked ++ sections 1 (r ∷ rs)))))
          {x = flag} {y = flag'} (omega (arith, query))
      ∙ ap (λ t. some (counted ids.0 ids.1 flag' codes 0 1 count (0 ∷ 0 ∷ 0 ∷ 0 ∷ t)))
          (append_assoc (encode_name text) tail (sections 1 (r ∷ rs)))

  -- A query of one question of class IN, for a text of up to 511 bytes with labels of 1 to 255 bytes and
  -- no NUL, whatever follows the question and whatever other records the header announces, is answered
  -- with one UDP datagram to its sender, in a packet to the next hop that is known for it, when the table
  -- has records of the type asked for, or else aliases, under the name in lower case, which lead to as
  -- many bytes as they say and fit into 512 bytes behind the question. The answer is the header of the
  -- query with QR and AA set, those records counted and the other two sections empty, then the question,
  -- and then one resource record for each of the records, in the order of the table.
  pub question_answered :
      {mac : MacAddress} (r : RecordKey × RecordValue) (rs : Records)
      → next_hop n src ≡ some mac
      → answers qtype (map to_lower text) n.dns_records ≡ r ∷ rs
      → AllHeld (r ∷ rs)
      → length (encode_name text) + 16 + length (sections 1 (r ∷ rs)) ≤ buf_size
      → on_recv bytes size src src_port dest dest_port n
        ≡ ok tt (
            emit
              (dns_packet n mac src src_port dest dest_port
                (answer_bytes ids flags codes text qtype (r ∷ rs)))
              n)
  question_answered r rs hop found held fits =
      sent_packet n n dest src Ipv4Protocol.udp _ hop
        (reaches (ap (respond bytes size question_end 1) found ∙ answered_bytes r rs held fits))

  -- A query of one question of class IN, for a text of up to 511 bytes with labels of 1 to 255 bytes and
  -- no NUL that has, in lower case, neither a record of the type asked for nor an alias, is answered with
  -- one UDP datagram to its sender, in a packet to the next hop that is known for it, when the whole
  -- message fits into 512 bytes. The answer is the message itself, with QR set and the response code
  -- cleared.
  pub question_unanswered :
      {mac : MacAddress}
      → next_hop n src ≡ some mac
      → answers qtype (map to_lower text) n.dns_records ≡ []
      → size ≡ length bytes
      → length bytes ≤ buf_size
      → let response =
          query_bytes ids ans (flags + 2 ^ 7) (codes / 2 ^ 4 * 2 ^ 4) text qtype rest in
        on_recv bytes size src src_port dest dest_port n
        ≡ ok tt (emit (dns_packet n mac src src_port dest dest_port response) n)
  unfolding respond
  question_unanswered hop unknown whole fits =
      let flagged : flags % 2 ^ 7 + 2 ^ 7 ≡ flags + 2 ^ 7 = omega (arith, query) in
      let answered : respond bytes size question_end 1 []
          ≡ some (query_bytes ids ans (flags + 2 ^ 7) (codes / 2 ^ 4 * 2 ^ 4) text qtype rest) =
        rw (copied_whole whole fits) (
          ap (λ f. some (query_bytes ids ans f (codes / 2 ^ 4 * 2 ^ 4) text qtype rest)) flagged) in
      sent_packet n n dest src Ipv4Protocol.udp _ hop
        (reaches (ap (respond bytes size question_end 1) unknown ∙ answered))

  -- A query of one question of class IN, for a text of up to 511 bytes with labels of 1 to 255 bytes and
  -- no NUL that has, in lower case, neither a record of the type asked for nor an alias, in a message of
  -- more than 512 bytes by the size that the name server is told, is copied whole, which leaves
  -- `response_buf`.
  pub long_question_faults :
      answers qtype (map to_lower text) n.dns_records ≡ []
      → buf_size < size
      → on_recv bytes size src src_port dest dest_port n ≡ fault
  unfolding to_header load dnet_assert on_recv respond copy_request
  long_question_faults unknown long =
      let named =
        read_name-encode_name text (bytes16 (be16 qtype) ++ 0 ∷ 1 ∷ rest) labels clean short in
      let too_long : leb size buf_size ≡ false = ground (arith, long) in
      ground (
        arith,
        named,
        unknown,
        too_long,
        length-append (encode_name text) (bytes16 (be16 qtype) ++ 0 ∷ 1 ∷ rest),
      )
