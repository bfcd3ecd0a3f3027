-- ===== src/Dns/Table/Zone.antt =====
-- The table of DNSRecord.h as a zone: what it holds under every name and for every type.
use dnet_core.Base.{
  ℕ, ◌+◌, ◌<◌, ◌≤◌, ◌^◌, ◌*◌, ◌/◌, ◌≡◌, refl, ap, ◌∙◌, subst, List, [], ◌∷◌, ◌++◌, map, some, arith,
  length, length-append, ◌==◌, if◌then◌else◌, Bool-cases, inl, inr,
}
use dnet_core.Words.{be16, bytes16}
use dnet_core.Addr.{MacAddress, Ipv4Address}
use dnet_core.L3.Output.{next_hop}
use dnet_core.Text.{codes}
use dnet_core.Net.{Net, ok, emit}
use dnet_core.Dns.Name.{buf_size, to_lower}
use dnet_core.Dns.Register.{
  type_a, type_ns, type_cname, type_soa, type_aaaa, encode_name, encode_from, label_bytes, Table,
}
use dnet_core.Dns.NameLaws.{AllLabels, labels_of, NoNul, split_from, label_bytes-eq}
use dnet_core.Dns.Answer.{text_beq-eq}
use dnet_core.Dns.Sections.{AllHeld, sections}
use dnet_core.Dns.Serve.{
  Counts, dns_packet, query_bytes, answer_bytes, question_answered, question_unanswered,
}
use dnet_core.Dns.{Records, answers, equal_range, text_beq, on_recv}
use dnet_core.Dns.Table.{
  register_dns_records, register_dns_records_lem, registered, example_com, www_example_com, entry,
  ns_data, soa_data, aaaa_data, test_example_com,
}

length-lower : (s : List ℕ) → length (map to_lower s) ≡ length s
length-lower [] = refl
length-lower (c ∷ s) = omega (arith, length-lower s)

length-encode_from :
    (seen s : List ℕ)
    → AllLabels (split_from seen s)
    → length (encode_from seen s) ≡ length seen + length s + 2
unfolding encode_from
length-encode_from seen [] h =
    omega (arith, ap length (label_bytes-eq seen h.1), length-append (label_bytes seen) (0 ∷ []))
length-encode_from seen (c ∷ s) h = elim (Bool-cases (c == b'.')) [
  | inl dot ↦
      let ok = rw dot at h in
      rw dot (
        omega (
          arith,
          ap length (label_bytes-eq seen ok.1),
          length-append (label_bytes seen) (encode_from [] s),
          length-encode_from [] s ok.2,
        ))
  | inr more ↦ rw more (
      omega
        (arith, length-append seen (c ∷ []), length-encode_from (seen ++ c ∷ []) s (rw more at h)))
]

table_registered : {table : Table} → register_dns_records [] ≡ some table → table ≡ registered
table_registered e = cc (e, register_dns_records_lem)

-- The records of example.com, by their type.
abbrev apex : ℕ → Records
apex qtype =
    if qtype == type_soa
    then entry type_soa example_com soa_data ∷ []
    else if qtype == type_a
    then entry type_a example_com (1 ∷ 2 ∷ 3 ∷ 4 ∷ []) ∷ []
    else if qtype == type_aaaa
    then entry type_aaaa example_com aaaa_data ∷ []
    else if qtype == type_ns
    then entry type_ns example_com (ns_data (codes "ns2"))
      ∷ entry type_ns example_com (ns_data (codes "ns1"))
      ∷ []
    else []

-- The zone: a name in lower case, and a type. The newest record of a key comes first, as libstdc++ keeps
-- them.
unfoldable pub zone : List ℕ → ℕ → Records
zone name qtype =
    if text_beq example_com name
    then apex qtype
    else if text_beq www_example_com name
    then entry type_cname www_example_com test_example_com ∷ []
    else []

answers-apex : (qtype : ℕ) → answers qtype example_com registered ≡ zone example_com qtype
unfolding answers equal_range text_beq zone
answers-apex qtype = ground arith

answers-zone : (name : List ℕ) (qtype : ℕ) → answers qtype name registered ≡ zone name qtype
unfolding answers equal_range zone
answers-zone name qtype = elim (Bool-cases (text_beq example_com name)) [
  | inl here ↦
      subst (λ m. answers qtype m registered ≡ zone m qtype) (text_beq-eq example_com name here)
        (answers-apex qtype)
  | inr other ↦ elim (Bool-cases (text_beq www_example_com name)) [
    | inl www ↦ ground arith
    | inr unknown ↦ ground arith
  ]
]

apex-lem : (qtype : ℕ) → AllHeld (apex qtype) × (length (sections 1 (apex qtype)) ≤ 64)
apex-lem qtype = elim (Bool-cases (qtype == type_soa)) [
  | inl soa ↦ rw soa ((refl, tt), omega arith)
  | inr b ↦ rw b (elim (Bool-cases (qtype == type_a)) [
    | inl a ↦ rw a ((refl, tt), omega arith)
    | inr c ↦ rw c (elim (Bool-cases (qtype == type_aaaa)) [
      | inl aaaa ↦ rw aaaa ((refl, tt), omega arith)
      | inr d ↦ rw d (elim (Bool-cases (qtype == type_ns)) [
        | inl ns ↦ rw ns ((refl, (refl, tt)), omega arith)
        | inr e ↦ rw e (tt, omega arith)
      ])
    ])
  ])
]

-- Its records hold as many bytes as they say, and fit behind a question that fits.
zone-lem :
    (name : List ℕ) (qtype : ℕ)
    → length name + 18 ≤ buf_size
    → AllHeld (zone name qtype)
      × (length name + 18 + length (sections 1 (zone name qtype)) ≤ buf_size)
unfolding zone
zone-lem name qtype short = elim (Bool-cases (text_beq example_com name)) [
  | inl here ↦
      let long : 11 ≡ length name = ap length (text_beq-eq example_com name here) in
      rw here ((apex-lem qtype).0, omega (arith, long, (apex-lem qtype).1))
  | inr other ↦ rw other (elim (Bool-cases (text_beq www_example_com name)) [
    | inl www ↦
        let long : 15 ≡ length name = ap length (text_beq-eq www_example_com name www) in
        rw www ((refl, tt), omega (arith, long))
    | inr unknown ↦ rw unknown (tt, omega (arith, short))
  ])
]

-- The response with the records that answer a question: behind it, or the message itself with QR set and
-- the response code cleared when there are none.
abbrev pub reply_bytes : ℕ × ℕ → Counts → ℕ → ℕ → List ℕ → List ℕ → ℕ → Records → List ℕ
reply_bytes ids ans flags codes text rest qtype [] =
    query_bytes ids ans (flags + 2 ^ 7) (codes / 2 ^ 4 * 2 ^ 4) text qtype rest
reply_bytes ids ans flags codes text rest qtype (r ∷ rs) =
    answer_bytes ids flags codes text qtype (r ∷ rs)

module _ (n : Net) (ids : ℕ × ℕ) (ans : Counts) (flags codes : ℕ) (text rest : List ℕ) (qtype : ℕ)
    (src dest : Ipv4Address) (src_port dest_port : ℕ) (query : flags < 2 ^ 7)
    (known_type : qtype < 2 ^ 16) (labels : AllLabels (labels_of text)) (clean : NoNul text)
    {mac : MacAddress} (hop : next_hop n src ≡ some mac) where
  abbrev pub message : List ℕ
  message = query_bytes ids ans flags codes text qtype rest

  abbrev pub reply : Records → List ℕ
  reply = reply_bytes ids ans flags codes text rest qtype

  served :
      (found : Records)
      → length message ≤ buf_size
      → answers qtype (map to_lower text) n.dns_records ≡ found
      → AllHeld found
      → length text + 18 + length (sections 1 found) ≤ buf_size
      → on_recv message (length message) src src_port dest dest_port n
        ≡ ok tt (emit (dns_packet n mac src src_port dest dest_port (reply found)) n)
  served [] whole e held fits =
      question_unanswered n ids ans flags codes text rest qtype (length message) src dest src_port
        dest_port query known_type labels clean (omega (arith, fits)) hop e refl whole
  served (r ∷ rs) whole e held fits =
      let end' : length text + 18 ≡ length (encode_name text) + 16 =
        omega (arith, length-encode_from [] text labels) in
      question_answered n ids ans flags codes text rest qtype (length message) src dest src_port
        dest_port query known_type labels clean (omega (arith, fits)) r rs hop e held
        (omega (arith, fits, end'))

  -- With the records that `register_dns_records` fills in, every query of one question of class IN, of
  -- any type and for any name with labels of 1 to 255 bytes and no NUL, in a message of up to 512 bytes
  -- with whatever else in it, is answered with one datagram to its sender, in a packet to the next hop
  -- that is known for it. When the zone holds records under the name in lower case for the type, they
  -- stand behind the question, and the header counts them; when it holds none, the answer is the message
  -- with QR set and the response code cleared.
  pub zone_served :
      register_dns_records [] ≡ some n.dns_records
      → length message ≤ buf_size
      → on_recv message (length message) src src_port dest dest_port n
        ≡ ok tt (
            emit
              (dns_packet n mac src src_port dest dest_port
                (reply (zone (map to_lower text) qtype)))
              n)
  zone_served table whole =
      let name = map to_lower text in
      let long : length name ≡ length text = length-lower text in
      let short : length text + 18 ≤ buf_size = omega (
        arith,
        whole,
        length-encode_from [] text labels,
        length-append (encode_name text) (bytes16 (be16 qtype) ++ 0 ∷ 1 ∷ rest),
      ) in
      let fits = zone-lem name qtype (omega (arith, long, short)) in
      served (zone name qtype) whole
        (ap (answers qtype name) (table_registered table) ∙ answers-zone name qtype) fits.0
        (omega (arith, long, fits.1))
