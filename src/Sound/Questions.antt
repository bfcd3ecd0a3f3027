-- ===== src/Sound/Questions.antt =====
-- Messages that the name server reads and answers inside its buffers.
use dnet_core.Base.{
  ℕ, ◌⊎◌, ◌+◌, ◌-◌, ◌<◌, ◌≤◌, ◌≡◌, refl, ap, List, [], ◌∷◌, ◌++◌, map, some, arith, length,
  length-append, drop, ◌==◌, ◌&&◌, Bool-cases, List-cases, inl, inr,
}
use dnet_core.Addr.{Ipv4Address}
use dnet_core.Memory.{field16}
use dnet_core.Memory.Laws.{read_bytes_inside}
use dnet_core.Net.{Net}
use dnet_core.Net.Ends.{Ends, Ends-load, Ends-assert}
use dnet_core.Layout.Inside.{to_header-inside}
use dnet_core.Dns.Register.{type_cname}
use dnet_core.Dns.Name.{buf_size, label_fuel, drop_last_dot, c_string, to_lower, read_name}
use dnet_core.Dns.Header.{DnsHeader, to_header, set_qr, clear_rcode}
use dnet_core.Dns.NameLaws.{wire, dotted, AllNonempty, length-labels, read_labels-wire}
use dnet_core.Dns.Sections.{AllHeld, sections}
use dnet_core.Dns.Total.{respond_total}
use dnet_core.Dns.{
  Records, text_beq, equal_range, answers, copy_request, respond, class_in, on_recv,
}
use dnet_core.Sound.Sizes.{Ends-udp_send}

-- A message of `size` bytes at a pointer: a header, a name of labels that are not empty, and at least
-- the four bytes of type and class. The name fits into `query_name`, the message into `response_buf`,
-- and so does the question with every record of the table behind it.
pub record Question (rs : Records) (buf : List ℕ) (size : ℕ) : Type 0 where
  pub labels : List (List ℕ)
  pub rest : List ℕ
  pub header : DnsHeader
  pub parsed : to_header buf ≡ some header
  pub written : header.payload ≡ wire labels ++ rest
  pub some_label : 0 < length labels
  pub no_empty : AllNonempty labels
  pub type_class : 4 ≤ length rest
  pub name_fits : length (dotted labels) ≤ buf_size
  pub held : AllHeld rs
  pub long : 12 ≤ size
  pub size_fits : size ≤ buf_size
  pub inside : size ≤ length buf
  pub answer_fits : length (wire labels) + 16 + length (sections class_in rs) ≤ buf_size

-- The records under a key are some of the table.
equal_range-AllHeld :
    (rtype : ℕ) (name : List ℕ) (rs : Records) → AllHeld rs → AllHeld (equal_range rtype name rs)
unfolding equal_range
equal_range-AllHeld rtype name [] h = tt
equal_range-AllHeld rtype name ((k, v) ∷ rs) h =
    let rest = equal_range-AllHeld rtype name rs h.1 in
    elim (Bool-cases (k.rtype == rtype && text_beq k.name name)) [
      | inl same ↦ rw same (h.0, rest)
      | inr other ↦ rw other rest
    ]

equal_range-sections :
    (rtype : ℕ) (name : List ℕ) (rs : Records)
    → length (sections class_in (equal_range rtype name rs)) ≤ length (sections class_in rs)
unfolding equal_range
equal_range-sections rtype name [] = omega arith
equal_range-sections rtype name ((k, v) ∷ rs) =
    let rest = equal_range-sections rtype name rs in
    elim (Bool-cases (k.rtype == rtype && text_beq k.name name)) [
      | inl same ↦ rw same (
          omega (
            arith,
            length-append v.rdata (sections class_in rs),
            length-append v.rdata (sections class_in (equal_range rtype name rs)),
            rest,
          ))
      | inr other ↦ rw other (omega (arith, length-append v.rdata (sections class_in rs), rest))
    ]

-- The records that answer are those under one of two keys.
answers-equal_range :
    (qtype : ℕ) (name : List ℕ) (rs : Records)
    → (answers qtype name rs ≡ equal_range qtype name rs)
      ⊎ (answers qtype name rs ≡ equal_range type_cname name rs)
unfolding answers
answers-equal_range qtype name rs = elim (List-cases (equal_range qtype name rs)) [
  | inl e ↦ inr (ground arith)
  | inr (r, found, e) ↦ inl (ground arith)
]

answers_lem :
    (qtype : ℕ) (name : List ℕ) (rs : Records)
    → AllHeld rs
    → AllHeld (answers qtype name rs)
      × (length (sections class_in (answers qtype name rs)) ≤ length (sections class_in rs))
answers_lem qtype name rs held = elim (answers-equal_range qtype name rs) [
  | inl e ↦ rw e (equal_range-AllHeld qtype name rs held, equal_range-sections qtype name rs)
  | inr e ↦
      rw e (equal_range-AllHeld type_cname name rs held, equal_range-sections type_cname name rs)
]

respond_ends :
    (buf : List ℕ) (size question_end : ℕ) (rs : Records)
    → 12 ≤ question_end
    → question_end ≤ length buf
    → size ≤ buf_size
    → size ≤ length buf
    → AllHeld rs
    → question_end + length (sections class_in rs) ≤ buf_size
    → (response : List ℕ) × (respond buf size question_end class_in rs ≡ some response)
unfolding respond copy_request
respond_ends buf size question_end [] room inside short whole held fits =
    let (b, e) = read_bytes_inside size buf whole in (clear_rcode (set_qr b), ground arith)
respond_ends buf size question_end (r ∷ rs) room inside short whole held fits =
    let (response, e, _, _) =
      respond_total buf size question_end class_in r rs room inside held fits in
    (response, e)

drop_last_dot-some : (s : List ℕ) → 0 < length s → (t : List ℕ) × (drop_last_dot s ≡ some t)
unfolding drop_last_dot
drop_last_dot-some [] h = absurd (omega arith)
drop_last_dot-some (c ∷ []) h = ([], refl)
drop_last_dot-some (c ∷ d ∷ s) h =
    let (t, e) = drop_last_dot-some (d ∷ s) (omega arith) in (c ∷ t, rw e)

-- The name is read up to its zero byte, whatever its characters.
named :
    (ls : List (List ℕ)) (rest : List ℕ)
    → 0 < length ls
    → AllNonempty ls
    → length (dotted ls) ≤ buf_size
    → (name : List ℕ) × (read_name (wire ls ++ rest) ≡ some (name, 0 ∷ rest))
unfolding read_name
named ls rest one full fits =
    let rounds = length-labels ls full in
    let (short, e) = drop_last_dot-some (dotted ls) (omega (arith, rounds)) in
    let parsed =
      read_labels-wire ls label_fuel [] rest full (omega (arith, rounds)) (omega arith) in
    (map to_lower (c_string short), rw (parsed, e))

-- The bytes of type and class behind the name.
type_read :
    (rest : List ℕ)
    → 4 ≤ length rest
    → (t c : ℕ) × (p p' : List ℕ) × (field16 rest ≡ some (t, p))
      × (field16 (drop 2 rest) ≡ some (c, p'))
type_read [] h = absurd (omega arith)
type_read (a ∷ []) h = absurd (omega arith)
type_read (a ∷ b ∷ []) h = absurd (omega arith)
type_read (a ∷ b ∷ c ∷ []) h = absurd (omega arith)
type_read (a ∷ b ∷ c ∷ d ∷ p) h = (_, _, _, _, refl, refl)

-- What stands behind the header, with the length of the message.
behind_header :
    (buf : List ℕ) {h : DnsHeader}
    → 12 ≤ length buf
    → to_header buf ≡ some h
    → length buf ≡ length h.payload + 12
behind_header buf {h} long e =
    let (x, e', l) = to_header-inside buf long in let same : x ≡ h = ground arith in rw same at l

-- A well-formed question is refused by an assertion or answered.
pub question_ends :
    (n : Net) (buf : List ℕ) (size : ℕ) (src : Ipv4Address) (src_port : ℕ) (dest : Ipv4Address)
    (dest_port : ℕ)
    → Question n.dns_records buf size
    → Ends (on_recv buf size src src_port dest dest_port n)
unfolding on_recv
question_ends n buf size src src_port dest dest_port q =
    let (name, e) = named q.labels q.rest q.some_label q.no_empty q.name_fits in
    let (qtype, qclass, _, _, et, ec) = type_read q.rest q.type_class in
    let found = answers_lem qtype name n.dns_records q.held in
    let behind = behind_header buf (omega (arith, q.long, q.inside)) q.parsed in
    let place : length buf ≡ length (wire q.labels) + length q.rest + 12 =
      omega (arith, behind, ap length q.written, length-append (wire q.labels) q.rest) in
    let (response, e') =
      respond_ends buf size (length buf - length (0 ∷ q.rest) + 5)
        (answers qtype name n.dns_records) (omega (arith, place))
        (omega (arith, place, q.type_class)) q.size_fits q.inside found.0
        (omega (arith, place, found.1, q.answer_fits)) in
    Ends-load _ q.header _ n q.parsed (
      Ends-assert _ _ _ n λ query. Ends-assert _ _ _ n λ single.
        Ends-load _ (name, 0 ∷ q.rest) _ n (rw q.written e)
          (Ends-load _ (qtype, _) _ n et
            (Ends-load _ (qclass, _) _ n ec
              (Ends-assert _ _ _ n λ internet.
                let same : qclass ≡ class_in = ground arith in
                Ends-load _ response _ n (rw same e') (Ends-udp_send _ _ _ _ _ n)))))
