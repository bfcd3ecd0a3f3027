-- ===== src/Dns.antt =====
-- layers/L7/DNS.cpp: the authoritative name server.
pub mod Record
pub mod Name
pub mod Header
pub mod Register
pub mod NameLaws
pub mod Answer
pub mod Sections
pub mod Total
pub mod Response
pub mod Serve
pub mod Table
use dnet_core.Base.{
  ℕ, ◌+◌, ◌-◌, leb, ◌==◌, ◌&&◌, if◌then◌else◌, Bool, true, false, List, [], ◌∷◌, ◌++◌, Option, none,
  some, length, drop,
}
use dnet_core.Words.{u16}
use dnet_core.Addr.{Ipv4Address}
use dnet_core.Memory.{read_bytes, field16}
use dnet_core.Memory as Memory
use dnet_core.Net.{Net, M, pure, ◌>>=◌, ◌>>◌, this, dnet_assert, load}
use dnet_core.Net.{dns_response, dns_qdcount, dns_class}
use dnet_core.Udp.Send as UdpSend
use Record.{RecordKey, RecordValue}
use Register.{type_cname}
use Name.{read_name, buf_size}
use Header.{
  DnsHeader, to_header, set_qr, set_aa, clear_rcode, set16, get16, bytes_resource, sizeof_resource,
}

abbrev pub class_in : ℕ
class_in = 1

-- `DNS_DEFAULT_TTL`, in seconds.
abbrev pub default_ttl : ℕ
default_ttl = 60

-- `std::string` equality.
unfoldable pub text_beq : List ℕ → List ℕ → Bool
text_beq [] [] = true
text_beq (a ∷ s) (b ∷ t) = a == b && text_beq s t
text_beq _ _ = false

abbrev pub Records : Type 0
Records = List (RecordKey × RecordValue)

-- `dns_records.equal_range(key)`: the records with that key, in the order of the table.
unfoldable pub equal_range : ℕ → List ℕ → Records → Records
equal_range rtype name [] = []
equal_range rtype name ((k, v) ∷ rs) =
    let rest = equal_range rtype name rs in
    if k.rtype == rtype && text_beq k.name name then (k, v) ∷ rest else rest

-- The records that answer a question: those of its type, or else the aliases of its name.
unfoldable pub answers : ℕ → List ℕ → Records → Records
answers qtype name rs = elim (equal_range qtype name rs) [
  | [] ↦ equal_range type_cname name rs
  | r ∷ found ↦ r ∷ found
]

-- `memcpy(response_buf, buf, size)` into the 512 bytes of `response_buf`.
unfoldable pub copy_request : ℕ → List ℕ → Option (List ℕ)
copy_request size buf = if leb size buf_size then read_bytes size buf else none

-- One round of the answer loop on `response_buf`: the count goes up, and the record is appended.
unfoldable pub append_answer : ℕ → List ℕ → RecordKey × RecordValue → Option (List ℕ)
append_answer qclass response (k, v) =
    let grown =
      (let open' = set16 response 6 (u16 (get16 response 6 + 1)) in
        Memory.◌>>=◌ (read_bytes v.rdlength v.rdata) λ rdata.
          some (open' ++ bytes_resource (u16 k.rtype) qclass default_ttl v.rdlength rdata)) in
    if leb (length response + sizeof_resource + v.rdlength) buf_size then grown else none

unfoldable pub append_answers : ℕ → List ℕ → Records → Option (List ℕ)
append_answers qclass response [] = some response
append_answers qclass response (r ∷ rs) =
    Memory.◌>>=◌ (append_answer qclass response r) λ response'. append_answers qclass response' rs

-- The header of a positive answer: QR, AA, and no records yet.
abbrev pub answer_header : List ℕ → List ℕ
answer_header b = set16 (set16 (set16 (set_aa (set_qr b)) 6 0) 10 0) 8 0

-- The response to a question of `qclass` whose bytes are the first `question_end` of `buf`.
unfoldable pub respond : List ℕ → ℕ → ℕ → ℕ → Records → Option (List ℕ)
respond buf size question_end qclass [] =
    Memory.◌>>=◌ (copy_request size buf) λ b. some (clear_rcode (set_qr b))
respond buf size question_end qclass (r ∷ rs) =
    Memory.◌>>=◌ (copy_request question_end buf)
      λ b. append_answers qclass (answer_header b) (r ∷ rs)

unfoldable pub on_recv : List ℕ → ℕ → Ipv4Address → ℕ → Ipv4Address → ℕ → M (Unit {0})
on_recv buf size src_addr src_port dest_addr dest_port = do
  header ← load (to_header buf)
  dnet_assert (header.qr == 0) dns_response
  dnet_assert (header.qdcount == 1) dns_qdcount
  (name, p) ← load (read_name header.payload)
  (qtype, _) ← load (field16 (drop 1 p))
  (qclass, _) ← load (field16 (drop 3 p))
  dnet_assert (qclass == class_in) dns_class
  n ← this
  response ←
      load (respond buf size (length buf - length p + 5) qclass (answers qtype name n.dns_records))
  UdpSend.udp_send response src_addr src_port dest_addr dest_port
