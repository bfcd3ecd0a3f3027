-- ===== src/Dns/Answer.antt =====
-- The responses of the name server.
use dnet_core.Base.{
  ℕ, ◌+◌, ◌≤◌, ◌≡◌, ◌≢◌, ◌⊎◌, refl, ap, ◌∙◌, true, List, [], ◌∷◌, ◌++◌, none, some, ◌==◌, leb,
  arith, length, length-append, length-set, Bool-cases, Option-cases, inl, inr, if◌then◌else◌, set,
}
use dnet_core.Words.{u16, be16}
use dnet_core.Addr.{Ipv4Address}
use dnet_core.Memory.{read_bytes}
use dnet_core.Memory.Laws.{length-read_bytes}
use dnet_core.Net.{Net, thrown, fault, load, dnet_assert, dns_response, dns_qdcount}
use dnet_core.Dns.Record.{RecordKey, RecordValue}
use dnet_core.Dns.Name.{buf_size, read_labels, drop_last_dot, read_name}
use dnet_core.Dns.Header.{
  DnsHeader, to_header, set_qr, set16, get16, bytes_resource, sizeof_resource,
}
use dnet_core.Dns.{default_ttl, append_answer, answer_header, on_recv, text_beq}

pub length-set16 : (b : List ℕ) (i v : ℕ) → length (set16 b i v) ≡ length b
length-set16 b i v =
    omega (arith, length-set (set b i (be16 v).b0) (i + 1) (be16 v).b1, length-set b i (be16 v).b0)

-- The count of answers goes up.
abbrev pub bumped : List ℕ → List ℕ
bumped response = set16 response 6 (u16 (get16 response 6 + 1))

-- One more record: the response grows by its header and data, within the buffer.
pub length-append_answer :
    (qclass : ℕ) (response : List ℕ) (r : RecordKey × RecordValue) {response' : List ℕ}
    → append_answer qclass response r ≡ some response'
    → (length response' ≡ length response + sizeof_resource + r.1.rdlength)
      × (length response' ≤ buf_size)
unfolding append_answer
length-append_answer qclass response (k, v) {response'} e =
    elim (Bool-cases (leb (length response + sizeof_resource + v.rdlength) buf_size)) [
      | inr big ↦ absurd (ground arith)
      | inl fits ↦ elim (Option-cases (read_bytes v.rdlength v.rdata)) [
        | inl outside ↦ absurd (ground arith)
        | inr (rdata, r) ↦
            let le_fits : length response + sizeof_resource + v.rdlength ≤ buf_size =
              ground arith in
            let grown =
              bumped response ++ bytes_resource (u16 k.rtype) qclass default_ttl v.rdlength rdata in
            let e' : grown ≡ response' = ground arith in
            omega (
              arith,
              ap length e',
              length-append (bumped response)
                  (bytes_resource (u16 k.rtype) qclass default_ttl v.rdlength rdata),
              length-set16 response 6 (u16 (get16 response 6 + 1)),
              length-read_bytes v.rdlength v.rdata r,
              le_fits,
            )
      ]
    ]

pub length-answer_header : (b : List ℕ) → length (answer_header b) ≡ length b
length-answer_header b =
    length-set16 _ 8 0
    ∙ length-set16 _ 10 0
    ∙ length-set16 _ 6 0
    ∙ length-set (set_qr b) 2 _
    ∙ length-set b 2 _

root_name : (rest : List ℕ) → read_name (0 ∷ rest) ≡ none
unfolding read_name read_labels drop_last_dot
root_name rest = refl

module _ (n : Net) (buf : List ℕ) (size : ℕ) (src dest : Ipv4Address) (src_port dest_port : ℕ)
    {h : DnsHeader} (parsed : to_header buf ≡ some h) where
  -- A response, or a query with another number of questions than one, is refused with nothing
  -- changed.
  pub not_a_query_refused :
      (h.qr ≢ 0) ⊎ (h.qdcount ≢ 1)
      → on_recv buf size src src_port dest dest_port n
        ≡ thrown (if h.qr == 0 then dns_qdcount else dns_response) n
  unfolding load dnet_assert on_recv
  not_a_query_refused wrong = ground arith

  -- A query for the root name, which has no labels, writes the terminating NUL in front of the array
  -- `query_name`.
  pub root_query_faults :
      (rest : List ℕ)
      → h.qr ≡ 0
      → h.qdcount ≡ 1
      → h.payload ≡ 0 ∷ rest
      → on_recv buf size src src_port dest dest_port n ≡ fault
  unfolding load dnet_assert on_recv
  root_query_faults rest q c e =
      let none_read : read_name h.payload ≡ none = rw e (root_name rest) in ground arith

pub text_beq-eq : (s t : List ℕ) → text_beq s t ≡ true → s ≡ t
unfolding text_beq
text_beq-eq [] [] e = refl
text_beq-eq [] (b ∷ t) e = cc
text_beq-eq (a ∷ s) [] e = cc
text_beq-eq (a ∷ s) (b ∷ t) e = ground (arith, text_beq-eq s t)
