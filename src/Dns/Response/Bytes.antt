-- ===== src/Dns/Response/Bytes.antt =====
-- The bytes of a response's header, by those of the question's.
use dnet_core.Base.{
  ℕ, zero, suc, ◌+◌, ◌*◌, ◌/◌, ◌%◌, ◌<◌, ◌≤◌, ◌^◌, ◌≡◌, ◌≢◌, refl, sym, ap, ◌∙◌, List, [], ◌∷◌,
  ◌++◌, some, arith, leb, length, Bool-cases, Option-cases, inl, inr, set, drop, get_or,
  get_or-append, get_or-set_ne,
}
use native.Mathlib.Decide.{dec_lt}
use dnet_core.Words.{u16, be16}
use dnet_core.Memory.{read_bytes}
use dnet_core.Memory.Laws.{read_bytes_outside}
use dnet_core.Dns.Record.{RecordKey, RecordValue}
use dnet_core.Dns.Name.{buf_size}
use dnet_core.Dns.Header.{DnsHeader, to_header, get16, bytes_resource, sizeof_resource}
use dnet_core.Dns.{Records, default_ttl, copy_request, append_answer, append_answers, answer_header}
use dnet_core.Dns.Answer.{bumped, length-set16, length-answer_header, length-append_answer}
use dnet_core.Dns.Sections.{length-copied}

-- The fields by their places.
abbrev pub header_at : List ℕ → DnsHeader
header_at b = record {
  id = get16 b 0;
  rd = get_or b 2 0 % 2;
  tc = get_or b 2 0 / 2 % 2;
  aa = get_or b 2 0 / 2 ^ 2 % 2;
  opcode = get_or b 2 0 / 2 ^ 3 % 2 ^ 4;
  qr = get_or b 2 0 / 2 ^ 7;
  rcode = get_or b 3 0 % 2 ^ 4;
  reserved = get_or b 3 0 / 2 ^ 4 % 2 ^ 3;
  ra = get_or b 3 0 / 2 ^ 7;
  qdcount = get16 b 4;
  ancount = get16 b 6;
  nscount = get16 b 8;
  arcount = get16 b 10;
  payload = drop 12 b;
}

pub to_header-header_at : (b : List ℕ) → 12 ≤ length b → to_header b ≡ some (header_at b)
unfolding to_header
to_header-header_at [] h = absurd (omega arith)
to_header-header_at (a0 ∷ []) h = absurd (omega arith)
to_header-header_at (a0 ∷ a1 ∷ []) h = absurd (omega arith)
to_header-header_at (a0 ∷ a1 ∷ a2 ∷ []) h = absurd (omega arith)
to_header-header_at (a0 ∷ a1 ∷ a2 ∷ a3 ∷ []) h = absurd (omega arith)
to_header-header_at (a0 ∷ a1 ∷ a2 ∷ a3 ∷ a4 ∷ []) h = absurd (omega arith)
to_header-header_at (a0 ∷ a1 ∷ a2 ∷ a3 ∷ a4 ∷ a5 ∷ []) h = absurd (omega arith)
to_header-header_at (a0 ∷ a1 ∷ a2 ∷ a3 ∷ a4 ∷ a5 ∷ a6 ∷ []) h = absurd (omega arith)
to_header-header_at (a0 ∷ a1 ∷ a2 ∷ a3 ∷ a4 ∷ a5 ∷ a6 ∷ a7 ∷ []) h = absurd (omega arith)
to_header-header_at (a0 ∷ a1 ∷ a2 ∷ a3 ∷ a4 ∷ a5 ∷ a6 ∷ a7 ∷ a8 ∷ []) h = absurd (omega arith)
to_header-header_at (a0 ∷ a1 ∷ a2 ∷ a3 ∷ a4 ∷ a5 ∷ a6 ∷ a7 ∷ a8 ∷ a9 ∷ []) h = absurd (omega arith)
to_header-header_at (a0 ∷ a1 ∷ a2 ∷ a3 ∷ a4 ∷ a5 ∷ a6 ∷ a7 ∷ a8 ∷ a9 ∷ a10 ∷ []) h =
    absurd (omega arith)
to_header-header_at (a0 ∷ a1 ∷ a2 ∷ a3 ∷ a4 ∷ a5 ∷ a6 ∷ a7 ∷ a8 ∷ a9 ∷ a10 ∷ a11 ∷ p) h = refl

read_bytes-get_or :
    (n : ℕ) (p : List ℕ) (i : ℕ) {bytes : List ℕ}
    → i < n
    → read_bytes n p ≡ some bytes
    → get_or bytes i 0 ≡ get_or p i 0
unfolding read_bytes
read_bytes-get_or zero p i h e = absurd (omega arith)
read_bytes-get_or (suc n) [] i h e = absurd (ground arith)
read_bytes-get_or (suc n) (b ∷ p) zero {bytes} h e = elim (Option-cases (read_bytes n p)) [
  | inl out ↦ absurd (ground arith)
  | inr (rest, r) ↦ ap (λ s. get_or s 0 0) {x = bytes} {y = b ∷ rest} (ground arith)
]
read_bytes-get_or (suc n) (b ∷ p) (suc i) {bytes} h e = elim (Option-cases (read_bytes n p)) [
  | inl out ↦ absurd (ground arith)
  | inr (rest, r) ↦
      ap (λ s. get_or s (suc i) 0) {x = bytes} {y = b ∷ rest} (ground arith)
      ∙ read_bytes-get_or n p i (omega (arith, h)) r
]

-- A byte of the header that no round of the answer loop touches.
append_answer-get_or :
    (qclass : ℕ) (response : List ℕ) (r : RecordKey × RecordValue) (i : ℕ) {next : List ℕ}
    → i < length response
    → i ≢ 6
    → i ≢ 7
    → append_answer qclass response r ≡ some next
    → get_or next i 0 ≡ get_or response i 0
unfolding append_answer
append_answer-get_or qclass response (k, v) i {next} h n6 n7 e =
    elim (Bool-cases (leb (length response + sizeof_resource + v.rdlength) buf_size)) [
      | inr big ↦ absurd (ground arith)
      | inl fits ↦ elim (Option-cases (read_bytes v.rdlength v.rdata)) [
        | inl outside ↦ absurd (ground arith)
        | inr (rdata, r) ↦
            let added = bytes_resource (u16 k.rtype) qclass default_ttl v.rdlength rdata in
            let first = set response 6 (be16 (u16 (get16 response 6 + 1))).b0 in
            ap (λ b. get_or b i 0) {x = next} {y = bumped response ++ added} (ground arith)
            ∙ get_or-append (bumped response) added i 0
                (omega (arith, h, length-set16 response 6 (u16 (get16 response 6 + 1))))
            ∙ get_or-set_ne first 7 i _ 0 (λ z. n7 (sym z))
            ∙ get_or-set_ne response 6 i _ 0 (λ z. n6 (sym z))
      ]
    ]

append_answers-get_or :
    (qclass : ℕ) (response : List ℕ) (rs : Records) (i : ℕ) {final : List ℕ}
    → i < length response
    → i ≢ 6
    → i ≢ 7
    → append_answers qclass response rs ≡ some final
    → get_or final i 0 ≡ get_or response i 0
unfolding append_answers
append_answers-get_or qclass response [] i h n6 n7 e =
    ap (λ b. get_or b i 0) {y = response} (ground arith)
append_answers-get_or qclass response (r ∷ rs) i {final} h n6 n7 e =
    elim (Option-cases (append_answer qclass response r)) [
      | inl full ↦ absurd (ground arith)
      | inr (next, q) ↦
          append_answers-get_or qclass next rs i
            (omega (arith, (length-append_answer qclass response r q).0)) n6 n7 (rw q at e)
          ∙ append_answer-get_or qclass response r i h n6 n7 q
    ]

pub append_answers-grows :
    (qclass : ℕ) (response : List ℕ) (rs : Records) {final : List ℕ}
    → append_answers qclass response rs ≡ some final
    → length response ≤ length final
unfolding append_answers
append_answers-grows qclass response [] e = ground arith
append_answers-grows qclass response (r ∷ rs) e =
    elim (Option-cases (append_answer qclass response r)) [
      | inl full ↦ absurd (ground arith)
      | inr (next, q) ↦ omega (
        arith,
        (length-append_answer qclass response r q).0,
        append_answers-grows qclass next rs (rw q at e),
      )
    ]

-- What `answer_header` leaves at the places of the header.
pub flag_byte : ℕ → ℕ
flag_byte f = let q = f % 2 ^ 7 + 2 ^ 7 in q / 2 ^ 3 * 2 ^ 3 + 2 ^ 2 + q % 2 ^ 2

pub record Flagged (b out : List ℕ) : Type 0 where
  pub id0 : get_or out 0 0 ≡ get_or b 0 0
  pub id1 : get_or out 1 0 ≡ get_or b 1 0
  pub flags : get_or out 2 0 ≡ flag_byte (get_or b 2 0)
  pub codes : get_or out 3 0 ≡ get_or b 3 0
  pub count0 : get_or out 4 0 ≡ get_or b 4 0
  pub count1 : get_or out 5 0 ≡ get_or b 5 0
  pub cleared :
      (get_or out 8 0 ≡ 0) × (get_or out 9 0 ≡ 0) × (get_or out 10 0 ≡ 0) × (get_or out 11 0 ≡ 0)

answer_header-get_or : (b : List ℕ) → 12 ≤ length b → Flagged b (answer_header b)
unfolding flag_byte
answer_header-get_or [] h = absurd (omega arith)
answer_header-get_or (a0 ∷ []) h = absurd (omega arith)
answer_header-get_or (a0 ∷ a1 ∷ []) h = absurd (omega arith)
answer_header-get_or (a0 ∷ a1 ∷ a2 ∷ []) h = absurd (omega arith)
answer_header-get_or (a0 ∷ a1 ∷ a2 ∷ a3 ∷ []) h = absurd (omega arith)
answer_header-get_or (a0 ∷ a1 ∷ a2 ∷ a3 ∷ a4 ∷ []) h = absurd (omega arith)
answer_header-get_or (a0 ∷ a1 ∷ a2 ∷ a3 ∷ a4 ∷ a5 ∷ []) h = absurd (omega arith)
answer_header-get_or (a0 ∷ a1 ∷ a2 ∷ a3 ∷ a4 ∷ a5 ∷ a6 ∷ []) h = absurd (omega arith)
answer_header-get_or (a0 ∷ a1 ∷ a2 ∷ a3 ∷ a4 ∷ a5 ∷ a6 ∷ a7 ∷ []) h = absurd (omega arith)
answer_header-get_or (a0 ∷ a1 ∷ a2 ∷ a3 ∷ a4 ∷ a5 ∷ a6 ∷ a7 ∷ a8 ∷ []) h = absurd (omega arith)
answer_header-get_or (a0 ∷ a1 ∷ a2 ∷ a3 ∷ a4 ∷ a5 ∷ a6 ∷ a7 ∷ a8 ∷ a9 ∷ []) h = absurd (omega arith)
answer_header-get_or (a0 ∷ a1 ∷ a2 ∷ a3 ∷ a4 ∷ a5 ∷ a6 ∷ a7 ∷ a8 ∷ a9 ∷ a10 ∷ []) h =
    absurd (omega arith)
answer_header-get_or (a0 ∷ a1 ∷ a2 ∷ a3 ∷ a4 ∷ a5 ∷ a6 ∷ a7 ∷ a8 ∷ a9 ∷ a10 ∷ a11 ∷ p) h = record {
  id0 = refl;
  id1 = refl;
  flags = refl;
  codes = refl;
  count0 = refl;
  count1 = refl;
  cleared = (refl, refl, refl, refl);
}

pub flag_bits :
    (f : ℕ)
    → (flag_byte f % 2 ≡ f % 2)
      × (flag_byte f / 2 % 2 ≡ f / 2 % 2)
      × (flag_byte f / 2 ^ 2 % 2 ≡ 1)
      × (flag_byte f / 2 ^ 3 % 2 ^ 4 ≡ f / 2 ^ 3 % 2 ^ 4)
      × (flag_byte f / 2 ^ 7 ≡ 1)
unfolding flag_byte
flag_bits f = (omega arith, omega arith, omega arith, omega arith, omega arith)

pub copy_request-read_bytes :
    (n : ℕ) (buf : List ℕ) {b : List ℕ} → copy_request n buf ≡ some b → read_bytes n buf ≡ some b
unfolding copy_request
copy_request-read_bytes n buf e = elim (Bool-cases (leb n buf_size)) [
  | inl fits ↦ ground arith
  | inr big ↦ absurd (ground arith)
]

pub read_bytes_within :
    (n : ℕ) (p : List ℕ) {bytes : List ℕ} → read_bytes n p ≡ some bytes → n ≤ length p
read_bytes_within n p e = elim (dec_lt (length p) n) [
  | yes short ↦ let out = read_bytes_outside n p short in absurd (ground arith)
  | no far ↦ omega arith
]

-- Bytes of the response, by those of the buffer that the question came in.
pub response_bytes :
    (buf : List ℕ) (question_end qclass : ℕ) (rs : Records) {b final : List ℕ}
    → 12 ≤ question_end
    → copy_request question_end buf ≡ some b
    → append_answers qclass (answer_header b) rs ≡ some final
    → Flagged buf final
response_bytes buf question_end qclass rs {b} {final} room q e =
    let n = length-copied question_end buf q in
    let was : (i : ℕ) → i < 12 → get_or b i 0 ≡ get_or buf i 0 = λ i h.
      read_bytes-get_or question_end buf i (omega arith)
        (copy_request-read_bytes question_end buf q) in
    let kept : (i : ℕ) → i < 12 → i ≢ 6 → i ≢ 7 → get_or final i 0 ≡ get_or (answer_header b) i 0 =
      λ i h n6 n7.
        append_answers-get_or qclass (answer_header b) rs i
          (omega (arith, n, length-answer_header b)) n6 n7 e in
    let a = answer_header-get_or b (omega (arith, n)) in
    record {
      id0 = kept 0 (omega arith) (omega arith) (omega arith) ∙ a.id0 ∙ was 0 (omega arith);
      id1 = kept 1 (omega arith) (omega arith) (omega arith) ∙ a.id1 ∙ was 1 (omega arith);
      flags =
          kept 2 (omega arith) (omega arith) (omega arith)
          ∙ a.flags
          ∙ ap flag_byte (was 2 (omega arith));
      codes = kept 3 (omega arith) (omega arith) (omega arith) ∙ a.codes ∙ was 3 (omega arith);
      count0 = kept 4 (omega arith) (omega arith) (omega arith) ∙ a.count0 ∙ was 4 (omega arith);
      count1 = kept 5 (omega arith) (omega arith) (omega arith) ∙ a.count1 ∙ was 5 (omega arith);
      cleared = (
        kept 8 (omega arith) (omega arith) (omega arith) ∙ a.cleared.0,
        kept 9 (omega arith) (omega arith) (omega arith) ∙ a.cleared.1,
        kept 10 (omega arith) (omega arith) (omega arith) ∙ a.cleared.2,
        kept 11 (omega arith) (omega arith) (omega arith) ∙ a.cleared.3,
      );
    }
