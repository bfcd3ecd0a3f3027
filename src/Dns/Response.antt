-- ===== src/Dns/Response.antt =====
-- The header of a positive answer, against the header of the question.
pub mod Bytes
pub mod Whole
use dnet_core.Base.{
  ℕ, ◌+◌, ◌%◌, ◌≤◌, ◌^◌, ◌≡◌, refl, subst, List, [], ◌∷◌, some, arith, length, Option-cases, inl,
  inr, set, drop, get_or,
}
use dnet_core.Dns.Record.{RecordKey, RecordValue}
use dnet_core.Dns.Name.{buf_size}
use dnet_core.Dns.Header.{DnsHeader, to_header, get16}
use dnet_core.Dns.{Records, copy_request, append_answers, answer_header, respond}
use dnet_core.Dns.Answer.{length-answer_header}
use dnet_core.Dns.Total.{respond_total}
use dnet_core.Dns.Sections.{AllHeld, sections, respond-sections, length-copied}
use Bytes.{
  header_at, to_header-header_at, copy_request-read_bytes, response_bytes, read_bytes_within,
  append_answers-grows, flag_bits, Flagged,
}

-- The header of an answer: QR and AA are set, the answers counted and no other records announced; the
-- rest is the question's.
pub record Answers (h h' : DnsHeader) (count : ℕ) : Type 0 where
  pub id_kept : h'.id ≡ h.id
  pub rd_kept : h'.rd ≡ h.rd
  pub tc_kept : h'.tc ≡ h.tc
  pub opcode_kept : h'.opcode ≡ h.opcode
  pub rcode_kept : h'.rcode ≡ h.rcode
  pub reserved_kept : h'.reserved ≡ h.reserved
  pub ra_kept : h'.ra ≡ h.ra
  pub qdcount_kept : h'.qdcount ≡ h.qdcount
  pub response : h'.qr ≡ 1
  pub authoritative : h'.aa ≡ 1
  pub counted : h'.ancount ≡ count
  pub no_others : (h'.nscount ≡ 0) × (h'.arcount ≡ 0)

Flagged-Answers :
    (buf final : List ℕ) (count : ℕ)
    → Flagged buf final
    → get16 final 6 ≡ count
    → Answers (header_at buf) (header_at final) count
Flagged-Answers buf final count f c =
    let bits = flag_bits (get_or buf 2 0) in
    record {
      id_kept = omega (arith, f.id0, f.id1);
      rd_kept = rw f.flags bits.0;
      tc_kept = rw f.flags bits.1;
      opcode_kept = rw f.flags bits.3;
      rcode_kept = rw f.codes refl;
      reserved_kept = rw f.codes refl;
      ra_kept = rw f.codes refl;
      qdcount_kept = omega (arith, f.count0, f.count1);
      response = rw f.flags bits.4;
      authoritative = rw f.flags bits.2;
      counted = c;
      no_others =
          (omega (arith, f.cleared.0, f.cleared.1), omega (arith, f.cleared.2, f.cleared.3));
    }

respond-Answers :
    (buf : List ℕ) (size question_end qclass : ℕ) (r : RecordKey × RecordValue) (rs : Records)
    {h : DnsHeader} {response : List ℕ}
    → 12 ≤ question_end
    → AllHeld (r ∷ rs)
    → to_header buf ≡ some h
    → respond buf size question_end qclass (r ∷ rs) ≡ some response
    → (h' : DnsHeader) × (to_header response ≡ some h') × Answers h h' (length (r ∷ rs) % 2 ^ 16)
unfolding respond
respond-Answers buf size question_end qclass r rs {h} {response} room held parsed e =
    let (s, c) = respond-sections buf size question_end qclass r rs room held e in
    elim (Option-cases (copy_request question_end buf)) [
      | inl not_copied ↦ absurd (ground arith)
      | inr (b, q) ↦
          let looped : append_answers qclass (answer_header b) (r ∷ rs) ≡ some response =
            ground arith in
          let bytes = response_bytes buf question_end qclass (r ∷ rs) room q looped in
          let whole = to_header-header_at buf (
            omega (
              arith,
              read_bytes_within question_end buf (copy_request-read_bytes question_end buf q),
            )) in
          let same : header_at buf ≡ h = ground arith in
          (
            header_at response,
            to_header-header_at response (
                omega (
                  arith,
                  length-copied question_end buf q,
                  length-answer_header b,
                  append_answers-grows qclass (answer_header b) (r ∷ rs) looped,
                )),
            subst (λ x. Answers x (header_at response) (length (r ∷ rs) % 2 ^ 16)) same
                (Flagged-Answers buf response _ bytes c),
          )
    ]

-- A question of `question_end` bytes that records answer, when the response fits into 512 bytes, is
-- answered. Behind the question stands one resource record for each of the records, in the order of the
-- table. The header is that of the question, its identifier included, with QR and AA set, with the number
-- of those records as the count of answers, and with none in the other sections.
pub respond_header :
    (buf : List ℕ) (size question_end qclass : ℕ) (r : RecordKey × RecordValue) (rs : Records)
    {h : DnsHeader}
    → 12 ≤ question_end
    → question_end ≤ length buf
    → AllHeld (r ∷ rs)
    → question_end + length (sections qclass (r ∷ rs)) ≤ buf_size
    → to_header buf ≡ some h
    → (response : List ℕ) × (h' : DnsHeader) × (respond buf size question_end qclass (r ∷ rs)
        ≡ some response)
      × (drop question_end response ≡ sections qclass (r ∷ rs))
      × (to_header response ≡ some h')
      × Answers h h' (length (r ∷ rs) % 2 ^ 16)
respond_header buf size question_end qclass r rs room inside held fits parsed =
    let (response, done, behind, count) =
      respond_total buf size question_end qclass r rs room inside held fits in
    let (h', read, answers) =
      respond-Answers buf size question_end qclass r rs room held parsed done in
    (response, h', done, behind, read, answers)
