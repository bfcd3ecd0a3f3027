-- ===== src/Dns/Total.antt =====
-- A response that fits into `response_buf` is built, whatever the records are.
use dnet_core.Base.{
  ℕ, ◌+◌, ◌≤◌, ◌%◌, ◌^◌, ◌≡◌, refl, List, [], ◌∷◌, ◌++◌, some, arith, length, length-append, drop,
}
use dnet_core.Words.{u16}
use dnet_core.Memory.{read_bytes}
use dnet_core.Memory.Laws.{length-read_bytes, read_bytes_inside, read_bytes_all}
use dnet_core.Dns.Record.{RecordKey, RecordValue}
use dnet_core.Dns.Name.{buf_size}
use dnet_core.Dns.Header.{get16, bytes_resource}
use dnet_core.Dns.{
  Records, default_ttl, copy_request, append_answer, append_answers, answer_header, respond,
}
use dnet_core.Dns.Answer.{bumped, length-set16, length-answer_header}
use dnet_core.Dns.Sections.{AllHeld, sections, respond-sections}

pub append_answer_fits :
    (qclass : ℕ) (response : List ℕ) (k : RecordKey) (v : RecordValue)
    → length v.rdata ≡ v.rdlength
    → length response + 12 + length v.rdata ≤ buf_size
    → append_answer qclass response (k, v)
      ≡ some (bumped response ++ bytes_resource (u16 k.rtype) qclass default_ttl v.rdlength v.rdata)
unfolding append_answer
append_answer_fits qclass response k v held room =
    let r : read_bytes v.rdlength v.rdata ≡ some v.rdata = rw (← held) (read_bytes_all v.rdata) in
    ground arith

append_answers_fit :
    (qclass : ℕ) (response : List ℕ) (rs : Records)
    → AllHeld rs
    → length response + length (sections qclass rs) ≤ buf_size
    → (response' : List ℕ) × (append_answers qclass response rs ≡ some response')
unfolding append_answers
append_answers_fit qclass response [] held room = (response, refl)
append_answers_fit qclass response ((k, v) ∷ rs) held room =
    let added = bytes_resource (u16 k.rtype) qclass default_ttl v.rdlength v.rdata in
    let n = length-append added (sections qclass rs) in
    let one = append_answer_fits qclass response k v held.0 (omega (arith, n)) in
    let rest = append_answers_fit qclass (bumped response ++ added) rs held.1 (
      omega (
        arith,
        n,
        length-append (bumped response) added,
        length-set16 response 6 (u16 (get16 response 6 + 1)),
      )) in
    (rest.0, rw one rest.1)

-- A question of `question_end` bytes in the receive buffer that records answer, when the response fits
-- into 512 bytes, is answered: the header counts the records, and behind the question stands one
-- resource record for each, in the order of the table, with its type, its data and the question's
-- class. The pointers of the table lead to as many bytes as they say.
pub respond_total :
    (buf : List ℕ) (size question_end qclass : ℕ) (r : RecordKey × RecordValue) (rs : Records)
    → 12 ≤ question_end
    → question_end ≤ length buf
    → AllHeld (r ∷ rs)
    → question_end + length (sections qclass (r ∷ rs)) ≤ buf_size
    → (response : List ℕ) × (respond buf size question_end qclass (r ∷ rs) ≡ some response)
      × (drop question_end response ≡ sections qclass (r ∷ rs))
      × (get16 response 6 ≡ length (r ∷ rs) % 2 ^ 16)
unfolding respond copy_request
respond_total buf size question_end qclass r rs room inside held fits =
    let (b, q) = read_bytes_inside question_end buf inside in
    let n : length b ≡ question_end = omega (arith, length-read_bytes question_end buf q) in
    let (response, e) =
      append_answers_fit qclass (answer_header b) (r ∷ rs) held
        (omega (arith, n, length-answer_header b)) in
    let done : respond buf size question_end qclass (r ∷ rs) ≡ some response = ground arith in
    let s = respond-sections buf size question_end qclass r rs room held done in
    (response, done, s.0, s.1)
