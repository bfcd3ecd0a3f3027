-- ===== src/Dns/Sections.antt =====
-- What a positive answer holds: the count in its header, and the records behind the question.
use dnet_core.Base.{
  ℕ, ◌+◌, ◌%◌, ◌<◌, ◌≤◌, ◌^◌, ◌≡◌, sym, subst, ap, ◌∙◌, List, [], ◌∷◌, ◌++◌, append-nil,
  append_assoc, some, arith, leb, length, length-set, Bool-cases, Option-cases, inl, inr, set, drop,
  drop-append, get_or-append, set-append, get_or-set_self, get_or-set_ne,
}
use dnet_core.Words.{u16, be16}
use dnet_core.Memory.{read_bytes}
use dnet_core.Memory.Laws.{length-read_bytes, read_bytes_all}
use dnet_core.Dns.Record.{RecordKey, RecordValue}
use dnet_core.Dns.Name.{buf_size}
use dnet_core.Dns.Header.{set16, get16, bytes_resource, sizeof_resource, set_qr, set_aa}
use dnet_core.Dns.{
  Records, default_ttl, copy_request, append_answer, append_answers, answer_header, respond,
}
use dnet_core.Dns.Answer.{bumped, length-set16, length-answer_header}

-- A table whose pointers lead to as many bytes as they say.
abbrev pub AllHeld : Records → Type 0
AllHeld [] = Unit {0}
AllHeld ((k, v) ∷ rs) = (length v.rdata ≡ v.rdlength) × AllHeld rs

-- The answer section of the records, one after another.
abbrev pub sections : ℕ → Records → List ℕ
sections qclass [] = []
sections qclass ((k, v) ∷ rs) =
    bytes_resource (u16 k.rtype) qclass default_ttl v.rdlength v.rdata ++ sections qclass rs

get16-set16 : (b : List ℕ) (v : ℕ) → 8 ≤ length b → v < 2 ^ 16 → get16 (set16 b 6 v) 6 ≡ v
get16-set16 b v room small =
    let set6 = set b 6 (be16 v).b0 in
    omega (
      arith,
      get_or-set_ne set6 7 6 (be16 v).b1 0 (omega arith),
      get_or-set_self b 6 (be16 v).b0 0 (omega arith),
      get_or-set_self set6 7 (be16 v).b1 0 (omega (arith, length-set b 6 (be16 v).b0)),
    )

get16-append : (xs ys : List ℕ) → 8 ≤ length xs → get16 (xs ++ ys) 6 ≡ get16 xs 6
get16-append xs ys room =
    omega (arith, get_or-append xs ys 6 0 (omega arith), get_or-append xs ys 7 0 (omega arith))

-- What a round makes of the response.
append_answer_lem :
    (qclass : ℕ) (response : List ℕ) (k : RecordKey) (v : RecordValue) {next : List ℕ}
    → length v.rdata ≡ v.rdlength
    → append_answer qclass response (k, v) ≡ some next
    → next ≡ bumped response ++ bytes_resource (u16 k.rtype) qclass default_ttl v.rdlength v.rdata
unfolding append_answer
append_answer_lem qclass response k v {next} held e =
    elim (Bool-cases (leb (length response + sizeof_resource + v.rdlength) buf_size)) [
      | inr big ↦ absurd (ground arith)
      | inl fits ↦
          let r : read_bytes v.rdlength v.rdata ≡ some v.rdata =
            rw (← held) (read_bytes_all v.rdata) in
          ground arith
    ]

bumped-append : (head done : List ℕ) → 8 ≤ length head → bumped (head ++ done) ≡ bumped head ++ done
bumped-append head done room =
    let v = u16 (get16 head 6 + 1) in
    ap (λ (t : ℕ). set16 (head ++ done) 6 (u16 (t + 1))) (get16-append head done room)
    ∙ ap (λ (b : List ℕ). set b 7 (be16 v).b1) (set-append head done 6 (be16 v).b0 (omega arith))
    ∙ set-append (set head 6 (be16 v).b0) done 7 (be16 v).b1
        (omega (arith, length-set head 6 (be16 v).b0))

-- The loop, from a response that is `head` and the records of earlier rounds.
append_answers_lem :
    (qclass : ℕ) (head done : List ℕ) (rs : Records) {response : List ℕ}
    → 12 ≤ length head
    → AllHeld rs
    → append_answers qclass (head ++ done) rs ≡ some response
    → (drop (length head) response ≡ done ++ sections qclass rs)
      × (get16 response 6 ≡ (get16 head 6 + length rs) % 2 ^ 16)
unfolding append_answers
append_answers_lem qclass head done [] {response} room held e =
    let same : head ++ done ≡ response = ground arith in
    (
      ap (drop (length head)) (sym same) ∙ drop-append head done ∙ sym (append-nil done),
      ap (λ r. get16 r 6) (sym same) ∙ get16-append head done (omega arith) ∙ omega arith,
    )
append_answers_lem qclass head done ((k, v) ∷ rs) {response} room held e =
    elim (Option-cases (append_answer qclass (head ++ done) (k, v))) [
      | inl full ↦ absurd (ground arith)
      | inr (next, q) ↦
          let record_bytes = bytes_resource (u16 k.rtype) qclass default_ttl v.rdlength v.rdata in
          let grown : next ≡ bumped head ++ (done ++ record_bytes) =
            append_answer_lem qclass (head ++ done) k v held.0 q
            ∙ ap (λ b. b ++ record_bytes) (bumped-append head done (omega arith))
            ∙ append_assoc (bumped head) done record_bytes in
          let more : append_answers qclass next rs ≡ some response = rw q at e in
          let same = length-set16 head 6 (u16 (get16 head 6 + 1)) in
          let ih =
            append_answers_lem qclass (bumped head) (done ++ record_bytes) rs (omega arith) held.1
              (subst (λ b. append_answers qclass b rs ≡ some response) grown more) in
          (
            subst (λ n. drop n response ≡ (done ++ record_bytes) ++ sections qclass rs) same ih.0
                ∙ append_assoc done record_bytes (sections qclass rs),
            omega (
              arith,
              ih.1,
              get16-set16 head (u16 (get16 head 6 + 1)) (omega arith) (omega arith),
            ),
          )
    ]

-- Writing another field of the header leaves the count alone.
get16-set16_above : (b : List ℕ) (i v : ℕ) → 8 ≤ i → get16 (set16 b i v) 6 ≡ get16 b 6
get16-set16_above b i v far =
    let first = set b i (be16 v).b0 in
    omega (
      arith,
      get_or-set_ne first (i + 1) 6 (be16 v).b1 0 (omega arith),
      get_or-set_ne first (i + 1) 7 (be16 v).b1 0 (omega arith),
      get_or-set_ne b i 6 (be16 v).b0 0 (omega arith),
      get_or-set_ne b i 7 (be16 v).b0 0 (omega arith),
    )

length-flags : (b : List ℕ) → length (set_aa (set_qr b)) ≡ length b
length-flags b = length-set (set_qr b) 2 _ ∙ length-set b 2 _

no_answers_yet : (b : List ℕ) → 8 ≤ length b → get16 (answer_header b) 6 ≡ 0
no_answers_yet b room =
    let flags = set_aa (set_qr b) in
    let cleared = set16 flags 6 0 in
    get16-set16_above (set16 cleared 10 0) 8 0 (omega arith)
    ∙ get16-set16_above cleared 10 0 (omega arith)
    ∙ get16-set16 flags 0 (omega (arith, length-flags b)) (omega arith)

pub length-copied : (n : ℕ) (buf : List ℕ) {b : List ℕ} → copy_request n buf ≡ some b → length b ≡ n
unfolding copy_request
length-copied n buf {b} e = elim (Bool-cases (leb n buf_size)) [
  | inl fits ↦ ground (arith, length-read_bytes n buf {bytes = b})
  | inr big ↦ absurd (ground arith)
]

-- A response with records: its header counts them, and behind the question stands one resource
-- record for each, in the order of the table, with its type, its data and the question's class.
pub respond-sections :
    (buf : List ℕ) (size question_end qclass : ℕ) (r : RecordKey × RecordValue) (rs : Records)
    {response : List ℕ}
    → 12 ≤ question_end
    → AllHeld (r ∷ rs)
    → respond buf size question_end qclass (r ∷ rs) ≡ some response
    → (drop question_end response ≡ sections qclass (r ∷ rs))
      × (get16 response 6 ≡ length (r ∷ rs) % 2 ^ 16)
unfolding respond
respond-sections buf size question_end qclass r rs {response} room held e =
    elim (Option-cases (copy_request question_end buf)) [
      | inl not_copied ↦ absurd (ground arith)
      | inr (b, q) ↦
          let n : length (answer_header b) ≡ question_end =
            length-answer_header b ∙ length-copied question_end buf q in
          let looped : append_answers qclass (answer_header b) (r ∷ rs) ≡ some response =
            ground arith in
          let l = append_answers_lem qclass (answer_header b) [] (r ∷ rs) (omega (arith, n)) held (
            subst (λ x. append_answers qclass x (r ∷ rs) ≡ some response)
              (sym (append-nil (answer_header b))) looped) in
          (
            subst (λ k. drop k response ≡ sections qclass (r ∷ rs)) n l.0,
            omega (arith, l.1, no_answers_yet b (omega (arith, length-copied question_end buf q))),
          )
    ]
