-- ===== src/Dns/Response/Whole.antt =====
-- A positive answer, byte by byte.
use dnet_core.Base.{
  ℕ, suc, ◌+◌, ◌%◌, ◌<◌, ◌≤◌, ◌^◌, ◌≡◌, sym, ap, ◌∙◌, List, [], ◌∷◌, ◌++◌, some, arith, length,
  length-append, append-nil, append_assoc,
}
use dnet_core.Words.{u16, be16}
use dnet_core.Dns.Name.{buf_size}
use dnet_core.Dns.Header.{get16, bytes_resource}
use dnet_core.Dns.{Records, default_ttl, append_answers}
use dnet_core.Dns.Answer.{bumped}
use dnet_core.Dns.Sections.{AllHeld, sections}
use dnet_core.Dns.Total.{append_answer_fits}

module _ (a0 a1 a2 a3 a4 a5 : ℕ) where
  -- A message whose header counts `c` answers.
  abbrev pub counted : ℕ → List ℕ → List ℕ
  counted c tail = a0 ∷ a1 ∷ a2 ∷ a3 ∷ a4 ∷ a5 ∷ (be16 c).b0 ∷ (be16 c).b1 ∷ tail

  bumped-counted :
      (c : ℕ) (tail : List ℕ)
      → c < 2 ^ 16
      → bumped (counted c tail) ≡ counted ((c + 1) % 2 ^ 16) tail
  bumped-counted c tail small =
      ap (λ k. counted k tail) {x = u16 (get16 (counted c tail) 6 + 1)} (omega arith)

  pub append_answers-counted :
      (qclass c : ℕ) (tail : List ℕ) (rs : Records)
      → c < 2 ^ 16
      → AllHeld rs
      → length tail + 8 + length (sections qclass rs) ≤ buf_size
      → append_answers qclass (counted c tail) rs
        ≡ some (counted ((c + length rs) % 2 ^ 16) (tail ++ sections qclass rs))
  unfolding append_answers
  append_answers-counted qclass c tail [] small held room =
      ap (λ k. some (counted k tail)) {x = c} {y = (c + 0) % 2 ^ 16} (omega arith)
      ∙ ap (λ t. some (counted ((c + 0) % 2 ^ 16) t)) (sym (append-nil tail))
  append_answers-counted qclass c tail ((k, v) ∷ rs) small held room =
      let added = bytes_resource (u16 k.rtype) qclass default_ttl v.rdlength v.rdata in
      let split = length-append added (sections qclass rs) in
      let next = (c + 1) % 2 ^ 16 in
      let one =
        append_answer_fits qclass (counted c tail) k v held.0 (omega (arith, room, split))
        ∙ ap (λ b. some (b ++ added)) (bumped-counted c tail small) in
      let rest =
        append_answers-counted qclass next (tail ++ added) rs (omega arith) held.1
          (omega (arith, room, split, length-append tail added)) in
      (rw one rest)
      ∙ ap (λ n. some (counted n ((tail ++ added) ++ sections qclass rs)))
          {x = (next + length rs) % 2 ^ 16} {y = (c + suc (length rs)) % 2 ^ 16} (omega arith)
      ∙ ap (λ t. some (counted ((c + suc (length rs)) % 2 ^ 16) t))
          (append_assoc tail added (sections qclass rs))
