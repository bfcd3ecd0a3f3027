-- ===== src/RingBuffer/Bulk.antt =====
-- `writeAll` and `readFull`: which bytes they move.
use native.Mathlib.Decide.{dec_lt}
use dnet_core.Base.{
  ℕ, ◌+◌, ◌-◌, ◌≤◌, ◌<◌, ◌≡◌, refl, sym, ap, ap₂, ◌∙◌, length-append, take-append, List, [], ◌∷◌,
  ◌++◌, append-nil, append_assoc, Bool, true, false, some, arith, take-nil, take-pos, take_all,
  length, take, drop, Bool-cases, inl, inr, leb, if◌then◌else◌,
}
use dnet_core.Queue
use dnet_core.RingBuffer.{
  RingBuffer, buffer_size, get, size, put_each, get_each, write_all, read_full,
}
use dnet_core.RingBuffer.Bounds.{IsValid, size-eq, put-IsValid, get-IsValid}
use dnet_core.RingBuffer.Refine.{
  contents, length-contents, contents-put, put-full, size-put, get_refines,
}

-- The loop of `writeAll` stores what fits beside one free byte, and drops the rest.
contents-put_each :
    (xs : List ℕ) {r : RingBuffer}
    → IsValid r
    → contents (put_each r xs) ≡ contents r ++ take (buffer_size - 1 - size r) xs
unfolding put_each
contents-put_each [] {r} v = sym (rw take-nil (append-nil (contents r)))
contents-put_each (x ∷ xs) {r} v = elim (dec_lt (size r) (buffer_size - 1)) [
  | yes room ↦
      contents-put_each xs (put-IsValid x v)
      ∙ ap₂ (λ q n. q ++ take n xs) (contents-put x v room).0
          (ap (λ (n : ℕ). buffer_size - 1 - n) (size-put x v room) ∙ (omega arith))
      ∙ append_assoc (contents r) (x ∷ []) _
      ∙ ap (◌++◌ (contents r)) (sym (take-pos (buffer_size - 1 - size r) x xs (omega arith)))
  | no full ↦
      let full' = put-full x v (omega (arith, size-eq v)) in
      let none : buffer_size - 1 - size r ≡ 0 = omega arith in
      ap (λ (p : RingBuffer × Bool). contents (put_each p.0 xs)) full'
      ∙ contents-put_each xs v
      ∙ rw none
]

pub write_all_cases :
    (xs : List ℕ) {r : RingBuffer}
    → IsValid r
    → (size r + length xs ≤ buffer_size
        → (contents (write_all r xs).0 ≡ contents r ++ take (buffer_size - 1 - size r) xs)
          × ((write_all r xs).1 ≡ true))
      × (buffer_size < size r + length xs → write_all r xs ≡ (r, false))
unfolding write_all
write_all_cases xs {r} v =
    (λ h. ground (arith, contents-put_each xs v, size-eq v), λ h. ground (arith, size-eq v))

-- On a valid buffer `writeAll` takes the bytes exactly when the array is as long as those stored and those to come
-- together. What it takes it appends in order, and of that it stores only as many as leave one byte
-- of the array free; what it does not take changes nothing.
pub write_all_lem :
    (xs : List ℕ) {r : RingBuffer}
    → IsValid r
    → ◌≡◌ {A = List ℕ × Bool}
        (contents (write_all r xs).0, (write_all r xs).1)
        (if leb (size r + length xs) buffer_size
          then (contents r ++ take (buffer_size - 1 - size r) xs, true)
          else (contents r, false))
write_all_lem xs {r} v = elim (Bool-cases (leb (size r + length xs) buffer_size)) [
  | inl fits ↦ let c = (write_all_cases xs v).0 (ground arith) in rw (fits, c.0, c.1)
  | inr big ↦ rw (big, (write_all_cases xs v).1 (ground arith))
]

-- Below the limit nothing is lost: a valid buffer with room for the bytes and one more holds its old
-- bytes followed by all of the new ones.
pub write_all_fits :
    (xs : List ℕ) {r : RingBuffer}
    → IsValid r
    → size r + length xs < buffer_size
    → (contents (write_all r xs).0 ≡ contents r ++ xs) × ((write_all r xs).1 ≡ true)
write_all_fits xs {r} v h =
    let l = write_all_cases xs v in
    rw ((l.0 (omega arith)).0, take_all (buffer_size - 1 - size r) xs (omega arith))
      (refl, (l.0 (omega arith)).1)

-- At exactly the free space that `capacity` reports, `writeAll` returns success and loses the last
-- byte.
pub write_all_loses_last :
    (xs : List ℕ) (x : ℕ) {r : RingBuffer}
    → IsValid r
    → size r + length (xs ++ x ∷ []) ≡ buffer_size
    → (contents (write_all r (xs ++ x ∷ [])).0 ≡ contents r ++ xs)
      × ((write_all r (xs ++ x ∷ [])).1 ≡ true)
write_all_loses_last xs x {r} v h =
    let l = write_all_cases (xs ++ x ∷ []) v in
    let n : buffer_size - 1 - size r ≡ length xs = omega (arith, length-append xs (x ∷ [])) in
    rw ((l.0 (omega arith)).0, n, take-append) (refl, (l.0 (omega arith)).1)

-- `get` on a buffer that is not empty.
get-cons :
    {r : RingBuffer} (x : ℕ) (q : List ℕ)
    → IsValid r
    → contents r ≡ x ∷ q
    → (contents (get r).0 ≡ q) × ((get r).1 ≡ some x)
unfolding Queue.pop
get-cons {r} x q v e = ground (arith, get_refines v)

-- The state of `get_each` after one byte, from the queue that the buffer holds.
GetsAll : List ℕ → RingBuffer → List ℕ → Type 0
GetsAll out r q =
    (contents (get_each r out).0 ≡ drop (length out) q) × ((get_each r out).1 ≡ take (length out) q)

GetsAll-contents :
    (out q : List ℕ) {r : RingBuffer}
    → IsValid r
    → contents r ≡ q
    → length out ≤ length q
    → GetsAll out r q
unfolding GetsAll get_each
GetsAll-contents [] q v e h = (e, refl)
GetsAll-contents (old ∷ out) [] v e h = absurd (omega arith)
GetsAll-contents (old ∷ out) (x ∷ q) {r} v e h =
    let g = get-cons x q v e in
    let rest = GetsAll-contents out q {r = (get r).0} (get-IsValid v) g.0 (omega arith) in
    (rest.0, rw (g.1, rest.1))

read_full_cases :
    (out : List ℕ) {r : RingBuffer}
    → IsValid r
    → (length out ≤ size r
        → let (r', out', done) = read_full r out in
          (contents r' ≡ drop (length out) (contents r))
          × (out' ≡ take (length out) (contents r))
          × (done ≡ true))
      × (size r < length out → read_full r out ≡ (r, out, false))
unfolding read_full GetsAll
read_full_cases out {r} v = (
  λ h. ground (arith, length-contents r, GetsAll-contents out (contents r) v refl),
  λ h. ground arith,
)

-- On a valid buffer `readFull` hands out the oldest `len` bytes in order and removes them, or changes nothing when
-- fewer are stored.
pub read_full_lem :
    (out : List ℕ) {r : RingBuffer}
    → IsValid r
    → let (r', out', done) = read_full r out in
      ◌≡◌ {A = List ℕ × List ℕ × Bool}
        (contents r', out', done)
        (if leb (length out) (size r)
          then (drop (length out) (contents r), take (length out) (contents r), true)
          else (contents r, out, false))
read_full_lem out {r} v = elim (Bool-cases (leb (length out) (size r))) [
  | inl held ↦ let c = (read_full_cases out v).0 (ground arith) in rw (held, c.0, c.1, c.2)
  | inr few ↦ rw (few, (read_full_cases out v).1 (ground arith))
]
