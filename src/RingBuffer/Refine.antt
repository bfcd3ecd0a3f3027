-- ===== src/RingBuffer/Refine.antt =====
-- `RingBuffer` against a FIFO queue of at most BUFFER_SIZE - 1 bytes, oldest first.
use dnet_core.Base.{
  ℕ, zero, suc, ◌+◌, ◌-◌, ◌%◌, ◌≤◌, ◌<◌, ◌≡◌, ◌≢◌, refl, sym, ap, ap₂, length-append, ◌∙◌, List, [],
  ◌∷◌, ◌++◌, true, false, arith, length, ◌==◌, Bool-cases, inl, inr,
}
use native.Mathlib.Decide.{dec_lt}
use dnet_core.Queue
use dnet_core.RingBuffer.{RingBuffer, buffer_size, fresh, update, put, get, size}
use dnet_core.RingBuffer.Bounds.{IsValid, size-eq, size-mod}

-- The `n` bytes from index `h` on, round the ring.
abbrev pub window : (ℕ → ℕ) → ℕ → ℕ → List ℕ
window buf h zero = []
window buf h (suc n) = buf h ∷ window buf ((h + 1) % buffer_size) n

abbrev pub contents : RingBuffer → List ℕ
contents r = window r.buf r.start (size r)

length-window : (buf : ℕ → ℕ) (h n : ℕ) → length (window buf h n) ≡ n
length-window buf h zero = refl
length-window buf h (suc n) = ap suc (length-window buf ((h + 1) % buffer_size) n)

pub length-contents : (r : RingBuffer) → length (contents r) ≡ size r
length-contents r = length-window r.buf r.start (size r)

-- A write at an index past the window leaves it alone.
window-update :
    (buf : ℕ → ℕ) (h n i x : ℕ)
    → h < buffer_size
    → i < buffer_size
    → n ≤ (i + buffer_size - h) % buffer_size
    → window (update buf i x) h n ≡ window buf h n
window-update buf h zero i x hh hi far = refl
window-update buf h (suc n) i x hh hi far =
    ap₂ ◌∷◌ (ground arith)
      (window-update buf ((h + 1) % buffer_size) n i x (omega arith) hi (omega arith))

window-snoc :
    (buf : ℕ → ℕ) (h n : ℕ)
    → h < buffer_size
    → window buf h (suc n) ≡ window buf h n ++ buf ((h + n) % buffer_size) ∷ []
window-snoc buf h zero hh = ap (λ k. buf k ∷ []) (omega arith)
window-snoc buf h (suc n) hh = ap (◌∷◌ (buf h)) (
    window-snoc buf ((h + 1) % buffer_size) n (omega arith)
    ∙ ap (λ k. window buf ((h + 1) % buffer_size) n ++ buf k ∷ []) (omega arith))

-- The bytes after one that is stored at `end`.
stored :
    {r : RingBuffer} (x : ℕ)
    → IsValid r
    → window (update r.buf r.end x) r.start (suc (size r)) ≡ contents r ++ x ∷ []
stored {r} x v =
    window-snoc (update r.buf r.end x) r.start (size r) v.start_in
    ∙ ap₂ (λ q y. q ++ y ∷ [])
        (window-update r.buf r.start (size r) r.end x v.start_in v.end_in
          (omega (arith, size-mod v)))
        (rw (size-eq v).1 (ground arith))

-- What `put` leaves where it does not refuse the byte.
pub contents-put :
    {r : RingBuffer} (x : ℕ)
    → IsValid r
    → size r < buffer_size - 1
    → (contents (put r x).0 ≡ contents r ++ x ∷ []) × ((put r x).1 ≡ true)
unfolding put
contents-put {r} x v room = elim (Bool-cases ((r.end + 1) % buffer_size == r.start)) [
  | inl full ↦ absurd (ground (arith, size-mod v))
  | inr free ↦ rw free (
    ap (window (update r.buf r.end x) r.start) {y = suc (size r)} (ground arith) ∙ stored x v,
    refl,
  )
]

pub put-full :
    {r : RingBuffer} (x : ℕ) → IsValid r → size r ≡ buffer_size - 1 → put r x ≡ (r, false)
unfolding put
put-full {r} x v e = elim (Bool-cases ((r.end + 1) % buffer_size == r.start)) [
  | inl full ↦ rw full
  | inr free ↦ absurd (ground arith)
]

pub size-put :
    {r : RingBuffer} (x : ℕ)
    → IsValid r
    → size r < buffer_size - 1
    → size (put r x).0 ≡ suc (size r)
size-put {r} x v room =
    sym (length-contents (put r x).0)
    ∙ ap length (contents-put x v room).0
    ∙ length-append (contents r) (x ∷ [])
    ∙ omega (arith, length-contents r)

window-of_pos :
    (buf : ℕ → ℕ) (h n : ℕ)
    → 0 < n
    → window buf h n ≡ buf h ∷ window buf ((h + 1) % buffer_size) (n - 1)
window-of_pos buf h zero p = absurd (omega arith)
window-of_pos buf h (suc n) p = ap (λ k. window buf h (suc k)) (omega arith)

pub fresh-contents : (junk : ℕ → ℕ) → contents (fresh junk) ≡ []
fresh-contents junk = refl

-- On a valid buffer `put` is `Queue.push` at the limit BUFFER_SIZE - 1, its result included.
pub put_refines :
    {r : RingBuffer} (x : ℕ)
    → IsValid r
    → let (r', done) = put r x in (contents r', done) ≡ Queue.push (buffer_size - 1) (contents r) x
unfolding put Queue.push
put_refines {r} x v = elim (dec_lt (size r) (buffer_size - 1)) [
  | yes room ↦ ground (arith, contents-put x v room, length-contents r)
  | no full ↦ ground (arith, put-full x v, size-eq v, length-contents r)
]

contents-empty : {r : RingBuffer} → IsValid r → r.start ≡ r.end → contents r ≡ []
contents-empty {r} v e = ap (window r.buf r.start) {y = 0} (omega arith)

pub contents-cons :
    {r : RingBuffer}
    → IsValid r
    → r.start ≢ r.end
    → contents r ≡ r.buf r.start ∷ contents (record r { start = (r.start + 1) % buffer_size })
contents-cons {r} v ne =
    window-of_pos r.buf r.start (size r) (omega arith)
    ∙ ap (λ n. r.buf r.start ∷ window r.buf ((r.start + 1) % buffer_size) n) (omega arith)

-- On a valid buffer `get` is `Queue.pop`, its result included.
pub get_refines :
    {r : RingBuffer} → IsValid r → let (r', x) = get r in (contents r', x) ≡ Queue.pop (contents r)
unfolding get Queue.pop
get_refines {r} v = elim (Bool-cases (r.start == r.end)) [
  | inl e ↦ rw (e, contents-empty v (ground arith))
  | inr ne ↦ rw (ne, contents-cons v (ground arith))
]
