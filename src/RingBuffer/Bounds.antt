-- ===== src/RingBuffer/Bounds.antt =====
-- The representation invariant of `RingBuffer`, and the sizes that it gives.
use dnet_core.Base.{ℕ, ◌+◌, ◌-◌, ◌%◌, ◌<◌, ◌≡◌, List, [], ◌∷◌, arith}
use dnet_core.RingBuffer.{
  RingBuffer, buffer_size, fresh, put, get, size, put_each, get_each, write_all, read_full,
}

-- Both indices lie inside the array.
pub record IsValid (r : RingBuffer) : Type 0 where
  pub start_in : r.start < buffer_size
  pub end_in : r.end < buffer_size

pub fresh-IsValid : (junk : ℕ → ℕ) → IsValid (fresh junk)
fresh-IsValid junk = omega arith

pub put-IsValid : {r : RingBuffer} (x : ℕ) → IsValid r → IsValid (put r x).0
unfolding put
put-IsValid x v = ground arith

pub get-IsValid : {r : RingBuffer} → IsValid r → IsValid (get r).0
unfolding get
get-IsValid v = ground arith

pub put_each-IsValid : (xs : List ℕ) {r : RingBuffer} → IsValid r → IsValid (put_each r xs)
unfolding put_each
put_each-IsValid [] v = v
put_each-IsValid (x ∷ xs) v = put_each-IsValid xs (put-IsValid x v)

pub get_each-IsValid : (xs : List ℕ) {r : RingBuffer} → IsValid r → IsValid (get_each r xs).0
unfolding get_each
get_each-IsValid [] v = v
get_each-IsValid (x ∷ xs) v = get_each-IsValid xs (get-IsValid v)

pub write_all-IsValid : (xs : List ℕ) {r : RingBuffer} → IsValid r → IsValid (write_all r xs).0
unfolding write_all
write_all-IsValid xs {r} v = ground (arith, put_each-IsValid xs {r = r} v)

pub read_full-IsValid : (xs : List ℕ) {r : RingBuffer} → IsValid r → IsValid (read_full r xs).0
unfolding read_full
read_full-IsValid xs {r} v = ground (arith, get_each-IsValid xs {r = r} v)

-- The wrapping subtraction gives the distance from `start` to `end` round the ring.
pub size-eq :
    {r : RingBuffer}
    → IsValid r
    → (size r < buffer_size) × ((r.start + size r) % buffer_size ≡ r.end)
size-eq v = omega arith

-- The computation on size_t agrees with the one on the indices.
pub size-mod : {r : RingBuffer} → IsValid r → size r ≡ (r.end + buffer_size - r.start) % buffer_size
size-mod v = omega arith
