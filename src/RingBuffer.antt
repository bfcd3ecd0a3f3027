-- ===== src/RingBuffer.antt =====
-- layers/L4/tcp/TCP.h: `RingBuffer`, the byte queue of a TCP connection. A read or write of the array
-- is a function value; `RingBuffer.Bounds` proves that every index stays inside it.
pub mod Bounds
pub mod Refine
pub mod Bulk
pub mod Abstract
use dnet_core.Base.{
  ℕ, zero, suc, ◌+◌, ◌-◌, ◌*◌, ◌%◌, ◌^◌, Bool, true, false, Option, none, some, List, [], ◌∷◌,
  length, ltb, ◌==◌, if◌then◌else◌,
}
use dnet_core.Words.{sub_size}

-- `BUFFER_SIZE`
abbrev pub buffer_size : ℕ
buffer_size = 65536

pub record RingBuffer : Type 0 where
  pub buf : ℕ → ℕ
  pub start : ℕ
  pub end : ℕ

-- The constructor sets the indices only: the array is whatever the memory held.
abbrev pub fresh : (ℕ → ℕ) → RingBuffer
fresh junk = record { buf = junk; start = 0; end = 0 }

abbrev pub update : (ℕ → ℕ) → ℕ → ℕ → ℕ → ℕ
update f p v q = if p == q then v else f q

-- The Boolean is the `int` that the source returns.
unfoldable pub put : RingBuffer → ℕ → RingBuffer × Bool
put r octet =
    if (r.end + 1) % buffer_size == r.start
    then (r, false)
    else (record r { buf = update r.buf r.end octet; end = (r.end + 1) % buffer_size }, true)

-- The option is what is written through `octet`.
unfoldable pub get : RingBuffer → RingBuffer × Option ℕ
get r =
    if r.start == r.end
    then (r, none)
    else (record r { start = (r.start + 1) % buffer_size }, some (r.buf r.start))

-- `(end - start + BUFFER_SIZE) % BUFFER_SIZE` on size_t.
abbrev pub size : RingBuffer → ℕ
size r = (sub_size r.end r.start + buffer_size) % 2 ^ 64 % buffer_size

-- `BUFFER_SIZE - size()`, which cannot be negative.
abbrev pub capacity : RingBuffer → ℕ
capacity r = buffer_size - size r

-- The loop of `writeAll`, which ignores what `put` returns.
unfoldable pub put_each : RingBuffer → List ℕ → RingBuffer
put_each r [] = r
put_each r (x ∷ xs) = put_each (put r x).0 xs

-- `writeAll(buf, len)`, on the `len` bytes at `buf`.
unfoldable pub write_all : RingBuffer → List ℕ → RingBuffer × Bool
write_all r bytes = if ltb (capacity r) (length bytes) then (r, false) else (put_each r bytes, true)

-- `buf[i]` keeps its old value where `get` writes nothing.
abbrev written : Option ℕ → ℕ → ℕ
written none old = old
written (some x) old = x

-- The loop of `readFull`, over the old contents of the output buffer.
unfoldable pub get_each : RingBuffer → List ℕ → RingBuffer × List ℕ
get_each r [] = (r, [])
get_each r (old ∷ olds) =
    let (r', x) = get r in let (r'', xs) = get_each r' olds in (r'', written x old ∷ xs)

-- `readFull(buf, len)`: the new contents of the `len` bytes at `buf`.
unfoldable pub read_full : RingBuffer → List ℕ → RingBuffer × List ℕ × Bool
read_full r out =
    if ltb (size r) (length out)
    then (r, out, false)
    else let (r', out') = get_each r out in (r', out', true)
