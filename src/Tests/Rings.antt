-- ===== src/Tests/Rings.antt =====
-- A ring buffer whose contents go round the end of the array.
use dnet_core.Base.{
  Bool, Option, leb, if◌then◌else◌, ℕ, List, [], ◌∷◌, ◌++◌, ◌≡◌, ◌+◌, ◌-◌, ◌%◌, refl, true, false,
  arith, length, take, drop,
}
use mathlib.Core.Quot
use dnet_core.Queue
use dnet_core.RingBuffer.Abstract.{Stored, Bounded, view, put_stored, get_stored, stored_queue}
use dnet_core.RingBuffer.{RingBuffer, buffer_size, size, write_all, read_full}
use dnet_core.RingBuffer.Bounds.{IsValid}
use dnet_core.RingBuffer.Refine.{contents}
use dnet_core.RingBuffer.Bulk.{write_all_lem, read_full_lem}

abbrev two_bytes : List ℕ
two_bytes = 7 ∷ 8 ∷ []

abbrev two_slots : List ℕ
two_slots = 0 ∷ 0 ∷ []

abbrev wrapped : RingBuffer
wrapped = record { buf = λ i. i % 256; start = 65535; end = 1 }

wrapped-IsValid : IsValid wrapped
wrapped-IsValid = omega arith

contents-wrapped : contents wrapped ≡ 255 ∷ 0 ∷ []
contents-wrapped = refl

write_all_lem_example :
    ◌≡◌ {A = List ℕ × Bool}
      (contents (write_all wrapped two_bytes).0, (write_all wrapped two_bytes).1)
      (if leb (size wrapped + length two_bytes) buffer_size
        then (contents wrapped ++ take (buffer_size - 1 - size wrapped) two_bytes, true)
        else (contents wrapped, false))
write_all_lem_example = write_all_lem two_bytes wrapped-IsValid

read_full_lem_example :
    let (r', out', done) = read_full wrapped two_slots in
    ◌≡◌ {A = List ℕ × List ℕ × Bool}
      (contents r', out', done)
      (if leb (length two_slots) (size wrapped)
        then (
          drop (length two_slots) (contents wrapped),
          take (length two_slots) (contents wrapped),
          true,
        )
        else (contents wrapped, two_slots, false))
read_full_lem_example = read_full_lem two_slots wrapped-IsValid

-- The same, whatever the array holds elsewhere.
abbrev stored : Stored
stored = Quot.mk (wrapped, wrapped-IsValid)

stored_queue_example :
    (Stored ≡ Bounded)
    × (let (s', done) = put_stored 7 stored in
        ◌≡◌ {A = List ℕ × Bool} ((view s').0, done) (Queue.push 65535 (view stored).0 7))
    × (let (s', y) = get_stored stored in
        ◌≡◌ {A = List ℕ × Option ℕ} ((view s').0, y) (Queue.pop (view stored).0))
stored_queue_example = stored_queue 7 stored
