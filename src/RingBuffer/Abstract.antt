-- ===== src/RingBuffer/Abstract.antt =====
-- Ring buffers up to what a client sees: the bytes stored, wherever they stand in the array.
use dnet_core.Base.{ℕ, ◌-◌, ◌≤◌, ◌≡◌, ap, ap₂, ◌∙◌, sym, List, ◌++◌, Bool, Option, length, arith}
use mathlib.Core.HLevel.{Σ_prop_path, prop→set}
use mathlib.Core.Quot
use mathlib.Core.Quot.{Quot, Quot-set}
use native.Mathlib.Bridge.{le_prop}
use cubical.Cubical.Foundations.Isomorphism.{Iso, iso_to_path}
use dnet_core.Queue
use dnet_core.RingBuffer.{RingBuffer, buffer_size, fresh, put, get, write_all}
use dnet_core.RingBuffer.Bounds.{
  IsValid, fresh-IsValid, put-IsValid, get-IsValid, write_all-IsValid, size-eq,
}
use dnet_core.RingBuffer.Refine.{
  contents, fresh-contents, length-contents, put_refines, get_refines,
}
use dnet_core.RingBuffer.Bulk.{write_all_fits}

-- A buffer whose indices lie inside the array.
abbrev pub Ring : Type 0
Ring = (r : RingBuffer) × IsValid r

-- The same bytes in the same order, at any place of the array, whatever the rest of it holds.
abbrev pub SameContents : Ring → Ring → Type 0
SameContents a b = contents a.0 ≡ contents b.0

abbrev pub Stored : Type 0
Stored = Quot SameContents

-- Byte sequences that leave one byte of the array free.
abbrev pub Bounded : Type 0
Bounded = (q : List ℕ) × (length q ≤ buffer_size - 1)

pub Bounded-ext : {a b : Bounded} → a.0 ≡ b.0 → a ≡ b
Bounded-ext e = Σ_prop_path (λ q. le_prop) e

fits_set : (q : List ℕ) → IsSet (length q ≤ buffer_size - 1)
fits_set q = prop→set le_prop

pub Bounded-set : IsSet Bounded
Bounded-set = hlevel (fits_set)

-- A function of the contents is one of the abstract buffer.
abbrev pub bounded : Ring → Bounded
bounded (r, v) = (contents r, omega (arith, length-contents r, size-eq v))

abbrev pub view : Stored → Bounded
view = Quot.lift Bounded-set bounded (λ a b same. Bounded-ext same)

-- The bytes, written into an array of zeros.
abbrev pub loaded : Bounded → Ring
loaded (q, h) = ((write_all (fresh (λ _. 0)) q).0, write_all-IsValid q (fresh-IsValid (λ _. 0)))

contents-loaded : (q : Bounded) → contents (loaded q).0 ≡ q.0
contents-loaded (q, h) =
    (write_all_fits q (fresh-IsValid (λ _. 0)) (omega (arith, h))).0
    ∙ ap (λ c. c ++ q) (fresh-contents (λ _. 0))

abbrev pub store : Bounded → Stored
store q = Quot.mk (loaded q)

view-store : (q : Bounded) → view (store q) ≡ q
view-store q = Bounded-ext (contents-loaded q)

store-view : (s : Stored) → store (view s) ≡ s
store-view = Quot.ind (λ s. Quot-set _ _) (λ r. Quot.sound (contents-loaded (bounded r)))

-- `put` and `get`, with what they return, on the abstract buffer.
abbrev pub put_result : ℕ → Ring → Stored × Bool
put_result x (r, v) = let (r', done) = put r x in (Quot.mk (r', put-IsValid x v), done)

abbrev pub get_result : Ring → Stored × Option ℕ
get_result (r, v) = let (r', x) = get r in (Quot.mk (r', get-IsValid v), x)

pub put_same : (x : ℕ) (a b : Ring) → SameContents a b → put_result x a ≡ put_result x b
put_same x a b same =
    let e =
      put_refines x a.1
      ∙ ap (λ q. Queue.push (buffer_size - 1) q x) same
      ∙ sym (put_refines x b.1) in
    ap₂ (λ s y. (s, y)) (Quot.sound (ap (λ t. t.0) e)) (ap (λ t. t.1) e)

pub get_same : (a b : Ring) → SameContents a b → get_result a ≡ get_result b
get_same a b same =
    let e = get_refines a.1 ∙ ap Queue.pop same ∙ sym (get_refines b.1) in
    ap₂ (λ s y. (s, y)) (Quot.sound (ap (λ t. t.0) e)) (ap (λ t. t.1) e)

abbrev pub put_stored : ℕ → Stored → Stored × Bool
put_stored x = Quot.lift (hlevel (Quot-set)) (put_result x) (put_same x)

abbrev pub get_stored : Stored → Stored × Option ℕ
get_stored = Quot.lift (hlevel (Quot-set)) get_result get_same

as_queue : Iso Stored Bounded
as_queue = record { fun = view; inv = store; right_inv = view-store; left_inv = store-view }

-- Valid buffers, taken equal when they hold the same bytes in the same order, are the byte sequences of
-- at most BUFFER_SIZE - 1 bytes. On them `put` and `get` are well defined, and are `push` and `pop` of a
-- queue, their results included.
pub stored_queue :
    (x : ℕ) (s : Stored)
    → (Stored ≡ Bounded)
      × (let (s', done) = put_stored x s in
          ◌≡◌ {A = List ℕ × Bool} ((view s').0, done) (Queue.push (buffer_size - 1) (view s).0 x))
      × (let (s', y) = get_stored s in
          ◌≡◌ {A = List ℕ × Option ℕ} ((view s').0, y) (Queue.pop (view s).0))
stored_queue x s = (
  iso_to_path as_queue,
  Quot.ind
      {β = λ s.
        let (s', done) = put_stored x s in
        ◌≡◌ {A = List ℕ × Bool} ((view s').0, done) (Queue.push (buffer_size - 1) (view s).0 x)}
      (λ s. hlevel) (λ r. put_refines x r.1) s,
  Quot.ind
      {β = λ s.
        let (s', y) = get_stored s in
        ◌≡◌ {A = List ℕ × Option ℕ} ((view s').0, y) (Queue.pop (view s).0)}
      (λ s. hlevel) (λ r. get_refines r.1) s,
)
