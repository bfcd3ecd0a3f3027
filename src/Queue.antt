-- ===== src/Queue.antt =====
-- A FIFO of bytes, oldest first, that refuses a byte when it holds `limit` of them: what a ring
-- buffer promises to its client.
use dnet_core.Base.{
  ℕ, Bool, true, false, Option, none, some, List, [], ◌∷◌, ◌++◌, length, ltb, if◌then◌else◌,
}

unfoldable pub push : ℕ → List ℕ → ℕ → List ℕ × Bool
push limit q x = if ltb (length q) limit then (q ++ x ∷ [], true) else (q, false)

unfoldable pub pop : List ℕ → List ℕ × Option ℕ
pop [] = ([], none)
pop (x ∷ q) = (q, some x)
