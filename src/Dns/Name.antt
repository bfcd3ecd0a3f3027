-- ===== src/Dns/Name.antt =====
-- layers/L7/DNS.cpp: the question's name. `query_name` is a buffer of 512 bytes on the stack, of
-- which the model holds the part that has been written.
use dnet_core.Base.{
  ℕ, zero, suc, ◌+◌, ◌-◌, leb, ◌==◌, ◌&&◌, if◌then◌else◌, List, [], ◌∷◌, ◌++◌, map, Option, none,
  some, length, drop,
}
use dnet_core.Memory.{◌>>=◌, read_bytes}

-- `sizeof(query_name)`, and that of `response_buf`.
abbrev pub buf_size : ℕ
buf_size = 512

-- `query_name` after one more label and its dot, unless they do not fit.
unfoldable pub push_label : List ℕ → List ℕ → Option (List ℕ)
push_label name label =
    if leb (length name + length label + 1) buf_size
    then some (name ++ (label ++ b'.' ∷ []))
    else none

-- The loop `while (*data_ptr != 0)`: the name so far, and `data_ptr`, which ends at the zero byte.
-- `none` is an access outside a buffer, or that the fuel ran out.
unfoldable pub read_labels : ℕ → List ℕ → List ℕ → Option (List ℕ × List ℕ)
read_labels zero name p = none
read_labels (suc fuel) name [] = none
read_labels (suc fuel) name (len ∷ p) =
    let rest = (do
      label ← read_bytes len p
      name' ← push_label name label
      read_labels fuel name' (drop len p)) in
    if len == 0 then some (name, len ∷ p) else rest

-- A round writes two bytes or more into the 512 of `query_name`.
abbrev pub label_fuel : ℕ
label_fuel = 257

-- `query_name[ptr - 1] = '\0'`, which is outside the array for the empty name.
unfoldable pub drop_last_dot : List ℕ → Option (List ℕ)
drop_last_dot [] = none
drop_last_dot (c ∷ []) = some []
drop_last_dot (c ∷ d ∷ name) = do rest ← drop_last_dot (d ∷ name); some (c ∷ rest)

-- The bytes before the first NUL: what C takes the text to be.
unfoldable pub c_string : List ℕ → List ℕ
c_string [] = []
c_string (c ∷ s) = if c == 0 then [] else c ∷ c_string s

unfoldable pub to_lower : ℕ → ℕ
to_lower c = if leb b'A' c && leb c b'Z' then c + (b'a' - b'A') else c

-- The name that is looked up, and the pointer to the zero byte behind the labels.
unfoldable pub read_name : List ℕ → Option (List ℕ × List ℕ)
read_name p = do
  (labels, p) ← read_labels label_fuel [] p
  name ← drop_last_dot labels
  some (map to_lower (c_string name), p)
