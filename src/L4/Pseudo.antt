-- ===== src/L4/Pseudo.antt =====
-- layers/L4/L4.h: `PseudoHeader` in memory.
use dnet_core.Base.{ℕ, List, ◌∷◌, ◌++◌}
use dnet_core.Words.{be16, bytes16, bytes32}
use dnet_core.Addr.{Ipv4Address}

-- `sizeof(PseudoHeader)`
abbrev pub sizeof_pseudo_header : ℕ
sizeof_pseudo_header = 12

-- The pseudo header of `src_ip`, `dest_ip`, `protocol` and `length`; `zero` is 0.
abbrev pub bytes_pseudo : Ipv4Address → Ipv4Address → ℕ → ℕ → List ℕ
bytes_pseudo src dest protocol len =
    bytes32 src ++ (bytes32 dest ++ (0 ∷ protocol ∷ bytes16 (be16 len)))
