-- ===== src/Net/Advance.antt =====
-- What handling one frame may do to the state: the configuration stays, at most one frame is sent,
-- and the connections are in order afterwards.
use dnet_core.Base.{ℕ, ◌≡◌, refl, List, [], ◌∷◌, ◌++◌}
use dnet_core.Net.{Net, emit}
use dnet_core.Tcp.Invariant.{ConnsOk}

pub data AtMostOneMore (old new : List (List ℕ)) : Type 0 where
  same : new ≡ old → AtMostOneMore old new
  one : (frame : List ℕ) → new ≡ old ++ frame ∷ [] → AtMostOneMore old new

pub record Advances (n n' : Net) : Type 0 where
  pub mac_kept : n'.mac ≡ n.mac
  pub tap_mac_kept : n'.tap_mac ≡ n.tap_mac
  pub subnet_kept : n'.subnet ≡ n.subnet
  pub records_kept : n'.dns_records ≡ n.dns_records
  pub sends : AtMostOneMore n.sent n'.sent
  pub conns : ConnsOk n'.connections

pub Advances-refl : (n : Net) → ConnsOk n.connections → Advances n n
Advances-refl n inv = record {
  mac_kept = refl;
  tap_mac_kept = refl;
  subnet_kept = refl;
  records_kept = refl;
  sends = same refl;
  conns = inv;
}

-- A frame sent from a state with the same configuration, no other frame sent before.
pub Advances-emit : (n : Net) → ConnsOk n.connections → (frame : List ℕ) → Advances n (emit frame n)
Advances-emit n inv frame = record {
  mac_kept = refl;
  tap_mac_kept = refl;
  subnet_kept = refl;
  records_kept = refl;
  sends = one frame refl;
  conns = inv;
}
