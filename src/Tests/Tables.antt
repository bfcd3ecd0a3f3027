-- ===== src/Tests/Tables.antt =====
-- Tables of more than one entry.
use dnet_core.Base.{ℕ, ◌%◌, ◌≡◌, refl, List, [], ◌∷◌, length}
use dnet_core.Dict.{find}
use dnet_core.Addr.{Ipv4Address, addr_key}
use dnet_core.Net.Rules.{After}
use dnet_core.Dns.{equal_range}
use dnet_core.Dns.Register.{type_ns}
use dnet_core.Dns.Record.{RecordKey}
use dnet_core.Dns.Table.{registered, example_com}
use dnet_core.Tcp
use dnet_core.Tcp.Conn.{TcpConnTuple, tuple_key}
use dnet_core.Tcp.Isolation.{others_kept}
use dnet_core.Hash.{StdHash, address_hash, connection_hash, record_hash}
use dnet_core.Hash.Buckets.{in_bucket, bucket_lookups}
use dnet_core.Tests.{us, guest}
use dnet_core.Tests.Conns.{ctx, syn, syn_bytes, parsed_syn, open', empty}

-- Another port of the same peer.
abbrev stranger : TcpConnTuple
stranger = record { src_ip = guest; src_port = 5000; dest_ip = us; dest_port = 7 }

others_kept_example :
    After
      (λ m. find stranger m.connections ≡ find stranger (open' empty).connections)
      (Tcp.on_recv syn_bytes 20 ctx (open' empty))
others_kept_example = others_kept (open' empty) syn_bytes 20 ctx {s = syn} stranger parsed_syn refl

abbrev std : StdHash
std = record { of_u16 = λ n. n; of_u32 = λ n. n; of_text = length }

-- Eleven buckets.
abbrev mod_11 : ℕ → ℕ
mod_11 code = code % 11

abbrev key_ns : RecordKey
key_ns = record { rtype = type_ns; name = example_com }

abbrev cache : List (Ipv4Address × ℕ)
cache = (guest, 1) ∷ (us, 2) ∷ []

abbrev peers : List (TcpConnTuple × ℕ)
peers = (stranger, 3) ∷ []

bucket_lookups_example :
    (find us (in_bucket address_hash mod_11 (mod_11 (address_hash us)) cache) ≡ find us cache)
    × (find stranger
          (in_bucket (connection_hash std) mod_11 (mod_11 (connection_hash std stranger)) peers)
        ≡ find stranger peers)
    × (equal_range type_ns example_com
          (in_bucket (record_hash std) mod_11 (mod_11 (record_hash std key_ns)) registered)
        ≡ equal_range type_ns example_com registered)
bucket_lookups_example = bucket_lookups std mod_11 us cache stranger peers key_ns registered
