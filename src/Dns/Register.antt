-- ===== src/Dns/Register.antt =====
-- layers/L7/DNS.h and DNSRecord.h: the macros that fill the table, and the table that they fill.
use dnet_core.Base.{
  ℕ, ◌+◌, ◌-◌, Option, none, some, ◌==◌, if◌then◌else◌, List, [], ◌∷◌, ◌++◌, length, drop,
}
use dnet_core.Words.{u8, u16, bytes32}
use dnet_core.Memory.{read_bytes, ◌>>=◌}
use dnet_core.Addr.Text.{parsed, invalid, undefined, parse_ipv4}
use dnet_core.Dns.Record.{RecordKey, RecordValue}

-- `TYPE_A`, `TYPE_NS`, `TYPE_CNAME`, `TYPE_SOA` and `TYPE_AAAA`.
abbrev pub type_a : ℕ
type_a = 1

abbrev pub type_ns : ℕ
type_ns = 2

abbrev pub type_cname : ℕ
type_cname = 5

abbrev pub type_soa : ℕ
type_soa = 6

abbrev pub type_aaaa : ℕ
type_aaaa = 28

abbrev pub Table : Type 0
Table = List (RecordKey × RecordValue)

-- `&cname[i - l]`: the last `l` bytes before position `i`.
abbrev pub last_bytes : ℕ → List ℕ → List ℕ
last_bytes l seen = drop (length seen - l) seen

-- One label: its length, which is a uint8_t, and its bytes; `seen` is what follows the last dot.
abbrev pub label_bytes : List ℕ → List ℕ
label_bytes seen = u8 (length seen) ∷ last_bytes (u8 (length seen)) seen

-- The loop of `REGISTER_CNAME_RECORD`; the end of the list is the NUL of the C string.
unfoldable pub encode_from : List ℕ → List ℕ → List ℕ
encode_from seen [] = label_bytes seen ++ 0 ∷ []
encode_from seen (c ∷ rest) =
    let dot = label_bytes seen ++ encode_from [] rest in
    let more = encode_from (seen ++ c ∷ []) rest in if c == b'.' then dot else more

abbrev pub encode_name : List ℕ → List ℕ
encode_name = encode_from []

-- `dns_records.emplace(key, value)`. The standard leaves open where among the records with an equal key
-- the new one goes; libstdc++ puts it in front of them.
abbrev pub emplace : ℕ → List ℕ → ℕ → List ℕ → Table → Table
emplace rtype name rdlength rdata table =
    (record { rtype = u16 rtype; name = name }, record { rdlength = u16 rdlength; rdata = rdata })
    ∷ table

-- `REGISTER_CNAME_RECORD(name, cname)`.
unfoldable pub register_cname : List ℕ → List ℕ → Table → Table
unfolding encode_from
register_cname name cname = emplace type_cname name (length cname + 2) (encode_name cname)

-- `REGISTER_GENERIC_RECORD(rtype, name, rdata_len, rdata_ptr)`; `none` is a read past the end of what
-- the pointer leads to.
unfoldable pub register_generic : ℕ → List ℕ → ℕ → List ℕ → Table → Option Table
register_generic rtype name rdlength p table = do
  rdata ← read_bytes rdlength p
  some (emplace rtype name rdlength rdata table)

-- `REGISTER_A_RECORD(name, ip)`; `none` is that `parse_string` throws, or is undefined.
unfoldable pub register_a : List ℕ → List ℕ → Table → Option Table
register_a name ip table = elim (parse_ipv4 ip) [
  | parsed a ↦ some (emplace type_a name 4 (bytes32 a) table)
  | invalid ↦ none
  | undefined ↦ none
]
