-- ===== src/Dns/Table.antt =====
-- layers/L7/DNSRecord.h: the table that `register_dns_records` fills.
pub mod Zone
use dnet_core.Base.{ℕ, List, [], ◌∷◌, ◌++◌, Option, some, length, ◌≡◌, refl}
use dnet_core.Dns.Record.{RecordKey, RecordValue}
use dnet_core.Memory.{◌>>=◌, read_bytes}
use dnet_core.Text.{codes}
use dnet_core.Addr.Text.{parse_ipv4}
use dnet_core.Dns.Register.{
  Table, type_a, type_cname, type_ns, type_soa, type_aaaa, register_cname, register_generic,
  register_a,
}

-- A text literal ends with a NUL.
abbrev literal : List ℕ → List ℕ
literal s = s ++ 0 ∷ []

-- A label, and the pointer to the name of the question.
abbrev pub pointed : List ℕ → List ℕ
pointed label = label ++ 0xc0 ∷ 0x0c ∷ []

abbrev pub ns_data : List ℕ → List ℕ
ns_data label = pointed (3 ∷ label)

abbrev pub soa_data : List ℕ
soa_data =
    ns_data (codes "ns1")
    ++ (pointed []
        ++ (0 ∷ 0 ∷ 0 ∷ 1 ∷ 0 ∷ 0 ∷ 0x27 ∷ 0x10 ∷ 0 ∷ 0 ∷ 0x09 ∷ 0x60 ∷ 0 ∷ 1 ∷ 0x51 ∷ 0x80 ∷ 0 ∷ 0
            ∷ 0x07 ∷ 0x08 ∷ []))

abbrev pub aaaa_data : List ℕ
aaaa_data = 0x20 ∷ 1 ∷ 0x0d ∷ 0xb8 ∷ 0 ∷ 0 ∷ 0 ∷ 0 ∷ 0 ∷ 0 ∷ 0 ∷ 0 ∷ 0 ∷ 0 ∷ 0 ∷ 1 ∷ []

abbrev pub example_com : List ℕ
example_com = codes "example.com"

unfoldable pub register_dns_records : Table → Option Table
register_dns_records table = do
  table ← register_generic type_soa example_com 28 (literal soa_data) table
  table ← register_a example_com (codes "1.2.3.4") table
  table ← register_generic type_aaaa example_com 16 (literal aaaa_data) table
  table ← register_generic type_ns example_com 6 (literal (ns_data (codes "ns1"))) table
  table ← register_generic type_ns example_com 6 (literal (ns_data (codes "ns2"))) table
  some (register_cname (codes "www.example.com") (codes "test.example.com") table)

-- The table, written out; the records of one key stand in the order of a look-up.
abbrev pub entry : ℕ → List ℕ → List ℕ → RecordKey × RecordValue
entry rtype name rdata =
    (record { rtype = rtype; name = name }, record { rdlength = length rdata; rdata = rdata })

abbrev pub www_example_com : List ℕ
www_example_com = codes "www.example.com"

-- The name `test.example.com`, as it is sent.
abbrev pub test_example_com : List ℕ
test_example_com = 4 ∷ (codes "test" ++ (7 ∷ (codes "example" ++ (3 ∷ (codes "com" ++ 0 ∷ [])))))

abbrev pub registered : Table
registered =
    entry type_cname www_example_com test_example_com
    ∷ entry type_ns example_com (ns_data (codes "ns2"))
    ∷ entry type_ns example_com (ns_data (codes "ns1"))
    ∷ entry type_aaaa example_com aaaa_data
    ∷ entry type_a example_com (1 ∷ 2 ∷ 3 ∷ 4 ∷ [])
    ∷ entry type_soa example_com soa_data
    ∷ []

pub register_dns_records_lem : register_dns_records [] ≡ some registered
unfolding register_dns_records register_generic read_bytes register_a parse_ipv4 register_cname
register_dns_records_lem = refl
