-- ===== src/Dns/Header.antt =====
-- layers/L7/DNS.h: `DNSHeader` and `DNSResourceRecord` in memory, bit-fields from the lowest bit up.
use dnet_core.Base.{ℕ, ◌+◌, ◌*◌, ◌/◌, ◌%◌, ◌^◌, List, ◌++◌, Option, some, set, get_or}
use dnet_core.Words.{be16, be32, bytes16, bytes32, val16}
use dnet_core.Memory.{◌>>=◌, field8, field16}

-- `payload` is the pointer behind the twelve bytes.
pub record DnsHeader : Type 0 where
  pub id : ℕ
  pub rd : ℕ
  pub tc : ℕ
  pub aa : ℕ
  pub opcode : ℕ
  pub qr : ℕ
  pub rcode : ℕ
  pub reserved : ℕ
  pub ra : ℕ
  pub qdcount : ℕ
  pub ancount : ℕ
  pub nscount : ℕ
  pub arcount : ℕ
  pub payload : List ℕ

unfoldable pub to_header : List ℕ → Option DnsHeader
to_header p = do
  (id, p) ← field16 p
  (flags, p) ← field8 p
  (codes, p) ← field8 p
  (qdcount, p) ← field16 p
  (ancount, p) ← field16 p
  (nscount, p) ← field16 p
  (arcount, p) ← field16 p
  some (record {
    id = id;
    rd = flags % 2;
    tc = flags / 2 % 2;
    aa = flags / 2 ^ 2 % 2;
    opcode = flags / 2 ^ 3 % 2 ^ 4;
    qr = flags / 2 ^ 7;
    rcode = codes % 2 ^ 4;
    reserved = codes / 2 ^ 4 % 2 ^ 3;
    ra = codes / 2 ^ 7;
    qdcount = qdcount;
    ancount = ancount;
    nscount = nscount;
    arcount = arcount;
    payload = p;
  })

-- Writes through `header`, into the buffer that starts with it.
abbrev pub set_qr : List ℕ → List ℕ
set_qr b = set b 2 (get_or b 2 0 % 2 ^ 7 + 2 ^ 7)

abbrev pub set_aa : List ℕ → List ℕ
set_aa b = let f = get_or b 2 0 in set b 2 (f / 2 ^ 3 * 2 ^ 3 + 2 ^ 2 + f % 2 ^ 2)

abbrev pub clear_rcode : List ℕ → List ℕ
clear_rcode b = let c = get_or b 3 0 in set b 3 (c / 2 ^ 4 * 2 ^ 4)

abbrev pub set16 : List ℕ → ℕ → ℕ → List ℕ
set16 b i v = set (set b i (be16 v).b0) (i + 1) (be16 v).b1

abbrev pub get16 : List ℕ → ℕ → ℕ
get16 b i = val16 (record { b0 = get_or b i 0; b1 = get_or b (i + 1) 0 })

-- The resource record of an answer; `name` points to the question's name.
abbrev pub bytes_resource : ℕ → ℕ → ℕ → ℕ → List ℕ → List ℕ
bytes_resource rtype qclass ttl rdlength rdata =
    bytes16 (be16 0xc00c)
    ++ (bytes16 (be16 rtype)
        ++ (bytes16 (be16 qclass) ++ (bytes32 (be32 ttl) ++ (bytes16 (be16 rdlength) ++ rdata))))

-- `sizeof(DNSResourceRecord)`
abbrev pub sizeof_resource : ℕ
sizeof_resource = 12
