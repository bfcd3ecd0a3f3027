-- ===== src/Dns/Record.antt =====
-- layers/L7/DNS.h: the key and value of a DNS record.
use dnet_core.Base.{ℕ, List}

-- `record_key`; a `std::string` is its bytes.
pub record RecordKey : Type 0 where
  pub rtype : ℕ
  pub name : List ℕ

-- `record_value`: the length that was registered, and the bytes that the pointer leads to.
pub record RecordValue : Type 0 where
  pub rdlength : ℕ
  pub rdata : List ℕ
