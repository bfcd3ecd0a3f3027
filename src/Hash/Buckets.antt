-- ===== src/Hash/Buckets.antt =====
-- Equal keys have equal hashes, so that a look-up in one bucket sees what the whole table holds.
use dnet_core.Base.{
  ℕ, ◌≡◌, refl, ap, ◌∙◌, true, List, [], ◌∷◌, ◌==◌, ◌&&◌, if◌then◌else◌, arith, Bool-cases, inl,
  inr,
}
use dnet_core.Words.{val32}
use dnet_core.Addr.{Ipv4Address, addr_key, addr_beq}
use dnet_core.Dict.{Key, find}
use dnet_core.Dns.{Records, equal_range, text_beq}
use dnet_core.Dns.Answer.{text_beq-eq}
use dnet_core.Dns.Record.{RecordKey}
use dnet_core.Tcp.Conn.{TcpConnTuple, tuple_key, tuple_beq}
use dnet_core.Hash.{StdHash, address_hash, connection_hash, record_hash}

-- The entries whose keys a container puts into the bucket `b`; how it chooses the bucket from the hash
-- is its own affair.
unfoldable pub in_bucket {ℓ κ} :
    {K : Type ℓ} {V : Type κ} → (K → ℕ) → (ℕ → ℕ) → ℕ → List (K × V) → List (K × V)
in_bucket hash bucket b [] = []
in_bucket hash bucket b ((k, v) ∷ m) =
    let rest = in_bucket hash bucket b m in if bucket (hash k) == b then (k, v) ∷ rest else rest

beq_self : (n : ℕ) → (n == n) ≡ true
beq_self n = ground arith

same_bucket : (bucket : ℕ → ℕ) {g h : ℕ} → g ≡ h → (bucket g == bucket h) ≡ true
same_bucket bucket {h = h} e = ap (λ x. bucket x == bucket h) e ∙ beq_self (bucket h)

find-in_bucket {ℓ κ} :
    {K : Type ℓ} {V : Type κ} ⦃key : Key K⦄ (hash : K → ℕ) (bucket : ℕ → ℕ) (k : K)
    (m : List (K × V))
    → ((i j : K) → key.beq i j ≡ true → hash i ≡ hash j)
    → find k (in_bucket hash bucket (bucket (hash k)) m) ≡ find k m
unfolding find in_bucket
find-in_bucket hash bucket k [] respects = refl
find-in_bucket ⦃key⦄ hash bucket k ((j, v) ∷ m) respects = elim (Bool-cases (key.beq j k)) [
  | inl hit ↦ rw (same_bucket bucket (respects j k hit), hit)
  | inr miss ↦
      let rest = find-in_bucket hash bucket k m respects in
      elim (Bool-cases (bucket (hash j) == bucket (hash k))) [
        | inl here ↦ rw (here, miss, find) rest
        | inr elsewhere ↦ rw (elsewhere, miss) rest
      ]
]

equal_range-in_bucket :
    (hash : RecordKey → ℕ) (bucket : ℕ → ℕ) (rtype : ℕ) (name : List ℕ) (rs : Records)
    → ((k : RecordKey)
        → (k.rtype == rtype && text_beq k.name name) ≡ true
        → hash k ≡ hash (record { rtype = rtype; name = name }))
    → equal_range rtype name
        (in_bucket hash bucket (bucket (hash (record { rtype = rtype; name = name }))) rs)
      ≡ equal_range rtype name rs
unfolding equal_range in_bucket
equal_range-in_bucket hash bucket rtype name [] respects = refl
equal_range-in_bucket hash bucket rtype name ((k, v) ∷ rs) respects =
    let rest = equal_range-in_bucket hash bucket rtype name rs respects in
    let code = bucket (hash (record { rtype = rtype; name = name })) in
    elim (Bool-cases (k.rtype == rtype && text_beq k.name name)) [
      | inl hit ↦ rw (same_bucket bucket (respects k hit), hit, equal_range) (ap (◌∷◌ (k, v)) rest)
      | inr miss ↦ elim (Bool-cases (bucket (hash k) == code)) [
        | inl here ↦ rw (here, miss, equal_range) rest
        | inr elsewhere ↦ rw (elsewhere, miss) rest
      ]
    ]

address_hash-respects : (a b : Ipv4Address) → addr_beq a b ≡ true → address_hash a ≡ address_hash b
address_hash-respects a b e = ground arith

connection_hash-respects :
    (h : StdHash) (a b : TcpConnTuple)
    → tuple_beq a b ≡ true
    → connection_hash h a ≡ connection_hash h b
unfolding connection_hash
connection_hash-respects h a b e =
    let src : val32 a.src_ip ≡ val32 b.src_ip = ground arith in
    let src_port : a.src_port ≡ b.src_port = ground arith in
    let dest : val32 a.dest_ip ≡ val32 b.dest_ip = ground arith in
    let dest_port : a.dest_port ≡ b.dest_port = ground arith in cc (src, src_port, dest, dest_port)

record_hash-respects :
    (h : StdHash) (rtype : ℕ) (name : List ℕ) (k : RecordKey)
    → (k.rtype == rtype && text_beq k.name name) ≡ true
    → record_hash h k ≡ record_hash h (record { rtype = rtype; name = name })
unfolding record_hash
record_hash-respects h rtype name k e =
    let same_type : k.rtype ≡ rtype = ground arith in
    let same_name : k.name ≡ name = text_beq-eq k.name name (ground arith) in
    rw (same_type, same_name)

-- The hashes of `defs.h` and `TCP.h` agree on keys that `operator==` takes for equal. So in each of the
-- three tables, whatever its entries, whatever `std::hash` gives for numbers and texts and however the
-- container chooses buckets, a look-up that sees only the bucket of its key finds what it would find in
-- the whole table.
pub bucket_lookups {ℓ κ} :
    {V : Type ℓ} {W : Type κ} (h : StdHash) (bucket : ℕ → ℕ) (a : Ipv4Address)
    (cache : List (Ipv4Address × V)) (t : TcpConnTuple) (connections : List (TcpConnTuple × W))
    (k : RecordKey) (records : Records)
    → (find a (in_bucket address_hash bucket (bucket (address_hash a)) cache) ≡ find a cache)
      × (find t (in_bucket (connection_hash h) bucket (bucket (connection_hash h t)) connections)
          ≡ find t connections)
      × (equal_range k.rtype k.name
            (in_bucket (record_hash h) bucket (bucket (record_hash h k)) records)
          ≡ equal_range k.rtype k.name records)
bucket_lookups h bucket a cache t connections k records = (
  find-in_bucket address_hash bucket a cache address_hash-respects,
  find-in_bucket (connection_hash h) bucket t connections (connection_hash-respects h),
  equal_range-in_bucket (record_hash h) bucket k.rtype k.name records
      (record_hash-respects h k.rtype k.name),
)
