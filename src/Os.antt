-- ===== src/Os.antt =====
-- The operating system as driver/driver.cpp calls it. What a call returns is the environment's choice,
-- and may depend on every call before it.
use dnet_core.Base.{◌≡◌, ◌⊎◌, inl, inr, refl, ℕ, ◌==◌, if◌then◌else◌, List, [], ◌∷◌}

-- The calls, with what `struct ifreq` and `struct rtentry` hold. Names are C strings, addresses their
-- four bytes.
pub data Call : Type 0 where
  -- `open("/dev/net/tap", O_RDWR)`, and `socket(PF_INET, SOCK_DGRAM, IPPROTO_IP)`
  open_tap open_socket : Call
  -- `ioctl` with TUNSETIFF, and with SIOCSIFFLAGS: descriptor, name and flags
  tun_set_iff set_flags : ℕ → List ℕ → ℕ → Call
  -- SIOCGIFHWADDR, and SIOCSIFHWADDR with the hardware address
  get_hwaddr : ℕ → List ℕ → Call
  set_hwaddr : ℕ → List ℕ → List ℕ → Call
  -- SIOCSIFADDR and SIOCSIFNETMASK
  set_addr set_netmask : ℕ → List ℕ → List ℕ → Call
  -- SIOCADDRT: descriptor, device, destination, mask, flags and metric
  add_rt : ℕ → List ℕ → List ℕ → List ℕ → ℕ → ℕ → Call
  close : ℕ → Call

-- A call fails, or returns a number and writes a text back: TUNSETIFF the name of the interface, a C
-- string of fewer than 16 bytes, SIOCGIFHWADDR the bytes of `sa_data`.
pub data Answer : Type 0 where
  failed : Answer
  done : ℕ → List ℕ → Answer

pub Answer-cases : (a : Answer) → (a ≡ failed) ⊎ ((n : ℕ) × (s : List ℕ) × (a ≡ done n s))
Answer-cases failed = inl refl
Answer-cases (done n s) = inr (n, s, refl)

-- What `inet_pton` returns for AF_INET: 1 with the address, or 0.
pub data Pton : Type 0 where
  presented : List ℕ → Pton
  not_valid : Pton

-- The calls so far, the last one first.
abbrev pub Trace : Type 0
Trace = List Call

pub record Kernel : Type 0 where
  pub answer : Trace → Call → Answer
  pub inet_pton : List ℕ → Pton
  pub inet_addr : List ℕ → List ℕ

-- Code that makes calls.
abbrev pub Run : Type 0 → Type 0
Run A = Trace → A × Trace

abbrev pub pure : {A : Type 0} → A → Run A
pure a t = (a, t)

abbrev pub go_on : {A B : Type 0} → A × Trace → (A → Run B) → B × Trace
go_on (a, t) f = f a t

infixl 5 ◌>>=◌ ◌>>◌
abbrev pub ◌>>=◌ : {A B : Type 0} → Run A → (A → Run B) → Run B
◌>>=◌ m f t = go_on (m t) f

abbrev pub ◌>>◌ : {A B : Type 0} → Run A → Run B → Run B
m >> k = m >>= λ _. k

abbrev pub ask : Kernel → Call → Run Answer
ask k c t = (k.answer t c, c ∷ t)

-- The descriptors that are open after the calls: `close` releases one, whatever it returns.
abbrev pub release : ℕ → List ℕ → List ℕ
release fd [] = []
release fd (x ∷ open') = if x == fd then open' else x ∷ release fd open'

abbrev pub opened_by : Call → Answer → List ℕ → List ℕ
opened_by Call.open_tap (done fd _) open' = fd ∷ open'
opened_by Call.open_socket (done fd _) open' = fd ∷ open'
opened_by (Call.close fd) a open' = release fd open'
opened_by c a open' = open'

abbrev pub still_open : Kernel → Trace → List ℕ
still_open k [] = []
still_open k (c ∷ t) = opened_by c (k.answer t c) (still_open k t)
