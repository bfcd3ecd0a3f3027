-- ===== src/Driver/Device.antt =====
-- driver/driver.h and driver.cpp: the TAP device, its set-up, and the thread that listens.
pub mod Descriptors
use dnet_core.Base.{
  ℕ, ◌+◌, Bool, true, false, Option, none, some, List, [], ◌∷◌, ◌++◌, take, get_or, length,
  if◌then◌else◌,
}
use dnet_core.Addr.{MacAddress}
use dnet_core.Os.{
  Kernel, Call, Answer, failed, done, Pton, presented, not_valid, Run, pure, ◌>>=◌, ◌>>◌, ask,
}

-- The pointer to the thread: never set, set by `start_listen`, and null.
pub data Thread : Type 0 where
  unset running cleared : Thread

-- The object. `dev` is the name as a C string; `fd` is `none` for -1.
pub record Device : Type 0 where
  pub dev : List ℕ
  pub mtu : ℕ
  pub fd : Option ℕ
  pub mac : MacAddress
  pub has_callback : Bool
  pub listening : Bool
  pub thread : Thread

abbrev pub no_mac : MacAddress
no_mac = record { b0 = 0; b1 = 0; b2 = 0; b3 = 0; b4 = 0; b5 = 0 }

-- The constructor: `strncpy` copies at most IFNAMSIZ bytes. The hardware address is left as the memory
-- was, here as zeros.
abbrev pub new_device : List ℕ → ℕ → Device
new_device name mtu = record {
  dev = take 16 name;
  mtu = mtu;
  fd = none;
  mac = no_mac;
  has_callback = false;
  listening = false;
  thread = unset;
}

-- `IFF_TAP | IFF_NO_PI`, and with `IFF_UP | IFF_RUNNING`
abbrev pub tap_flags : ℕ
tap_flags = 0x1002

abbrev pub up_flags : ℕ
up_flags = 0x1043

-- `memcpy(mac, ifr.ifr_hwaddr.sa_data, 6)`
abbrev pub to_mac : List ℕ → MacAddress
to_mac s = record {
  b0 = get_or s 0 0;
  b1 = get_or s 1 0;
  b2 = get_or s 2 0;
  b3 = get_or s 3 0;
  b4 = get_or s 4 0;
  b5 = get_or s 5 0;
}

-- `close(fd); return false;`
abbrev pub give_up : Kernel → ℕ → Device → Run (Bool × Device)
give_up k fd d = ask k (Call.close fd) >> pure (false, d)

-- `init_dev` with both descriptors: the interface is set up, and its hardware address fetched and set.
unfoldable pub set_up : Kernel → ℕ → List ℕ → Device → Run (Bool × Device)
set_up k s name d = do
  flags ← ask k (Call.set_flags s name up_flags)
  elim flags [
    | failed ↦ give_up k s d
    | done _ _ ↦ do
      hw ← ask k (Call.get_hwaddr s name)
      elim hw [
        | failed ↦ give_up k s d
        | done _ bytes ↦ do
          back ← ask k (Call.set_hwaddr s name bytes)
          elim back [
            | failed ↦ give_up k s d
            | done _ _ ↦ ask k (Call.close s) >> pure (true, record d { mac = to_mac bytes })
          ]
      ]
  ]

-- With the TAP device made under `name`.
unfoldable pub with_tap : Kernel → List ℕ → Device → Run (Bool × Device)
unfolding set_up
with_tap k name d = do
  socket ← ask k Call.open_socket
  elim socket [ failed ↦ pure (false, d) | done s _ ↦ set_up k s name d ]

unfoldable pub init_dev : Kernel → Device → Run (Bool × Device)
unfolding with_tap
init_dev k d = do
  tap ← ask k Call.open_tap
  elim tap [
    | failed ↦ pure (false, record d { fd = none })
    | done fd _ ↦ do
      made ← ask k (Call.tun_set_iff fd d.dev tap_flags)
      elim made [
        | failed ↦ give_up k fd (record d { fd = some fd })
        | done _ name ↦ with_tap k name (record d { fd = some fd; dev = name })
      ]
  ]

-- `inet_pton` writes nothing when the text is no address; its result is only compared with 0.
abbrev pub pton : Kernel → List ℕ → List ℕ → List ℕ
pton k text old = elim (k.inet_pton text) [ presented a ↦ a | not_valid ↦ old ]

-- `add_ip` with the socket.
unfoldable pub set_ip : Kernel → ℕ → List ℕ → List ℕ → Device → Run Bool
set_ip k s ip mask d = do
  let addr = pton k ip (0 ∷ 0 ∷ 0 ∷ 0 ∷ [])
  a ← ask k (Call.set_addr s d.dev addr)
  elim a [
    | failed ↦ ask k (Call.close s) >> pure false
    | done _ _ ↦ do
      m ← ask k (Call.set_netmask s d.dev (pton k mask addr))
      elim m [
        | failed ↦ ask k (Call.close s) >> pure false
        | done _ _ ↦ ask k (Call.close s) >> pure true
      ]
  ]

unfoldable pub add_ip : Kernel → List ℕ → List ℕ → Device → Run Bool
unfolding set_ip
add_ip k ip mask d = do
  socket ← ask k Call.open_socket
  elim socket [ failed ↦ pure false | done s _ ↦ set_ip k s ip mask d ]

-- `RTF_UP`
abbrev pub rtf_up : ℕ
rtf_up = 1

unfoldable pub set_route : Kernel → ℕ → List ℕ → List ℕ → Device → Run Bool
set_route k s dest mask d = do
  a ← ask k (Call.add_rt s d.dev (k.inet_addr dest) (k.inet_addr mask) rtf_up 0)
  elim a [
    | failed ↦ ask k (Call.close s) >> pure false
    | done _ _ ↦ ask k (Call.close s) >> pure true
  ]

unfoldable pub add_route : Kernel → List ℕ → List ℕ → Device → Run Bool
unfolding set_route
add_route k dest mask d = do
  socket ← ask k Call.open_socket
  elim socket [ failed ↦ pure false | done s _ ↦ set_route k s dest mask d ]

-- `set_callback`
abbrev pub set_callback : Device → Device
set_callback d = record d { has_callback = true }

-- `get_mac`
abbrev pub get_mac : Device → MacAddress
get_mac d = d.mac

-- How the two calls that handle the thread end.
pub data Handled : Type 0 where
  handled : Device → Handled
  -- `throw std::logic_error`
  no_callback : Handled
  -- `std::terminate`: a thread that is joinable is destroyed
  terminated : Handled
  -- `delete` of a pointer that was never set
  wild_delete : Handled

unfoldable pub start_listen : Device → Handled
start_listen d =
    if d.has_callback
    then handled (record d { listening = true; thread = running })
    else no_callback

abbrev pub delete_thread : Thread → Device → Handled
delete_thread unset d = wild_delete
delete_thread running d = terminated
delete_thread cleared d = handled (record d { listening = false; thread = cleared })

-- `stop_listen`: nothing joins the thread before it is deleted.
unfoldable pub stop_listen : Device → Handled
stop_listen d = delete_thread d.thread d
