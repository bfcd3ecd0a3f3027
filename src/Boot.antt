-- ===== src/Boot.antt =====
-- DNet.cpp: the constructor of `DNet`, on the system of Os and the device of Driver.Device.
pub mod Laws
pub mod Serve
use dnet_core.Base.{
  ℕ, ◌+◌, ◌-◌, ◌%◌, ◌^◌, ltb, Bool, true, false, if◌then◌else◌, Option, none, some, List, [],
}
use dnet_core.Addr.{MacAddress, Ipv4Address}
use dnet_core.Addr.Text.{parsed, invalid, undefined, parse_ipv4, parse_mac, ipv4_text}
use dnet_core.Dns.Table.{register_dns_records}
use dnet_core.Net.{Net}
use dnet_core.Dns.Record.{RecordKey, RecordValue}
use dnet_core.Os.{Kernel, Run, pure, ◌>>=◌}
use dnet_core.Driver.Device.{
  Device, new_device, init_dev, add_route, set_callback, get_mac, Handled, handled, no_callback,
  terminated, wild_delete, start_listen,
}

-- How the constructor ends: running, by an exception, or undefined. The exceptions are those of
-- `parse_string`, "Driver init failed.", "Driver add route failed." and that of `start_listen`.
pub data Boot : Type 0 where
  started : Net → Device → Boot
  bad_address init_failed route_failed not_started : Boot
  boot_undefined : Boot

-- The arguments, the texts as C strings; `mtu` is the bit pattern of an `int`.
pub record Config : Type 0 where
  pub ifname : List ℕ
  pub mtu : ℕ
  pub mac : List ℕ
  pub dest_ip : List ℕ
  pub gen_mask : List ℕ

-- The `int` as the `size_t` that the driver takes.
abbrev pub sign_extended : ℕ → ℕ
sign_extended n = let m = n % 2 ^ 32 in if ltb m (2 ^ 31) then m else m + (2 ^ 64 - 2 ^ 32)

-- The layers, whose tables are empty but for the DNS records. The clock and `rand()` are read later.
abbrev pub layers :
    MacAddress → Ipv4Address → Ipv4Address → Device → List (RecordKey × RecordValue) → Net
layers mac network mask d records = record {
  mac = mac;
  tap_mac = get_mac d;
  subnet = record { network = network; mask = mask };
  dns_records = records;
  now = 0;
  rand = 0;
  arp_cache = [];
  connections = [];
  sent = [];
}

abbrev pub running : Net → Handled → Boot
running n (handled d) = started n d
running n no_callback = not_started
running n terminated = boot_undefined
running n wild_delete = boot_undefined

-- From the first layer on.
unfoldable pub build : MacAddress → Ipv4Address → Ipv4Address → Device → Boot
build mac network mask d = elim (register_dns_records []) [
  | none ↦ boot_undefined
  | some records ↦ running (layers mac network mask d records) (start_listen (set_callback d))
]

-- With the addresses parsed.
unfoldable pub open_device : Kernel → Config → MacAddress → Ipv4Address → Ipv4Address → Run Boot
open_device k c mac network mask = do
  (ready, d) ← init_dev k (new_device c.ifname (sign_extended c.mtu))
  elim ready [
    | false ↦ pure init_failed
    | true ↦ do
      routed ← add_route k (ipv4_text network) (ipv4_text mask) d
      elim routed [ false ↦ pure route_failed | true ↦ pure (build mac network mask d) ]
  ]

unfoldable pub construct : Kernel → Config → Run Boot
construct k c = elim (parse_mac c.mac) [
  | invalid ↦ pure bad_address
  | undefined ↦ pure boot_undefined
  | parsed mac ↦ elim (parse_ipv4 c.dest_ip) [
    | invalid ↦ pure bad_address
    | undefined ↦ pure boot_undefined
    | parsed network ↦ elim (parse_ipv4 c.gen_mask) [
      | invalid ↦ pure bad_address
      | undefined ↦ pure boot_undefined
      | parsed mask ↦ open_device k c mac network mask
    ]
  ]
]
