-- ===== src/Driver/Device/Descriptors.antt =====
-- Which descriptors the set-up leaves open.
use dnet_core.Base.{ℕ, ◌≡◌, true, Option, none, some, List, ◌∷◌, arith, inl, inr}
use dnet_core.Os.{Kernel, Call, Answer, Answer-cases, failed, done, Trace, still_open, release}
use dnet_core.Driver.Device.{
  Device, init_dev, with_tap, set_up, add_ip, set_ip, add_route, set_route, tap_flags,
}

-- Whatever the system answers, `add_route` ends with the descriptors open that were open before: its
-- socket is closed whether or not the route was added.
pub add_route-still_open :
    (k : Kernel) (dest mask : List ℕ) (d : Device) (t : Trace)
    → still_open k (add_route k dest mask d t).1 ≡ still_open k t
unfolding add_route set_route
add_route-still_open k dest mask d t = ground arith

pub add_ip-still_open :
    (k : Kernel) (ip mask : List ℕ) (d : Device) (t : Trace)
    → still_open k (add_ip k ip mask d t).1 ≡ still_open k t
unfolding add_ip set_ip
add_ip-still_open k ip mask d t = ground arith

set_up-still_open :
    (k : Kernel) (s : ℕ) (name : List ℕ) (d : Device) (t : Trace)
    → still_open k (set_up k s name d t).1 ≡ release s (still_open k t)
unfolding set_up
set_up-still_open k s name d t = ground arith

with_tap-still_open :
    (k : Kernel) (name : List ℕ) (d : Device) (t : Trace)
    → still_open k (with_tap k name d t).1 ≡ still_open k t
unfolding with_tap
with_tap-still_open k name d t =
    ground (arith, λ (s : ℕ). set_up-still_open k s name d (Call.open_socket ∷ t))

-- The descriptor of the TAP device, if the device was made.
abbrev made : ℕ → Answer → Option ℕ
made fd failed = none
made fd (done _ _) = some fd

abbrev pub tap_made : Kernel → Device → Trace → Option ℕ
tap_made k d t = elim (k.answer t Call.open_tap) [
  | failed ↦ none
  | done fd _ ↦ made fd (k.answer (Call.open_tap ∷ t) (Call.tun_set_iff fd d.dev tap_flags))
]

abbrev pub kept : Option ℕ → List ℕ → List ℕ
kept none open' = open'
kept (some fd) open' = fd ∷ open'

-- Whatever the system answers and `init_dev` returns, the descriptors that were open before stay open,
-- and the one new descriptor is that of the TAP device, exactly when TUNSETIFF made the device: when a
-- later step fails and `init_dev` returns false, it is left open too.
pub init_dev-still_open :
    (k : Kernel) (d : Device) (t : Trace)
    → still_open k (init_dev k d t).1 ≡ kept (tap_made k d t) (still_open k t)
unfolding init_dev
init_dev-still_open k d t = ground (
  arith,
  λ (fd : ℕ) (name : List ℕ).
      with_tap-still_open k name (record d { fd = some fd; dev = name })
        (Call.tun_set_iff fd d.dev tap_flags ∷ Call.open_tap ∷ t),
)

with_tap-fd :
    (k : Kernel) (name : List ℕ) (d : Device) (t : Trace) → (with_tap k name d t).0.1.fd ≡ d.fd
unfolding with_tap set_up
with_tap-fd k name d t = ground arith

-- `init_dev` returns true only with the device made, and keeps its descriptor in `fd`.
pub init_dev-fd :
    (k : Kernel) (d : Device) (t : Trace)
    → (init_dev k d t).0.0 ≡ true
    → (fd : ℕ) × (tap_made k d t ≡ some fd) × ((init_dev k d t).0.1.fd ≡ some fd)
unfolding init_dev
init_dev-fd k d t e = elim (Answer-cases (k.answer t Call.open_tap)) [
  | inl f ↦ absurd (ground arith)
  | inr (fd, x, f) ↦
      elim (Answer-cases (k.answer (Call.open_tap ∷ t) (Call.tun_set_iff fd d.dev tap_flags))) [
        | inl g ↦ absurd (ground arith)
        | inr (y, name, g) ↦ (
          fd,
          ground arith,
          ground (
            arith,
            with_tap-fd k name (record d { fd = some fd; dev = name })
                (Call.tun_set_iff fd d.dev tap_flags ∷ Call.open_tap ∷ t),
          ),
        )
      ]
]
