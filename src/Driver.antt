-- ===== src/Driver.antt =====
-- driver/driver.cpp: `do_listen`, over the frames that the TAP device hands out.
pub mod Runs
pub mod Device
pub mod Read
use dnet_core.Base.{ℕ, List, [], ◌∷◌, Option, none, some}
use dnet_core.Net.{Net, Outcome, ok, thrown, fault}
use dnet_core.L2

-- One round: what `data` holds after `read`, what `read` returned, as the `size_t` that the callback
-- takes, and what the clock and `rand()` return meanwhile.
pub record Arrival : Type 0 where
  pub memory : List ℕ
  pub size : ℕ
  pub now : ℕ
  pub rand : ℕ

-- The `catch` drops the packet and keeps what was done; `none` is undefined behaviour.
unfoldable pub caught : Outcome (Unit {0}) → Option Net
caught (ok _ n) = some n
caught (thrown _ n) = some n
caught fault = none

unfoldable pub receive : Net → Arrival → Option Net
receive n a = caught (L2.on_recv a.memory a.size (record n { now = a.now; rand = a.rand }))

-- The rounds while `do_listen_flag` is set.
unfoldable pub do_listen : Net → List Arrival → Option Net
do_listen n [] = some n
do_listen n (a ∷ as') = elim (receive n a) [ none ↦ none | some n' ↦ do_listen n' as' ]
