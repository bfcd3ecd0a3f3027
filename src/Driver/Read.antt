-- ===== src/Driver/Read.antt =====
-- driver/driver.cpp: `driver::read` and `driver::write` around the system calls, and the array that a
-- round of `do_listen` reads into.
use dnet_core.Base.{ℕ, ◌-◌, ◌^◌, List, ◌++◌, length, drop, map, Option}
use dnet_core.Net.{Net}
use dnet_core.Driver.{Arrival, do_listen}

-- What `read(2)` does: it fails, or puts the bytes of one frame into the buffer.
pub data Received : Type 0 where
  failed : Received
  received : List ℕ → Received

-- -1, as the `size_t` that the callback takes.
abbrev pub minus_one : ℕ
minus_one = 2 ^ 64 - 1

-- `driver::read(buf, size)`: what the buffer holds then, and the result. A failure is only logged.
unfoldable pub read : Received → List ℕ → List ℕ × ℕ
read failed buf = (buf, minus_one)
read (received bytes) buf = (bytes ++ drop (length bytes) buf, length bytes)

-- A round: what the memory of `data` holds before, what `read(2)` does, and what the clock and
-- `rand()` return meanwhile.
pub record Round : Type 0 where
  pub array : List ℕ
  pub answer : Received
  pub now : ℕ
  pub rand : ℕ

unfoldable pub arrival : Round → Arrival
arrival r =
    let (memory, size) = read r.answer r.array in
    record { memory = memory; size = size; now = r.now; rand = r.rand }

-- The loop over rounds.
unfoldable pub listen : Net → List Round → Option Net
listen n rounds = do_listen n (map arrival rounds)
