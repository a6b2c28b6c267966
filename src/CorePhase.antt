-- ===== src/CorePhase.antt =====
-- `CorePhaseCell` of common/src/core_phase.rs: the lifecycle cell that the control and the
-- execution entry points share. The atomic byte is a number; each operation is one atomic load or
-- compare-and-exchange, and what the other threads do comes between a load and an exchange.
pub mod Progress
mod Examples
use privasys_enclave_os_mini.Common.{
  ℕ, zero, suc, Bool, true, false, Option, none, some, List, [], ◌∷◌, ◌==◌, if◌then◌else◌,
}
use privasys_enclave_os_mini.Common.Results.{Result, ok, err}

pub data CorePhase : Type 0 where
  initialising running failed shutting_down stopped : CorePhase

-- `phase as u8`
unfoldable pub to_raw : CorePhase → ℕ
to_raw initialising = 0
to_raw running = 1
to_raw failed = 2
to_raw shutting_down = 3
to_raw stopped = 4

unfoldable pub from_raw : ℕ → CorePhase
from_raw raw =
    if raw == 0
    then initialising
    else if raw == 1
    then running
    else if raw == 2
    then failed
    else if raw == 3
    then shutting_down
    else if raw == 4
    then stopped
    else failed

-- `CorePhaseCell::new`
abbrev pub new : ℕ
new = to_raw initialising

unfoldable pub load : ℕ → CorePhase
load cell = from_raw cell

-- The cell after the exchange, and the byte found in it when the exchange failed.
abbrev pub compare_exchange : (current new cell : ℕ) → ℕ × Option ℕ
compare_exchange current new cell = if cell == current then (new, none) else (cell, some cell)

abbrev answer : ℕ × Option ℕ → ℕ × Result CorePhase (Unit {0})
answer (cell, none) = (cell, ok tt)
answer (cell, some found) = (cell, err (from_raw found))

unfoldable pub transition : (from to : CorePhase) → ℕ → ℕ × Result CorePhase (Unit {0})
transition from to cell = answer (compare_exchange (to_raw from) (to_raw to) cell)

unfoldable pub publish_running : ℕ → ℕ × Result CorePhase (Unit {0})
publish_running cell = transition initialising running cell

unfoldable pub publish_failed : ℕ → ℕ × Result CorePhase (Unit {0})
publish_failed cell = transition initialising failed cell

unfoldable pub publish_stopped : ℕ → ℕ × Result CorePhase (Unit {0})
publish_stopped cell = transition shutting_down stopped cell

-- The phases from which `request_shutdown` exchanges; the others it returns.
unfoldable pub may_shut_down : CorePhase → Bool
may_shut_down initialising = true
may_shut_down running = true
may_shut_down _ = false

-- An atomic access of the cell by some thread; `shut` is the exchange of `request_shutdown` by a
-- thread that has loaded the phase.
pub data Access : Type 0 where
  run_core fail_core stop_core : Access
  shut : CorePhase → Access

-- The cell after one access.
unfoldable pub access : Access → ℕ → ℕ
access run_core cell = (publish_running cell).0
access fail_core cell = (publish_failed cell).0
access stop_core cell = (publish_stopped cell).0
access (shut seen) cell =
    if may_shut_down seen
    then (compare_exchange (to_raw seen) (to_raw shutting_down) cell).0
    else cell

unfoldable pub accesses : List Access → ℕ → ℕ
accesses [] cell = cell
accesses (a ∷ rest) cell = accesses rest (access a cell)

-- The loop, with `others n` the accesses of the other threads between the load and the exchange of
-- the iteration with `n` more to go; none when the fuel is used up.
unfoldable pub request_shutdown : ℕ → (ℕ → List Access) → ℕ → Option (ℕ × CorePhase)
request_shutdown zero others cell = none
request_shutdown (suc n) others cell =
    let current = load cell in
    let cell' = accesses (others n) cell in
    let again = request_shutdown n others cell' in
    if may_shut_down current
    then if cell' == to_raw current then some (to_raw shutting_down, shutting_down) else again
    else some (cell', current)
