-- ===== src/Memory.antt =====
-- pulsar-client-go/pulsar/internal/memory_limit_controller.go: how much memory pending messages use.
-- An int64 is its bit pattern. The comparisons of float64 percentages with the threshold are
-- parameters: `reached u` for `float64(u) / float64(limit) >= threshold`, `under u` for `<`.
pub mod Limit
mod Tests
use pr.Base.{
  Bool, List, Option, [], add64, false, if◌then◌else◌, none, not, set, slt64, some, sub64, suc,
  true, ℕ, ◌&&◌, ◌++◌, ◌==◌, ◌∷◌,
}

-- `triggers`: for each, whether it is running.
pub record MemoryLimitController : Type 0 where
  pub current_usage : ℕ
  pub limit : ℕ
  pub triggers : List Bool

abbrev pub new_memory_limit_controller : ℕ → MemoryLimitController
new_memory_limit_controller limit = record { current_usage = 0; limit = limit; triggers = [] }

abbrev pub is_memory_limited : MemoryLimitController → Bool
is_memory_limited m = slt64 0 m.limit

abbrev pub current_usage_of : MemoryLimitController → ℕ
current_usage_of m = m.current_usage

abbrev pub register_trigger : MemoryLimitController → MemoryLimitController
register_trigger m = record m { triggers = m.triggers ++ false ∷ [] }

-- `canTryRunning` of each: the ones that are idle are started.
abbrev pub started : List Bool → List Bool
started [] = []
started (running ∷ ts) = true ∷ started ts

-- How many trigger functions that starts.
abbrev pub starts : List Bool → ℕ
starts [] = 0
starts (true ∷ ts) = starts ts
starts (false ∷ ts) = suc (starts ts)

-- `setRunning(false)` when the function of trigger `i` has returned.
abbrev pub finish_trigger : MemoryLimitController → ℕ → MemoryLimitController
finish_trigger m i = record m { triggers = set m.triggers i false }

-- What an attempt of `TryReserveMemory` comes to: the swap failed and the loop goes round, or a
-- result.
pub data Attempt : Type 0 where
  again : Attempt
  returns : MemoryLimitController → Bool → Attempt

-- Also whether the waiting reservations are woken.
unfoldable pub release_memory : MemoryLimitController → ℕ → MemoryLimitController × Bool
release_memory m size =
    let new_usage = sub64 m.current_usage size in
    (
      record m { current_usage = new_usage },
      slt64 m.limit (add64 new_usage size) && not (slt64 m.limit new_usage),
    )

module _ (reached under : ℕ → Bool) where
  -- Also the number of trigger functions that are started.
  unfoldable pub check_trigger : MemoryLimitController → ℕ → ℕ → MemoryLimitController × ℕ
  check_trigger m prev next_usage =
      if reached next_usage && under prev
      then (record m { triggers = started m.triggers }, starts m.triggers)
      else (m, 0)

  -- One round of the loop: `loaded` is the usage that it loaded, which others may have changed.
  unfoldable pub attempt : MemoryLimitController → ℕ → ℕ → Attempt
  unfolding check_trigger
  attempt m loaded size =
      let new_usage = add64 loaded size in
      if is_memory_limited m && slt64 m.limit loaded
      then returns m false
      else if loaded == m.current_usage
      then returns (check_trigger (record m { current_usage = new_usage }) loaded new_usage).0 true
      else again

  unfoldable pub force_reserve_memory : MemoryLimitController → ℕ → MemoryLimitController
  unfolding check_trigger
  force_reserve_memory m size =
      let next_usage = add64 m.current_usage size in
      let prev_usage = sub64 next_usage size in
      (check_trigger (record m { current_usage = next_usage }) prev_usage next_usage).0

  -- `TryReserveMemory` with nobody between the load and the swap.
  unfoldable pub try_reserve_memory : MemoryLimitController → ℕ → MemoryLimitController × Bool
  unfolding attempt
  try_reserve_memory m size = elim (attempt m m.current_usage size) [
    | again ↦ (m, false)
    | returns m' done ↦ (m', done)
  ]

  -- The loop of `ReserveMemory`. Each wait ends with the controller as it then is, and whether it
  -- was woken or the context had ended. `none`: it still waits.
  unfoldable pub reserve_loop :
      MemoryLimitController
      → ℕ
      → List (MemoryLimitController × Bool)
      → Option (MemoryLimitController × Bool)
  unfolding try_reserve_memory
  reserve_loop m size [] =
      if (try_reserve_memory m size).1 then some (try_reserve_memory m size) else none
  reserve_loop m size ((later, woken) ∷ es) =
      let rest = reserve_loop later size es in
      if (try_reserve_memory m size).1
      then some (try_reserve_memory m size)
      else if woken
      then rest
      else some (later, false)

  -- First a try without the lock, at `m`; the loop starts at `locked`.
  unfoldable pub reserve_memory :
      MemoryLimitController
      → MemoryLimitController
      → ℕ
      → List (MemoryLimitController × Bool)
      → Option (MemoryLimitController × Bool)
  unfolding reserve_loop
  reserve_memory m locked size es =
      if (try_reserve_memory m size).1
      then some (try_reserve_memory m size)
      else reserve_loop locked size es
