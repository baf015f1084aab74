-- ===== src/Memory/Tests.antt =====
-- The theorems on pulsar-client-go/pulsar/internal/memory_limit_controller.go at concrete inputs.
use pr.Base.{Bool, [], arith, false, leb, ltb, not, refl, slt64, true, ℕ, ◌&&◌, ◌∷◌, ◌≡◌, ◌⊎◌}
use pr.Memory.{
  MemoryLimitController, again, returns, is_memory_limited, attempt, check_trigger,
  try_reserve_memory, release_memory, reserve_memory, force_reserve_memory,
}
use pr.Memory.Limit.{
  IsBounded, Reach, here, next, tries, forces, Reach-IsBounded, attempt-linear,
  release_memory-wakes, reserve_memory-never_refuses,
}

-- The trigger's threshold is nine tenths of a limit of 100.
abbrev reached : ℕ → Bool
reached u = leb 90 u

abbrev under : ℕ → Bool
under u = ltb u 90

abbrev using : ℕ → MemoryLimitController
using u = record { current_usage = u; limit = 100; triggers = false ∷ [] }

abbrev triggered : MemoryLimitController
triggered = record { current_usage = 110; limit = 100; triggers = true ∷ [] }

reserve_over : attempt reached under (using 80) 80 30 ≡ returns triggered true
unfolding attempt check_trigger
reserve_over = refl

over-Reach : Reach reached under 30 (using 80) 50 (force_reserve_memory reached under triggered 50)
over-Reach =
    next (next here (tries (using 80) triggered 80 30 true (omega arith) reserve_over))
      (forces triggered 50)

Reach-IsBounded_example :
    IsBounded reached under 30 100 50 (force_reserve_memory reached under triggered 50)
Reach-IsBounded_example =
    Reach-IsBounded reached under 30 100 (omega arith) (omega arith) (omega arith) over-Reach

attempt-linear_example :
    (attempt reached under (using 80) 70 5 ≡ again)
    ⊎ ((attempt reached under (using 80) 70 5 ≡ returns (using 80) false)
        × (is_memory_limited (using 80) ≡ true)
        × (slt64 100 70 ≡ true))
    ⊎ (attempt reached under (using 80) 70 5
        ≡ returns
            (try_reserve_memory reached under (using 80) 5).0
            (try_reserve_memory reached under (using 80) 5).1)
attempt-linear_example = attempt-linear reached under (using 80) 70 5

release_memory-wakes_example : (release_memory triggered 10).1 ≡ (
    not (try_reserve_memory reached under triggered 1).1
    && (try_reserve_memory reached under (release_memory triggered 10).0 1).1)
release_memory-wakes_example =
    release_memory-wakes reached under triggered 10 1 (omega arith) (omega arith) (omega arith)
      (omega arith)

abbrev granted : MemoryLimitController × Bool
granted = (record { current_usage = 100; limit = 100; triggers = true ∷ [] }, true)

reserve_memory-never_refuses_example : granted.1 ≡ true
unfolding reserve_memory attempt check_trigger
reserve_memory-never_refuses_example =
    reserve_memory-never_refuses reached under triggered triggered 20 ((using 80, true) ∷ [])
      (refl, tt) granted refl
