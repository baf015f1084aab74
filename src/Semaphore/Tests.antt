-- ===== src/Semaphore/Tests.antt =====
-- The theorems on pulsar-client-go/pulsar/internal/semaphore.go at concrete inputs.
use pr.Base.{arith, refl, ◌≡◌}
use pr.Semaphore.{Semaphore, acquire, release, receive}
use pr.Semaphore.Steps.{Reach, here, next, acquires, releases, receives, IsFair, Reach-IsFair}
use pr.Semaphore.Race.{fresh, Reach-over_admits}

abbrev two : Semaphore
two = acquire (acquire (fresh 1))

two-waiters : two.waiters ≡ 1
unfolding acquire
two-waiters = refl

-- One permit: the second acquire waits until the first is released.
handed_over : Reach 1 (fresh 1) (receive (release two))
unfolding acquire release
handed_over =
    next
      (next
        (next (next here (acquires (fresh 1) (omega arith)))
          (acquires (acquire (fresh 1)) (omega arith)))
        (releases two (omega arith)))
      (receives (release two) (omega arith) (omega arith))

Reach-IsFair_example : IsFair (receive (release two))
Reach-IsFair_example = Reach-IsFair (omega arith) handed_over

Reach-over_admits_example : (s : Semaphore) × Reach 0 (fresh 3) s × (s.holders ≡ 4)
Reach-over_admits_example = Reach-over_admits 3 (omega arith) (omega arith)
