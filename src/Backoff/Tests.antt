-- ===== src/Backoff/Tests.antt =====
-- The delays of pulsar-client-go/pulsar/backoff/backoff.go on concrete runs.
use pr.Base.{arith, ◌/◌, ◌≡◌, ◌≤◌}
use pr.Backoff.{min_backoff, max_backoff, new_default_backoff, next}
use pr.Backoff.Delays.{after, after-doubles, next_bounds}

next_bounds_example :
    (min_backoff ≤ (next (λ d. d / 10) new_default_backoff).1)
    × ((next (λ d. d / 10) new_default_backoff).1 ≤ 72_000_000_000)
    × ((next (λ d. d / 10) new_default_backoff).0.backoff ≤ max_backoff)
    × (0 ≤ (next (λ d. d / 10) new_default_backoff).1)
unfolding next
next_bounds_example = next_bounds (λ d. d / 10) new_default_backoff (omega arith) (omega arith)

after-doubles_example : (after (λ d. 0) 4 new_default_backoff).backoff ≡ 800_000_000
after-doubles_example = after-doubles (λ d. 0) 3
