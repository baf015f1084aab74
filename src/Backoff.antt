-- ===== src/Backoff.antt =====
-- pulsar-client-go/pulsar/backoff/backoff.go: delays in nanoseconds, int64 words.
pub mod Delays
mod Tests
use pr.Base.{Bool, add64, if◌then◌else◌, not, slt64, ℕ, ◌/◌}

pub record DefaultBackoff : Type 0 where
  pub backoff : ℕ

abbrev pub min_backoff : ℕ
min_backoff = 100_000_000

abbrev pub max_backoff : ℕ
max_backoff = 60_000_000_000

abbrev pub new_default_backoff : DefaultBackoff
new_default_backoff = record { backoff = 0 }

-- Signed division by two, of a delay that is not negative.
abbrev pub new_default_backoff_with_initial_backoff : ℕ → DefaultBackoff
new_default_backoff_with_initial_backoff backoff = record { backoff = backoff / 2 }

-- `jitter` is the random part, `rnd.Float64() * float64(b.backoff) * 0.2` of the new delay, rounded
-- down. Returns the delay too.
unfoldable pub next : (ℕ → ℕ) → DefaultBackoff → DefaultBackoff × ℕ
next jitter b =
    let doubled = add64 b.backoff b.backoff in
    let delay =
      if slt64 doubled min_backoff
      then min_backoff
      else if slt64 max_backoff doubled
      then max_backoff
      else doubled in
    (record { backoff = delay }, add64 delay (jitter delay))

unfoldable pub is_max_backoff_reached : DefaultBackoff → Bool
is_max_backoff_reached b = not (slt64 b.backoff max_backoff)

abbrev pub reset : DefaultBackoff → DefaultBackoff
reset b = record { backoff = 0 }
