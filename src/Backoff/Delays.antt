-- ===== src/Backoff/Delays.antt =====
-- The sequence of delays of pulsar-client-go/pulsar/backoff/backoff.go.
use native.Mathlib.Nat.{pow-suc}
use Prim.Native.Nat.{min}
use pr.Base.{arith, suc, zero, ℕ, ◌*◌, ◌^◌, ◌∙◌, ◌≡◌, ◌≤◌}
use pr.Backoff.{DefaultBackoff, min_backoff, max_backoff, new_default_backoff, next}

-- The state after so many calls of `Next`.
unfoldable pub after : (ℕ → ℕ) → ℕ → DefaultBackoff → DefaultBackoff
after jitter zero b = b
after jitter (suc n) b = (next jitter (after jitter n b)).0

-- One call doubles a delay that is at least the least one.
pub next-double :
    (jitter : ℕ → ℕ) (b : DefaultBackoff)
    → min_backoff ≤ b.backoff
    → b.backoff ≤ max_backoff
    → (next jitter b).0.backoff ≡ min max_backoff (2 * b.backoff)
unfolding next
next-double jitter b l u = ground arith

next-first : (jitter : ℕ → ℕ) → (next jitter new_default_backoff).0.backoff ≡ min_backoff
unfolding next
next-first jitter = ground arith

min_double :
    (x p : ℕ)
    → x ≡ min max_backoff p
    → min_backoff ≤ p
    → (min_backoff ≤ x) × (x ≤ max_backoff) × (min max_backoff (2 * x) ≡ min max_backoff (2 * p))
min_double x p e l = ground arith

pow_pos : (n : ℕ) → 1 ≤ 2 ^ n
pow_pos zero = omega arith
pow_pos (suc n) = ground (arith, pow_pos n, pow-suc 2 n)

-- The delays double from 100 ms: call n + 1 after a reset waits 100 ms * 2 ^ n, or 60 s if that is
-- less.
pub after-doubles :
    (jitter : ℕ → ℕ) (n : ℕ)
    → (after jitter (suc n) new_default_backoff).backoff ≡ min max_backoff (min_backoff * 2 ^ n)
unfolding after
after-doubles jitter zero = next-first jitter ∙ omega arith
after-doubles jitter (suc n) =
    let ih = after-doubles jitter n in
    let (l, u, d) =
      min_double (after jitter (suc n) new_default_backoff).backoff (min_backoff * 2 ^ n) ih
        (omega (arith, pow_pos n)) in
    next-double jitter (after jitter (suc n) new_default_backoff) l u
    ∙ d
    ∙ omega (arith, pow-suc 2 n)

-- With a random part of at most a fifth, every delay is at least 100 ms and at most 72 s, from any
-- state that `Next` leaves, and no less than the state's delay.
pub next_bounds :
    (jitter : ℕ → ℕ) (b : DefaultBackoff)
    → b.backoff ≤ max_backoff
    → 5 * jitter (next jitter b).0.backoff ≤ (next jitter b).0.backoff
    → (min_backoff ≤ (next jitter b).1)
      × ((next jitter b).1 ≤ 72_000_000_000)
      × ((next jitter b).0.backoff ≤ max_backoff)
      × (min b.backoff max_backoff ≤ (next jitter b).1)
unfolding next
next_bounds jitter b h j = ground arith
