-- ===== src/Metrics/Range.antt =====
-- `FormatBytes` of pkg/metrics/memory.go never indexes past its letters, and picks the right one.
use pr.Base.{Option, arith, none, some, ℕ, ◌*◌, ◌<◌, ◌^◌, ◌≡◌, ◌≤◌, ◌⊎◌}
use pr.Metrics.Format.{Formatted, plain, scaled, scale, format_bytes}

-- A divisor and the letter that stands for it.
abbrev pub IsUnit : ℕ → ℕ → Type 0
IsUnit div c =
    ((div ≡ 2 ^ 10) × (c ≡ b'K'))
    ⊎ ((div ≡ 2 ^ 20) × (c ≡ b'M'))
    ⊎ ((div ≡ 2 ^ 30) × (c ≡ b'G'))
    ⊎ ((div ≡ 2 ^ 40) × (c ≡ b'T'))
    ⊎ ((div ≡ 2 ^ 50) × (c ≡ b'P'))
    ⊎ ((div ≡ 2 ^ 60) × (c ≡ b'E'))

-- What a result says of the number of bytes; a panic or exhausted fuel says nothing true.
abbrev pub Describes : ℕ → Option Formatted → Type 0
Describes bytes none = ⊥
Describes bytes (some (plain n)) = (n ≡ bytes) × (bytes < 1024)
Describes bytes (some (scaled n div c)) =
    (n ≡ bytes) × (div ≤ bytes) × (bytes < 1024 * div) × IsUnit div c

-- For every uint64 the text is the number itself below 1024, and else its quotient by the power of
-- 1024 that leaves a number from 1 up to 1024, with that power's letter: no index is out of range.
pub format_bytes-Describes : (bytes : ℕ) → bytes < 2 ^ 64 → Describes bytes (format_bytes bytes)
unfolding format_bytes scale
format_bytes-Describes bytes h = ground arith
