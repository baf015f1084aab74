-- ===== src/Metrics/Format.antt =====
-- `FormatBytes` of pkg/metrics/memory.go.
use pr.Base.{
  List, Option, [], get_elem?, if◌then◌else◌, ltb, none, some, suc, zero, ℕ, ◌%◌, ◌*◌, ◌+◌, ◌/◌,
  ◌^◌, ◌∷◌,
}

-- The result's parts: `%d B`, or `%.2f %cB` of a quotient and a letter.
pub data Formatted : Type 0 where
  plain : ℕ → Formatted
  scaled : ℕ → ℕ → ℕ → Formatted

abbrev pub kilo : ℕ
kilo = 1024

-- `for n := bytes / unit; n >= unit; n /= unit`, with fuel. Returns `div` and `exp`.
unfoldable pub scale : ℕ → ℕ → ℕ → ℕ → Option (ℕ × ℕ)
scale zero n div exp = none
scale (suc f) n div exp =
    let rest = scale f (n / kilo) ((div * kilo) % 2 ^ 64) (exp + 1) in
    if ltb n kilo then some (div, exp) else rest

-- "KMGTPE"
abbrev pub letters : List ℕ
letters = b'K' ∷ b'M' ∷ b'G' ∷ b'T' ∷ b'P' ∷ b'E' ∷ []

-- `none` is the panic of an index out of range.
abbrev letter : ℕ → Option (ℕ × ℕ) → Option Formatted
letter bytes none = none
letter bytes (some (div, exp)) = elim (get_elem? letters exp) [
  | none ↦ none
  | some c ↦ some (scaled bytes div c)
]

unfoldable pub format_bytes : ℕ → Option Formatted
format_bytes bytes =
    if ltb bytes kilo then some (plain bytes) else letter bytes (scale 6 (bytes / kilo) kilo 0)
