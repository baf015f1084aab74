-- ===== src/Producer/Tests.antt =====
-- A run of the producer of cmd/producer/main.go.
use pr.Base.{[], arith, if◌then◌else◌, refl, some, ℕ, ◌*◌, ◌+◌, ◌==◌, ◌∷◌, ◌≡◌, ◌≤◌}
use pr.Producer.{Options, Counters, Round, sends, delivered, failed, produce}
use pr.Producer.Counting.{produce-counts}

-- Two workers with three messages each, of which the second of each fails.
abbrev options : Options
options = record { total_size = 25; message_size = 4; concurrency = 2 }

abbrev rounds : ℕ → ℕ → Round
rounds w j = if j == 1 then sends failed else sends delivered

abbrev counted : Counters
counted = record { sent_bytes = 16; sent_count = 4; error_count = 2 }

run-counted : produce options (9 ∷ 9 ∷ 9 ∷ 9 ∷ []) rounds ≡ some counted
unfolding produce
run-counted = refl

produce-counts_example :
    (c : Counters) × (produce options (9 ∷ 9 ∷ 9 ∷ 9 ∷ []) rounds ≡ some c)
    × (c.sent_bytes ≡ 4 * c.sent_count)
    × (c.sent_bytes ≤ 25)
    × (c.sent_count + c.error_count ≤ 6)
produce-counts_example =
    produce-counts options (9 ∷ 9 ∷ 9 ∷ 9 ∷ []) rounds refl (omega arith) (omega arith)
      (omega arith)
