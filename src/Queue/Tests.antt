-- ===== src/Queue/Tests.antt =====
-- The queue of pulsar-client-go/pulsar/internal/blocking_queue.go round the end of its ring.
use pr.Base.{List, [], arith, false, none, refl, some, true, ℕ, ◌∷◌, ◌≡◌}
use pr.Queue.{BlockingQueue, readable_slice, put_unsafe, poll, peek_last, take_item}
use pr.Queue.Refine.{IsValid}
use pr.Queue.Simulation.{
  Op, puts, takes, polls, peeks_last, waits, stored, item, taken, run, spec_run, run-spec_run,
}

-- 8, then 9, round the end
abbrev wrapped : BlockingQueue ℕ
wrapped = record {
  items = some 9 ∷ none ∷ some 8 ∷ [];
  head_idx = 2;
  tail_idx = 1;
  size = 2;
  max_size = 3;
}

abbrev script : List (Op ℕ)
script = puts (some 1) ∷ puts (some 2) ∷ peeks_last ∷ takes ∷ polls ∷ []

wrapped-IsValid : IsValid wrapped
wrapped-IsValid = omega arith

run-wrapped :
    run wrapped script
    ≡ stored false ∷ waits ∷ item (some 1) ∷ taken (some 8) true ∷ taken (some 9) true ∷ []
unfolding put_unsafe peek_last take_item poll
run-wrapped = refl

run-spec_run_example : run wrapped script ≡ spec_run 3 (some 8 ∷ some 9 ∷ []) script
unfolding readable_slice
run-spec_run_example = run-spec_run wrapped script wrapped-IsValid
