-- ===== src/PartitionProducer/Weights.antt =====
-- Sums over the requests that are live in pulsar-client-go/pulsar/producer_partition.go: in the
-- channel, in the batch, in the pending queue, or in the hand of the method that runs.
use pr.Base.{List, [], arith, if◌then◌else◌, leb, ltb, ℕ, ◌%◌, ◌++◌, ◌+◌, ◌==◌, ◌^◌, ◌∷◌, ◌≡◌}
use pr.PartitionProducer.{Producer, SendRequest, PendingItem, Outcome}

module _ (w : SendRequest → ℕ) where
  abbrev pub load : List SendRequest → ℕ
  load [] = 0
  load (sr ∷ srs) = w sr + load srs

  abbrev pub load_items : List PendingItem → ℕ
  load_items [] = 0
  load_items (it ∷ its) = load it.send_requests + load_items its

  pub load-append : (xs ys : List SendRequest) → load (xs ++ ys) ≡ load xs + load ys
  load-append [] ys = omega arith
  load-append (x ∷ xs) ys = omega (arith, load-append xs ys)

  pub load_items-append :
      (xs ys : List PendingItem) → load_items (xs ++ ys) ≡ load_items xs + load_items ys
  load_items-append [] ys = omega arith
  load_items-append (x ∷ xs) ys = omega (arith, load_items-append xs ys)

  abbrev pub live : Producer → ℕ
  live p = load p.data_chan + load p.batch + load_items p.pending

abbrev pub permit_weight : SendRequest → ℕ
permit_weight sr = if sr.has_semaphore then 1 else 0

abbrev pub mem_weight : SendRequest → ℕ
mem_weight sr = if sr.has_mem then sr.reserved_mem else 0

-- Parts of chunked messages.
abbrev pub part_weight : SendRequest → ℕ
part_weight sr = if leb sr.total_chunks 1 then 0 else 1

abbrev pub id_weight : ℕ → SendRequest → ℕ
id_weight i sr = if sr.id == i then 1 else 0

abbrev pub calls : ℕ → List (ℕ × Outcome) → ℕ
calls i [] = 0
calls i ((k, r) ∷ cs) = (if k == i then 1 else 0) + calls i cs

pub calls-append :
    (i : ℕ) (xs ys : List (ℕ × Outcome)) → calls i (xs ++ ys) ≡ calls i xs + calls i ys
calls-append i [] ys = omega arith
calls-append i ((k, r) ∷ xs) ys = omega (arith, calls-append i xs ys)

-- One for each call of SendAsync so far.
abbrev pub once : ℕ → ℕ → ℕ
once issued i = if ltb i issued then 1 else 0

-- The requests in hand are the last argument.
pub record IsBalanced (p : Producer) (hand : List SendRequest) : Type 0 where
  pub permits : p.permits ≡ (live permit_weight p + load permit_weight hand) % 2 ^ 32
  pub mem : p.used_mem ≡ (live mem_weight p + load mem_weight hand) % 2 ^ 64
  pub whole : live part_weight p + load part_weight hand ≡ 0
  pub answers :
      (i : ℕ)
      → calls i p.callbacks + live (id_weight i) p + load (id_weight i) hand ≡ once p.issued i
