-- ===== src/Producer.antt =====
-- cmd/producer/main.go: the workers that send and their counters. The flags are not negative.
-- The counters are only added to, by atomic operations, so that the workers may run one by one.
pub mod Counting
mod Tests
use pr.Base.{
  List, Option, add64, if◌then◌else◌, none, some, suc, zero, ℕ, ◌%◌, ◌+◌, ◌/◌, ◌==◌, ◌||◌, ◌∷◌,
}

abbrev pub Bytes : Type 0
Bytes = List ℕ

pub record Options : Type 0 where
  pub total_size : ℕ
  pub message_size : ℕ
  pub concurrency : ℕ

-- int64 words.
pub record Counters : Type 0 where
  pub sent_bytes : ℕ
  pub sent_count : ℕ
  pub error_count : ℕ

-- What `Send` comes to: a failure, or one with an ended context.
pub data Sent : Type 0 where
  delivered failed interrupted : Sent

-- A round of a worker: the context has ended before, or it sends.
pub data Round : Type 0 where
  done : Round
  sends : Sent → Round

-- Two integer divisions; `none` is the panic of a division by zero.
unfoldable pub messages_per_worker : Options → Option ℕ
messages_per_worker o =
    if o.message_size == 0 || o.concurrency == 0
    then none
    else some (o.total_size / o.message_size / o.concurrency)

-- The template with the worker and the round in its first three bytes; `none` is a panic.
unfoldable pub make_payload : Bytes → ℕ → ℕ → Option Bytes
make_payload (a ∷ b ∷ c ∷ rest) worker_id j =
    some ((worker_id % 256) ∷ (j % 256) ∷ (j / 256 % 256) ∷ rest)
make_payload _ worker_id j = none

module _ (o : Options) (template : Bytes) where
  abbrev pub count_sent : Counters → Counters
  count_sent c = record c {
    sent_bytes = add64 c.sent_bytes o.message_size;
    sent_count = add64 c.sent_count 1;
  }

  abbrev pub count_error : Counters → Counters
  count_error c = record c { error_count = add64 c.error_count 1 }

  -- The loop of a worker, with so many rounds left from round `j`.
  unfoldable pub work : ℕ → (ℕ → Round) → ℕ → ℕ → Counters → Option Counters
  unfolding make_payload
  work worker_id rounds zero j c = some c
  work worker_id rounds (suc left) j c = elim (rounds j) [
    | done ↦ some c
    | sends r ↦ elim (make_payload template worker_id j) [
      | none ↦ none
      | some payload ↦ elim r [
        | delivered ↦ work worker_id rounds left (j + 1) (count_sent c)
        | failed ↦ work worker_id rounds left (j + 1) (count_error c)
        | interrupted ↦ some c
      ]
    ]
  ]

  unfoldable pub work_all : (ℕ → ℕ → Round) → ℕ → ℕ → Counters → Option Counters
  unfolding work
  work_all rounds messages zero c = some c
  work_all rounds messages (suc n) c = elim (work_all rounds messages n c) [
    | none ↦ none
    | some c' ↦ work n (rounds n) messages 0 c'
  ]

  unfoldable pub produce : (ℕ → ℕ → Round) → Option Counters
  unfolding work_all messages_per_worker
  produce rounds = elim (messages_per_worker o) [
    | none ↦ none
    | some messages ↦
        work_all rounds messages o.concurrency
          (record { sent_bytes = 0; sent_count = 0; error_count = 0 })
  ]
