-- ===== src/Message/Tracker.antt =====
-- `ackTracker` of pulsar-client-go/pulsar/impl_message.go: which messages of a batch are not yet
-- acknowledged. The lock makes each method one step.
pub mod Complete
use pr.Base.{Bool, List, Option, false, if◌then◌else◌, none, set, some, true, ℕ, ◌+◌}
use pr.Base.Int.{ℤ, pos, negsuc}
use pr.Bits.{BitSets, set_from, clear_from}

module _ (bs : BitSets) where
  open bs use {BitSet, new, set, clear, test, none_set, words}

  pub record AckTracker : Type 0 where
    pub size : ℕ
    pub batch_ids : BitSet
    pub prev_batch_acked : Bool

  unfoldable pub new_ack_tracker : ℕ → AckTracker
  new_ack_tracker size = record {
    size = size;
    batch_ids = set_from bs size 0 (new size);
    prev_batch_acked = false;
  }

  -- Each returns the tracker and whether the whole batch is acknowledged; a negative index is none
  -- of the batch.
  unfoldable pub ack : AckTracker → ℤ → AckTracker × Bool
  ack t (negsuc n) = (t, true)
  ack t (pos i) = let b = clear i t.batch_ids in (record t { batch_ids = b }, none_set b)

  unfoldable pub ack_cumulative : AckTracker → ℤ → AckTracker × Bool
  ack_cumulative t (negsuc n) = (t, true)
  ack_cumulative t (pos i) =
      let b = clear_from bs (i + 1) 0 t.batch_ids in (record t { batch_ids = b }, none_set b)

  abbrev pub get_ack_bit_set : AckTracker → BitSet
  get_ack_bit_set t = t.batch_ids

  abbrev pub has_prev_batch_acked : AckTracker → Bool
  has_prev_batch_acked t = t.prev_batch_acked

  abbrev pub set_prev_batch_acked : AckTracker → AckTracker
  set_prev_batch_acked t = record t { prev_batch_acked = true }

  abbrev pub completed : AckTracker → Bool
  completed t = none_set t.batch_ids

  -- `none` is nil. An int64 of the set is its word.
  unfoldable pub to_ack_set : AckTracker → Option (List ℕ)
  to_ack_set t = if none_set t.batch_ids then none else some (words t.batch_ids)
