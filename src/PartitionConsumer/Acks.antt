-- ===== src/PartitionConsumer/Acks.antt =====
-- pulsar-client-go/pulsar/consumer_partition.go: what AckID and AckIDCumulative send for a message
-- with a tracker or without one. What is sent goes to the grouping tracker or waits for a response:
-- here it is only given back. Transactions and chunked messages are left out.
pub mod Batches
mod Tests
use pr.Base.{
  Bool, List, Option, [], false, if◌then◌else◌, inl, inr, none, not, some, true, ◌||◌, ◌∷◌, ◌⊎◌,
}
use pr.Base.Int.{ℤ, pos, negsuc}
use pr.Bits.{BitSets}
use pr.Message.{MessageId, new_message_id}
use pr.Message.Tracker.{AckTracker, ack, ack_cumulative, has_prev_batch_acked, set_prev_batch_acked}
use pr.PartitionConsumer.{ConsumerState, is_open}
use pr.PartitionConsumer.Position.{minus_one}

pub data SubscriptionType : Type 0 where
  exclusive shared failover key_shared : SubscriptionType

pub data AckError : Type 0 where
  consumer_is_closed invalid_ack : AckError

abbrev pub is_allow_ack_cumulative : SubscriptionType → Bool
is_allow_ack_cumulative shared = false
is_allow_ack_cumulative key_shared = false
is_allow_ack_cumulative _ = true

-- The id of the whole entry; the fields that are not given are 0.
abbrev pub entry_id_of : MessageId → MessageId
entry_id_of id = new_message_id id.ledger_id id.entry_id (pos 0) (pos 0) (pos 0)

-- `trackingMessageID.prev`
abbrev pub prev : MessageId → MessageId
prev id = new_message_id id.ledger_id (minus_one id.entry_id) (pos 0) id.partition_idx (pos 0)

-- A cumulative acknowledgement of the message, or of the entry before it.
pub data Cumulative : Type 0 where
  up_to : MessageId → Cumulative
  before : MessageId → Cumulative

module _ (bs : BitSets) where
  -- `trackingMessageID.ack`
  unfoldable pub ack_tracked : Option (AckTracker bs) → ℤ → Option (AckTracker bs) × Bool
  ack_tracked none i = (none, true)
  ack_tracked (some t) i = let (t', all) = ack bs t i in (some t', all)

  -- `trackingMessageID.ackCumulative`
  unfoldable pub ack_cumulative_tracked : Option (AckTracker bs) → ℤ → Option (AckTracker bs) × Bool
  ack_cumulative_tracked none i = (none, true)
  ack_cumulative_tracked (some t) i = let (t', all) = ack_cumulative bs t i in (some t', all)

  -- The tracker, and the id that is sent, if one is.
  unfoldable pub ack_id_common :
      ConsumerState
      → Bool
      → MessageId
      → Option (AckTracker bs)
      → AckError ⊎ (Option (AckTracker bs) × Option MessageId)
  unfolding ack_tracked
  ack_id_common state enable_batch_index_ack id tracker =
      let (tracker', all) = ack_tracked tracker id.batch_idx in
      if not (is_open state)
      then inl consumer_is_closed
      else if all
      then inr (tracker', some (entry_id_of id))
      else if not enable_batch_index_ack
      then inr (tracker', none)
      else inr (tracker', some id)

  -- Without a tracker all is acknowledged; the call on it is not made.
  abbrev pub prev_once :
      MessageId → Option (AckTracker bs) → Option (AckTracker bs) × Option Cumulative
  prev_once id none = (none, none)
  prev_once id (some t) =
      if not (has_prev_batch_acked bs t)
      then (some (set_prev_batch_acked bs t), some (before (prev id)))
      else (some t, none)

  unfoldable pub internal_ack_id_cumulative :
      ConsumerState
      → SubscriptionType
      → Bool
      → MessageId
      → Option (AckTracker bs)
      → AckError ⊎ (Option (AckTracker bs) × Option Cumulative)
  unfolding ack_cumulative_tracked
  internal_ack_id_cumulative state subscription_type enable_batch_index_ack id tracker =
      let (tracker', all) = ack_cumulative_tracked tracker id.batch_idx in
      if not (is_open state)
      then inl consumer_is_closed
      else if not (is_allow_ack_cumulative subscription_type)
      then inl invalid_ack
      else if all || enable_batch_index_ack
      then inr (tracker', some (up_to id))
      else inr (prev_once id tracker')

-- The ids of a chunked message are acknowledged one after the other, up to the first error; `ok` says
-- of an id whether AckID gives none. What is left is what the tracker of chunks still has.
unfoldable pub ack_chunks : (MessageId → Bool) → List MessageId → List MessageId × Bool
ack_chunks ok [] = ([], true)
ack_chunks ok (id ∷ ids) =
    let (acked, all) = ack_chunks ok ids in if ok id then (id ∷ acked, all) else ([], false)
