-- ===== src/PartitionConsumer/Acks/Tests.antt =====
-- Acknowledgements in a batch, in pulsar-client-go/pulsar/consumer_partition.go.
use pr.Base.{Option, [], false, inr, refl, some, true, ℕ, ◌∷◌, ◌≡◌}
use pr.Base.Int.{pos}
use pr.Bits.Members.{member_sets}
use pr.Message.{MessageId, new_message_id}
use pr.Message.Tracker.{AckTracker, new_ack_tracker}
use pr.Message.Tracker.Complete.{single, upto, ack_all}
use pr.PartitionConsumer.{ready}
use pr.PartitionConsumer.Acks.{
  before, prev, exclusive, entry_id_of, ack_id_common, internal_ack_id_cumulative,
}
use pr.PartitionConsumer.Acks.Batches.{
  ack_id_common-completes, internal_ack_id_cumulative-completes,
}

abbrev id : ℕ → MessageId
id i = new_message_id (pos 1) (pos 7) (pos i) (pos 0) (pos 3)

-- The last of three messages.
ack_id_common-completes_example :
    (t : Option (AckTracker member_sets)) × (ack_id_common member_sets ready false (id 1) (
        some (
          ack_all member_sets (new_ack_tracker member_sets 3) (single (pos 2) ∷ upto (pos 0) ∷ [])))
      ≡ inr (t, some (entry_id_of (id 1))))
ack_id_common-completes_example =
    ack_id_common-completes member_sets ready 3 1 (single (pos 2) ∷ upto (pos 0) ∷ []) (id 1) refl
      refl

-- The second of three messages, with nothing sent yet.
internal_ack_id_cumulative-completes_example :
    (t : AckTracker member_sets) × (internal_ack_id_cumulative member_sets ready exclusive false
        (id 1)
        (some (record (ack_all member_sets (new_ack_tracker member_sets 3) []) {
          prev_batch_acked = false;
        }))
      ≡ inr (some t, some (before (prev (id 1)))))
    × (t.prev_batch_acked ≡ true)
internal_ack_id_cumulative-completes_example =
    internal_ack_id_cumulative-completes member_sets ready exclusive 3 1 [] false (id 1) refl refl
      refl
