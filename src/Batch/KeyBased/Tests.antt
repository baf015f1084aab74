-- ===== src/Batch/KeyBased/Tests.antt =====
-- Messages of two keys, in pulsar-client-go/pulsar/internal/key_based_batch_builder.go.
use pr.Base.{[], false, none, refl, some, true, ◌∷◌, ◌≡◌}
use pr.Buffer.{Bytes, new_buffer}
use pr.Batch.{BatchContainer, AddRequest}
use pr.Batch.KeyBased.{val, KeyBasedBatchContainer, KeyedRequest, new_batch_container, add}
use pr.Batch.KeyBased.Keys.{callbacks_of, add-callbacks_of}

abbrev empty : BatchContainer
empty = record {
  buffer = new_buffer 40;
  num_messages = 0;
  max_messages = 3;
  max_batch_size = 100;
  max_message_size = 100;
  cmd_send = record {
    sequence_id = none;
    txnid_most_bits = none;
    txnid_least_bits = none;
    num_messages = none;
  };
  msg_metadata = record {
    sequence_id = none;
    publish_time = none;
    replicate_to = none;
    partition_key = none;
    schema_version = none;
    properties = [];
    deliver_at_time = none;
    num_messages_in_batch = none;
    uncompressed_size = none;
  };
  callbacks = [];
}

abbrev one_batch : KeyBasedBatchContainer
one_batch = record {
  batches = (9 ∷ [], record empty { num_messages = 1; callbacks = 11 ∷ [] }) ∷ (8 ∷ [], empty) ∷ [];
  base = record empty { num_messages = 1; callbacks = 11 ∷ [] };
}

abbrev keyed : KeyedRequest
keyed = record {
  ordering_key = some (8 ∷ []);
  request = record {
    metadata = record {
      sequence_id = none;
      partition_key = none;
      properties = [];
      encoded = 1 ∷ [];
    };
    payload = 7 ∷ 8 ∷ [];
    callback = 12;
    replicate_to = none;
    deliver_at = none;
    now = 1000;
    schema_version = none;
    multi_schema_enabled = false;
    use_txn = false;
    most_sig_bits = 0;
    least_sig_bits = 0;
  };
}

abbrev added : KeyBasedBatchContainer
unfolding add
added = elim (add (λ k. k) one_batch 4 keyed) [ none ↦ one_batch | some (kb, g, taken) ↦ kb ]

add-added : add (λ k. k) one_batch 4 keyed ≡ some (added, 5, true)
unfolding add pr.Batch.add pr.Batch.accepts pr.Batch.has_space pr.Batch.add_single_message_to_batch
    pr.Buffer.write_uint32 pr.Buffer.resize_if_needed pr.Batch.start_batch pr.Buffer.write
    pr.Batch.next_sequence_id
add-added = refl

add-callbacks_of_example :
    (added.base.callbacks ≡ 11 ∷ 12 ∷ []) × (callbacks_of (val (8 ∷ []) added.batches) ≡ 12 ∷ [])
unfolding pr.Batch.KeyBased.get_message_key
add-callbacks_of_example = add-callbacks_of (λ k. k) one_batch 4 keyed added 5 (8 ∷ []) add-added
