-- ===== src/Batch/Tests.antt =====
-- A container of pulsar-client-go/pulsar/internal/batch_builder.go and messages for it.
use pr.Base.{[], arith, false, none, refl, some, true, ℕ, ◌++◌, ◌∷◌, ◌≡◌, ◌≤◌, ◌⊎◌}
use pr.Buffer.{new_buffer, be32}
use pr.Buffer.Fifo.{IsValid, unread}
use pr.Batch.{BatchContainer, MessageMetadata, AddRequest, accepts, add, flush}
use pr.Batch.Appends.{add-appends}
use pr.Batch.Transactions.{add-flush_keeps_txn}

abbrev no_metadata : MessageMetadata
no_metadata = record {
  sequence_id = some 4;
  publish_time = none;
  replicate_to = none;
  partition_key = none;
  schema_version = none;
  properties = [];
  deliver_at_time = none;
  num_messages_in_batch = none;
  uncompressed_size = none;
}

-- One message of transaction (5, 6) is in it, whose bytes are left out.
abbrev container : BatchContainer
container = record {
  buffer = new_buffer 8;
  num_messages = 1;
  max_messages = 3;
  max_batch_size = 100;
  max_message_size = 100;
  cmd_send = record {
    sequence_id = some 4;
    txnid_most_bits = some 5;
    txnid_least_bits = some 6;
    num_messages = none;
  };
  msg_metadata = no_metadata;
  callbacks = 11 ∷ [];
}

abbrev message : AddRequest
message = record {
  metadata = record { sequence_id = none; partition_key = none; properties = []; encoded = 1 ∷ [] };
  payload = 7 ∷ 8 ∷ [];
  callback = 12;
  replicate_to = none;
  deliver_at = none;
  now = 1000;
  schema_version = none;
  multi_schema_enabled = false;
  use_txn = false;
  most_sig_bits = 0;
  least_sig_bits = 0;
}

add-appends_example :
    (bc' : BatchContainer) × (g : ℕ) × (add container 5 message
      ≡ some (bc', g, accepts container message))
    × (((accepts container message ≡ false) × (bc' ≡ container) × (g ≡ 5))
        ⊎ ((accepts container message ≡ true)
            × IsValid bc'.buffer
            × (unread bc'.buffer ≡ be32 1 ++ (1 ∷ 7 ∷ 8 ∷ []))
            × (bc'.callbacks ≡ 11 ∷ 12 ∷ [])
            × (bc'.num_messages ≡ 2)
            × ((container.num_messages ≡ 0) ⊎ (bc'.num_messages ≤ 3))))
add-appends_example = add-appends container 5 message (omega arith) (omega arith)

add-flush_keeps_txn_example :
    (bc' : BatchContainer) × (g : ℕ) × (add (flush false container).0 5 message
      ≡ some (bc', g, true))
    × (bc'.cmd_send.txnid_most_bits ≡ some 5)
    × (bc'.cmd_send.txnid_least_bits ≡ some 6)
add-flush_keeps_txn_example =
    add-flush_keeps_txn false container 5 message (omega arith) (omega arith) (omega arith) refl
