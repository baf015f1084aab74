-- ===== src/Batch.antt =====
-- The container of one batch, pulsar-client-go/pulsar/internal/batch_builder.go, with
-- `addSingleMessageToBatch` of internal/commands.go. Metrics, the pool of buffers and the log are
-- left out, and so are the fields that never change, such as the name of the producer.
pub mod KeyBased
pub mod Appends
pub mod Transactions
mod Tests
use pr.Base.{
  Bool, List, Option, [], add32, add64, false, if◌then◌else◌, leb, length, none, not, some, true, ℕ,
  ◌%◌, ◌&&◌, ◌++◌, ◌==◌, ◌^◌, ◌||◌, ◌∷◌,
}
use pr.Buffer.{
  Bytes, Buffer, readable_bytes, or_empty, write, write_uint32, resize_if_needed, put_number,
}

-- What the code reads of the generated message, and its encoding.
pub record SingleMessageMetadata : Type 0 where
  pub sequence_id : Option ℕ
  pub partition_key : Option Bytes
  pub properties : List (Bytes × Bytes)
  pub encoded : Bytes

-- `none` is nil, also for slices.
pub record MessageMetadata : Type 0 where
  pub sequence_id : Option ℕ
  pub publish_time : Option ℕ
  pub replicate_to : Option (List Bytes)
  pub partition_key : Option Bytes
  pub schema_version : Option Bytes
  pub properties : List (Bytes × Bytes)
  pub deliver_at_time : Option ℕ
  pub num_messages_in_batch : Option ℕ
  pub uncompressed_size : Option ℕ

pub record CommandSend : Type 0 where
  pub sequence_id : Option ℕ
  pub txnid_most_bits : Option ℕ
  pub txnid_least_bits : Option ℕ
  pub num_messages : Option ℕ

-- A callback is its number here.
pub record BatchContainer : Type 0 where
  pub buffer : Buffer
  pub num_messages : ℕ
  pub max_messages : ℕ
  pub max_batch_size : ℕ
  pub max_message_size : ℕ
  pub cmd_send : CommandSend
  pub msg_metadata : MessageMetadata
  pub callbacks : List ℕ

-- The arguments of `Add`: `now` is the clock and `deliver_at` the time wanted, in milliseconds, if
-- it is after 1970.
pub record AddRequest : Type 0 where
  pub metadata : SingleMessageMetadata
  pub payload : Bytes
  pub callback : ℕ
  pub replicate_to : Option (List Bytes)
  pub deliver_at : Option ℕ
  pub now : ℕ
  pub schema_version : Option Bytes
  pub multi_schema_enabled : Bool
  pub use_txn : Bool
  pub most_sig_bits : ℕ
  pub least_sig_bits : ℕ

abbrev pub is_set : {A : Type 0} → Option A → Bool
is_set none = false
is_set (some a) = true

-- `bytes.Equal`, to which nil is the empty slice.
abbrev pub same_bytes : Bytes → Bytes → Bool
same_bytes [] [] = true
same_bytes [] (y ∷ t) = false
same_bytes (x ∷ s) [] = false
same_bytes (x ∷ s) (y ∷ t) = (x == y) && same_bytes s t

unfoldable pub is_full : BatchContainer → Bool
is_full bc =
    leb bc.max_messages bc.num_messages
    || leb (bc.max_batch_size % 2 ^ 32) (readable_bytes bc.buffer)

unfoldable pub has_space : BatchContainer → Bytes → Bool
has_space bc payload =
    if bc.num_messages == 0
    then true
    else (let expected_size = add32 (readable_bytes bc.buffer) (length payload % 2 ^ 32) in
        leb (add64 bc.num_messages 1) bc.max_messages
        && leb expected_size (bc.max_batch_size % 2 ^ 32)
        && leb expected_size bc.max_message_size)

unfoldable pub has_same_schema : BatchContainer → Option Bytes → Bool
has_same_schema bc schema_version =
    if bc.num_messages == 0
    then true
    else same_bytes (or_empty bc.msg_metadata.schema_version) (or_empty schema_version)

-- A size, the metadata and the payload; `none` is a panic.
unfoldable pub add_single_message_to_batch : Buffer → Bytes → Bytes → Option Buffer
add_single_message_to_batch wb smm payload = elim (write_uint32 wb (length smm % 2 ^ 32)) [
  | none ↦ none
  | some b1 ↦ elim (resize_if_needed b1 (length smm % 2 ^ 32)) [
    | none ↦ none
    | some b2 ↦ elim (put_number b2 smm) [ none ↦ none | some b3 ↦ write b3 payload ]
  ]
]

-- The early returns of `Add`.
unfoldable pub accepts : BatchContainer → AddRequest → Bool
accepts bc a =
    if is_set a.replicate_to && not (bc.num_messages == 0)
    then false
    else if is_set bc.msg_metadata.replicate_to
    then false
    else if not (has_space bc a.payload)
    then false
    else if a.multi_schema_enabled && not (has_same_schema bc a.schema_version)
    then false
    else true

-- The number of the first message, and the generator that it leaves.
unfoldable pub next_sequence_id : SingleMessageMetadata → ℕ → ℕ × ℕ
next_sequence_id m generator = elim m.sequence_id [
  | none ↦ (generator, add64 generator 1)
  | some n ↦ (n, generator)
]

-- The first message of a batch sets the metadata and the command of all.
unfoldable pub start_batch : BatchContainer → ℕ → AddRequest → BatchContainer
start_batch bc sequence_id a = record bc {
  msg_metadata = record bc.msg_metadata {
    sequence_id = some sequence_id;
    publish_time = some a.now;
    replicate_to = a.replicate_to;
    partition_key = a.metadata.partition_key;
    schema_version = a.schema_version;
    properties = a.metadata.properties;
    deliver_at_time = elim a.deliver_at [
      | none ↦ bc.msg_metadata.deliver_at_time
      | some t ↦ some t
    ];
  };
  cmd_send = record bc.cmd_send {
    sequence_id = some sequence_id;
    txnid_most_bits = if a.use_txn then some a.most_sig_bits else bc.cmd_send.txnid_most_bits;
    txnid_least_bits = if a.use_txn then some a.least_sig_bits else bc.cmd_send.txnid_least_bits;
  };
}

abbrev pub started : BatchContainer → ℕ → AddRequest → BatchContainer × ℕ
started bc generator a =
    let (sequence_id, generator') = next_sequence_id a.metadata generator in
    if bc.num_messages == 0 then (start_batch bc sequence_id a, generator') else (bc, generator)

-- The container, the generator of sequence numbers and the result; `none` is a panic.
unfoldable pub add : BatchContainer → ℕ → AddRequest → Option (BatchContainer × ℕ × Bool)
add bc generator a =
    if accepts bc a
    then (let (bc', generator') = started bc generator a in
        elim (add_single_message_to_batch bc'.buffer a.metadata.encoded a.payload) [
          | none ↦ none
          | some b ↦ some (
            record bc' {
              buffer = b;
              num_messages = add64 bc'.num_messages 1;
              callbacks = bc'.callbacks ++ (a.callback ∷ []);
            },
            generator',
            true,
          )
        ])
    else some (bc, generator, false)

unfoldable pub reset : BatchContainer → BatchContainer
reset bc = record bc {
  num_messages = 0;
  buffer = record bc.buffer { reader_idx = 0; writer_idx = 0 };
  callbacks = [];
  msg_metadata = record bc.msg_metadata {
    replicate_to = none;
    deliver_at_time = none;
    schema_version = none;
    properties = [];
  };
}

-- What `Flush` hands to `serializeMessage`, and the rest of its result. `fails` is whether that
-- function reports an error.
pub record FlushBatch : Type 0 where
  pub cmd_send : CommandSend
  pub msg_metadata : MessageMetadata
  pub uncompressed : Buffer
  pub sequence_id : ℕ
  pub callbacks : List ℕ

unfoldable pub flush : Bool → BatchContainer → BatchContainer × Option FlushBatch
unfolding reset
flush fails bc =
    if bc.num_messages == 0
    then (bc, none)
    else (let cmd = record bc.cmd_send { num_messages = some (bc.num_messages % 2 ^ 32) } in
        let meta = record bc.msg_metadata {
          num_messages_in_batch = some (bc.num_messages % 2 ^ 32);
          uncompressed_size = some (readable_bytes bc.buffer);
        } in
        let id = if fails then 0 else (elim cmd.sequence_id [ none ↦ 0 | some n ↦ n ]) in
        (
          reset (record bc { cmd_send = cmd; msg_metadata = meta }),
          some (record {
            cmd_send = cmd;
            msg_metadata = meta;
            uncompressed = bc.buffer;
            sequence_id = id;
            callbacks = bc.callbacks;
          }),
        ))
