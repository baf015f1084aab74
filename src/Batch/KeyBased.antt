-- ===== src/Batch/KeyBased.antt =====
-- pulsar-client-go/pulsar/internal/key_based_batch_builder.go: a batch for each key. The map is an
-- association list; its order of iteration is not fixed, nor is that of batches with one number.
pub mod Keys
mod Tests
use pr.Base.{
  Bool, List, Option, [], add32, add64, false, if◌then◌else◌, leb, length, ltb, none, not, some,
  true, ℕ, ◌%◌, ◌&&◌, ◌++◌, ◌==◌, ◌^◌, ◌||◌, ◌∷◌,
}
use pr.Buffer.{Bytes, Buffer, new_buffer, or_empty, readable_bytes}
use pr.Batch.{
  BatchContainer, AddRequest, FlushBatch, is_set, same_bytes, add_single_message_to_batch, flush,
}

abbrev pub Containers : Type 0
Containers = List (Bytes × BatchContainer)

abbrev pub val : Bytes → Containers → Option BatchContainer
val key [] = none
val key ((k, c) ∷ cs) = if same_bytes k key then some c else val key cs

-- `Add` of the map.
abbrev pub put : Bytes → BatchContainer → Containers → Containers
put key c [] = (key, c) ∷ []
put key c ((k, d) ∷ cs) = if same_bytes k key then (k, c) ∷ cs else (k, d) ∷ put key c cs

-- The fields of batchContainer that are in use here; the key-based container embeds one.
pub record KeyBasedBatchContainer : Type 0 where
  pub batches : Containers
  pub base : BatchContainer

-- A message with its ordering key, `none` for nil.
pub record KeyedRequest : Type 0 where
  pub ordering_key : Option Bytes
  pub request : AddRequest

-- `newBatchContainer` with the limits of another.
abbrev pub new_batch_container : BatchContainer → BatchContainer
new_batch_container bc = record {
  buffer = new_buffer 4096;
  num_messages = 0;
  max_messages = bc.max_messages;
  max_batch_size = bc.max_batch_size;
  max_message_size = bc.max_message_size;
  cmd_send = record {
    sequence_id = none;
    txnid_most_bits = none;
    txnid_least_bits = none;
    num_messages = none;
  };
  msg_metadata = record {
    sequence_id = none;
    publish_time = none;
    replicate_to = none;
    partition_key = none;
    schema_version = none;
    properties = [];
    deliver_at_time = none;
    num_messages_in_batch = none;
    uncompressed_size = none;
  };
  callbacks = [];
}

unfoldable pub is_full : KeyBasedBatchContainer → Bool
is_full kb =
    leb kb.base.max_messages kb.base.num_messages
    || leb (kb.base.max_batch_size % 2 ^ 32) (readable_bytes kb.base.buffer)

-- Without the test on the message size that batchContainer has.
unfoldable pub has_space : KeyBasedBatchContainer → Bytes → Bool
has_space kb payload =
    if kb.base.num_messages == 0
    then true
    else leb (add64 kb.base.num_messages 1) kb.base.max_messages
      && leb (add32 (readable_bytes kb.base.buffer) (length payload % 2 ^ 32))
          (kb.base.max_batch_size % 2 ^ 32)

unfoldable pub accepts : KeyBasedBatchContainer → AddRequest → Bool
unfolding has_space
accepts kb a =
    if is_set a.replicate_to && not (kb.base.num_messages == 0)
    then false
    else if is_set kb.base.msg_metadata.replicate_to
    then false
    else has_space kb a.payload

abbrev pub or_new : BatchContainer → Option BatchContainer → BatchContainer
or_new base none = new_batch_container base
or_new base (some c) = c

-- `encode` is the standard base64 encoding.
module _ (encode : Bytes → Bytes) where
  unfoldable pub get_message_key : KeyedRequest → Bytes
  get_message_key k = elim k.ordering_key [
    | none ↦ or_empty k.request.metadata.partition_key
    | some o ↦ encode o
  ]

  -- The container, the generator of sequence numbers and the result; `none` is a panic.
  unfoldable pub add :
      KeyBasedBatchContainer → ℕ → KeyedRequest → Option (KeyBasedBatchContainer × ℕ × Bool)
  unfolding accepts get_message_key
  add kb generator k =
      let key = get_message_key k in
      let part = or_new kb.base (val key kb.batches) in
      if accepts kb k.request
      then elim (pr.Batch.add part generator k.request) [
        | none ↦ none
        | some (part', generator', false) ↦
            some (record kb { batches = put key part' kb.batches }, generator', false)
        | some (part', generator', true) ↦
            elim (add_single_message_to_batch kb.base.buffer k.request.metadata.encoded
              k.request.payload) [
                | none ↦ none
                | some b ↦ some (
                  record {
                    batches = put key part' kb.batches;
                    base = record kb.base {
                      buffer = b;
                      num_messages = add64 kb.base.num_messages 1;
                      callbacks = kb.base.callbacks ++ (k.request.callback ∷ []);
                    };
                  },
                  generator',
                  true,
                )
              ]
      ]
      else some (kb, generator, false)

unfoldable pub reset : KeyBasedBatchContainer → KeyBasedBatchContainer
reset kb = record {
  batches = [];
  base = record kb.base {
    num_messages = 0;
    buffer = record kb.base.buffer { reader_idx = 0; writer_idx = 0 };
    callbacks = [];
    msg_metadata = record kb.base.msg_metadata { replicate_to = none; deliver_at_time = none };
  };
}

-- `sort.Slice` by the sequence number.
abbrev pub insert_batch : FlushBatch → List FlushBatch → List FlushBatch
insert_batch b [] = b ∷ []
insert_batch b (c ∷ cs) =
    if ltb c.sequence_id b.sequence_id then c ∷ insert_batch b cs else b ∷ c ∷ cs

-- The batches of the containers that are not empty; `fails` says of a key whether its batch cannot be
-- serialized.
unfoldable pub flush_each : (Bytes → Bool) → Containers → List FlushBatch
unfolding flush
flush_each fails [] = []
flush_each fails ((k, c) ∷ cs) =
    let rest = flush_each fails cs in
    elim ((flush (fails k) c).1) [ none ↦ rest | some b ↦ insert_batch b rest ]

unfoldable pub flush_batches :
    (Bytes → Bool) → KeyBasedBatchContainer → KeyBasedBatchContainer × List FlushBatch
unfolding flush_each reset
flush_batches fails kb =
    if kb.base.num_messages == 0 then (kb, []) else (reset kb, flush_each fails kb.batches)
