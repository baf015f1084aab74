-- ===== src/Message/DeadLetter.antt =====
-- What pulsar-client-go/pulsar/consumer_partition.go makes of a message that goes to the dead-letter
-- router. A map of properties is an association list.
use pr.Base.{List, [], if◌then◌else◌, none, some, ◌++◌, ◌∷◌}
use pr.Base.Int.{ℤ}
use pr.Message.{Bytes, Message, MessageId}
use pr.Topic.{same_bytes}

-- "REAL_TOPIC"
abbrev pub sys_property_real_topic : Bytes
sys_property_real_topic = 82 ∷ 69 ∷ 65 ∷ 76 ∷ 95 ∷ 84 ∷ 79 ∷ 80 ∷ 73 ∷ 67 ∷ []

-- "ORIGIN_MESSAGE_IDY_TIME"
abbrev pub sys_property_origin_message_id : Bytes
sys_property_origin_message_id =
    79 ∷ 82 ∷ 73 ∷ 71 ∷ 73 ∷ 78 ∷ 95 ∷ 77 ∷ 69 ∷ 83 ∷ 83 ∷ 65 ∷ 71 ∷ 69 ∷ 95 ∷ 73 ∷ 68 ∷ 89 ∷ 95
    ∷ 84 ∷ 73 ∷ 77 ∷ 69 ∷ []

-- "ORIGIN_MESSAGE_ID"
abbrev pub property_origin_message_id : Bytes
property_origin_message_id =
    79 ∷ 82 ∷ 73 ∷ 71 ∷ 73 ∷ 78 ∷ 95 ∷ 77 ∷ 69 ∷ 83 ∷ 83 ∷ 65 ∷ 71 ∷ 69 ∷ 95 ∷ 73 ∷ 68 ∷ []

-- `messageID.String`, with what fmt makes of a number; 58 is a colon.
unfoldable pub message_id_string : (ℤ → Bytes) → MessageId → Bytes
message_id_string decimal id =
    decimal id.ledger_id ++ 58 ∷ (decimal id.entry_id ++ 58 ∷ decimal id.partition_idx)

-- What a map holds after `m[key] = value`.
abbrev pub put : Bytes → Bytes → List (Bytes × Bytes) → List (Bytes × Bytes)
put key value [] = (key, value) ∷ []
put key value ((k, v) ∷ m) = if same_bytes k key then (k, value) ∷ m else (k, v) ∷ put key value m

abbrev pub put_all : List (Bytes × Bytes) → List (Bytes × Bytes) → List (Bytes × Bytes)
put_all [] m = m
put_all ((k, v) ∷ kvs) m = put_all kvs (put k v m)

-- The message for the dead-letter router, made by the dispatcher. The fields that it does not set have
-- the zero of their type.
unfoldable pub dead_letter : (ℤ → Bytes) → Message → Message
unfolding message_id_string
dead_letter decimal m =
    let id = message_id_string decimal m.msg_id in
    let added =
      put property_origin_message_id id
        (put sys_property_origin_message_id id (put sys_property_real_topic m.topic [])) in
    record {
      publish_time = 0;
      event_time = m.event_time;
      key = m.key;
      ordering_key = m.ordering_key;
      producer_name = [];
      payload = m.payload;
      msg_id = m.msg_id;
      properties = some (put_all (elim m.properties [ none ↦ [] | some ps ↦ ps ]) added);
      topic = [];
      replication_clusters = [];
      replicated_from = [];
      redelivery_count = 0;
      schema_version = none;
      index = none;
      broker_publish_time = none;
    }
