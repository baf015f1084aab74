-- ===== src/Message.antt =====
-- pulsar-client-go/pulsar/message.go and impl_message.go: message ids and messages.
pub mod Order
pub mod Release
pub mod Tracker
pub mod DeadLetter
mod Tests
use pr.Base.{
  Bool, List, Option, if◌then◌else◌, length, none, not, some, ℕ, ◌&&◌, ◌-◌, ◌==◌, ◌^◌, ◌||◌,
}
use pr.Base.Int.{ℤ, pos, negsuc, ltb_ℤ, eqb_ℤ, to_u64}

abbrev pub Bytes : Type 0
Bytes = List ℕ

-- Ledger and entry are int64, the three others int32.
pub record MessageId : Type 0 where
  pub ledger_id : ℤ
  pub entry_id : ℤ
  pub batch_idx : ℤ
  pub partition_idx : ℤ
  pub batch_size : ℤ

abbrev pub latest_message_id : MessageId
latest_message_id = record {
  ledger_id = pos (2 ^ 63 - 1);
  entry_id = pos (2 ^ 63 - 1);
  batch_idx = negsuc 0;
  partition_idx = negsuc 0;
  batch_size = pos 0;
}

abbrev pub earliest_message_id : MessageId
earliest_message_id = record {
  ledger_id = negsuc 0;
  entry_id = negsuc 0;
  batch_idx = negsuc 0;
  partition_idx = negsuc 0;
  batch_size = pos 0;
}

abbrev pub new_message_id : ℤ → ℤ → ℤ → ℤ → ℤ → MessageId
new_message_id l e b p s = record {
  ledger_id = l;
  entry_id = e;
  batch_idx = b;
  partition_idx = p;
  batch_size = s;
}

-- `messageID.greater`
unfoldable pub greater : MessageId → MessageId → Bool
greater x y =
    if not (eqb_ℤ x.ledger_id y.ledger_id)
    then ltb_ℤ y.ledger_id x.ledger_id
    else if not (eqb_ℤ x.entry_id y.entry_id)
    then ltb_ℤ y.entry_id x.entry_id
    else ltb_ℤ y.batch_idx x.batch_idx

unfoldable pub equal : MessageId → MessageId → Bool
equal x y =
    eqb_ℤ x.ledger_id y.ledger_id && (eqb_ℤ x.entry_id y.entry_id && eqb_ℤ x.batch_idx y.batch_idx)

unfoldable pub greater_equal : MessageId → MessageId → Bool
unfolding greater equal
greater_equal x y = equal x y || greater x y

-- Go's `cmp.Compare` on integers.
abbrev pub cmp_compare : ℤ → ℤ → ℤ
cmp_compare a b = if ltb_ℤ a b then negsuc 0 else if ltb_ℤ b a then pos 1 else pos 0

unfoldable pub compare_ledger_and_entry_id : MessageId → MessageId → ℤ
compare_ledger_and_entry_id x y =
    let result = cmp_compare x.ledger_id y.ledger_id in
    if not (eqb_ℤ result (pos 0)) then result else cmp_compare x.entry_id y.entry_id

-- `messageIDCompare`: negative, zero or positive. A whole entry, of negative batch index, comes
-- after the messages of its batch.
unfoldable pub message_id_compare : MessageId → MessageId → ℤ
message_id_compare x y =
    if ltb_ℤ x.ledger_id y.ledger_id
    then negsuc 0
    else if ltb_ℤ y.ledger_id x.ledger_id
    then pos 1
    else if ltb_ℤ x.entry_id y.entry_id
    then negsuc 0
    else if ltb_ℤ y.entry_id x.entry_id
    then pos 1
    else if ltb_ℤ x.batch_idx (pos 0) && ltb_ℤ y.batch_idx (pos 0)
    then pos 0
    else if not (ltb_ℤ x.batch_idx (pos 0)) && ltb_ℤ y.batch_idx (pos 0)
    then negsuc 0
    else if ltb_ℤ x.batch_idx (pos 0) && not (ltb_ℤ y.batch_idx (pos 0))
    then pos 1
    else if ltb_ℤ x.batch_idx y.batch_idx
    then negsuc 0
    else if ltb_ℤ y.batch_idx x.batch_idx
    then pos 1
    else pos 0

-- The fields of `message` that hold data; `none` is nil. Handles to a schema, to a connection and to
-- an encryption context are left out.
pub record Message : Type 0 where
  pub publish_time : ℕ
  pub event_time : ℕ
  pub key : Bytes
  pub ordering_key : Bytes
  pub producer_name : Bytes
  pub payload : Option Bytes
  pub msg_id : MessageId
  pub properties : Option (List (Bytes × Bytes))
  pub topic : Bytes
  pub replication_clusters : List Bytes
  pub replicated_from : Bytes
  pub redelivery_count : ℕ
  pub schema_version : Option Bytes
  pub index : Option ℕ
  pub broker_publish_time : Option ℕ

-- `len` of a slice, nil or not.
abbrev pub slice_len : Option Bytes → ℕ
slice_len none = 0
slice_len (some b) = length b

abbrev pub size : Message → ℕ
size m = slice_len m.payload

unfoldable pub release_payload : Message → Message
release_payload m = record m { payload = none; properties = none }

abbrev pub is_replicated : Message → Bool
is_replicated m = not (length m.replicated_from == 0)
