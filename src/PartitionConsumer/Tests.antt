-- ===== src/PartitionConsumer/Tests.antt =====
-- Runs of the consumer of pulsar-client-go/pulsar/consumer_partition.go.
use pr.Base.{
  All, Bool, List, [], arith, false, length, ltb, none, refl, some, true, ℕ, ◌+◌, ◌<◌, ◌∷◌, ◌≡◌,
  ◌≤◌, ◌⊎◌,
}
use pr.Base.Int.{pos, pos_part}
use pr.Message.{Message, MessageId, new_message_id, greater, equal, latest_message_id}
use pr.PartitionConsumer.{
  Consumer, ConsumerOptions, Frame, Event, frame, next, give_out, ready, message_received,
  on_connected, run, clear_queue,
}
use pr.PartitionConsumer.Permits.{IsSmall, sum, queued, IsFixed, IsFlowing}
use pr.PartitionConsumer.Flow.{run-flow, run-supply}
use pr.PartitionConsumer.Overhang.{run-overhang}
use pr.PartitionConsumer.Clearing.{clear_queue-message_received}
use pr.PartitionConsumer.Position.{
  message_should_be_discarded, clear_receiver_queue, get_previous_message,
  message_should_be_discarded-clear_receiver_queue,
}

abbrev options : Bool → ConsumerOptions
options auto = record {
  auto_receiver_queue_size = auto;
  receiver_queue_size = 4;
  max_queue_size = 4;
  partition_idx = pos 0;
  to_dlq = λ m. ltb 2 m.redelivery_count;
  decimal = λ n. (48 + pos_part n) ∷ [];
}

abbrev message : ℕ → List ℕ → Message
message redelivered payload = record {
  publish_time = 0;
  event_time = 0;
  key = [];
  ordering_key = [];
  producer_name = [];
  payload = some payload;
  msg_id = latest_message_id;
  properties = none;
  topic = [];
  replication_clusters = [];
  replicated_from = [];
  redelivery_count = redelivered;
  schema_version = none;
  index = none;
  broker_publish_time = none;
}

abbrev consumer : Consumer
consumer = record {
  state = ready;
  connected = true;
  permits = 0;
  current_queue_size = 4;
  incoming_messages = 0;
  scale_hint = false;
  used_mem = 0;
  queue_ch = [];
  messages = [];
  is_seeking = false;
  dispatched = [];
  dead = [];
  acked = [];
  flows = [];
  taken = 0;
}

-- Entry 1, of which the start position discards the first message, and two of entry 2.
abbrev first_frame : Frame
first_frame = record {
  ledger = pos 1;
  entry = pos 1;
  items = some (message 0 (7 ∷ [])) ∷ [];
  unacked = λ i. true;
  discarded = λ i. true;
  duplicate = λ i. false;
}

abbrev second_frame : Frame
second_frame = record {
  ledger = pos 1;
  entry = pos 2;
  items = some (message 0 (1 ∷ 2 ∷ [])) ∷ some (message 3 (3 ∷ [])) ∷ [];
  unacked = λ i. true;
  discarded = λ i. false;
  duplicate = λ i. false;
}

abbrev script : List Event
script = frame first_frame ∷ next ∷ frame second_frame ∷ next ∷ give_out false ∷ give_out false ∷ []

script-flows :
    (run (options false) (on_connected (options false) consumer) script).flows ≡ 4 ∷ 2 ∷ []
unfolding run on_connected equal
script-flows = refl

script-dead : length (run (options false) consumer script).dead ≡ 1
unfolding run equal
script-dead = refl

options-IsFixed : IsFixed (options false)
options-IsFixed = record {
  fixed = refl;
  prefetches = omega arith;
  nonempty = omega arith;
  word = omega arith;
}

script-IsSmall : All IsSmall script
script-IsSmall = (omega arith, (tt, (omega arith, (tt, (tt, (tt, tt))))))

run-flow_example :
    IsFlowing
      (options false)
      0
      0
      (run (options false) (on_connected (options false) consumer) script)
run-flow_example = run-flow (options false) consumer script options-IsFixed refl refl script-IsSmall

run-supply_example :
    let c = run (options false) (on_connected (options false) consumer) script in
    (queued c + sum c.flows ≤ 4 + c.taken) × ((0 < queued c) ⊎ (c.taken < sum c.flows))
run-supply_example =
    run-supply (options false) consumer script options-IsFixed refl refl script-IsSmall refl

-- Two bytes stay reserved.
run-overhang_example :
    (run
      (options true)
      consumer
      (frame second_frame ∷ next ∷ give_out false ∷ give_out false ∷ [])).used_mem
    ≡ 2
unfolding equal
run-overhang_example =
    run-overhang (options true) consumer second_frame false refl refl refl refl refl (omega arith)

clear_queue-message_received_example :
    clear_queue (options false) (message_received (options false) consumer first_frame) ≡ none
unfolding equal
clear_queue-message_received_example =
    clear_queue-message_received (options false) consumer first_frame refl refl refl

abbrev third : MessageId
third = new_message_id (pos 1) (pos 2) (pos 3) (pos 0) (pos 5)

abbrev second : MessageId
second = new_message_id (pos 1) (pos 2) (pos 2) (pos 0) (pos 5)

third-far : equal (get_previous_message third) latest_message_id ≡ false
unfolding equal get_previous_message
third-far = refl

message_should_be_discarded-clear_receiver_queue_example :
    message_should_be_discarded (clear_receiver_queue (some second) (some third) none) false second
    ≡ greater third second
message_should_be_discarded-clear_receiver_queue_example =
    message_should_be_discarded-clear_receiver_queue second third none 3 second refl third-far
