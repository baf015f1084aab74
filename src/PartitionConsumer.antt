-- ===== src/PartitionConsumer.antt =====
-- pulsar-client-go/pulsar/consumer_partition.go: permits, received batches and the dispatcher. The
-- goroutines' steps are events; each step is one here. What a consumer asks of the broker and gives
-- to the application is logged. Metrics, logs and interceptors are left out.
pub mod Permits
pub mod Receive
pub mod Flow
pub mod Queued
pub mod Clearing
pub mod Order
pub mod DeadLetters
pub mod Memory
pub mod Overhang
pub mod Position
pub mod Acks
pub mod Chunked
mod Tests
use Prim.Native.Nat.{min, max}
use pr.Base.{
  Bool, List, Option, [], add32, add64, false, if◌then◌else◌, length, ltb, none, not, slt32, some,
  sub32, sub64, true, ℕ, ◌%◌, ◌&&◌, ◌++◌, ◌+◌, ◌/◌, ◌==◌, ◌^◌, ◌∷◌,
}
use pr.Base.Int.{ℤ, pos}
use pr.Message.{Bytes, Message, MessageId, new_message_id, size}
use pr.Message.DeadLetter.{dead_letter}

pub data ConsumerState : Type 0 where
  initial ready closing closed : ConsumerState

abbrev pub is_open : ConsumerState → Bool
is_open closing = false
is_open closed = false
is_open _ = true

-- `to_dlq` is what the dead-letter router says of a message, `decimal` what fmt makes of a number.
pub record ConsumerOptions : Type 0 where
  pub auto_receiver_queue_size : Bool
  pub receiver_queue_size : ℕ
  pub max_queue_size : ℕ
  pub partition_idx : ℤ
  pub to_dlq : Message → Bool
  pub decimal : ℤ → Bytes

-- `permits`, `current_queue_size` and `incoming_messages` are int32 words, `used_mem` an int64 word.
-- `flows` are the permits given on the present connection, `taken` the messages that came on it.
pub record Consumer : Type 0 where
  pub state : ConsumerState
  pub connected : Bool
  pub permits : ℕ
  pub current_queue_size : ℕ
  pub incoming_messages : ℕ
  pub scale_hint : Bool
  pub used_mem : ℕ
  pub queue_ch : List (List Message)
  pub messages : List Message
  pub is_seeking : Bool
  pub dispatched : List Message
  pub dead : List Message
  pub acked : List MessageId
  pub flows : List ℕ
  pub taken : ℕ

-- A closed consumer, a missing permit and a lost connection give nothing to the broker.
unfoldable pub internal_flow : Consumer → ℕ → Consumer
internal_flow c permits =
    if not (is_open c.state)
    then c
    else if permits == 0
    then c
    else if c.connected
    then record c { flows = c.flows ++ (permits ∷ []) }
    else c

-- `math.Max(float64(size / 2), 1)`
abbrev pub flow_threshold : ConsumerOptions → Consumer → ℕ
flow_threshold o c =
    if o.auto_receiver_queue_size
    then max (c.current_queue_size / 2) 1
    else max (o.max_queue_size / 2) 1

unfoldable pub flow_if_need : ConsumerOptions → Consumer → Consumer
unfolding internal_flow
flow_if_need o c =
    if slt32 c.permits (flow_threshold o c)
    then c
    else internal_flow (record c { permits = 0 }) c.permits

-- `delta` is an int32 word.
unfoldable pub add_permits : ConsumerOptions → Consumer → ℕ → Consumer
unfolding flow_if_need
add_permits o c delta = flow_if_need o (record c { permits = add32 c.permits delta })

unfoldable pub mark_scale_if_need : Consumer → Consumer
mark_scale_if_need c = record c {
  scale_hint = not (slt32 (add32 c.permits c.incoming_messages) c.current_queue_size);
}

-- `usage_low`: the memory's usage is below the threshold for growing.
unfoldable pub expect_more_incoming_messages : ConsumerOptions → Bool → Consumer → Consumer
unfolding add_permits
expect_more_incoming_messages o usage_low c =
    let doubled = add32 c.current_queue_size c.current_queue_size in
    let new_size = if slt32 o.receiver_queue_size doubled then o.receiver_queue_size else doubled in
    if o.auto_receiver_queue_size && c.scale_hint
    then (if usage_low && slt32 c.current_queue_size new_size
        then add_permits o (record c { scale_hint = false; current_queue_size = new_size })
            (sub32 new_size c.current_queue_size)
        else record c { scale_hint = false })
    else c

-- The initial size is 1. The difference is negative.
unfoldable pub shrink_receiver_queue_size : ConsumerOptions → Consumer → Consumer
unfolding add_permits
shrink_receiver_queue_size o c =
    let new_size = max (min 1 o.receiver_queue_size) (c.current_queue_size / 2) in
    if o.auto_receiver_queue_size && ltb new_size c.current_queue_size
    then add_permits o (record c { current_queue_size = new_size })
        (sub32 new_size c.current_queue_size)
    else c

-- A frame of the broker: where it is, the messages that `ReadMessage` gives, `none` for one that
-- cannot be read, and which of them the broker's acknowledgement set has left. `discarded` and
-- `duplicate` are what messageShouldBeDiscarded and the acknowledgement tracker, whose states change
-- from frame to frame, say of each when it is looked at.
pub record Frame : Type 0 where
  pub ledger : ℤ
  pub entry : ℤ
  pub items : List (Option Message)
  pub unacked : ℕ → Bool
  pub discarded : ℕ → Bool
  pub duplicate : ℕ → Bool

-- `discardCorruptedMessage`: the acknowledgement with the error, and one permit.
unfoldable pub discard_corrupted_message : ConsumerOptions → Consumer → MessageId → Consumer
unfolding add_permits
discard_corrupted_message o c id =
    if is_open c.state then add_permits o (record c { acked = c.acked ++ (id ∷ []) }) 1 else c

abbrev pub frame_id : ConsumerOptions → Frame → ℕ → MessageId
frame_id o f i = new_message_id f.ledger f.entry (pos i) o.partition_idx (pos (length f.items))

-- With automatic sizing, the memory of all that this frame gave so far is reserved, at each message.
unfoldable pub count_incoming : ConsumerOptions → Consumer → ℕ → Consumer
unfolding mark_scale_if_need
count_incoming o c bytes_received =
    if o.auto_receiver_queue_size
    then mark_scale_if_need (record c {
      used_mem = add64 c.used_mem bytes_received;
      incoming_messages = add32 c.incoming_messages 1;
    })
    else c

-- The loop of MessageReceived from message `i` on, with what it has gathered.
unfoldable pub receive_from :
    ConsumerOptions
    → Frame
    → ℕ
    → List (Option Message)
    → (messages : List Message) (skipped bytes_received : ℕ) → Consumer
    → Consumer
unfolding add_permits discard_corrupted_message count_incoming
receive_from o f i [] messages skipped bytes c =
    let c' = if ltb 0 skipped then add_permits o c skipped else c in
    record c' { queue_ch = c'.queue_ch ++ (messages ∷ []) }
receive_from o f i (none ∷ items) messages skipped bytes c =
    discard_corrupted_message o c (frame_id o f i)
receive_from o f i (some m ∷ items) messages skipped bytes c =
    let id = frame_id o f i in
    let bytes' = bytes + size m in
    let skip = receive_from o f (i + 1) items messages (skipped + 1) bytes c in
    let drop_it =
      receive_from o f (i + 1) items messages (skipped + 1) bytes
        (record c { acked = c.acked ++ (id ∷ []) }) in
    let keep =
      receive_from o f (i + 1) items (messages ++ (record m { msg_id = id } ∷ [])) skipped bytes'
        (count_incoming o c bytes') in
    if not (f.unacked i)
    then skip
    else if f.discarded i
    then drop_it
    else if f.duplicate i
    then skip
    else keep

unfoldable pub message_received : ConsumerOptions → Consumer → Frame → Consumer
unfolding receive_from
message_received o c f =
    receive_from o f 0 f.items [] 0 0 (record c { taken = c.taken + length f.items })

-- The dispatcher takes the next batch when it has given out the last one.
unfoldable pub take_batch : Consumer → Consumer
take_batch c = elim c.messages [
  | [] ↦ elim c.queue_ch [ [] ↦ c | ms ∷ rest ↦ record c { messages = ms; queue_ch = rest } ]
  | m ∷ ms ↦ c
]

-- After a message is given out.
unfoldable pub after_dispatch : ConsumerOptions → Bool → Consumer → Message → Consumer
unfolding add_permits expect_more_incoming_messages
after_dispatch o usage_low c m =
    let c' = if ltb 0 o.receiver_queue_size then add_permits o c 1 else c in
    if o.auto_receiver_queue_size
    then expect_more_incoming_messages o usage_low (record c' {
      incoming_messages = sub32 c'.incoming_messages 1;
      used_mem = sub64 c'.used_mem (size m % 2 ^ 64);
    })
    else c'

-- The first message goes to the application, or what is made of it to the dead-letter router,
-- unless the consumer seeks.
unfoldable pub dispatch : ConsumerOptions → Bool → Consumer → Consumer
unfolding after_dispatch dead_letter
dispatch o usage_low c = elim c.messages [
  | [] ↦ c
  | m ∷ ms ↦
      if c.is_seeking
      then c
      else after_dispatch o usage_low
          (if o.to_dlq m
            then record c { messages = ms; dead = c.dead ++ (dead_letter o.decimal m ∷ []) }
            else record c { messages = ms; dispatched = c.dispatched ++ (m ∷ []) })
          m
]

-- A frame comes, the dispatcher takes a batch, or it gives out a message, with whether the memory's
-- usage is low.
pub data Event : Type 0 where
  frame : Frame → Event
  next : Event
  give_out : Bool → Event

unfoldable pub step : ConsumerOptions → Consumer → Event → Consumer
unfolding message_received take_batch dispatch
step o c (frame f) = message_received o c f
step o c next = take_batch c
step o c (give_out usage_low) = dispatch o usage_low c

unfoldable pub run : ConsumerOptions → Consumer → List Event → Consumer
unfolding step
run o c [] = c
run o c (e ∷ es) = run o (step o c e) es

-- The dispatcher on a new connection, on which the broker has given nothing yet.
unfoldable pub on_connected : ConsumerOptions → Consumer → Consumer
unfolding internal_flow
on_connected o c =
    internal_flow (record c { messages = []; permits = 0; connected = true; flows = []; taken = 0 })
      (if o.auto_receiver_queue_size then c.current_queue_size else o.max_queue_size)

abbrev pub total_length : List (List Message) → ℕ
total_length [] = 0
total_length (ms ∷ q) = length ms + total_length q

-- The dispatcher empties the queue and finds the first message of its first batch; `none` is the
-- panic on a batch without messages.
unfoldable pub clear_queue : ConsumerOptions → Consumer → Option (Consumer × Option MessageId)
clear_queue o c =
    let c' = record c {
      messages = [];
      queue_ch = [];
      incoming_messages =
          if o.auto_receiver_queue_size
          then sub32 c.incoming_messages (total_length c.queue_ch % 2 ^ 32)
          else c.incoming_messages;
    } in
    elim c.queue_ch [
      | [] ↦ some (c', none)
      | ms ∷ rest ↦ elim ms [ [] ↦ none | m ∷ ms' ↦ some (c', some m.msg_id) ]
    ]
