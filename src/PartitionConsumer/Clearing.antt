-- ===== src/PartitionConsumer/Clearing.antt =====
-- What a seek, or a reconnection, does when it clears the queue of
-- pulsar-client-go/pulsar/consumer_partition.go.
use pr.Base.{
  List, [], ap₂, arith, if◌then◌else◌, length, none, refl, some, sub32, true, ◌%◌, ◌++◌, ◌+◌, ◌^◌,
  ◌∙◌, ◌∷◌, ◌≡◌,
}
use pr.Message.{Message}
use pr.PartitionConsumer.{
  Consumer, ConsumerOptions, Frame, message_received, total_length, clear_queue,
}
use pr.PartitionConsumer.Permits.{all_read}
use pr.PartitionConsumer.Queued.{kept, IsSame-refl, receive_from-IsReceived}

-- A frame that can be read, of which no message is to come to the application, leaves an empty batch
-- in the queue: if the dispatcher then clears the queue, and this batch is its first, the code panics.
pub clear_queue-message_received :
    (o : ConsumerOptions) (c : Consumer) (f : Frame)
    → c.queue_ch ≡ []
    → all_read f.items ≡ true
    → kept o f 0 f.items ≡ []
    → clear_queue o (message_received o c f) ≡ none
unfolding clear_queue message_received
clear_queue-message_received o c f idle whole nothing =
    let c' = record c { taken = c.taken + length f.items } in
    let u = receive_from-IsReceived o f 0 f.items [] 0 0 c' c' (IsSame-refl c') in
    let q : (message_received o c f).queue_ch ≡ [] ∷ [] =
      u.queue ∙ ap₂ ◌++◌ idle (ap₂ (λ b l. if b then l ∷ [] else []) whole nothing) in
    ground (arith, q)

-- Clearing a queue whose first batch is not empty finds the first message of that batch, whatever
-- the dispatcher has in hand. All messages that wait are dropped, and the memory that was reserved for
-- them stays reserved; those in hand stay counted as incoming.
pub clear_queue-keeps_memory :
    (o : ConsumerOptions) (c : Consumer) (m : Message) (ms : List Message) (q : List (List Message))
    → c.queue_ch ≡ (m ∷ ms) ∷ q
    → o.auto_receiver_queue_size ≡ true
    → (c' : Consumer) × (clear_queue o c ≡ some (c', some m.msg_id))
      × (c'.messages ≡ [])
      × (c'.queue_ch ≡ [])
      × (c'.used_mem ≡ c.used_mem)
      × (c'.incoming_messages ≡ sub32 c.incoming_messages (total_length c.queue_ch % 2 ^ 32))
unfolding clear_queue
clear_queue-keeps_memory o c m ms q e a =
    let c' = record c {
      messages = [];
      queue_ch = [];
      incoming_messages = sub32 c.incoming_messages (total_length c.queue_ch % 2 ^ 32);
    } in
    (c', ground (arith, e, a), refl, refl, refl, refl)
