-- ===== src/PartitionConsumer/Position.antt =====
-- Where pulsar-client-go/pulsar/consumer_partition.go starts and goes on: the start position, what is
-- discarded before it, and whether there are more messages.
use pr.Base.{
  Bool, Option, Option-cases, ap, arith, false, if◌then◌else◌, inl, inr, none, not, some, suc, sym,
  true, zero, ℕ, ◌&&◌, ◌||◌, ◌∙◌, ◌≡◌,
}
use pr.Base.Int.{ℤ, pos, negsuc, ltb_ℤ, eqb_ℤ}
use pr.Message.{
  MessageId, new_message_id, greater, equal, greater_equal, latest_message_id,
  compare_ledger_and_entry_id,
}

-- `x - 1`, of a number that is not the least of its type.
abbrev pub minus_one : ℤ → ℤ
minus_one (pos zero) = negsuc 0
minus_one (pos (suc n)) = pos n
minus_one (negsuc n) = negsuc (suc n)

unfoldable pub message_should_be_discarded : Option MessageId → Bool → MessageId → Bool
unfolding greater equal greater_equal
message_should_be_discarded none inclusive id = false
message_should_be_discarded (some start) inclusive id =
    if equal start latest_message_id
    then false
    else if inclusive
    then greater start id
    else greater_equal start id

-- The id's batch size is left out: 0.
unfoldable pub get_previous_message : MessageId → MessageId
get_previous_message mid =
    if not (ltb_ℤ mid.batch_idx (pos 0))
    then new_message_id mid.ledger_id mid.entry_id (minus_one mid.batch_idx) mid.partition_idx
        (pos 0)
    else new_message_id mid.ledger_id (minus_one mid.entry_id) mid.batch_idx mid.partition_idx
        (pos 0)

-- `next` is what clearQueueAndGetNextMessage found, `last` the message that was dequeued last.
unfoldable pub clear_receiver_queue :
    Option MessageId → Option MessageId → Option MessageId → Option MessageId
unfolding get_previous_message
clear_receiver_queue none next last = none
clear_receiver_queue (some start) (some next) last = some (get_previous_message next)
clear_receiver_queue (some start) none (some last) = some last
clear_receiver_queue (some start) none none = some start

abbrev pub is_entry_id_valid : MessageId → Bool
is_entry_id_valid id = not (ltb_ℤ id.entry_id (pos 0))

-- `none` is the panic on a start position that is nil.
unfoldable pub has_more_messages :
    Option MessageId → Option MessageId → Bool → MessageId → Option Bool
unfolding greater greater_equal
has_more_messages (some last) start inclusive in_broker =
    some (is_entry_id_valid in_broker && greater in_broker last)
has_more_messages none start inclusive in_broker =
    if not (is_entry_id_valid in_broker) then some false else elim start [
      | none ↦ none
      | some s ↦ some (if inclusive then greater_equal in_broker s else greater in_broker s)
    ]

-- What `hasNext` reads and writes.
pub record Reader : Type 0 where
  pub last_dequeued : Option MessageId
  pub start : Option MessageId
  pub inclusive : Bool
  pub sought_by_time : Bool
  pub last_in_broker : Option MessageId

-- `from_cache`: the last id that the broker gave shows that there are more messages.
abbrev pub from_cache : Reader → Option Bool
from_cache r = elim r.last_in_broker [
  | none ↦ some false
  | some id ↦ has_more_messages r.last_dequeued r.start r.inclusive id
]

-- Without a seek by time. `last_id` is the broker's answer, `none` for an error. The Boolean is `none`
-- where the code panics.
unfoldable pub ask : Option MessageId → Reader → Reader × Option Bool
unfolding has_more_messages
ask last_id r = elim (from_cache r) [
  | none ↦ (r, none)
  | some true ↦ (r, some true)
  | some false ↦ elim last_id [
    | none ↦ (r, some false)
    | some id ↦ let r' = record r { last_in_broker = some id } in (r', from_cache r')
  ]
]

-- `positions` are the last id and the mark-delete position, which the broker gives both or neither.
unfoldable pub after_seek_by_time : Option (MessageId × MessageId) → Reader → Reader × Option Bool
unfolding compare_ledger_and_entry_id
after_seek_by_time none r = (r, some false)
after_seek_by_time (some (id, mark)) r =
    let c = compare_ledger_and_entry_id id mark in
    (
      record r { last_in_broker = some id; start = some mark; sought_by_time = false },
      some (ltb_ℤ (pos 0) c || r.inclusive && eqb_ℤ c (pos 0)),
    )

unfoldable pub has_next :
    Option (MessageId × MessageId) → Option MessageId → Reader → Reader × Option Bool
unfolding ask after_seek_by_time
has_next positions last_id r = elim r.last_dequeued [
  | none ↦ if r.sought_by_time then after_seek_by_time positions r else ask last_id r
  | some id ↦ ask last_id r
]

has_next-ask :
    (positions : Option (MessageId × MessageId)) (last_id : Option MessageId) (r : Reader)
    → r.sought_by_time ≡ false
    → has_next positions last_id r ≡ ask last_id r
unfolding has_next
has_next-ask positions last_id r s = ground (arith, s)

ask_broker :
    (last_id again : Option MessageId) (r : Reader)
    → from_cache r ≡ some false
    → (ask last_id r).1 ≡ some true
    → (ask again (ask last_id r).0 ≡ ask last_id r)
      × ((ask last_id r).0.sought_by_time ≡ r.sought_by_time)
unfolding ask
ask_broker none again r y e = absurd (ground (arith, y, e))
ask_broker (some id) again r y e =
    let r' = record r { last_in_broker = some id } in
    let step : ask (some id) r ≡ (r', from_cache r') = ground (arith, y) in
    let more : from_cache r' ≡ some true = sym (ap (λ x. x.1) step) ∙ e in
    let stays : ask again r' ≡ (r', some true) = ground (arith, more) in
    (
      ap (λ x. ask again x.0) step ∙ stays ∙ ap (λ b. (r', b)) (sym more) ∙ sym step,
      ap (λ x. x.0.sought_by_time) step,
    )

ask-again :
    (last_id again : Option MessageId) (r : Reader)
    → (ask last_id r).1 ≡ some true
    → (ask again (ask last_id r).0 ≡ ask last_id r)
      × ((ask last_id r).0.sought_by_time ≡ r.sought_by_time)
unfolding ask
ask-again last_id again r e = elim (Option-cases (from_cache r)) [
  | inl n ↦ absurd (ground (arith, n, e))
  | inr (true, y) ↦ (ground (arith, y), ground (arith, y))
  | inr (false, y) ↦ ask_broker last_id again r y e
]

-- Once hasNext says that there are more messages, and the seek, if any, was not by time, it says so
-- again, whatever the broker answers, and nothing changes, until a message is dequeued.
pub has_next-again :
    (positions positions' : Option (MessageId × MessageId)) (last_id last_id' : Option MessageId)
    (r : Reader)
    → r.sought_by_time ≡ false
    → (has_next positions last_id r).1 ≡ some true
    → has_next positions' last_id' (has_next positions last_id r).0 ≡ has_next positions last_id r
has_next-again positions positions' last_id last_id' r s e =
    let a = has_next-ask positions last_id r s in
    let (same, kept) = ask-again last_id last_id' r (sym (ap (λ x. x.1) a) ∙ e) in
    ap (λ x. has_next positions' last_id' x.0) a
    ∙ has_next-ask positions' last_id' (ask last_id r).0 (kept ∙ s)
    ∙ same
    ∙ sym a

-- On a reconnection without a seek, of a consumer with a start position that is not inclusive, the
-- queue is cleared, and its first message has a batch index, and the id before it is not the latest
-- one: with the start position that clearing gives, the messages that are discarded are those before
-- that first message.
pub message_should_be_discarded-clear_receiver_queue :
    (start : MessageId) (next : MessageId) (last : Option MessageId) (b : ℕ) (id : MessageId)
    → next.batch_idx ≡ pos b
    → equal (get_previous_message next) latest_message_id ≡ false
    → message_should_be_discarded (clear_receiver_queue (some start) (some next) last) false id
      ≡ greater next id
unfolding message_should_be_discarded clear_receiver_queue get_previous_message greater equal
    greater_equal
message_should_be_discarded-clear_receiver_queue start next last b id e far = ground (arith, e, far)
