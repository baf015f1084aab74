-- ===== src/Grouping.antt =====
-- pulsar-client-go/pulsar/ack_grouping_tracker.go: acknowledgements are grouped by entry and sent
-- when enough entries are pending or the ticker fires. The locks make each method one step; the
-- ticker is a caller of `flush`. The three callbacks are the requests that a method returns.
pub mod Pending
pub mod Cumulative
mod Tests
use pr.Base.{
  Bool, List, Option, [], false, if◌then◌else◌, leb, length, ltb, map, none, not, some, true, ℕ,
  ◌&&◌, ◌++◌, ◌-◌, ◌==◌, ◌^◌, ◌∷◌,
}
use pr.Base.Int.{ℤ, pos, negsuc, ltb_ℤ, to_u64}
use pr.Bits.{BitSets, set_from}
use pr.Message.{MessageId, message_id_compare, earliest_message_id}

-- `position`; both fields are uint64.
pub record Position : Type 0 where
  pub ledger_id : ℕ
  pub entry_id : ℕ

abbrev pub new_position : MessageId → Position
new_position id = record { ledger_id = to_u64 id.ledger_id; entry_id = to_u64 id.entry_id }

abbrev pub same_position : Position → Position → Bool
same_position p q = p.ledger_id == q.ledger_id && p.entry_id == q.entry_id

-- `pb.MessageIdData` as the tracker fills it; `none` is no acknowledgement set.
pub record MessageIdData : Type 0 where
  pub position : Position
  pub ack_set : Option (List ℕ)

pub data Request : Type 0 where
  ack_individual : MessageId → Request
  ack_cumulative : MessageId → Request
  ack_list : List MessageIdData → Request

pub record AckGroupingOptions : Type 0 where
  pub max_size : ℕ
  pub max_time : ℕ

-- `uint(i)` of a batch index or size that is not negative.
abbrev pub to_uint : ℤ → ℕ
to_uint (pos n) = n
to_uint (negsuc n) = 2 ^ 64 - 1 - n

-- `immediateAckGroupingTracker`
abbrev pub immediate_add : MessageId → List Request
immediate_add id = ack_individual id ∷ []

abbrev pub immediate_add_cumulative : MessageId → List Request
immediate_add_cumulative id = ack_cumulative id ∷ []

abbrev pub immediate_is_duplicate : MessageId → Bool
immediate_is_duplicate id = false

-- A Go map, as the list of its entries in some order of iteration.
module _ {V : Type 0} where
  pub find : Position → List (Position × V) → Option V
  find p [] = none
  find p ((q, v) ∷ m) = if same_position q p then some v else find p m

  pub insert : Position → V → List (Position × V) → List (Position × V)
  insert p v [] = (p, v) ∷ []
  insert p v ((q, w) ∷ m) = if same_position q p then (p, v) ∷ m else (q, w) ∷ insert p v m

module _ (bs : BitSets) where
  open bs use {BitSet, new, clear, test, none_set, words}

  -- `nil` for an entry that is a single message.
  abbrev pub Pending : Type 0
  Pending = List (Position × Option BitSet)

  pub record TimedTracker : Type 0 where
    pub max_num_acks : ℕ
    pub pending_acks : Pending
    pub last_cumulative_ack : MessageId
    pub cumulative_ack_required : Bool
    pub has_ticker : Bool
    pub closed : Bool

  pub data Tracker : Type 0 where
    immediate : Tracker
    timed : TimedTracker → Tracker

  abbrev pub default_options : Option AckGroupingOptions → AckGroupingOptions
  default_options none = record { max_size = 1000; max_time = 100_000_000 }
  default_options (some o) = o

  abbrev pub new_ack_grouping_tracker : Option AckGroupingOptions → Tracker
  new_ack_grouping_tracker o =
      let opts = default_options o in
      if leb opts.max_size 1
      then immediate
      else timed (record {
        max_num_acks = opts.max_size;
        pending_acks = [];
        last_cumulative_ack = earliest_message_id;
        cumulative_ack_required = false;
        has_ticker = ltb 0 opts.max_time;
        closed = false;
      })

  -- What `pendingAcks[key]` becomes for a message of a batch.
  abbrev pub mark : ℕ → ℕ → Option (Option BitSet) → Option BitSet
  mark idx size none = some (clear idx (set_from bs size 0 (new size)))
  mark idx size (some none) = none
  mark idx size (some (some b)) = some (clear idx b)

  abbrev pub is_of_batch : MessageId → Bool
  is_of_batch id = not (ltb_ℤ id.batch_idx (pos 0)) && ltb_ℤ (pos 0) id.batch_size

  unfoldable pub add_msg_id_to_pending_acks : Pending → MessageId → Pending
  unfolding find insert
  add_msg_id_to_pending_acks m id =
      let key = new_position id in
      if is_of_batch id
      then insert key (mark (to_uint id.batch_idx) (to_uint id.batch_size) (find key m)) m
      else insert key none m

  unfoldable pub try_add_individual : TimedTracker → MessageId → TimedTracker × Option Pending
  unfolding add_msg_id_to_pending_acks
  try_add_individual t id =
      let m = add_msg_id_to_pending_acks t.pending_acks id in
      if leb t.max_num_acks (length m)
      then (record t { pending_acks = [] }, some m)
      else (record t { pending_acks = m }, none)

  abbrev pub msg_id_data : Position × Option BitSet → MessageIdData
  msg_id_data (p, none) = record { position = p; ack_set = none }
  msg_id_data (p, some b) = record {
    position = p;
    ack_set = if none_set b then none else some (words b);
  }

  abbrev pub to_msg_id_data_list : Pending → List MessageIdData
  to_msg_id_data_list m = map msg_id_data m

  abbrev pub flush_individual : Pending → List Request
  flush_individual m = ack_list (to_msg_id_data_list m) ∷ []

  abbrev when_full : Option Pending → List Request
  when_full none = []
  when_full (some m) = flush_individual m

  unfoldable pub add : TimedTracker → MessageId → TimedTracker × List Request
  unfolding try_add_individual
  add t id = let (t', full) = try_add_individual t id in (t', when_full full)

  unfoldable pub try_update_cumulative : TimedTracker → MessageId → TimedTracker × Bool
  try_update_cumulative t id =
      if ltb_ℤ (message_id_compare t.last_cumulative_ack id) (pos 0)
      then (record t { last_cumulative_ack = id; cumulative_ack_required = true }, true)
      else (t, false)

  unfoldable pub add_cumulative : TimedTracker → MessageId → TimedTracker × List Request
  unfolding try_update_cumulative
  add_cumulative t id =
      let (t', updated) = try_update_cumulative t id in
      (t', if updated && not t'.has_ticker then ack_cumulative id ∷ [] else [])

  -- Whether the map says that the message is acknowledged.
  abbrev pub is_marked : ℤ → Option (Option BitSet) → Bool
  is_marked idx none = false
  is_marked idx (some none) = true
  is_marked idx (some (some b)) = not (test (to_uint idx) b)

  unfoldable pub is_duplicate : TimedTracker → MessageId → Bool
  unfolding find
  is_duplicate t id =
      if not (ltb_ℤ (message_id_compare t.last_cumulative_ack id) (pos 0))
      then true
      else is_marked id.batch_idx (find (new_position id) t.pending_acks)

  abbrev pub clear_pending_acks : TimedTracker → TimedTracker × Pending
  clear_pending_acks t = (record t { pending_acks = [] }, t.pending_acks)

  abbrev pub send_pending : Pending → List Request
  send_pending [] = []
  send_pending (e ∷ m) = flush_individual (e ∷ m)

  unfoldable pub flush : TimedTracker → TimedTracker × List Request
  flush t =
      let (t', acks) = clear_pending_acks t in
      if t'.cumulative_ack_required
      then (
        record t' { cumulative_ack_required = false },
        send_pending acks ++ ack_cumulative t'.last_cumulative_ack ∷ [],
      )
      else (t', send_pending acks)

  unfoldable pub flush_and_clean : TimedTracker → TimedTracker × List Request
  flush_and_clean t =
      let (t', acks) = clear_pending_acks t in
      if t'.cumulative_ack_required
      then (
        record t' { cumulative_ack_required = false; last_cumulative_ack = earliest_message_id },
        send_pending acks ++ ack_cumulative t'.last_cumulative_ack ∷ [],
      )
      else (t', send_pending acks)

  -- Stops the ticker too. A second close of the exit channel, made with the ticker, panics.
  unfoldable pub close : TimedTracker → Option (TimedTracker × List Request)
  unfolding flush_and_clean
  close t =
      if t.has_ticker && t.closed then none else some (flush_and_clean (record t { closed = true }))
