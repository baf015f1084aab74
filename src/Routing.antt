-- ===== src/Routing.antt =====
-- pulsar-client-go/pulsar/default_router.go and internal/hash.go: which partition a message goes to.
-- The counters are uint32; times are int64 words. No other call interferes between the loads and
-- the swap of one call.
pub mod Laws
mod Tests
use pr.Base.{
  Bool, List, [], add32, false, if◌then◌else◌, length, ltb, not, slt64, sub64, true, ℕ, ◌%◌, ◌&&◌,
  ◌*◌, ◌+◌, ◌/◌, ◌==◌, ◌^◌, ◌||◌, ◌∷◌,
}

abbrev pub Bytes : Type 0
Bytes = List ℕ

-- `h = 31*h + uint32(s[i])`
unfoldable pub hash_from : ℕ → Bytes → ℕ
hash_from h [] = h
hash_from h (c ∷ s) = hash_from ((31 * h + c) % 2 ^ 32) s

unfoldable pub java_string_hash : Bytes → ℕ
unfolding hash_from
java_string_hash s = hash_from 0 s

-- What the router reads of a `ProducerMessage`.
pub record ProducerMessage : Type 0 where
  pub ordering_key : Bytes
  pub key : Bytes
  pub payload : Bytes

pub record DefaultRouter : Type 0 where
  pub last_batch_timestamp : ℕ
  pub current_partition_cursor : ℕ
  pub msg_counter : ℕ
  pub cumulative_batch_size : ℕ

-- The arguments of `NewDefaultRouter`; unsigned 64-bit limits and a delay in nanoseconds.
pub record RouterOptions : Type 0 where
  pub hash_func : Bytes → ℕ
  pub max_batching_messages : ℕ
  pub max_batching_size : ℕ
  pub max_batching_delay : ℕ
  pub disable_batching : Bool

abbrev pub read_clock_after : RouterOptions → ℕ
read_clock_after o = o.max_batching_messages / 10 % 2 ^ 32

-- Whether the clock is read, and if so, whether the delay has passed.
abbrev pub duration_reached : RouterOptions → DefaultRouter → ℕ → ℕ → Bool
duration_reached o s count now =
    (read_clock_after o == 0 || count % read_clock_after o == 0)
    && slt64 o.max_batching_delay (sub64 now s.last_batch_timestamp)

-- A message without key, with batching; `now` is the clock.
unfoldable pub route_batched : RouterOptions → DefaultRouter → ℕ → ℕ → ℕ → DefaultRouter × ℕ
route_batched o s size now num_partitions =
    let count = add32 s.msg_counter 1 in
    let batch_size = add32 s.cumulative_batch_size (size % 2 ^ 32) in
    let new_cursor = add32 s.current_partition_cursor 1 in
    if ltb (o.max_batching_messages % 2 ^ 32) count
      || ltb (o.max_batching_size % 2 ^ 32) batch_size
      || duration_reached o s count now
    then (
      record {
        last_batch_timestamp = now;
        current_partition_cursor = new_cursor;
        msg_counter = 0;
        cumulative_batch_size = 0;
      },
      new_cursor % num_partitions,
    )
    else (
      record s { msg_counter = count; cumulative_batch_size = batch_size },
      s.current_partition_cursor % num_partitions,
    )

abbrev pub is_empty : Bytes → Bool
is_empty [] = true
is_empty (c ∷ s) = false

unfoldable pub route : RouterOptions → DefaultRouter → ProducerMessage → ℕ → ℕ → DefaultRouter × ℕ
unfolding route_batched
route o s m now num_partitions =
    if num_partitions == 1
    then (s, 0)
    else if not (is_empty m.ordering_key)
    then (s, o.hash_func m.ordering_key % num_partitions)
    else if not (is_empty m.key)
    then (s, o.hash_func m.key % num_partitions)
    else if o.disable_batching
    then (
      record s { current_partition_cursor = add32 s.current_partition_cursor 1 },
      s.current_partition_cursor % num_partitions,
    )
    else route_batched o s (length m.payload) now num_partitions
