-- ===== src/Routing/Tests.antt =====
-- The router and the hash of pulsar-client-go/pulsar on concrete messages.
use pr.Base.{[], arith, false, inr, refl, ◌%◌, ◌<◌, ◌^◌, ◌∷◌, ◌≡◌, ◌≤◌, ◌⊎◌}
use pr.Routing.{ProducerMessage, DefaultRouter, RouterOptions, java_string_hash, route}
use pr.Routing.Laws.{exact_hash_from, java_string_hash-exact, route-consistent, route-batches}

abbrev options : RouterOptions
options = record {
  hash_func = java_string_hash;
  max_batching_messages = 3;
  max_batching_size = 100;
  max_batching_delay = 1000;
  disable_batching = false;
}

abbrev fresh : DefaultRouter
fresh = record {
  last_batch_timestamp = 0;
  current_partition_cursor = 7;
  msg_counter = 3;
  cumulative_batch_size = 12;
}

abbrev keyless : ProducerMessage
keyless = record { ordering_key = []; key = []; payload = 1 ∷ 2 ∷ [] }

abbrev keyed : ProducerMessage
keyed = record { ordering_key = []; key = 97 ∷ 98 ∷ []; payload = [] }

java_string_hash-exact_example :
    java_string_hash (97 ∷ 98 ∷ 99 ∷ []) ≡ exact_hash_from 0 (97 ∷ 98 ∷ 99 ∷ []) % 2 ^ 32
java_string_hash-exact_example = java_string_hash-exact (97 ∷ 98 ∷ 99 ∷ [])

abbrev used : DefaultRouter
used = record fresh { current_partition_cursor = 9; msg_counter = 1 }

route-consistent_example :
    ((route options fresh keyed 5 4).1 ≡ (route options used keyed 6 4).1)
    × ((route options fresh keyed 5 4).1 < 4)
    × ((route options fresh keyed 5 4).0 ≡ fresh)
route-consistent_example = route-consistent options fresh used keyed 5 6 4 (omega arith) (inr refl)

route-batches_example :
    let (s', p) = route options fresh keyless 5 4 in
    (p ≡ s'.current_partition_cursor % 4)
    × (((s'.current_partition_cursor ≡ 7)
          × (s'.msg_counter ≡ 4)
          × (s'.msg_counter ≤ 3)
          × (s'.cumulative_batch_size ≤ 100))
        ⊎ ((s'.current_partition_cursor ≡ 8)
            × (s'.msg_counter ≡ 0)
            × (s'.cumulative_batch_size ≡ 0)
            × (s'.last_batch_timestamp ≡ 5)))
route-batches_example = route-batches options fresh keyless 5 4 (omega arith) (refl, refl) refl
