-- ===== src/Routing/Laws.antt =====
-- What the default router of pulsar-client-go/pulsar promises.
use pr.Base.{
  [], add32, arith, false, true, ℕ, ◌%◌, ◌*◌, ◌+◌, ◌<◌, ◌^◌, ◌∙◌, ◌∷◌, ◌≡◌, ◌≢◌, ◌≤◌, ◌⊎◌,
}
use pr.Routing.{
  Bytes, hash_from, java_string_hash, ProducerMessage, DefaultRouter, RouterOptions, route_batched,
  is_empty, route,
}

-- The hash with no wrap-around on the way.
abbrev pub exact_hash_from : ℕ → Bytes → ℕ
exact_hash_from h [] = h
exact_hash_from h (c ∷ s) = exact_hash_from (31 * h + c) s

exact_mod :
    (h g : ℕ) (s : Bytes)
    → h % 2 ^ 32 ≡ g % 2 ^ 32
    → exact_hash_from h s % 2 ^ 32 ≡ exact_hash_from g s % 2 ^ 32
exact_mod h g [] e = e
exact_mod h g (c ∷ s) e = exact_mod (31 * h + c) (31 * g + c) s (omega arith)

hash_from-exact : (h : ℕ) (s : Bytes) → h < 2 ^ 32 → hash_from h s ≡ exact_hash_from h s % 2 ^ 32
unfolding hash_from
hash_from-exact h [] l = omega arith
hash_from-exact h (c ∷ s) l =
    hash_from-exact ((31 * h + c) % 2 ^ 32) s (omega arith)
    ∙ exact_mod ((31 * h + c) % 2 ^ 32) (31 * h + c) s (omega arith)

-- `JavaStringHash` is the polynomial in 31 with the bytes as its coefficients, modulo 2 ^ 32.
pub java_string_hash-exact : (s : Bytes) → java_string_hash s ≡ exact_hash_from 0 s % 2 ^ 32
unfolding java_string_hash
java_string_hash-exact s = hash_from-exact 0 s (omega arith)

-- Every message goes to an existing partition, if there is one.
route-lt :
    (o : RouterOptions) (s : DefaultRouter) (m : ProducerMessage) (now n : ℕ)
    → 0 < n
    → (route o s m now n).1 < n
unfolding route route_batched
route-lt o s m now n h = ground arith

abbrev pub IsKeyed : ProducerMessage → Type 0
IsKeyed m = (is_empty m.ordering_key ≡ false) ⊎ (is_empty m.key ≡ false)

-- If there is a partition, a message with a key goes to one and the same existing one whatever the router has done
-- before and whatever the time is, and leaves the router as it is.
pub route-consistent :
    (o : RouterOptions) (s s' : DefaultRouter) (m : ProducerMessage) (now now' n : ℕ)
    → 0 < n
    → IsKeyed m
    → ((route o s m now n).1 ≡ (route o s' m now' n).1)
      × ((route o s m now n).1 < n)
      × ((route o s m now n).0 ≡ s)
unfolding route
route-consistent o s s' m now now' n h k = ground (arith, route-lt o s m now n h)

abbrev pub IsKeyless : ProducerMessage → Type 0
IsKeyless m = (is_empty m.ordering_key ≡ true) × (is_empty m.key ≡ true)

-- With batching on, a message without key stays on the current partition, and then no limit of the
-- batch is exceeded, or moves on by exactly one partition and starts a new batch there.
pub route-batches :
    (o : RouterOptions) (s : DefaultRouter) (m : ProducerMessage) (now n : ℕ)
    → n ≢ 1
    → IsKeyless m
    → o.disable_batching ≡ false
    → let (s', p) = route o s m now n in
      (p ≡ s'.current_partition_cursor % n)
      × (((s'.current_partition_cursor ≡ s.current_partition_cursor)
            × (s'.msg_counter ≡ add32 s.msg_counter 1)
            × (s'.msg_counter ≤ o.max_batching_messages)
            × (s'.cumulative_batch_size ≤ o.max_batching_size))
          ⊎ ((s'.current_partition_cursor ≡ add32 s.current_partition_cursor 1)
              × (s'.msg_counter ≡ 0)
              × (s'.cumulative_batch_size ≡ 0)
              × (s'.last_batch_timestamp ≡ now)))
unfolding route route_batched
route-batches o s m now n h k b = ground arith
