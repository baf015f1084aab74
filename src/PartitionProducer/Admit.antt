-- ===== src/PartitionProducer/Admit.antt =====
-- SendAsync of pulsar-client-go/pulsar/producer_partition.go, and the balance of a producer that
-- does not chunk.
use pr.Base.{
  Bool, Option, [], add32, add64, arith, false, if_both, if◌then◌else◌, inl, inr, none, refl, some,
  suc, true, zero, ℕ, ◌%◌, ◌&&◌, ◌++◌, ◌+◌, ◌^◌, ◌∷◌, ◌≡◌, ◌⊎◌,
}
use pr.PartitionProducer.{
  Producer, ProducerOptions, SendRequest, SendError, failed, done, send_queue_is_full,
  context_expired, context_ended,
}
use pr.PartitionProducer.Async.{
  ProducerMessage, Surroundings, blank, validate_msg, prepare, update_schema,
  update_uncompressed_payload, update_meta_data, update_chunk_info, gets_permit, reserve_semaphore,
  reserve_mem, reserve_resources, enqueue, admit, internal_send_async,
}
use pr.PartitionProducer.Weights.{load-append, calls-append, IsBalanced}
use pr.PartitionProducer.Balance.{rebalance, done-IsBalanced}

-- A call of SendAsync has a number of its own.
issue :
    (p : Producer) (immediate transaction : Bool)
    → IsBalanced p []
    → IsBalanced (record p { issued = p.issued + 1 }) (blank p.issued immediate transaction ∷ [])
issue p immediate transaction v = record {
  permits = ground (arith, v.permits);
  mem = ground (arith, v.mem);
  whole = omega (arith, v.whole);
  answers = λ i. ground (arith, v.answers i);
}

reject :
    (p : Producer) (e : SendError)
    → IsBalanced p []
    → IsBalanced
        (record p { issued = p.issued + 1; callbacks = p.callbacks ++ ((p.issued, failed e) ∷ []) })
        []
reject p e v = record {
  permits = ground (arith, v.permits);
  mem = ground (arith, v.mem);
  whole = omega (arith, v.whole);
  answers =
      λ i. ground (arith, v.answers i, calls-append i p.callbacks ((p.issued, failed e) ∷ []));
}

-- A request that holds nothing yet and is not to be chunked.
record IsBare (id : ℕ) (sr : SendRequest) : Type 0 where
  same_id : sr.id ≡ id
  one : sr.total_chunks ≡ 1
  no_permit : sr.has_semaphore ≡ false
  no_mem : sr.has_mem ≡ false
  no_bytes : sr.reserved_mem ≡ 0

prepare-IsBare :
    (o : ProducerOptions) (p : Producer) (m : ProducerMessage) (s : Surroundings) (id : ℕ)
    (immediate transaction : Bool) (sr : SendRequest)
    → o.enable_chunking ≡ false
    → prepare o p m s (blank id immediate transaction) ≡ inr sr
    → IsBare id sr
unfolding prepare update_chunk_info update_meta_data update_schema update_uncompressed_payload
prepare-IsBare o p m s id immediate transaction sr c h = record {
  same_id = ground arith;
  one = ground arith;
  no_permit = ground arith;
  no_mem = ground arith;
  no_bytes = ground arith;
}

-- The same, of a request that replaces the blank one.
bare_in_hand :
    (p : Producer) (id : ℕ) (immediate transaction : Bool) (sr : SendRequest)
    → IsBare id sr
    → IsBalanced p (blank id immediate transaction ∷ [])
    → IsBalanced p (sr ∷ [])
bare_in_hand p id immediate transaction sr c v = record {
  permits = ground (arith, v.permits, c.no_permit);
  mem = ground (arith, v.mem, c.no_mem);
  whole = ground (arith, v.whole, c.one);
  answers = λ i. ground (arith, v.answers i, c.same_id);
}

-- What `reserve_resources` and its parts leave.
abbrev IsReserved : Producer × SendRequest × Option SendError → Type 0
IsReserved r = IsBalanced r.0 (r.1 ∷ [])

take_permit :
    (p : Producer) (sr : SendRequest)
    → sr.has_semaphore ≡ false
    → IsBalanced p (sr ∷ [])
    → IsBalanced
        (record p { permits = add32 p.permits 1 })
        (record sr { has_semaphore = true; reserved_semaphore = sr.reserved_semaphore + 1 } ∷ [])
take_permit p sr n v = record {
  permits = ground (arith, v.permits, n);
  mem = v.mem;
  whole = v.whole;
  answers = v.answers;
}

take_mem :
    (p : Producer) (sr : SendRequest) (m : ℕ)
    → sr.has_mem ≡ false
    → sr.reserved_mem ≡ 0
    → IsBalanced p (sr ∷ [])
    → IsBalanced
        (record p { used_mem = add64 p.used_mem (m % 2 ^ 64) })
        (record sr { has_mem = true; reserved_mem = sr.reserved_mem + m } ∷ [])
take_mem p sr m n z v = record {
  permits = v.permits;
  mem = ground (arith, v.mem, n, z);
  whole = v.whole;
  answers = v.answers;
}

reserve_mem-IsReserved :
    (o : ProducerOptions) (s : Surroundings) (p : Producer) (sr : SendRequest)
    → sr.has_mem ≡ false
    → sr.reserved_mem ≡ 0
    → IsBalanced p (sr ∷ [])
    → IsReserved (reserve_mem o s p sr)
unfolding reserve_mem
reserve_mem-IsReserved o s p sr n z v = if_both IsReserved _ _ _ (take_mem p sr _ n z v) v

abbrev IsPermitted : Producer × SendRequest × Option SendError → Type 0
IsPermitted r = IsReserved r × (r.1.has_mem ≡ false) × (r.1.reserved_mem ≡ 0)

reserve_semaphore-IsPermitted :
    (o : ProducerOptions) (s : Surroundings) (n : ℕ) (p : Producer) (sr : SendRequest)
    → n ≡ 1
    → sr.has_semaphore ≡ false
    → sr.has_mem ≡ false
    → sr.reserved_mem ≡ 0
    → IsBalanced p (sr ∷ [])
    → IsPermitted (reserve_semaphore o s n 0 p sr)
unfolding reserve_semaphore
reserve_semaphore-IsPermitted o s zero p sr e h n z v = absurd (omega arith)
reserve_semaphore-IsPermitted o s (suc (suc k)) p sr e h n z v = absurd (omega arith)
reserve_semaphore-IsPermitted o s (suc zero) p sr e h n z v =
    elim (gets_permit o s p 0)
      as (λ x. IsPermitted (elim x [
        | true ↦ (
          record p { permits = add32 p.permits 1 },
          record sr { has_semaphore = true; reserved_semaphore = sr.reserved_semaphore + 1 },
          none,
        )
        | false ↦ (
          p,
          sr,
          some (if o.disable_block_if_queue_full then send_queue_is_full else context_expired),
        )
      ])) [ true ↦ (take_permit p sr h v, n, z) | false ↦ (v, n, z) ]

then_mem :
    (o : ProducerOptions) (s : Surroundings) (r : Producer × SendRequest × Option SendError)
    → IsPermitted r
    → IsReserved (elim r.2 [ some e ↦ (r.0, r.1, some e) | none ↦ reserve_mem o s r.0 r.1 ])
then_mem o s (p, sr, some e) (v, n, z) = v
then_mem o s (p, sr, none) (v, n, z) = reserve_mem-IsReserved o s p sr n z v

reserve_resources-IsReserved :
    (o : ProducerOptions) (s : Surroundings) (p : Producer) (id : ℕ) (sr : SendRequest)
    → IsBare id sr
    → IsBalanced p (sr ∷ [])
    → IsReserved (reserve_resources o s p sr)
unfolding reserve_resources
reserve_resources-IsReserved o s p id sr c v =
    then_mem o s _ (
      reserve_semaphore-IsPermitted o s sr.total_chunks p sr c.one c.no_permit c.no_mem c.no_bytes
        v)

enqueue-IsBalanced :
    (s : Surroundings) (p : Producer) (sr : SendRequest)
    → IsBalanced p (sr ∷ [])
    → IsBalanced (enqueue s p sr) []
unfolding enqueue
enqueue-IsBalanced s p sr v =
    if_both (λ x. IsBalanced x []) s.enqueued _ _
      (rebalance p _ (sr ∷ []) [] refl refl refl refl
        (λ w. omega (arith, load-append w p.data_chan (sr ∷ []))) v)
      (done-IsBalanced p sr [] (failed context_ended) v)

then_enqueue :
    (s : Surroundings) (r : Producer × SendRequest × Option SendError)
    → IsReserved r
    → IsBalanced (elim r.2 [ some e ↦ done r.0 r.1 (failed e) | none ↦ enqueue s r.0 r.1 ]) []
then_enqueue s (p, sr, some e) v = done-IsBalanced p sr [] (failed e) v
then_enqueue s (p, sr, none) v = enqueue-IsBalanced s p sr v

admit-IsBalanced :
    (o : ProducerOptions) (s : Surroundings) (p : Producer) (id : ℕ) (sr : SendRequest)
    → IsBare id sr
    → IsBalanced p (sr ∷ [])
    → IsBalanced (admit o s p sr) []
unfolding admit
admit-IsBalanced o s p id sr c v = then_enqueue s _ (reserve_resources-IsReserved o s p id sr c v)

then_admit :
    (o : ProducerOptions) (s : Surroundings) (p : Producer) (id : ℕ) (immediate transaction : Bool)
    (x : SendError ⊎ SendRequest)
    → ((sr : SendRequest) → x ≡ inr sr → IsBare id sr)
    → IsBalanced p (blank id immediate transaction ∷ [])
    → IsBalanced
        (elim x [
          | inl e ↦ done p (blank id immediate transaction) (failed e)
          | inr sr ↦ admit o s p sr
        ])
        []
then_admit o s p id immediate transaction (inl e) c v = done-IsBalanced p _ [] (failed e) v
then_admit o s p id immediate transaction (inr sr) c v =
    admit-IsBalanced o s p id sr (c sr refl)
      (bare_in_hand p id immediate transaction sr (c sr refl) v)

pub internal_send_async-IsBalanced :
    (o : ProducerOptions) (s : Surroundings) (p : Producer) (msg : Option ProducerMessage)
    (immediate : Bool) (x : Option SendError)
    → o.enable_chunking ≡ false
    → validate_msg o msg ≡ x
    → IsBalanced p []
    → IsBalanced (internal_send_async o s p msg immediate) []
unfolding internal_send_async
internal_send_async-IsBalanced o s p msg immediate (some e) c h v =
    rw (h, internal_send_async) (reject p e v)
internal_send_async-IsBalanced o s p none immediate none c h v =
    absurd (unfold validate_msg in ground arith)
internal_send_async-IsBalanced o s p (some m) immediate none c h v =
    rw (h, internal_send_async)
      (let transaction = m.in_transaction && s.joins_transaction in
        let p' = record p { issued = p.issued + 1 } in
        then_admit o s p' p.issued immediate transaction
          (prepare o p' m s (blank p.issued immediate transaction))
          (λ sr q. prepare-IsBare o p' m s p.issued immediate transaction sr c q)
          (issue p immediate transaction v))
