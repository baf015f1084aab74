-- ===== src/PartitionProducer/Leaks.antt =====
-- Refused messages and the close of pulsar-client-go/pulsar/producer_partition.go.
use pr.Base.{
  List, [], add32, ap, arith, false, if◌then◌else◌, length, none, refl, slt64, suc, sym, true, zero,
  ℕ, ◌&&◌, ◌++◌, ◌+◌, ◌-◌, ◌<◌, ◌^◌, ◌∙◌, ◌∷◌, ◌≡◌, ◌≤◌,
}
use pr.PartitionProducer.{
  Producer, ProducerOptions, SendRequest, SendError, PendingItem, done, done_all, called, failed,
  closed, memory_buffer_is_full, context_expired, closing,
}
use pr.PartitionProducer.Async.{
  Surroundings, gets_permit, reserve_semaphore, reserve_mem, reserve_resources, admit,
}
use pr.PartitionProducer.Handlers.{
  fail_items, fail_item, item_done, may_close, do_close, fail_pending_messages,
}
use pr.PartitionProducer.Weights.{IsBalanced, calls, id_weight, load, load_items, live, once}
use pr.PartitionProducer.Settle.{do_close-IsBalanced}

-- What a request keeps while it takes permits.
record IsGranted (sr r : SendRequest) : Type 0 where
  has : r.has_semaphore ≡ true
  mem : r.has_mem ≡ sr.has_mem
  chunk : r.chunk_id ≡ sr.chunk_id
  id : r.id ≡ sr.id
  total : r.total_chunks ≡ sr.total_chunks

-- All permits of a message come.
reserve_semaphore-all :
    (o : ProducerOptions) (s : Surroundings) (n i : ℕ) (p : Producer) (sr : SendRequest)
    → ((k : ℕ) → s.permit_comes k ≡ true)
    → p.permits + suc n ≤ o.max_pending_messages
    → o.max_pending_messages < 2 ^ 31
    → (r : SendRequest) × (reserve_semaphore o s (suc n) i p sr
        ≡ (record p { permits = p.permits + suc n }, r, none))
      × IsGranted sr r
unfolding reserve_semaphore
reserve_semaphore-all o s zero i p sr c l m =
    let e : gets_permit o s p i ≡ true = ground (arith, c i) in
    let e' : add32 p.permits 1 ≡ p.permits + 1 = omega arith in
    (
      record sr { has_semaphore = true; reserved_semaphore = sr.reserved_semaphore + 1 },
      ground (arith, e, e'),
      record { has = refl; mem = refl; chunk = refl; id = refl; total = refl },
    )
reserve_semaphore-all o s (suc n) i p sr c l m =
    let e : gets_permit o s p i ≡ true = ground (arith, c i) in
    let p' = record p { permits = add32 p.permits 1 } in
    let (r, q, g) =
      reserve_semaphore-all o s n (i + 1) p'
        (record sr { has_semaphore = true; reserved_semaphore = sr.reserved_semaphore + 1 }) c
        (omega arith) m in
    let e' : add32 p.permits 1 + suc n ≡ p.permits + suc (suc n) = omega arith in
    (
      r,
      rw (e, reserve_semaphore) (rw⁻¹ e' q),
      record { has = g.has; mem = g.mem; chunk = g.chunk; id = g.id; total = g.total },
    )

-- The error of a reservation of memory that fails.
abbrev pub refusal : ProducerOptions → SendError
refusal o = if o.disable_block_if_queue_full then memory_buffer_is_full else context_expired

-- If a message, whose callback has not run, gets the permits of all its chunks and is then refused for
-- its memory, its callback gets the error and it does not go to the channel, but one permit alone
-- comes back.
pub admit-leaks :
    (o : ProducerOptions) (s : Surroundings) (p : Producer) (sr : SendRequest)
    → ((k : ℕ) → s.permit_comes k ≡ true)
    → 0 < sr.total_chunks
    → p.permits + sr.total_chunks ≤ o.max_pending_messages
    → o.max_pending_messages < 2 ^ 31
    → sr.has_mem ≡ false
    → sr.chunk_id ≡ none
    → called sr.id p.callbacks ≡ false
    → slt64 0 p.mem_limit && slt64 p.mem_limit p.used_mem ≡ true
    → ((admit o s p sr).permits ≡ p.permits + sr.total_chunks - 1)
      × ((admit o s p sr).data_chan ≡ p.data_chan)
      × ((admit o s p sr).callbacks ≡ p.callbacks ++ ((sr.id, failed (refusal o)) ∷ []))
unfolding admit reserve_resources reserve_mem done
admit-leaks o s p sr c h l m n k silent_yet full =
    let t = sr.total_chunks - 1 in
    let e : sr.total_chunks ≡ suc t = omega arith in
    let (r, q, g) = reserve_semaphore-all o s t 0 p sr c (omega arith) m in
    let q' = ap (λ x. reserve_semaphore o s x 0 p sr) e ∙ q in
    (
      ground (arith, q', g.has, g.mem, g.chunk, n, k, full),
      ground (arith, q', g.has, g.mem, g.chunk, n, k, full),
      ground (arith, q', g.has, g.mem, g.chunk, g.id, n, k, silent_yet, full),
    )

-- What failing an item leaves alone.
record IsKept (p q : Producer) : Type 0 where
  pending : q.pending ≡ p.pending
  data_chan : q.data_chan ≡ p.data_chan
  batch : q.batch ≡ p.batch
  issued : q.issued ≡ p.issued

done_all-IsKept :
    (p : Producer) (srs : List SendRequest) (e : SendError) → IsKept p (done_all p srs e)
unfolding done_all done
done_all-IsKept p [] e = record { pending = refl; data_chan = refl; batch = refl; issued = refl }
done_all-IsKept p (sr ∷ srs) e =
    let k = done_all-IsKept (done p sr (failed e)) srs e in
    record { pending = k.pending; data_chan = k.data_chan; batch = k.batch; issued = k.issued }

fail_item-IsKept : (p : Producer) (it : PendingItem) (e : SendError) → IsKept p (fail_item p it e)
unfolding fail_item item_done
fail_item-IsKept p it e =
    let k = done_all-IsKept p it.send_requests e in
    ground (arith, k.pending, k.data_chan, k.batch, k.issued)

fail_items-empty :
    (p : Producer) (its : List PendingItem) (e : SendError)
    → p.pending ≡ its
    → IsKept (record p { pending = [] }) (fail_items (length its) p e)
unfolding fail_items
fail_items-empty p [] e k = record { pending = k; data_chan = refl; batch = refl; issued = refl }
fail_items-empty p (it ∷ its) e k =
    let q = record p { pending = its } in
    let one = fail_item-IsKept q it e in
    let all = fail_items-empty (fail_item q it e) its e one.pending in
    ground (
      arith, k, one.data_chan, one.batch, one.issued, all.pending, all.data_chan, all.batch,
      all.issued,
    )

-- A request of the batch is live, so its callback has not run.
silent :
    (sr : SendRequest) (rest : List SendRequest) (p : Producer)
    → p.batch ≡ sr ∷ rest
    → calls sr.id p.callbacks
        + (load (id_weight sr.id) p.data_chan
            + load (id_weight sr.id) p.batch
            + load_items (id_weight sr.id) p.pending)
        + 0
      ≡ once p.issued sr.id
    → calls sr.id p.callbacks ≡ 0
silent sr rest p k a = ground (arith, ap (load (id_weight sr.id)) k)

-- What has left the pending queue has been answered.
answered :
    (i : ℕ) (p q : Producer)
    → q.pending ≡ []
    → q.data_chan ≡ p.data_chan
    → q.batch ≡ p.batch
    → q.issued ≡ p.issued
    → calls i p.callbacks + live (id_weight i) p + 0 ≡ once p.issued i
    → calls i q.callbacks + live (id_weight i) q + 0 ≡ once q.issued i
    → calls i q.callbacks ≡ calls i p.callbacks + load_items (id_weight i) p.pending
answered i p q e d b n before after =
    let pending = ap (load_items (id_weight i)) e in
    let chan = ap (load (id_weight i)) d in
    let batch = ap (load (id_weight i)) b in
    let issued = ap (λ k. once k i) n in omega (arith, pending, chan, batch, issued, before, after)

-- Close, of a producer whose requests are balanced and which may be closed: the pending queue is
-- emptied, and the callbacks of each message run as often more as the message was in it; what is
-- still in the channel or in the batch stays there, and the callback of a message of the batch has
-- not run.
pub do_close-unanswered :
    (p : Producer) (sr : SendRequest) (rest : List SendRequest) (e : SendError) (i : ℕ)
    → IsBalanced p []
    → may_close p.state ≡ true
    → p.batch ≡ sr ∷ rest
    → ((do_close p e).pending ≡ [])
      × ((do_close p e).state ≡ closed)
      × ((do_close p e).data_chan ≡ p.data_chan)
      × ((do_close p e).batch ≡ sr ∷ rest)
      × (calls sr.id (do_close p e).callbacks ≡ 0)
      × (calls i (do_close p e).callbacks
          ≡ calls i p.callbacks + load_items (id_weight i) p.pending)
unfolding do_close fail_pending_messages
do_close-unanswered p sr rest e i v m k =
    let q = record p { state = closing } in
    let f = fail_items-empty q p.pending e refl in
    let answers = (do_close-IsBalanced p e v).answers sr.id in
    let batch : (do_close p e).batch ≡ sr ∷ rest =
      unfold do_close fail_pending_messages in ground (arith, m, k, f.batch) in
    let pending : (do_close p e).pending ≡ [] =
      unfold do_close fail_pending_messages in ground (arith, m, f.pending) in
    let chan : (do_close p e).data_chan ≡ p.data_chan =
      unfold do_close fail_pending_messages in ground (arith, m, f.data_chan) in
    let issued : (do_close p e).issued ≡ p.issued =
      unfold do_close fail_pending_messages in ground (arith, m, f.issued) in
    (
      pending,
      ground (arith, m),
      chan,
      batch,
      silent sr rest (do_close p e) batch answers,
      answered i p (do_close p e) pending chan (batch ∙ sym k) issued (v.answers i)
          ((do_close-IsBalanced p e v).answers i),
    )
