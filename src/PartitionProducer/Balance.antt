-- ===== src/PartitionProducer/Balance.antt =====
-- Permits, memory and callbacks of pulsar-client-go/pulsar/producer_partition.go against the live
-- requests: the methods that end requests and that send them.
use pr.Base.{
  List, [], ap, arith, false, if_both, if◌then◌else◌, inl, inr, leb, none, refl, some, subst, true,
  ℕ, ◌&&◌, ◌++◌, ◌+◌, ◌||◌, ◌∷◌, ◌≡◌,
}
use pr.PartitionProducer.{
  Producer, SendRequest, SendError, Outcome, Builder, called, done, done_all, write_data,
  internal_flush_current_batch, internal_single_send, send_as_batch, internal_send, failed,
  producer_closed, fail_add_to_batch,
}
use pr.PartitionProducer.Weights.{
  load, load-append, load_items-append, live, permit_weight, mem_weight, part_weight, id_weight,
  calls, calls-append, once, IsBalanced,
}

called-calls : (i : ℕ) (cs : List (ℕ × Outcome)) → calls i cs ≡ 0 → called i cs ≡ false
called-calls i [] h = refl
called-calls i ((k, r) ∷ cs) h = ground (arith, called-calls i cs)

-- The callback of the request in hand has not run.
not_called :
    (p : Producer) (sr : SendRequest) (hand : List SendRequest)
    → IsBalanced p (sr ∷ hand)
    → called sr.id p.callbacks ≡ false
not_called p sr hand v = called-calls sr.id p.callbacks (ground (arith, v.answers sr.id))

pub done-IsBalanced :
    (p : Producer) (sr : SendRequest) (hand : List SendRequest) (r : Outcome)
    → IsBalanced p (sr ∷ hand)
    → IsBalanced (done p sr r) hand
unfolding done
done-IsBalanced p sr hand r v =
    let fresh = not_called p sr hand v in
    let ends : leb sr.total_chunks 1 ≡ true = ground (arith, v.whole) in
    record {
      permits = ground (arith, v.permits);
      mem = ground (arith, v.mem);
      whole = omega (arith, v.whole);
      answers = λ i.
          ground (arith, fresh, ends, v.answers i, calls-append i p.callbacks ((sr.id, r) ∷ []));
    }

pub done_all-IsBalanced :
    (p : Producer) (srs hand : List SendRequest) (e : SendError)
    → IsBalanced p (srs ++ hand)
    → IsBalanced (done_all p srs e) hand
unfolding done_all
done_all-IsBalanced p [] hand e v = v
done_all-IsBalanced p (sr ∷ srs) hand e v =
    done_all-IsBalanced (done p sr (failed e)) srs hand e
      (done-IsBalanced p sr (srs ++ hand) (failed e) v)

-- The balance is about the sums alone.
pub rebalance :
    (p q : Producer) (hand hand' : List SendRequest)
    → q.permits ≡ p.permits
    → q.used_mem ≡ p.used_mem
    → q.callbacks ≡ p.callbacks
    → q.issued ≡ p.issued
    → ((w : SendRequest → ℕ) → live w q + load w hand' ≡ live w p + load w hand)
    → IsBalanced p hand
    → IsBalanced q hand'
rebalance p q hand hand' ep em ec ei same v = record {
  permits = ground (arith, v.permits, ep, same permit_weight);
  mem = ground (arith, v.mem, em, same mem_weight);
  whole = omega (arith, v.whole, same part_weight);
  answers =
      λ i. omega (arith, ap (calls i) ec, ap (λ n. once n i) ei, same (id_weight i), v.answers i);
}

pub write_data-IsBalanced :
    (now : ℕ) (p : Producer) (q : ℕ) (srs hand : List SendRequest)
    → IsBalanced p (srs ++ hand)
    → IsBalanced (write_data now p q srs) hand
unfolding write_data
write_data-IsBalanced now p q srs hand v =
    if_both (λ x. IsBalanced x hand) p.ctx_done (done_all p srs producer_closed) _
      (done_all-IsBalanced p srs hand producer_closed v)
      (rebalance p _ (srs ++ hand) hand refl refl refl refl
        (λ w. omega (arith, load_items-append w p.pending, load-append w srs hand)) v)

module _ (b : Builder) (now : ℕ) where
  internal_single_send-IsBalanced :
      (p : Producer) (sr : SendRequest) (hand : List SendRequest)
      → IsBalanced p (sr ∷ hand)
      → IsBalanced (internal_single_send b now p sr) hand
  unfolding internal_single_send
  internal_single_send-IsBalanced p sr hand v =
      elim (b.single sr)
        as (λ x.
          IsBalanced
            (elim x [
              | some e ↦ done p sr (failed e)
              | none ↦ write_data now p sr.sequence_id (sr ∷ [])
            ])
            hand) [
              | some e ↦ done-IsBalanced p sr hand (failed e) v
              | none ↦ write_data-IsBalanced now p sr.sequence_id (sr ∷ []) hand v
            ]

  -- The requests of the batch, taken in hand.
  take_batch :
      (p : Producer) (hand : List SendRequest)
      → IsBalanced p hand
      → IsBalanced (record p { batch = [] }) (p.batch ++ hand)
  take_batch p hand v =
      rebalance p (record p { batch = [] }) hand (p.batch ++ hand) refl refl refl refl
        (λ w. omega (arith, load-append w p.batch hand)) v

  flush_batch :
      (p : Producer) (srs hand : List SendRequest)
      → IsBalanced p (srs ++ hand)
      → IsBalanced
          (elim (b.flushed srs) [
            | inl e ↦ done_all p srs e
            | inr sequence_id ↦ write_data now p sequence_id srs
          ])
          hand
  flush_batch p srs hand v =
      elim (b.flushed srs)
        as (λ x.
          IsBalanced
            (elim x [
              | inl e ↦ done_all p srs e
              | inr sequence_id ↦ write_data now p sequence_id srs
            ])
            hand) [
              | inl e ↦ done_all-IsBalanced p srs hand e v
              | inr q ↦ write_data-IsBalanced now p q srs hand v
            ]

  flush_list :
      (p : Producer) (srs hand : List SendRequest)
      → p.batch ≡ srs
      → IsBalanced p hand
      → IsBalanced
          (elim srs [
            | [] ↦ p
            | sr ∷ rest ↦ elim (b.flushed (sr ∷ rest)) [
              | inl e ↦ done_all (record p { batch = [] }) (sr ∷ rest) e
              | inr q ↦ write_data now (record p { batch = [] }) q (sr ∷ rest)
            ]
          ])
          hand
  flush_list p [] hand e v = v
  flush_list p (sr ∷ rest) hand e v =
      flush_batch (record p { batch = [] }) (sr ∷ rest) hand
        (subst (λ l. IsBalanced (record p { batch = [] }) (l ++ hand)) e (take_batch p hand v))

  pub internal_flush_current_batch-IsBalanced :
      (p : Producer) (hand : List SendRequest)
      → IsBalanced p hand
      → IsBalanced (internal_flush_current_batch b now p) hand
  unfolding internal_flush_current_batch
  internal_flush_current_batch-IsBalanced p hand v = flush_list p p.batch hand refl v

  put_in_batch :
      (p : Producer) (sr : SendRequest) (hand : List SendRequest)
      → IsBalanced p (sr ∷ hand)
      → IsBalanced (record p { batch = p.batch ++ (sr ∷ []) }) hand
  put_in_batch p sr hand v =
      rebalance p _ (sr ∷ hand) hand refl refl refl refl
        (λ w. omega (arith, load-append w p.batch (sr ∷ []))) v

  send_as_batch-IsBalanced :
      (p : Producer) (sr : SendRequest) (hand : List SendRequest)
      → IsBalanced p (sr ∷ hand)
      → IsBalanced (send_as_batch b now p sr) hand
  unfolding send_as_batch
  send_as_batch-IsBalanced p sr hand v =
      let p' = internal_flush_current_batch b now p in
      let v' = internal_flush_current_batch-IsBalanced p (sr ∷ hand) v in
      let q =
        if b.adds p.batch sr
        then record p { batch = p.batch ++ (sr ∷ []) }
        else if b.adds p'.batch sr
        then record p' { batch = p'.batch ++ (sr ∷ []) }
        else done p' sr (failed fail_add_to_batch) in
      let u : IsBalanced q hand =
        if_both (λ x. IsBalanced x hand) (b.adds p.batch sr) _ _ (put_in_batch p sr hand v)
          (if_both (λ x. IsBalanced x hand) (b.adds p'.batch sr) _ _ (put_in_batch p' sr hand v')
            (done-IsBalanced p' sr hand _ v')) in
      if_both (λ x. IsBalanced x hand)
        ((b.adds p.batch sr || b.adds p'.batch sr) && sr.flush_immediately) _ _
        (internal_flush_current_batch-IsBalanced q hand u) u

  pub internal_send-IsBalanced :
      (p : Producer) (sr : SendRequest) (hand : List SendRequest)
      → IsBalanced p (sr ∷ hand)
      → IsBalanced (internal_send b now p sr) hand
  unfolding internal_send
  internal_send-IsBalanced p sr hand v =
      let whole : leb sr.total_chunks 1 ≡ true = ground (arith, v.whole) in
      if_both (λ x. IsBalanced x hand) sr.send_as_batch _ _ (send_as_batch-IsBalanced p sr hand v)
        (rw whole (internal_single_send-IsBalanced p sr hand v))
