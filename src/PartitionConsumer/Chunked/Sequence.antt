-- ===== src/PartitionConsumer/Chunked/Sequence.antt =====
-- The chunks of a message, among those of others, in pulsar-client-go/pulsar/consumer_partition.go.
use pr.Base.{
  All, Bool, List, [], ap, arith, inl, inr, refl, some, subst, suc, sym, ℕ, ℕ_discrete, ◌++◌, ◌<◌,
  ◌∷◌, ◌≡◌, ◌≢◌, ◌≤◌, ◌⊎◌,
}
use pr.Base.Int.{ℤ}
use pr.Message.{Bytes}
use pr.PartitionConsumer.Chunked.{ChunkedMsgCtxMap, lookup, new_chunked_msg_ctx_map, delivered}
use pr.PartitionConsumer.Chunked.Events.{
  ChunkEvent, comes, expires, discards, discard_chunk_if_expire, chunk_step, receive_chunks,
}
use pr.PartitionConsumer.Chunked.Streams.{
  came, expired, own, IsRun, parts, outputs, no_more, own_ne, own_eq,
}
use pr.PartitionConsumer.Chunked.Calm.{firsts}
use pr.PartitionConsumer.Chunked.Assembly.{IsFitting}
use pr.PartitionConsumer.Chunked.Progress.{IsAt, receive_chunk_awaited}
use pr.PartitionConsumer.Chunked.Stepping.{
  IsReady, Gives, first_step, step_discards, come, expire, pass, finish, advance,
}

module _ (total : ℕ → ℕ) (i : ℤ) (auto_ack : Bool) where
  resume :
      (u : ℕ) (es : List ChunkEvent) (m : ChunkedMsgCtxMap) (j : ℕ) (buf : Bytes)
      → IsReady total i auto_ack es m
      → All (λ v. v ≢ u) (expired es)
      → All (λ k. k.fate ≡ delivered) (own u (came es))
      → IsAt j buf (lookup u m.chunked_msg_ctxs)
      → IsRun j (total u) (own u (came es))
      → j < total u
      → Gives total i auto_ack u
          ((buf ++ parts (own u (came es))) ∷ [])
          (receive_chunks i auto_ack m es)
  unfolding chunk_step
  resume u [] m j buf r t f at run more = absurd (omega arith)
  resume u (expires v ∷ es) m j buf r t f at run more =
      let (a, r') = expire total i auto_ack m v es r in
      let at' = subst (IsAt j buf) (sym (a.others u (λ e. t.0 (sym e)))) at in
      first_step total i auto_ack u m (discard_chunk_if_expire m v) [] (expires v) es _ refl
        (resume u es _ j buf r' t.1 f at' run more)
  resume u (discards ∷ es) m j buf r t f at run more =
      let r' : IsReady total i auto_ack es m = record {
        opened = r.opened;
        calm = r.calm;
        fit = r.fit;
      } in
      first_step total i auto_ack u m m [] discards es _
        (step_discards total i auto_ack m r.calm.idle) (resume u es m j buf r' t f at run more)
  resume u (comes k ∷ es) m j buf v t f at run more = elim (ℕ_discrete k.uuid u) [
    | no h ↦
        let (r, er, a, v') = come total i auto_ack m k es v in
        let eo = own_ne u k (came es) h in
        let at' = subst (IsAt j buf) (sym (a.others u (λ e. h (sym e)))) at in
        let rest =
          resume u es r.0 j buf v' t (subst (All (λ x. x.fate ≡ delivered)) eo f) at'
            (subst (IsRun j (total u)) eo run) more in
        subst
          (λ l.
            Gives total i auto_ack u ((buf ++ parts l) ∷ [])
              (receive_chunks i auto_ack m (comes k ∷ es)))
          (sym eo) (pass total i auto_ack u m k es r _ er h rest)
    | yes h ↦
        let eo = own_eq u k (came es) h in
        let (ej, run') = subst (IsRun j (total u)) eo run in
        let f' = subst (All (λ x. x.fate ≡ delivered)) eo f in
        let at' =
          subst (λ n. IsAt n buf (lookup k.uuid m.chunked_msg_ctxs)) (sym ej)
            (subst (λ w. IsAt j buf (lookup w m.chunked_msg_ctxs)) (sym h) at) in
        let (r, er, step) = receive_chunk_awaited total i m k buf v.opened v.fit.0 f'.0 at' in
        let (r', er', a', w) = come total i auto_ack m k es v in
        let same : r' ≡ r = ground (arith, er, er') in
        let v' = subst (λ x. IsReady total i auto_ack es x.0) same w in
        subst
          (λ l.
            Gives total i auto_ack u ((buf ++ parts l) ∷ [])
              (receive_chunks i auto_ack m (comes k ∷ es)))
          (sym eo)
          (elim step [
            | inl (last, out, gone) ↦
                let done : own u (came es) ≡ [] = no_more (total u) (own u (came es)) (
                  subst (λ n. IsRun n (total u) (own u (came es)))
                    (omega (arith, ej, last, ap total h)) run') in
                finish total i auto_ack u m k es r buf er h out v' done
            | inr (left, out, next) ↦
                let at_next =
                  subst (λ w. IsAt (suc k.chunk_id) (buf ++ k.part) (lookup w r.0.chunked_msg_ctxs))
                    h next in
                let rest =
                  resume u es r.0 (suc k.chunk_id) (buf ++ k.part) v' t f'.1 at_next
                    (subst (λ n. IsRun n (total u) (own u (came es))) (omega (arith, ej)) run')
                    (omega (arith, left, ap total h)) in
                advance total i auto_ack u m k es r buf er out rest
          ])
  ]

-- Whatever chunks of other messages come between them and whatever other timers end: if each chunk
-- says of its message how many chunks it has, and is one of them, and the limit on incomplete
-- messages is off or at least the number of first chunks that come, so that no message is discarded
-- to make room, then the code does not panic; and the chunks of a message that come in their order,
-- all of them and each once, to a map without messages, while its own timer does not end, give, if
-- it can be read and is neither acknowledged, discarded nor a duplicate, one payload of that
-- message: their payloads, one after the other.
pub receive_chunks-parts :
    (total : ℕ → ℕ) (partition_idx : ℤ) (auto_ack : Bool) (max_pending u : ℕ) (es : List ChunkEvent)
    → All (IsFitting total) (came es)
    → (max_pending ≡ 0) ⊎ (firsts (came es) ≤ max_pending)
    → All (λ v. v ≢ u) (expired es)
    → All (λ k. k.fate ≡ delivered) (own u (came es))
    → IsRun 0 (total u) (own u (came es))
    → 0 < total u
    → (m : ChunkedMsgCtxMap) × (out : List (ℕ × Bytes)) × (receive_chunks partition_idx auto_ack
          (new_chunked_msg_ctx_map max_pending)
          es
        ≡ some (m, out))
      × (outputs u out ≡ parts (own u (came es)) ∷ [])
receive_chunks-parts total partition_idx auto_ack max_pending u es fit room t f run positive =
    let m = new_chunked_msg_ctx_map max_pending in
    let v : IsReady total partition_idx auto_ack es m = record {
      opened = record { live = refl; sized = λ v c e. absurd (ground (arith, e)) };
      calm = record {
        idle = refl;
        room = elim room [ inl z ↦ inl z | inr r ↦ inr (omega (arith, r)) ];
      };
      fit = fit;
    } in
    let (r, e, out) =
      resume total partition_idx auto_ack u es m 0 [] v t f (refl, refl) run positive in
    (r.0, r.1, e, out)
