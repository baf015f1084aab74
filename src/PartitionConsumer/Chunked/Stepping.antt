-- ===== src/PartitionConsumer/Chunked/Stepping.antt =====
-- One event at the map of chunked messages, and what comes after it, in pulsar-client-go/pulsar/consumer_partition.go.
use pr.Base.{
  All, Bool, List, [], ap, append-nil, append_assoc, arith, none, refl, some, subst, suc, sym, ℕ,
  ℕ_discrete, ◌++◌, ◌∙◌, ◌∷◌, ◌≡◌, ◌≢◌,
}
use pr.Base.Int.{ℤ}
use pr.Message.{Bytes}
use pr.PartitionConsumer.Chunked.{ChunkedMsgCtxMap, Chunk, Processed, receive_chunk}
use pr.PartitionConsumer.Chunked.Events.{
  ChunkEvent, comes, expires, discards, output, Received, discard_chunk_if_expire, run_discard,
  chunk_step, receive_chunks,
}
use pr.PartitionConsumer.Chunked.Streams.{
  came, own, parts, outputs, outputs-append, outputs-output_ne, own_ne,
}
use pr.PartitionConsumer.Chunked.Calm.{
  IsCalm, firsts, IsKept-IsCalm, discard_chunk_if_expire-IsKept, add_if_absent-IsCalm,
}
use pr.PartitionConsumer.Chunked.Assembly.{
  IsFitting, IsOpen, IsAbout, discard_chunk_if_expire-IsAbout,
}
use pr.PartitionConsumer.Chunked.Progress.{before, receive_chunk-IsAbout}

module _ (total : ℕ → ℕ) (i : ℤ) (auto_ack : Bool) where
  -- A map for which what comes, `es`, starts no discard.
  pub record IsReady (es : List ChunkEvent) (m : ChunkedMsgCtxMap) : Type 0 where
    pub opened : IsOpen total m
    pub calm : IsCalm (firsts (came es)) m
    pub fit : All (IsFitting total) (came es)

  abbrev pub Gives : ℕ → List Bytes → Received → Type 0
  Gives u payloads x =
      (r : ChunkedMsgCtxMap × List (ℕ × Bytes)) × (x ≡ some r) × (outputs u r.1 ≡ payloads)

  -- One event and what comes after it.
  pub first_step :
      (u : ℕ) (m m' : ChunkedMsgCtxMap) (out : List (ℕ × Bytes)) (e : ChunkEvent)
      (es : List ChunkEvent) (payloads : List Bytes)
      → chunk_step i auto_ack m e ≡ some (m', out)
      → Gives u payloads (receive_chunks i auto_ack m' es)
      → Gives u (outputs u out ++ payloads) (receive_chunks i auto_ack m (e ∷ es))
  unfolding receive_chunks
  first_step u m m' out e es payloads ee (s, e', eo) = (
    (s.0, out ++ s.1),
    ground (arith, ee, e'),
    outputs-append u out s.1 ∙ ap (λ l. outputs u out ++ l) eo,
  )

  step_comes :
      (m : ChunkedMsgCtxMap) (k : Chunk) (r : Processed)
      → receive_chunk i m k ≡ some r
      → chunk_step i auto_ack m (comes k) ≡ some (r.0, output k.uuid r.2)
  unfolding chunk_step
  step_comes m k (m', permit, payload) e = ground (arith, e)

  pub step_discards :
      (m : ChunkedMsgCtxMap) → m.spawned ≡ 0 → chunk_step i auto_ack m discards ≡ some (m, [])
  unfolding chunk_step run_discard
  step_discards m e = ground (arith, e)

  before-IsCalm :
      (m : ChunkedMsgCtxMap) (k : Chunk) (es : List ChunkEvent)
      → IsReady (comes k ∷ es) m
      → IsCalm (firsts (came es)) (before m k)
  before-IsCalm m k es v = elim (ℕ_discrete k.chunk_id 0) [
    | yes z ↦
        let c : IsCalm (suc (firsts (came es))) m =
          subst (λ n. IsCalm n m) (ground (arith, z)) v.calm in
        subst (IsCalm (firsts (came es))) (ground (arith, z))
          (add_if_absent-IsCalm (firsts (came es)) m k.uuid k.num_chunks c)
    | no n ↦
        let c : IsCalm (firsts (came es)) m = subst (λ x. IsCalm x m) (ground (arith, n)) v.calm in
        subst (IsCalm (firsts (came es))) (ground (arith, n)) c
  ]

  -- A chunk that comes.
  pub come :
      (m : ChunkedMsgCtxMap) (k : Chunk) (es : List ChunkEvent)
      → IsReady (comes k ∷ es) m
      → (r : Processed) × (receive_chunk i m k ≡ some r)
        × IsAbout total k.uuid m r.0
        × IsReady es r.0
  come m k es v =
      let (r, e, a, kept) = receive_chunk-IsAbout total i m k v.opened v.fit.0 in
      (
        r,
        e,
        a,
        record {
          opened = record { live = a.live; sized = a.sized };
          calm = IsKept-IsCalm (firsts (came es)) (before m k) r.0 kept (before-IsCalm m k es v);
          fit = v.fit.1;
        },
      )

  -- A timer that ends.
  pub expire :
      (m : ChunkedMsgCtxMap) (v : ℕ) (es : List ChunkEvent)
      → IsReady (expires v ∷ es) m
      → IsAbout total v m (discard_chunk_if_expire m v) × IsReady es (discard_chunk_if_expire m v)
  expire m v es r =
      let m' = discard_chunk_if_expire m v in
      let a = discard_chunk_if_expire-IsAbout total v m r.opened in
      (
        a,
        record {
          opened = record { live = a.live; sized = a.sized };
          calm = IsKept-IsCalm (firsts (came es)) m m' (discard_chunk_if_expire-IsKept m v) r.calm;
          fit = r.fit;
        },
      )

  quiet :
      (u : ℕ) (es : List ChunkEvent) (m : ChunkedMsgCtxMap)
      → IsReady es m
      → own u (came es) ≡ []
      → Gives u [] (receive_chunks i auto_ack m es)
  unfolding receive_chunks chunk_step
  quiet u [] m v e = ((m, []), refl, refl)
  quiet u (comes k ∷ es) m v e = elim (ℕ_discrete k.uuid u) [
    | yes h ↦ absurd (ground (arith, e, h))
    | no h ↦
        let (r, er, a, v') = come m k es v in
        let rest = quiet u es r.0 v' (sym (own_ne u k (came es) h) ∙ e) in
        subst (λ l. Gives u (l ++ []) (receive_chunks i auto_ack m (comes k ∷ es)))
          (outputs-output_ne u k.uuid r.2 h)
          (first_step u m r.0 _ (comes k) es [] (step_comes m k r er) rest)
  ]
  quiet u (expires v ∷ es) m r e =
      first_step u m (discard_chunk_if_expire m v) [] (expires v) es [] refl
        (quiet u es _ (expire m v es r).1 e)
  quiet u (discards ∷ es) m r e =
      first_step u m m [] discards es [] (step_discards m r.calm.idle)
        (quiet u es m (record { opened = r.opened; calm = r.calm; fit = r.fit }) e)

  -- A chunk of another message.
  pub pass :
      (u : ℕ) (m : ChunkedMsgCtxMap) (k : Chunk) (es : List ChunkEvent) (r : Processed)
      (payloads : List Bytes)
      → receive_chunk i m k ≡ some r
      → k.uuid ≢ u
      → Gives u payloads (receive_chunks i auto_ack r.0 es)
      → Gives u payloads (receive_chunks i auto_ack m (comes k ∷ es))
  pass u m k es r payloads e h rest =
      subst (λ l. Gives u (l ++ payloads) (receive_chunks i auto_ack m (comes k ∷ es)))
        (outputs-output_ne u k.uuid r.2 h)
        (first_step u m r.0 _ (comes k) es payloads (step_comes m k r e) rest)

  -- The last chunk of the message.
  pub finish :
      (u : ℕ) (m : ChunkedMsgCtxMap) (k : Chunk) (es : List ChunkEvent) (r : Processed)
      (buf : Bytes)
      → receive_chunk i m k ≡ some r
      → k.uuid ≡ u
      → r.2 ≡ some (buf ++ k.part)
      → IsReady es r.0
      → own u (came es) ≡ []
      → Gives u
          ((buf ++ parts (k ∷ own u (came es))) ∷ [])
          (receive_chunks i auto_ack m (comes k ∷ es))
  finish u m k es r buf e h out v done =
      let payload : outputs u (output k.uuid r.2) ++ []
          ≡ (buf ++ parts (k ∷ own u (came es))) ∷ [] =
        ap (λ x. outputs u (output k.uuid x) ++ []) out
        ∙ ground (arith, h, done, append-nil k.part) in
      subst (λ l. Gives u l (receive_chunks i auto_ack m (comes k ∷ es))) payload
        (first_step u m r.0 _ (comes k) es [] (step_comes m k r e) (quiet u es r.0 v done))

  -- Another chunk of the message.
  pub advance :
      (u : ℕ) (m : ChunkedMsgCtxMap) (k : Chunk) (es : List ChunkEvent) (r : Processed)
      (buf : Bytes)
      → receive_chunk i m k ≡ some r
      → r.2 ≡ none
      → Gives u
          (((buf ++ k.part) ++ parts (own u (came es))) ∷ [])
          (receive_chunks i auto_ack r.0 es)
      → Gives u
          ((buf ++ parts (k ∷ own u (came es))) ∷ [])
          (receive_chunks i auto_ack m (comes k ∷ es))
  advance u m k es r buf e out rest =
      let left = ((buf ++ k.part) ++ parts (own u (came es))) ∷ [] in
      let payload : outputs u (output k.uuid r.2) ++ left
          ≡ (buf ++ parts (k ∷ own u (came es))) ∷ [] =
        ap (λ x. outputs u (output k.uuid x) ++ left) out
        ∙ ap (λ l. l ∷ []) (append_assoc buf k.part (parts (own u (came es)))) in
      subst (λ l. Gives u l (receive_chunks i auto_ack m (comes k ∷ es))) payload
        (first_step u m r.0 _ (comes k) es _ (step_comes m k r e) rest)
