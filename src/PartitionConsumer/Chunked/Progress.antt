-- ===== src/PartitionConsumer/Chunked/Progress.antt =====
-- How far a message in chunks is, in pulsar-client-go/pulsar/consumer_partition.go.
use pr.Base.{
  Option, [], ap, arith, false, if_both, if◌then◌else◌, inl, inr, none, refl, some, subst, suc, sym,
  true, zero, ℕ, ℕ_discrete, ◌++◌, ◌+◌, ◌<◌, ◌==◌, ◌∙◌, ◌≡◌, ◌⊎◌,
}
use pr.Base.Int.{ℤ, pos, eqb_ℤ}
use pr.Message.{Bytes}
use pr.PartitionConsumer.Chunked.{
  ChunkedMsgCtx, ChunkedMsgCtxMap, Chunk, Processed, lookup, update, new_chunked_msg_ctx,
  add_if_absent, remove, next_id, process_message_chunk, receive_chunk, hand_over, corrupt,
  acknowledged, discarded, duplicate, delivered,
}
use pr.PartitionConsumer.Chunked.Contexts.{lookup-delete_self, lookup-update_self}
use pr.PartitionConsumer.Chunked.Calm.{IsKept, hand_over-IsKept}
use pr.PartitionConsumer.Chunked.Assembly.{
  IsFitting, IsOpen, IsAbout, remove-IsAbout, found, add_if_absent-IsAbout, appended,
  assemble_awaited, assemble-IsAbout,
}

-- The context of a message of which the chunks below `j` came, with these bytes.
abbrev pub IsAt : ℕ → Bytes → Option ChunkedMsgCtx → Type 0
IsAt zero buf c = (c ≡ none) × (buf ≡ [])
IsAt (suc j) buf c =
    (x : ChunkedMsgCtx) × (c ≡ some x)
    × (x.last_chunked_msg_id ≡ pos j)
    × (x.chunked_msg_buffer ≡ buf)

-- The map in which a chunk is assembled.
abbrev pub before : ChunkedMsgCtxMap → Chunk → ChunkedMsgCtxMap
before m k = if k.chunk_id == 0 then add_if_absent m k.uuid k.num_chunks else m

module _ (total : ℕ → ℕ) where
  IsAbout-trans :
      (v : ℕ) (a b c : ChunkedMsgCtxMap)
      → IsAbout total v a b
      → IsAbout total v b c
      → IsAbout total v a c
  IsAbout-trans v a b c x y = record {
    live = y.live;
    sized = y.sized;
    others = λ u n. y.others u n ∙ x.others u n;
  }

  before-IsAbout :
      (m : ChunkedMsgCtxMap) (k : Chunk)
      → IsOpen total m
      → IsFitting total k
      → IsAbout total k.uuid m (before m k)
  before-IsAbout m k o fit =
      if_both (IsAbout total k.uuid m) (k.chunk_id == 0) _ _
        (subst (λ n. IsAbout total k.uuid m (add_if_absent m k.uuid n)) (sym fit.chunks)
          (add_if_absent-IsAbout total k.uuid m o).0)
        (record { live = o.live; sized = o.sized; others = λ u n. refl })

  hand_over-IsAbout :
      (i : ℤ) (k : Chunk) (m : ChunkedMsgCtxMap) (r : Processed)
      → IsAbout total k.uuid m r.0
      → IsAbout total k.uuid m (hand_over i k r).0
  unfolding hand_over
  hand_over-IsAbout i k m (m', permit, none) a = a
  hand_over-IsAbout i k m (m', permit, some payload) a =
      let gone =
        IsAbout-trans k.uuid m m' (remove m' k.uuid) a
          (remove-IsAbout total k.uuid m' (record { live = a.live; sized = a.sized })) in
      elim k.fate
        as (λ f.
          IsAbout total k.uuid m
            (hand_over i (record k { fate = f }) (m', permit, some payload)).0) [
              | corrupt ↦ a
              | acknowledged ↦ a
              | discarded ↦ record { live = a.live; sized = a.sized; others = a.others }
              | duplicate ↦ gone
              | delivered ↦ gone
            ]

  -- No chunk that fits its message makes the code panic, and it changes its own message only.
  pub receive_chunk-IsAbout :
      (i : ℤ) (m : ChunkedMsgCtxMap) (k : Chunk)
      → IsOpen total m
      → IsFitting total k
      → (r : Processed) × (receive_chunk i m k ≡ some r)
        × IsAbout total k.uuid m r.0
        × IsKept (before m k) r.0
  unfolding receive_chunk process_message_chunk
  receive_chunk-IsAbout i m k o fit =
      let a = before-IsAbout m k o fit in
      let (r, e, b, kept) =
        assemble-IsAbout total i (before m k) k (record { live = a.live; sized = a.sized }) fit in
      (
        hand_over i k r,
        ground (arith, e),
        hand_over-IsAbout i k m r (IsAbout-trans k.uuid m (before m k) r.0 a b),
        hand_over-IsKept i k (before m k) r kept,
      )

  -- The context that the chunk finds: a new one for the first chunk.
  abbrev Awaits : Chunk → Bytes → Option ChunkedMsgCtx → Type 0
  Awaits k buf c =
      (x : ChunkedMsgCtx) × (c ≡ some x)
      × (eqb_ℤ (pos k.chunk_id) (next_id x.last_chunked_msg_id) ≡ true)
      × (x.chunked_msg_buffer ≡ buf)

  before-Awaits :
      (m : ChunkedMsgCtxMap) (k : Chunk) (buf : Bytes) (j : ℕ)
      → IsOpen total m
      → IsFitting total k
      → k.chunk_id ≡ j
      → IsAt j buf (lookup k.uuid m.chunked_msg_ctxs)
      → Awaits k buf (lookup k.uuid (before m k).chunked_msg_ctxs)
  before-Awaits m k buf zero o fit ej (none_yet, empty) =
      let new = (add_if_absent-IsAbout total k.uuid m o).1 in
      let start : before m k ≡ add_if_absent m k.uuid (total k.uuid) =
        ap (λ n. if n == 0 then add_if_absent m k.uuid k.num_chunks else m) ej
        ∙ ap (add_if_absent m k.uuid) fit.chunks in
      (
        new_chunked_msg_ctx (total k.uuid),
        ap (λ n. lookup k.uuid n.chunked_msg_ctxs) start
            ∙ new
            ∙ ap (λ c. some (found total c (total k.uuid))) none_yet,
        ground (arith, ej),
        sym empty,
      )
  before-Awaits m k buf (suc j) o fit ej (x, here, last, bytes) =
      let start : before m k ≡ m = ground (arith, ej) in
      (
        x,
        ap (λ n. lookup k.uuid n.chunked_msg_ctxs) start ∙ here,
        ap (λ n. eqb_ℤ (pos k.chunk_id) (next_id n)) last ∙ ground (arith, ej),
        bytes,
      )

  -- The awaited chunk brings its message on, or completes it, and then it is handed over.
  pub receive_chunk_awaited :
      (i : ℤ) (m : ChunkedMsgCtxMap) (k : Chunk) (buf : Bytes)
      → IsOpen total m
      → IsFitting total k
      → k.fate ≡ delivered
      → IsAt k.chunk_id buf (lookup k.uuid m.chunked_msg_ctxs)
      → (r : Processed) × (receive_chunk i m k ≡ some r)
        × (((k.chunk_id + 1 ≡ total k.uuid)
              × (r.2 ≡ some (buf ++ k.part))
              × (lookup k.uuid r.0.chunked_msg_ctxs ≡ none))
            ⊎ ((k.chunk_id + 1 < total k.uuid)
                × (r.2 ≡ none)
                × IsAt (suc k.chunk_id) (buf ++ k.part) (lookup k.uuid r.0.chunked_msg_ctxs)))
  unfolding receive_chunk process_message_chunk hand_over remove
  receive_chunk_awaited i m k buf o fit goes at =
      let m' = before m k in
      let a = before-IsAbout m k o fit in
      let (x, here, next, bytes) = before-Awaits m k buf k.chunk_id o fit refl at in
      let e =
        assemble_awaited total i m' k x (record { live = a.live; sized = a.sized }) fit here next in
      let y = appended total i x k in
      let d = record m' { chunked_msg_ctxs = update k.uuid y m'.chunked_msg_ctxs } in
      elim (ℕ_discrete (k.chunk_id + 1) k.num_chunks) [
        | yes h ↦ (
          (remove d k.uuid, false, some (x.chunked_msg_buffer ++ k.part)),
          ground (arith, e, goes),
          inl (
            h ∙ fit.chunks,
            ap (λ b. some (b ++ k.part)) bytes,
            ground (arith, a.live, lookup-delete_self k.uuid d.chunked_msg_ctxs),
          ),
        )
        | no h ↦ (
          (d, true, none),
          ground (arith, e),
          inr (
            ground (arith, fit.chunks, fit.within),
            refl,
            (
              y,
              lookup-update_self k.uuid y x m'.chunked_msg_ctxs here,
              refl,
              ap (λ b. b ++ k.part) bytes,
            ),
          ),
        )
      ]
