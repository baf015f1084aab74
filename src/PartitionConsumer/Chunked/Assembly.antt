-- ===== src/PartitionConsumer/Chunked/Assembly.antt =====
-- One chunk that comes, in pulsar-client-go/pulsar/consumer_partition.go.
use pr.Base.{
  Bool, Bool-cases, Option, Option-cases, ap, arith, false, if_both, if◌then◌else◌, inl, inr,
  length, length-replicate, length-set, ltb, none, not, refl, set, some, sym, true, ℕ, ℕ_discrete,
  ◌++◌, ◌+◌, ◌<◌, ◌==◌, ◌∙◌, ◌∷◌, ◌≡◌, ◌≢◌,
}
use pr.Base.Int.{ℤ, pos, negsuc, eqb_ℤ}
use pr.Message.{Bytes, new_message_id}
use pr.PartitionConsumer.Chunked.{
  ChunkedMsgCtx, ChunkedMsgCtxMap, Chunk, Processed, append, lookup, update, new_chunked_msg_ctx,
  add_if_absent, get, remove, next_id, assemble, remove_first, discard_chunk_message,
}
use pr.PartitionConsumer.Chunked.Contexts.{
  lookup-delete_self, lookup-delete_ne, lookup-update_ne, lookup-update_self, IsSized,
}
use pr.PartitionConsumer.Chunked.Events.{discard_chunk_if_expire, has_timer}
use pr.PartitionConsumer.Chunked.Calm.{IsKept, remove-IsKept}

module _ (total : ℕ → ℕ) where
  -- A chunk that says of its message what the others of its message say.
  pub record IsFitting (k : Chunk) : Type 0 where
    pub chunks : k.num_chunks ≡ total k.uuid
    pub within : k.chunk_id < total k.uuid

  pub record IsOpen (m : ChunkedMsgCtxMap) : Type 0 where
    pub live : m.closed ≡ false
    pub sized : IsSized total m.chunked_msg_ctxs

  -- The map after a step that is about one message.
  pub record IsAbout (v : ℕ) (m m' : ChunkedMsgCtxMap) : Type 0 where
    pub live : m'.closed ≡ false
    pub sized : IsSized total m'.chunked_msg_ctxs
    pub others : (u : ℕ) → u ≢ v → lookup u m'.chunked_msg_ctxs ≡ lookup u m.chunked_msg_ctxs

  pub remove-IsAbout : (v : ℕ) (m : ChunkedMsgCtxMap) → IsOpen m → IsAbout v m (remove m v)
  unfolding remove
  remove-IsAbout v m o = record {
    live = ground (arith, o.live);
    sized = λ u c e. elim (ℕ_discrete u v) [
      | yes h ↦ absurd (ground (arith, o.live, lookup-delete_self v m.chunked_msg_ctxs))
      | no h ↦ o.sized u c (ground (arith, o.live, lookup-delete_ne u v m.chunked_msg_ctxs h))
    ];
    others = λ u n. ground (arith, o.live, lookup-delete_ne u v m.chunked_msg_ctxs n);
  }

  discard_chunk_message-IsAbout :
      (v : ℕ) (m : ChunkedMsgCtxMap) (auto_ack : Bool)
      → IsOpen m
      → IsAbout v m (discard_chunk_message m v auto_ack)
  unfolding discard_chunk_message
  discard_chunk_message-IsAbout v m auto_ack o = record {
    live = ground (arith, o.live);
    sized = λ u c e. elim (ℕ_discrete u v) [
      | yes h ↦ absurd (ground (arith, o.live, lookup-delete_self v m.chunked_msg_ctxs))
      | no h ↦ o.sized u c (ground (arith, o.live, lookup-delete_ne u v m.chunked_msg_ctxs h))
    ];
    others = λ u n. ground (arith, o.live, lookup-delete_ne u v m.chunked_msg_ctxs n);
  }

  pub discard_chunk_if_expire-IsAbout :
      (v : ℕ) (m : ChunkedMsgCtxMap) → IsOpen m → IsAbout v m (discard_chunk_if_expire m v)
  unfolding discard_chunk_if_expire
  discard_chunk_if_expire-IsAbout v m o =
      let m' = record m { timers = remove_first v m.timers } in
      let a = discard_chunk_message-IsAbout v m' true (record { live = o.live; sized = o.sized }) in
      if_both (IsAbout v m) (has_timer v m.timers) _ _
        (record { live = a.live; sized = a.sized; others = a.others })
        (record { live = o.live; sized = o.sized; others = λ u n. refl })

  update-IsAbout :
      (v : ℕ) (m : ChunkedMsgCtxMap) (c d : ChunkedMsgCtx)
      → IsOpen m
      → lookup v m.chunked_msg_ctxs ≡ some d
      → length c.chunked_msg_ids ≡ total v
      → IsAbout v m (record m { chunked_msg_ctxs = update v c m.chunked_msg_ctxs })
  update-IsAbout v m c d o e l = record {
    live = o.live;
    sized = λ u x f. elim (ℕ_discrete u v) [
      | yes h ↦ ground (arith, lookup-update_self v c d m.chunked_msg_ctxs e)
      | no h ↦ o.sized u x (ground (arith, lookup-update_ne u v c m.chunked_msg_ctxs h))
    ];
    others = λ u n. lookup-update_ne u v c m.chunked_msg_ctxs n;
  }

  -- What a first chunk finds or makes.
  abbrev pub found : Option ChunkedMsgCtx → ℕ → ChunkedMsgCtx
  found none n = new_chunked_msg_ctx n
  found (some c) n = c

  pub add_if_absent-IsAbout :
      (v : ℕ) (m : ChunkedMsgCtxMap)
      → IsOpen m
      → IsAbout v m (add_if_absent m v (total v))
        × (lookup v (add_if_absent m v (total v)).chunked_msg_ctxs
            ≡ some (found (lookup v m.chunked_msg_ctxs) (total v)))
  unfolding add_if_absent
  add_if_absent-IsAbout v m o = elim (Option-cases (lookup v m.chunked_msg_ctxs)) [
    | inl e ↦
        let m' = add_if_absent m v (total v) in
        let c = new_chunked_msg_ctx (total v) in
        let live : m'.closed ≡ false = ground (arith, o.live, e) in
        let ctxs : m'.chunked_msg_ctxs ≡ (v, c) ∷ m.chunked_msg_ctxs = ground (arith, o.live, e) in
        (
          record {
            live = live;
            sized = λ u x f.
                let f' = sym (ap (lookup u) ctxs) ∙ f in
                elim (ℕ_discrete v u) [
                  | yes h ↦
                      let k : c ≡ x = ground (arith, f') in
                      sym (ap (λ y. length y.chunked_msg_ids) k)
                      ∙ length-replicate (total v) none
                      ∙ ap total h
                  | no h ↦ o.sized u x (ground (arith, f'))
                ];
            others = λ u n. ap (lookup u) ctxs ∙ ground arith;
          },
          ap (lookup v) ctxs ∙ ground (arith, e),
        )
    | inr (c, e) ↦
        let m' = add_if_absent m v (total v) in
        let live : m'.closed ≡ false = ground (arith, o.live, e) in
        let ctxs : m'.chunked_msg_ctxs ≡ m.chunked_msg_ctxs = ground (arith, o.live, e) in
        (
          record {
            live = live;
            sized = λ u x f. o.sized u x (sym (ap (lookup u) ctxs) ∙ f);
            others = λ u n. ap (lookup u) ctxs;
          },
          ap (lookup v) ctxs ∙ e ∙ ap (λ l. some (found l (total v))) (sym e),
        )
  ]

  -- The context after one more chunk.
  abbrev pub appended : ℤ → ChunkedMsgCtx → Chunk → ChunkedMsgCtx
  appended partition_idx c k = record c {
    chunked_msg_ids =
        set c.chunked_msg_ids k.chunk_id
          (some (new_message_id k.ledger k.entry (negsuc 0) partition_idx (pos 0)));
    chunked_msg_buffer = c.chunked_msg_buffer ++ k.part;
    last_chunked_msg_id = pos k.chunk_id;
  }

  abbrev pub whole : ChunkedMsgCtx → Chunk → Option Bytes
  whole c k = if k.chunk_id + 1 == k.num_chunks then some c.chunked_msg_buffer else none

  -- The chunk that was awaited is appended.
  pub assemble_awaited :
      (i : ℤ) (m : ChunkedMsgCtxMap) (k : Chunk) (c : ChunkedMsgCtx)
      → IsOpen m
      → IsFitting k
      → lookup k.uuid m.chunked_msg_ctxs ≡ some c
      → eqb_ℤ (pos k.chunk_id) (next_id c.last_chunked_msg_id) ≡ true
      → assemble i m k
        ≡ some (
          record m { chunked_msg_ctxs = update k.uuid (appended i c k) m.chunked_msg_ctxs },
          not (k.chunk_id + 1 == k.num_chunks),
          whole (appended i c k) k,
        )
  unfolding assemble get append
  assemble_awaited i m k c o fit e next =
      let room : ltb k.chunk_id (length c.chunked_msg_ids) ≡ true =
        ground (arith, o.sized k.uuid c e, fit.within) in
      ground (arith, o.live, e, next, room)

  -- Any other chunk makes the map forget its message.
  assemble_unexpected :
      (i : ℤ) (m : ChunkedMsgCtxMap) (k : Chunk) (c : ChunkedMsgCtx)
      → IsOpen m
      → lookup k.uuid m.chunked_msg_ctxs ≡ some c
      → eqb_ℤ (pos k.chunk_id) (next_id c.last_chunked_msg_id) ≡ false
      → assemble i m k ≡ some (remove m k.uuid, true, none)
  unfolding assemble get
  assemble_unexpected i m k c o e next = ground (arith, o.live, e, next)

  assemble_unknown :
      (i : ℤ) (m : ChunkedMsgCtxMap) (k : Chunk)
      → IsOpen m
      → lookup k.uuid m.chunked_msg_ctxs ≡ none
      → assemble i m k ≡ some (remove m k.uuid, true, none)
  unfolding assemble get
  assemble_unknown i m k o e = ground (arith, o.live, e)

  pub assemble-IsAbout :
      (i : ℤ) (m : ChunkedMsgCtxMap) (k : Chunk)
      → IsOpen m
      → IsFitting k
      → (r : Processed) × (assemble i m k ≡ some r) × IsAbout k.uuid m r.0 × IsKept m r.0
  assemble-IsAbout i m k o fit =
      let gone = remove-IsAbout k.uuid m o in
      let few = remove-IsKept m k.uuid in
      elim (Option-cases (lookup k.uuid m.chunked_msg_ctxs)) [
        | inl e ↦ (_, assemble_unknown i m k o e, gone, few)
        | inr (c, e) ↦ elim (Bool-cases (eqb_ℤ (pos k.chunk_id) (next_id c.last_chunked_msg_id))) [
          | inl next ↦ (
            _,
            assemble_awaited i m k c o fit e next,
            update-IsAbout k.uuid m (appended i c k) c o e
                (length-set c.chunked_msg_ids k.chunk_id _ ∙ o.sized k.uuid c e),
            record { spawned = refl; cap = refl; queue = omega arith },
          )
          | inr next ↦ (_, assemble_unexpected i m k c o e next, gone, few)
        ]
      ]
