-- ===== src/PartitionConsumer/Chunked/Calm.antt =====
-- When no discard is started, in pulsar-client-go/pulsar/consumer_partition.go.
use pr.Base.{
  Bool, List, [], arith, if_both, if◌then◌else◌, inl, inr, length, length-append, none, refl, some,
  suc, true, ℕ, ◌+◌, ◌==◌, ◌∙◌, ◌∷◌, ◌≡◌, ◌≤◌, ◌⊎◌,
}
use pr.Base.Int.{ℤ}
use pr.PartitionConsumer.Chunked.{
  ChunkedMsgCtxMap, Chunk, Processed, add_if_absent, remove, remove_first, discard_chunk_message,
  hand_over, corrupt, acknowledged, discarded, duplicate, delivered,
}
use pr.PartitionConsumer.Chunked.Events.{discard_chunk_if_expire, has_timer}

-- No discard waits, and `left` more messages can begin before one does.
pub record IsCalm (left : ℕ) (m : ChunkedMsgCtxMap) : Type 0 where
  pub idle : m.spawned ≡ 0
  pub room : (m.max_pending ≡ 0) ⊎ (length m.pending_queue + left ≤ m.max_pending)

-- A step that begins no message and starts no discard.
pub record IsKept (m m' : ChunkedMsgCtxMap) : Type 0 where
  pub spawned : m'.spawned ≡ m.spawned
  pub cap : m'.max_pending ≡ m.max_pending
  pub queue : length m'.pending_queue ≤ length m.pending_queue

pub IsKept-refl : (m : ChunkedMsgCtxMap) → IsKept m m
IsKept-refl m = record { spawned = refl; cap = refl; queue = omega arith }

pub IsKept-trans : (a b c : ChunkedMsgCtxMap) → IsKept a b → IsKept b c → IsKept a c
IsKept-trans a b c x y = record {
  spawned = y.spawned ∙ x.spawned;
  cap = y.cap ∙ x.cap;
  queue = omega (arith, x.queue, y.queue);
}

pub IsKept-IsCalm :
    (left : ℕ) (m m' : ChunkedMsgCtxMap) → IsKept m m' → IsCalm left m → IsCalm left m'
IsKept-IsCalm left m m' k c = record {
  idle = k.spawned ∙ c.idle;
  room = elim c.room [ inl z ↦ inl (k.cap ∙ z) | inr r ↦ inr (omega (arith, k.cap, k.queue, r)) ];
}

length-remove_first : (u : ℕ) (ks : List ℕ) → length (remove_first u ks) ≤ length ks
length-remove_first u [] = omega arith
length-remove_first u (k ∷ ks) = ground (arith, length-remove_first u ks)

pub remove-IsKept : (m : ChunkedMsgCtxMap) (u : ℕ) → IsKept m (remove m u)
unfolding remove
remove-IsKept m u = ground (arith, length-remove_first u m.pending_queue)

discard_chunk_message-IsKept :
    (m : ChunkedMsgCtxMap) (u : ℕ) (auto_ack : Bool) → IsKept m (discard_chunk_message m u auto_ack)
unfolding discard_chunk_message
discard_chunk_message-IsKept m u auto_ack = ground (arith, length-remove_first u m.pending_queue)

pub discard_chunk_if_expire-IsKept :
    (m : ChunkedMsgCtxMap) (u : ℕ) → IsKept m (discard_chunk_if_expire m u)
unfolding discard_chunk_if_expire
discard_chunk_if_expire-IsKept m u =
    let m' = record m { timers = remove_first u m.timers } in
    let k = discard_chunk_message-IsKept m' u true in
    if_both (IsKept m) (has_timer u m.timers) _ _
      (record { spawned = k.spawned; cap = k.cap; queue = k.queue }) (IsKept-refl m)

pub hand_over-IsKept :
    (i : ℤ) (k : Chunk) (m : ChunkedMsgCtxMap) (r : Processed)
    → IsKept m r.0
    → IsKept m (hand_over i k r).0
unfolding hand_over
hand_over-IsKept i k m (m', permit, none) a = a
hand_over-IsKept i k m (m', permit, some payload) a =
    let gone = IsKept-trans m m' (remove m' k.uuid) a (remove-IsKept m' k.uuid) in
    elim k.fate
      as (λ f. IsKept m (hand_over i (record k { fate = f }) (m', permit, some payload)).0) [
        | corrupt ↦ a
        | acknowledged ↦ a
        | discarded ↦ record { spawned = a.spawned; cap = a.cap; queue = a.queue }
        | duplicate ↦ gone
        | delivered ↦ gone
      ]

-- The first chunk of a message begins it.
abbrev pub firsts : List Chunk → ℕ
firsts [] = 0
firsts (k ∷ ks) = if k.chunk_id == 0 then suc (firsts ks) else firsts ks

pub add_if_absent-IsCalm :
    (left : ℕ) (m : ChunkedMsgCtxMap) (u total : ℕ)
    → IsCalm (suc left) m
    → IsCalm left (add_if_absent m u total)
unfolding add_if_absent
add_if_absent-IsCalm left m u total c = ground (arith, length-append m.pending_queue (u ∷ []))
