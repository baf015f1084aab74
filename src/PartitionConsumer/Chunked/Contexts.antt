-- ===== src/PartitionConsumer/Chunked/Contexts.antt =====
-- The map of contexts of pulsar-client-go/pulsar/consumer_partition.go, as a map.
use pr.Base.{[], arith, length, none, refl, some, ℕ, ℕ_discrete, ◌∷◌, ◌≡◌, ◌≢◌}
use pr.PartitionConsumer.Chunked.{ChunkedMsgCtx, Contexts, lookup, delete, update}

pub lookup-delete_self : (u : ℕ) (cs : Contexts) → lookup u (delete u cs) ≡ none
lookup-delete_self u [] = refl
lookup-delete_self u ((k, c) ∷ cs) = ground (arith, lookup-delete_self u cs)

pub lookup-delete_ne : (u v : ℕ) (cs : Contexts) → u ≢ v → lookup u (delete v cs) ≡ lookup u cs
lookup-delete_ne u v [] n = refl
lookup-delete_ne u v ((k, c) ∷ cs) n = ground (arith, lookup-delete_ne u v cs n)

pub lookup-update_ne :
    (u v : ℕ) (c : ChunkedMsgCtx) (cs : Contexts) → u ≢ v → lookup u (update v c cs) ≡ lookup u cs
lookup-update_ne u v c [] n = refl
lookup-update_ne u v c ((k, d) ∷ cs) n = ground (arith, lookup-update_ne u v c cs n)

pub lookup-update_self :
    (u : ℕ) (c d : ChunkedMsgCtx) (cs : Contexts)
    → lookup u cs ≡ some d
    → lookup u (update u c cs) ≡ some c
lookup-update_self u c d [] e = absurd (ground arith)
lookup-update_self u c d ((k, x) ∷ cs) e = elim (ℕ_discrete k u) [
  | yes h ↦ ground arith
  | no h ↦
      let e' : lookup u cs ≡ some d = ground arith in ground (arith, lookup-update_self u c d cs e')
]

-- Each context has room for all the chunks of its message.
module _ (total : ℕ → ℕ) where
  abbrev pub IsSized : Contexts → Type 0
  IsSized cs =
      (u : ℕ) (c : ChunkedMsgCtx) → lookup u cs ≡ some c → length c.chunked_msg_ids ≡ total u
