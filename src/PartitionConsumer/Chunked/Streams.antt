-- ===== src/PartitionConsumer/Chunked/Streams.antt =====
-- What comes to the consumer of pulsar-client-go/pulsar/consumer_partition.go and what it hands over,
-- message by message.
use pr.Base.{
  List, Option, [], arith, if◌then◌else◌, length, none, refl, some, ℕ, ◌++◌, ◌+◌, ◌==◌, ◌∷◌, ◌≡◌,
  ◌≢◌,
}
use pr.Message.{Bytes}
use pr.PartitionConsumer.Chunked.{Chunk}
use pr.PartitionConsumer.Chunked.Events.{ChunkEvent, comes, expires, discards, output}

-- The chunks that come, and the messages whose timers end.
abbrev pub came : List ChunkEvent → List Chunk
came [] = []
came (comes k ∷ es) = k ∷ came es
came (expires v ∷ es) = came es
came (discards ∷ es) = came es

abbrev pub expired : List ChunkEvent → List ℕ
expired [] = []
expired (comes k ∷ es) = expired es
expired (expires v ∷ es) = v ∷ expired es
expired (discards ∷ es) = expired es

-- The chunks of one message.
abbrev pub own : ℕ → List Chunk → List Chunk
own u [] = []
own u (k ∷ ks) = if k.uuid == u then k ∷ own u ks else own u ks

-- The chunks are numbered from `j` on, up to `n`.
abbrev pub IsRun : ℕ → ℕ → List Chunk → Type 0
IsRun j n [] = j ≡ n
IsRun j n (k ∷ ks) = (k.chunk_id ≡ j) × IsRun (j + 1) n ks

abbrev pub parts : List Chunk → Bytes
parts [] = []
parts (k ∷ ks) = k.part ++ parts ks

-- The payloads of one message.
abbrev pub outputs : ℕ → List (ℕ × Bytes) → List Bytes
outputs u [] = []
outputs u ((v, payload) ∷ out) = if v == u then payload ∷ outputs u out else outputs u out

length-IsRun : (n : ℕ) (ks : List Chunk) (j : ℕ) → IsRun j n ks → j + length ks ≡ n
length-IsRun n [] j r = omega arith
length-IsRun n (k ∷ ks) j r = omega (arith, length-IsRun n ks (j + 1) r.1)

pub no_more : (n : ℕ) (ks : List Chunk) → IsRun n n ks → ks ≡ []
no_more n [] r = refl
no_more n (k ∷ ks) r = absurd (omega (arith, length-IsRun n (k ∷ ks) n r))

pub outputs-append :
    (u : ℕ) (xs ys : List (ℕ × Bytes)) → outputs u (xs ++ ys) ≡ outputs u xs ++ outputs u ys
outputs-append u [] ys = refl
outputs-append u ((v, p) ∷ xs) ys = ground (arith, outputs-append u xs ys)

pub outputs-output_ne : (u v : ℕ) (p : Option Bytes) → v ≢ u → outputs u (output v p) ≡ []
outputs-output_ne u v none n = refl
outputs-output_ne u v (some payload) n = ground arith

pub own_ne : (u : ℕ) (k : Chunk) (ks : List Chunk) → k.uuid ≢ u → own u (k ∷ ks) ≡ own u ks
own_ne u k ks n = ground arith

pub own_eq : (u : ℕ) (k : Chunk) (ks : List Chunk) → k.uuid ≡ u → own u (k ∷ ks) ≡ k ∷ own u ks
own_eq u k ks e = ground arith
