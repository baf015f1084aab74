-- ===== src/PartitionProducer/Chunks.antt =====
-- How pulsar-client-go/pulsar/producer_partition.go cuts a payload into chunks.
use native.Mathlib.Nat.{lt-div-mul-add}
use Prim.Native.Nat.{min}
use pr.Base.{
  All, List, [], ap, append-nil, append_assoc, arith, drop, false, leb, length, length-append,
  length-take, none, refl, suc, sym, take, zero, ℕ, ◌*◌, ◌++◌, ◌+◌, ◌-◌, ◌/◌, ◌<◌, ◌∙◌, ◌∷◌, ◌≡◌,
  ◌≤◌,
}
use pr.PartitionProducer.{
  Bytes, Producer, SendRequest, PendingItem, Builder, chunk_request, write_data,
  internal_single_send, send_chunks, internal_send,
}
use pr.PartitionProducer.Async.{chunks_of}

drop_all : (xs : Bytes) (n : ℕ) → length xs ≤ n → drop n xs ≡ []
drop_all [] zero h = refl
drop_all [] (suc n) h = refl
drop_all (x ∷ xs) zero h = absurd (omega arith)
drop_all (x ∷ xs) (suc n) h = drop_all xs n (omega arith)

slice_first : (xs : Bytes) (n : ℕ) → take (min n (length xs)) xs ++ drop n xs ≡ xs
slice_first [] zero = refl
slice_first [] (suc n) = let e : min (suc n) 0 ≡ 0 = omega arith in rw e refl
slice_first (x ∷ xs) zero = let e : min 0 (suc (length xs)) ≡ 0 = omega arith in rw e refl
slice_first (x ∷ xs) (suc n) =
    let e : min (suc n) (suc (length xs)) ≡ suc (min n (length xs)) = omega arith in
    rw e (ap (λ t. x ∷ t) (slice_first xs n))

-- A slice and what is behind it.
slice-drop :
    (xs : Bytes) (i n : ℕ)
    → take (min (i + n) (length xs) - i) (drop i xs) ++ drop (i + n) xs ≡ drop i xs
slice-drop xs zero n =
    let e : min (0 + n) (length xs) - 0 ≡ min n (length xs) = omega arith in
    let e' : 0 + n ≡ n = omega arith in rw (e, e') (slice_first xs n)
slice-drop [] (suc i) n =
    let e : min (suc i + n) 0 - suc i ≡ 0 = omega arith in
    let e' : suc i + n ≡ suc (i + n) = omega arith in rw (e, e') refl
slice-drop (x ∷ xs) (suc i) n =
    let e : min (suc i + n) (suc (length xs)) - suc i ≡ min (i + n) (length xs) - i = omega arith in
    let e' : suc i + n ≡ suc (i + n) = omega arith in rw (e, e') (slice-drop xs i n)

chunks_of_enough : (a b : ℕ) → 0 < b → a ≤ chunks_of a b * b
chunks_of_enough a b h =
    let q = (a + b - 1) / b in
    let k : a ≤ q * b = omega (arith, lt-div-mul-add {a = a + b - 1} h) in ground (arith, k)

-- The payloads of the chunks from the k-th on.
abbrev pub chunk_payloads : SendRequest → ℕ → ℕ → Bytes
chunk_payloads sr zero k = []
chunk_payloads sr (suc left) k =
    (chunk_request sr k).compressed_payload ++ chunk_payloads sr left (k + 1)

chunk_payloads-drop :
    (sr : SendRequest) (left k : ℕ)
    → length sr.compressed_payload ≤ (k + left) * sr.payload_chunk_size
    → chunk_payloads sr left k ≡ drop (k * sr.payload_chunk_size) sr.compressed_payload
chunk_payloads-drop sr zero k h =
    sym (drop_all sr.compressed_payload (k * sr.payload_chunk_size) (omega arith))
chunk_payloads-drop sr (suc left) k h =
    let c = sr.payload_chunk_size in
    let e : (k + 1) * c ≡ k * c + c = omega arith in
    let l : length sr.compressed_payload ≤ (k + 1 + left) * c = omega arith in
    ap (λ t. (chunk_request sr k).compressed_payload ++ t)
      (chunk_payloads-drop sr left (k + 1) l ∙ ap (λ n. drop n sr.compressed_payload) e)
    ∙ slice-drop sr.compressed_payload (k * c) c

-- The items of the chunks from the k-th on.
abbrev pub chunk_items : ℕ → SendRequest → ℕ → ℕ → List PendingItem
chunk_items now sr zero k = []
chunk_items now sr (suc left) k =
    record {
      sequence_id = sr.sequence_id;
      created_at = now;
      send_requests = chunk_request sr k ∷ [];
      is_done = false;
      flush_callbacks = [];
    }
    ∷ chunk_items now sr left (k + 1)

send_chunks-pending :
    (b : Builder) (now left k : ℕ) (p : Producer) (sr : SendRequest)
    → p.ctx_done ≡ false
    → ((r : SendRequest) → b.single r ≡ none)
    → (send_chunks b now left k p sr).pending ≡ p.pending ++ chunk_items now sr left k
unfolding send_chunks
send_chunks-pending b now zero k p sr c n = sym (append-nil p.pending)
send_chunks-pending b now (suc left) k p sr c n =
    let p' = internal_single_send b now p (chunk_request sr k) in
    let same : (p'.ctx_done ≡ false) × (p'.pending ≡ p.pending ++ chunk_items now sr 1 k) =
      unfold internal_single_send write_data in ground (arith, c, n (chunk_request sr k)) in
    send_chunks-pending b now left (k + 1) p' sr same.0 n
    ∙ ap (λ t. t ++ chunk_items now sr left (k + 1)) same.1
    ∙ append_assoc p.pending (chunk_items now sr 1 k) (chunk_items now sr left (k + 1))

-- The payload of an item of one request.
abbrev pub payloads : List PendingItem → Bytes
payloads [] = []
payloads (it ∷ its) =
    elim it.send_requests [ [] ↦ [] | sr ∷ srs ↦ sr.compressed_payload ] ++ payloads its

abbrev pub IsAtMost : ℕ → PendingItem → Type 0
IsAtMost n it = length (payloads (it ∷ [])) ≤ n

payloads-chunk_items :
    (now : ℕ) (sr : SendRequest) (left k : ℕ)
    → payloads (chunk_items now sr left k) ≡ chunk_payloads sr left k
payloads-chunk_items now sr zero k = refl
payloads-chunk_items now sr (suc left) k =
    ap (λ t. (chunk_request sr k).compressed_payload ++ t)
      (payloads-chunk_items now sr left (k + 1))

chunk_items-IsAtMost :
    (now : ℕ) (sr : SendRequest) (left k : ℕ)
    → All (IsAtMost sr.payload_chunk_size) (chunk_items now sr left k)
chunk_items-IsAtMost now sr zero k = tt
chunk_items-IsAtMost now sr (suc left) k =
    let c = sr.payload_chunk_size in
    let n = min (k * c + c) (length sr.compressed_payload) - k * c in
    (
      omega (
        arith,
        length-append (take n (drop (k * c) sr.compressed_payload)) [],
        length-take n (drop (k * c) sr.compressed_payload),
      ),
      chunk_items-IsAtMost now sr left (k + 1),
    )

length-chunk_items :
    (now : ℕ) (sr : SendRequest) (left k : ℕ) → length (chunk_items now sr left k) ≡ left
length-chunk_items now sr zero k = refl
length-chunk_items now sr (suc left) k = ap suc (length-chunk_items now sr left (k + 1))

pub chunked-chunk_items :
    (b : Builder) (now : ℕ) (p : Producer) (sr : SendRequest)
    → p.ctx_done ≡ false
    → ((r : SendRequest) → b.single r ≡ none)
    → sr.send_as_batch ≡ false
    → 1 < sr.total_chunks
    → (internal_send b now p sr).pending ≡ p.pending ++ chunk_items now sr sr.total_chunks 0
unfolding internal_send
chunked-chunk_items b now p sr c n a l =
    let several : leb sr.total_chunks 1 ≡ false = ground arith in
    ground (arith, a, several, send_chunks-pending b now sr.total_chunks 0 p sr c n)

pub payloads-chunked :
    (now : ℕ) (sr : SendRequest)
    → 0 < sr.payload_chunk_size
    → sr.total_chunks ≡ chunks_of (length sr.compressed_payload) sr.payload_chunk_size
    → payloads (chunk_items now sr sr.total_chunks 0) ≡ sr.compressed_payload
payloads-chunked now sr pos t =
    let size = length sr.compressed_payload in
    let enough : size ≤ (0 + sr.total_chunks) * sr.payload_chunk_size =
      rw t (omega (arith, chunks_of_enough size sr.payload_chunk_size pos)) in
    let start : 0 * sr.payload_chunk_size ≡ 0 = omega arith in
    payloads-chunk_items now sr sr.total_chunks 0
    ∙ chunk_payloads-drop sr sr.total_chunks 0 enough
    ∙ ap (λ n. drop n sr.compressed_payload) start

-- A message in several chunks, on a producer that is not being closed and whose chunks can all be
-- serialized, comes to the end of the pending queue as that many items, none with more than the
-- chunk size, whose payloads one after the other are the message's.
pub internal_send-chunks :
    (b : Builder) (now : ℕ) (p : Producer) (sr : SendRequest)
    → p.ctx_done ≡ false
    → ((r : SendRequest) → b.single r ≡ none)
    → sr.send_as_batch ≡ false
    → 0 < sr.payload_chunk_size
    → sr.total_chunks ≡ chunks_of (length sr.compressed_payload) sr.payload_chunk_size
    → 1 < sr.total_chunks
    → (its : List PendingItem) × ((internal_send b now p sr).pending ≡ p.pending ++ its)
      × (length its ≡ sr.total_chunks)
      × (payloads its ≡ sr.compressed_payload)
      × All (IsAtMost sr.payload_chunk_size) its
internal_send-chunks b now p sr c n a pos t l = (
  chunk_items now sr sr.total_chunks 0,
  chunked-chunk_items b now p sr c n a l,
  length-chunk_items now sr sr.total_chunks 0,
  payloads-chunked now sr pos t,
  chunk_items-IsAtMost now sr sr.total_chunks 0,
)
