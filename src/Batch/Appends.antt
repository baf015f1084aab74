-- ===== src/Batch/Appends.antt =====
-- What `Add` of pulsar-client-go/pulsar/internal/batch_builder.go leaves in the container.
use pr.Base.{
  Bool-cases, Option, [], add32, add64, ap, arith, false, inl, inr, length, length-replicate, none,
  refl, replicate, some, true, ℕ, ◌%◌, ◌*◌, ◌++◌, ◌+◌, ◌/◌, ◌<◌, ◌^◌, ◌∙◌, ◌∷◌, ◌≡◌, ◌≤◌, ◌⊎◌,
}
use pr.Buffer.{Bytes, Buffer, be32, resize, resize_if_needed, put_number, write_uint32}
use pr.Buffer.Window.{length-overlay, length-copy_at}
use pr.Buffer.Fifo.{
  IsValid, unread, resize_if_needed-HasRoom, put_result, put_result-IsValid, unread-put,
  write-appends, resize-eq,
}
use pr.Buffer.Number.{write_uint32-appends}
use pr.Batch.{
  BatchContainer, AddRequest, add_single_message_to_batch, accepts, started, add, has_space,
  start_batch,
}

abbrev array_size : Option Buffer → ℕ
array_size none = 0
array_size (some b) = length b.contents

array_size-resize : (b : Buffer) (n : ℕ) → IsValid b → array_size (resize b n) ≡ n
array_size-resize b n v =
    ap array_size (resize-eq b n v)
    ∙ length-overlay (replicate n 0) (unread b)
    ∙ length-replicate n 0

array_size-resize_if_needed :
    (b : Buffer) (n : ℕ)
    → IsValid b
    → 2 * length b.contents + n < 2 ^ 31
    → array_size (resize_if_needed b n) ≤ 2 * length b.contents + n
unfolding resize_if_needed
array_size-resize_if_needed b n v l = ground (
  arith,
  array_size-resize b (add32 (length b.contents % 2 ^ 32) n) v,
  array_size-resize b (length b.contents * 3 / 2 % 2 ^ 32) v,
)

array_size-write_uint32 :
    (b b' : Buffer) (n : ℕ)
    → IsValid b
    → 2 * length b.contents + 4 < 2 ^ 31
    → write_uint32 b n ≡ some b'
    → length b'.contents ≤ 2 * length b.contents + 4
unfolding write_uint32
array_size-write_uint32 b b' n v l h =
    let (c, e, r) = resize_if_needed-HasRoom b 4 v l in
    let s = array_size-resize_if_needed b 4 v l in
    let c_size : length c.contents ≤ 2 * length b.contents + 4 = rw⁻¹ (ap array_size e) s in
    let k : some (put_result c (be32 n)) ≡ some b' = ground (arith, e, h, r.valid.within, r.room) in
    omega (arith, ap array_size k, length-copy_at c.contents c.writer_idx (be32 n), c_size)

-- A message is put behind the others in a buffer that is not near its limit: its size, its metadata
-- and its payload.
pub add_single_message_to_batch-appends :
    (b : Buffer) (smm payload : Bytes)
    → IsValid b
    → 8 * length b.contents + 8 * length smm + length payload + 64 < 2 ^ 31
    → (b' : Buffer) × (add_single_message_to_batch b smm payload ≡ some b')
      × IsValid b'
      × (unread b' ≡ ((unread b ++ be32 (length smm)) ++ smm) ++ payload)
unfolding add_single_message_to_batch
add_single_message_to_batch-appends b smm payload v l =
    let m : length smm % 2 ^ 32 ≡ length smm = omega arith in
    let (b1, e1, v1, u1) = write_uint32-appends b (length smm) v (omega arith) in
    let s1 = array_size-write_uint32 b b1 (length smm) v (omega arith) e1 in
    let (b2, e2, r) = resize_if_needed-HasRoom b1 (length smm) v1 (omega (arith, s1)) in
    let s2 = array_size-resize_if_needed b1 (length smm) v1 (omega (arith, s1)) in
    let b2_size : length b2.contents ≤ 2 * length b1.contents + length smm =
      rw⁻¹ (ap array_size e2) s2 in
    let b3 = put_result b2 smm in
    let e3 : put_number b2 smm ≡ some b3 = ground (arith, r.valid.within, r.room) in
    let v3 = put_result-IsValid b2 smm r.valid r.room in
    let b3_size : length b3.contents ≡ length b2.contents =
      length-copy_at b2.contents b2.writer_idx smm in
    let (b4, e4, v4, u4) = write-appends b3 payload v3 (omega (arith, s1, b2_size, b3_size)) in
    (
      b4,
      ground (arith, m, e1, e2, e3, e4),
      v4,
      u4
          ∙ ap (λ u. u ++ payload)
              (unread-put b2 smm r.valid r.room ∙ ap (λ u. u ++ smm) (r.same ∙ u1)),
    )

started-buffer :
    (bc : BatchContainer) (generator : ℕ) (a : AddRequest)
    → ((started bc generator a).0.buffer ≡ bc.buffer)
      × ((started bc generator a).0.num_messages ≡ bc.num_messages)
      × ((started bc generator a).0.callbacks ≡ bc.callbacks)
unfolding start_batch
started-buffer bc generator a = ground arith

-- The container after a message is put in one that has started its batch.
abbrev pub extended : BatchContainer → Buffer → ℕ → BatchContainer
extended bc b callback = record bc {
  buffer = b;
  num_messages = add64 bc.num_messages 1;
  callbacks = bc.callbacks ++ (callback ∷ []);
}

abbrev pub IsSmall : BatchContainer → AddRequest → Type 0
IsSmall bc a =
    8 * length bc.buffer.contents + 8 * length a.metadata.encoded + length a.payload + 64 < 2 ^ 31

pub add-extended :
    (bc : BatchContainer) (generator : ℕ) (a : AddRequest)
    → IsValid bc.buffer
    → IsSmall bc a
    → accepts bc a ≡ true
    → (b : Buffer) × (add bc generator a
        ≡ some (extended (started bc generator a).0 b a.callback, (started bc generator a).1, true))
      × IsValid b
      × (unread b
          ≡ ((unread bc.buffer ++ be32 (length a.metadata.encoded)) ++ a.metadata.encoded)
            ++ a.payload)
unfolding add
add-extended bc generator a v l t =
    let (b, e, v', u) =
      add_single_message_to_batch-appends bc.buffer a.metadata.encoded a.payload v l in
    let s = (started-buffer bc generator a).0 in
    let e' : add_single_message_to_batch (started bc generator a).0.buffer a.metadata.encoded
          a.payload
        ≡ some b =
      ap (λ x. add_single_message_to_batch x a.metadata.encoded a.payload) s ∙ e in
    (b, ground (arith, t, e'), v', u)

accepts-limit :
    (bc : BatchContainer) (a : AddRequest)
    → accepts bc a ≡ true
    → (bc.num_messages ≡ 0) ⊎ (add64 bc.num_messages 1 ≤ bc.max_messages)
unfolding accepts has_space
accepts-limit bc a t = ground arith

-- `Add` to a container that is not near the limit of its valid buffer either refuses the message and
-- leaves the container and the generator of numbers as they are, or accepts it: then the message
-- stands behind the others, its callback behind the others, it is counted, and the count is within
-- the maximum unless it is the first message.
pub add-appends :
    (bc : BatchContainer) (generator : ℕ) (a : AddRequest)
    → IsValid bc.buffer
    → IsSmall bc a
    → (bc' : BatchContainer) × (g : ℕ) × (add bc generator a ≡ some (bc', g, accepts bc a))
      × (((accepts bc a ≡ false) × (bc' ≡ bc) × (g ≡ generator))
          ⊎ ((accepts bc a ≡ true)
              × IsValid bc'.buffer
              × (unread bc'.buffer
                  ≡ ((unread bc.buffer ++ be32 (length a.metadata.encoded)) ++ a.metadata.encoded)
                    ++ a.payload)
              × (bc'.callbacks ≡ bc.callbacks ++ (a.callback ∷ []))
              × (bc'.num_messages ≡ add64 bc.num_messages 1)
              × ((bc.num_messages ≡ 0) ⊎ (bc'.num_messages ≤ bc.max_messages))))
add-appends bc generator a v l = elim (Bool-cases (accepts bc a)) [
  | inl t ↦
      let (b, e, v', u) = add-extended bc generator a v l t in
      let (s, n, c) = started-buffer bc generator a in
      let m = accepts-limit bc a t in
      (
        extended (started bc generator a).0 b a.callback,
        (started bc generator a).1,
        rw t e,
        inr (
          t,
          v',
          u,
          ap (λ x. x ++ (a.callback ∷ [])) c,
          ap (λ x. add64 x 1) n,
          ground (arith, m, n),
        ),
      )
  | inr f ↦ (bc, generator, unfold add in ground (arith, f), inl (f, refl, refl))
]
