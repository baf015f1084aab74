-- ===== src/Buffer/Number.antt =====
-- Numbers in the buffer of pulsar-client-go/pulsar/internal/buffer.go.
use pr.Base.{
  ap, append-cancel, arith, length, some, sym, ℕ, ◌*◌, ◌++◌, ◌+◌, ◌<◌, ◌^◌, ◌∙◌, ◌≡◌, ◌≤◌,
}
use pr.Buffer.{Bytes, Buffer, be32, from_be32, write_uint32, read_uint32}
use pr.Buffer.Fifo.{
  IsValid, unread, put_result, put_result-IsValid, unread-put, resize_if_needed-HasRoom, read-takes,
}

be32_lem : (n : ℕ) → n < 2 ^ 32 → from_be32 (be32 n) ≡ some n
be32_lem n h = ap some (omega arith)

-- `WriteUint32` within the limits succeeds and appends the four bytes of the number, high first.
pub write_uint32-appends :
    (b : Buffer) (n : ℕ)
    → IsValid b
    → 2 * length b.contents + 4 < 2 ^ 31
    → (b' : Buffer) × (write_uint32 b n ≡ some b') × IsValid b' × (unread b' ≡ unread b ++ be32 n)
unfolding write_uint32
write_uint32-appends b n v l =
    let (b', e, h) = resize_if_needed-HasRoom b 4 v (omega arith) in
    (
      put_result b' (be32 n),
      ground (arith, e, h.valid.within, h.room),
      put_result-IsValid b' (be32 n) h.valid h.room,
      unread-put b' (be32 n) h.valid h.room ∙ ap (λ u. u ++ be32 n) h.same,
    )

-- If the unread bytes begin with a number as `WriteUint32` puts it, then `ReadUint32` returns that
-- number and leaves the bytes behind it.
pub read_uint32-be32 :
    (b : Buffer) (n : ℕ) (rest : Bytes)
    → IsValid b
    → n < 2 ^ 32
    → unread b ≡ be32 n ++ rest
    → (b' : Buffer) × (read_uint32 b ≡ some (b', n)) × IsValid b' × (unread b' ≡ rest)
unfolding read_uint32
read_uint32-be32 b n rest v h u =
    let four : 4 ≤ length (unread b) = omega (arith, ap length u) in
    let (b', s, e, split, l, v') = read-takes b 4 v four in
    let parts = append-cancel s (be32 n) (unread b') rest l (sym split ∙ u) in
    (b', ground (arith, e, parts.0, be32_lem n h), v', parts.1)
