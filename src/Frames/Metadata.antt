-- ===== src/Frames/Metadata.antt =====
-- The checksum and the metadata at the start of a frame, as pulsar-client-go/pulsar/internal/
-- commands.go reads them.
use pr.Base.{ap, arith, false, length, ltb, some, ℕ, ◌++◌, ◌<◌, ◌^◌, ◌||◌, ◌≡◌, ◌≢◌}
use pr.Buffer.{Bytes, Buffer, be16, be32, from_be16, readable_slice, readable_bytes, read_uint16}
use pr.Buffer.Fifo.{IsValid, unread, length-unread}
use pr.Buffer.Number.{read_uint32-be32}
use pr.Frames.{
  Protocol, MessageReader, magic_crc32c, replies, fails, checksum_mismatch, read_checksum,
  parse_metadata, read_message_metadata,
}
use pr.Frames.Single.{read-first, read_sized-be32}

be16_lem : (n : ℕ) → n < 2 ^ 16 → from_be16 (be16 n) ≡ some n
be16_lem n h = ap some (omega arith)

read_uint16-be16 :
    (b : Buffer) (n : ℕ) (rest : Bytes)
    → IsValid b
    → n < 2 ^ 16
    → unread b ≡ be16 n ++ rest
    → (b' : Buffer) × (read_uint16 b ≡ some (b', n)) × IsValid b' × (unread b' ≡ rest)
unfolding read_uint16
read_uint16-be16 b n rest v h u =
    let (b', e, v', u', c) = read-first b (be16 n) rest v u in
    (b', ground (arith, e, be16_lem n h), v', u')

readable_slice-unread : (b : Buffer) → IsValid b → readable_slice b ≡ some (unread b)
unfolding readable_slice
readable_slice-unread b v = ground (arith, v.in_order, v.within)

-- A frame as the writer of the wire format puts it: the magic number, the checksum of what follows,
-- and what follows.
abbrev pub frame : ℕ → Bytes → Bytes
frame checksum body = be16 magic_crc32c ++ (be32 checksum ++ body)

read_checksum-frame :
    (r : MessageReader) (c : ℕ) (body : Bytes)
    → IsValid r.buffer
    → c < 2 ^ 32
    → unread r.buffer ≡ frame c body
    → (b : Buffer) × (read_checksum r ≡ replies (record r { buffer = b }) c)
      × IsValid b
      × (unread b ≡ body)
unfolding read_checksum
read_checksum-frame r c body v l u =
    let (b1, e1, v1, u1) =
      read_uint16-be16 r.buffer magic_crc32c (be32 c ++ body) v (omega arith) u in
    let (b2, e2, v2, u2) = read_uint32-be32 b1 c body v1 l u1 in
    let six : ltb (readable_bytes r.buffer) 6 ≡ false =
      ground (arith, ap length u, length-unread r.buffer v, v.in_order, v.within, v.fits) in
    (b2, ground (arith, six, e1, e2), v2, u2)

-- A frame in a valid buffer whose checksum is not that of its body is refused, with both checksums named, whatever
-- the body is: nothing of it is decoded.
pub read_message_metadata-mismatch :
    (p : Protocol) (r : MessageReader) (c : ℕ) (body : Bytes)
    → IsValid r.buffer
    → c < 2 ^ 32
    → unread r.buffer ≡ frame c body
    → c ≢ p.crc32c body
    → (b : Buffer) × (read_message_metadata p r
        ≡ fails (record r { buffer = b }) (checksum_mismatch c (p.crc32c body)))
      × (unread b ≡ body)
unfolding read_message_metadata
read_message_metadata-mismatch p r c body v l u ne =
    let (b, e, v', u') = read_checksum-frame r c body v l u in
    let s = readable_slice-unread b v' in (b, ground (arith, e, s, u', ne), u')

-- A frame in a valid buffer with the right checksum gives the metadata that its bytes decode to, sets the reader's
-- flags by it, and leaves what stands behind them unread.
pub read_message_metadata-frame :
    (p : Protocol) (r : MessageReader) (meta : p.MessageMetadata) (s rest : Bytes)
    → IsValid r.buffer
    → p.crc32c (be32 (length s) ++ (s ++ rest)) < 2 ^ 32
    → length s < 2 ^ 32
    → p.unmarshal_metadata s ≡ some meta
    → unread r.buffer
      ≡ frame (p.crc32c (be32 (length s) ++ (s ++ rest))) (be32 (length s) ++ (s ++ rest))
    → (b : Buffer) × (read_message_metadata p r
        ≡ replies
            (record {
              buffer = b;
              batched = r.batched || p.has_num_messages meta;
              has_properties = r.has_properties || p.has_properties meta;
            })
            meta)
      × IsValid b
      × (unread b ≡ rest)
unfolding read_message_metadata parse_metadata
read_message_metadata-frame p r meta s rest v l k d u =
    let body = be32 (length s) ++ (s ++ rest) in
    let (b1, e1, v1, u1) = read_checksum-frame r (p.crc32c body) body v l u in
    let t = readable_slice-unread b1 v1 in
    let (b2, e2, v2, u2, c2) = read_sized-be32 b1 s rest v1 k u1 in
    (b2, ground (arith, e1, t, u1, e2, d), v2, u2)
