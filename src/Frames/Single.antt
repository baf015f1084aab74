-- ===== src/Frames/Single.antt =====
-- The messages of a batch, as `ReadMessage` of pulsar-client-go/pulsar/internal/commands.go takes
-- them off the buffer.
use pr.Base.{
  All, List, Option, [], ap, append-cancel, arith, false, length, length-append, map, none, refl,
  some, suc, sym, true, zero, ℕ, ◌++◌, ◌<◌, ◌==◌, ◌^◌, ◌∙◌, ◌∷◌, ◌≡◌, ◌≤◌,
}
use pr.Buffer.{Bytes, Buffer, be32, read, decoded, from_be32, read_uint32, readable_bytes}
use pr.Buffer.Fifo.{IsValid, unread, read-takes, length-unread}
use pr.Buffer.Number.{read_uint32-be32}
use pr.Frames.{
  Protocol, MessageReader, ReadError, replies, panics, fails, end_of_messages, read_sized,
  read_single_message, read_message,
}

-- The array of what a read leaves.
abbrev contents_after : {A : Type 0} → Bytes → Option (Buffer × A) → Bytes
contents_after d none = d
contents_after d (some (b, x)) = b.contents

contents_after-read : (b : Buffer) (n : ℕ) → contents_after b.contents (read b n) ≡ b.contents
unfolding read
contents_after-read b n = ground arith

contents_after-decoded :
    (d : Bytes) (f : Bytes → Option ℕ) (x : Option (Buffer × Option Bytes))
    → contents_after d x ≡ d
    → contents_after d (decoded f x) ≡ d
contents_after-decoded d f none h = refl
contents_after-decoded d f (some (b, none)) h = refl
contents_after-decoded d f (some (b, some s)) h = ground (arith, h)

contents_after-read_uint32 : (b : Buffer) → contents_after b.contents (read_uint32 b) ≡ b.contents
unfolding read_uint32
contents_after-read_uint32 b =
    contents_after-decoded b.contents from_be32 (read b 4) (contents_after-read b 4)

pub read-first :
    (b : Buffer) (s rest : Bytes)
    → IsValid b
    → unread b ≡ s ++ rest
    → (b' : Buffer) × (read b (length s) ≡ some (b', some s))
      × IsValid b'
      × (unread b' ≡ rest)
      × (b'.contents ≡ b.contents)
read-first b s rest v u =
    let room : length s ≤ length (unread b) = omega (arith, ap length u, length-append s rest) in
    let (b', t, e, split, l, v') = read-takes b (length s) v room in
    let parts = append-cancel t s (unread b') rest l (sym split ∙ u) in
    (
      b',
      e ∙ ap (λ x. some (b', some x)) parts.0,
      v',
      parts.1,
      sym (ap (contents_after b.contents) e) ∙ contents_after-read b (length s),
    )

-- A size in four bytes and the bytes that it counts.
pub read_sized-be32 :
    (b : Buffer) (s rest : Bytes)
    → IsValid b
    → length s < 2 ^ 32
    → unread b ≡ be32 (length s) ++ (s ++ rest)
    → (b' : Buffer) × (read_sized b ≡ some (b', s))
      × IsValid b'
      × (unread b' ≡ rest)
      × (b'.contents ≡ b.contents)
unfolding read_sized
read_sized-be32 b s rest v l u =
    let (b1, e1, v1, u1) = read_uint32-be32 b (length s) (s ++ rest) v l u in
    let (b2, e2, v2, u2, c2) = read-first b1 s rest v1 u1 in
    let c1 = sym (ap (contents_after b.contents) e1) ∙ contents_after-read_uint32 b in
    (b2, ground (arith, e1, e2), v2, u2, c2 ∙ c1)

pub data Item (p : Protocol) : Type 0 where
  item : p.SingleMessageMetadata → Bytes → Bytes → Item p

-- What a well-formed message of a batch is: bytes that decode to its metadata, and a payload of the
-- size that the metadata tells.
abbrev pub IsItem : (p : Protocol) → Item p → Type 0
IsItem p (item meta s payload) =
    (p.unmarshal_single s ≡ some meta)
    × (p.payload_size meta ≡ length payload)
    × (length s < 2 ^ 32)

abbrev pub encode : {p : Protocol} → Item p → Bytes → Bytes
encode (item meta s payload) rest = be32 (length s) ++ (s ++ (payload ++ rest))

abbrev pub content : {p : Protocol} → Item p → Option p.SingleMessageMetadata × Option Bytes
content (item meta s payload) = (some meta, some payload)

pub read_single_message-encode :
    (p : Protocol) (r : MessageReader) (i : Item p) (rest : Bytes)
    → IsItem p i
    → IsValid r.buffer
    → unread r.buffer ≡ encode i rest
    → (b : Buffer) × (read_single_message p r ≡ replies (record r { buffer = b }) (content i))
      × IsValid b
      × (unread b ≡ rest)
      × (b.contents ≡ r.buffer.contents)
unfolding read_single_message
read_single_message-encode p r (item meta s payload) rest (d, k, l) v u =
    let (b1, e1, v1, u1, c1) = read_sized-be32 r.buffer s (payload ++ rest) v l u in
    let (b2, e2, v2, u2, c2) = read-first b1 payload rest v1 u1 in
    (b2, ground (arith, e1, d, k, e2), v2, u2, c2 ∙ c1)

abbrev pub encode_all : {p : Protocol} → List (Item p) → Bytes
encode_all [] = []
encode_all (i ∷ is) = encode i (encode_all is)

-- `ReadMessage` while it succeeds, so many times at most: what it gives and how it ends.
unfoldable pub read_messages :
    (p : Protocol)
    → ℕ
    → MessageReader
    → List (Option p.SingleMessageMetadata × Option Bytes) × Option ReadError
read_messages p zero r = ([], none)
read_messages p (suc n) r = elim (read_message p r) [
  | panics ↦ ([], none)
  | fails r' e ↦ ([], some e)
  | replies r' x ↦ let (xs, e) = read_messages p n r' in (x ∷ xs, e)
]

encode-nonempty : {p : Protocol} (i : Item p) (rest : Bytes) → 0 < length (encode i rest)
encode-nonempty (item meta s payload) rest = omega arith

read_message-encode :
    (p : Protocol) (r : MessageReader) (i : Item p) (rest : Bytes)
    → IsItem p i
    → IsValid r.buffer
    → r.batched ≡ true
    → unread r.buffer ≡ encode i rest
    → (b : Buffer) × (read_message p r ≡ replies (record r { buffer = b }) (content i))
      × IsValid b
      × (unread b ≡ rest)
      × (b.contents ≡ r.buffer.contents)
unfolding read_message
read_message-encode p r i rest c v t u =
    let (b, e, v', u', c') = read_single_message-encode p r i rest c v u in
    let some_left : 0 < length (unread r.buffer) =
      omega (arith, ap length u, encode-nonempty i rest) in
    let l = length-unread r.buffer v in
    let k : (readable_bytes r.buffer == 0) ≡ false =
      ground (arith, some_left, l, v.in_order, v.within, v.fits) in
    (b, ground (arith, k, t) ∙ e, v', u', c')

read_message-end :
    (p : Protocol) (r : MessageReader)
    → IsValid r.buffer
    → r.batched ≡ true
    → 0 < length r.buffer.contents
    → unread r.buffer ≡ []
    → read_message p r ≡ fails r end_of_messages
unfolding read_message
read_message-end p r v t c u =
    let l = length-unread r.buffer v in
    let k : readable_bytes r.buffer ≡ 0 =
      omega (arith, ap length u, l, v.in_order, v.within, v.fits) in
    ground (arith, k, t, c, v.fits)

-- Well-formed messages of a batch, encoded one behind the other in a valid buffer with an array that
-- is not empty, are read back by a reader of batches in order, each with its
-- metadata and its payload, and then `ReadMessage` says that there are no more.
pub read_messages-encode_all :
    (p : Protocol) (is : List (Item p)) (r : MessageReader)
    → All (IsItem p) is
    → IsValid r.buffer
    → 0 < length r.buffer.contents
    → r.batched ≡ true
    → unread r.buffer ≡ encode_all is
    → read_messages p (suc (length is)) r ≡ (map content is, some end_of_messages)
unfolding read_messages
read_messages-encode_all p [] r a v c t u = ground (arith, read_message-end p r v t c u)
read_messages-encode_all p (i ∷ is) r (ok, a) v c t u =
    let (b, e, v', u', c') = read_message-encode p r i (encode_all is) ok v t u in
    let rest =
      read_messages-encode_all p is (record r { buffer = b }) a v' (rw (c', length) c) t u' in
    rw (e, read_messages) (ap (λ q. (content i ∷ q.0, q.1)) rest)
