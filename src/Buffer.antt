-- ===== src/Buffer.antt =====
-- pulsar-client-go/pulsar/internal/buffer.go: a buffer of bytes with a reader and a writer index.
-- An index is a uint32. Each method gives the buffer that it leaves, and `none` where it panics.
-- Slices are copies here: what a later write does to bytes that were read before is not modelled,
-- and the capacity of the array is its length, as of all that `make` gives.
pub mod Window
pub mod Fifo
pub mod Number
mod Tests
use pr.Base.{
  Bool, List, Option, [], add32, drop, if◌then◌else◌, leb, length, ltb, none, replicate, some,
  sub32, suc, take, zero, ℕ, ◌%◌, ◌&&◌, ◌*◌, ◌+◌, ◌-◌, ◌/◌, ◌^◌, ◌∷◌,
}

abbrev pub Bytes : Type 0
Bytes = List ℕ

pub record Buffer : Type 0 where
  pub contents : Bytes
  pub reader_idx : ℕ
  pub writer_idx : ℕ

abbrev pub new_buffer : ℕ → Buffer
new_buffer size = record { contents = replicate size 0; reader_idx = 0; writer_idx = 0 }

abbrev pub new_buffer_wrapper : Bytes → Buffer
new_buffer_wrapper buf = record { contents = buf; reader_idx = 0; writer_idx = length buf % 2 ^ 32 }

-- `d[i:j]`
abbrev pub slice : Bytes → ℕ → ℕ → Option Bytes
slice d i j = if leb i j && leb j (length d) then some (take (j - i) (drop i d)) else none

-- `copy(d, s)` and `copy(d[i:], s)` for an `i` within `d`.
abbrev pub overlay : Bytes → Bytes → Bytes
overlay [] s = []
overlay (x ∷ d) [] = x ∷ d
overlay (x ∷ d) (y ∷ s) = y ∷ overlay d s

abbrev pub copy_at : Bytes → ℕ → Bytes → Bytes
copy_at d zero s = overlay d s
copy_at [] (suc i) s = []
copy_at (x ∷ d) (suc i) s = x ∷ copy_at d i s

abbrev pub readable_bytes : Buffer → ℕ
readable_bytes b = sub32 b.writer_idx b.reader_idx

abbrev pub capacity : Buffer → ℕ
capacity b = length b.contents % 2 ^ 32

abbrev pub writable_bytes : Buffer → ℕ
writable_bytes b = sub32 (capacity b) b.writer_idx

abbrev pub is_writable : Buffer → Bool
is_writable b = ltb 0 (writable_bytes b)

-- The bytes are `none` if the slice is nil, when too much is asked for.
unfoldable pub read : Buffer → ℕ → Option (Buffer × Option Bytes)
read b size =
    let end = add32 b.reader_idx size in
    if ltb (length b.contents % 2 ^ 32) end
    then some (b, none)
    else elim (slice b.contents b.reader_idx end) [
      | none ↦ none
      | some s ↦ some (record b { reader_idx = end }, some s)
    ]

unfoldable pub skip : Buffer → ℕ → Buffer
skip b size = record b { reader_idx = add32 b.reader_idx size }

unfoldable pub get : Buffer → ℕ → ℕ → Option Bytes
get b reader_idx size = slice b.contents reader_idx (add32 reader_idx size)

unfoldable pub readable_slice : Buffer → Option Bytes
readable_slice b = slice b.contents b.reader_idx b.writer_idx

unfoldable pub written_bytes : Buffer → ℕ → Buffer
written_bytes b size = record b { writer_idx = add32 b.writer_idx size }

-- `copy` from a nil slice copies nothing.
abbrev pub or_empty : Option Bytes → Bytes
or_empty none = []
or_empty (some s) = s

unfoldable pub move_to_front : Buffer → Option Buffer
move_to_front b =
    let size = readable_bytes b in
    elim (read b size) [
      | none ↦ none
      | some (b', s) ↦
          some (record {
            contents = overlay b.contents (or_empty s);
            reader_idx = 0;
            writer_idx = size;
          })
    ]

unfoldable pub resize : Buffer → ℕ → Option Buffer
resize b new_size =
    let size = readable_bytes b in
    elim (read b size) [
      | none ↦ none
      | some (b', s) ↦ some (record {
        contents = overlay (replicate new_size 0) (or_empty s);
        reader_idx = 0;
        writer_idx = size;
      })
    ]

-- `cap * 3 / 2` is an int and does not wrap.
unfoldable pub resize_if_needed : Buffer → ℕ → Option Buffer
resize_if_needed b space_needed =
    let needed = add32 (capacity b) space_needed in
    let least = (length b.contents * 3 / 2) % 2 ^ 32 in
    if ltb (writable_bytes b) space_needed
    then resize b (if ltb needed least then least else needed)
    else some b

-- `copy(b.WritableSlice(), s)` and the advance of the writer.
abbrev pub put_bytes : Buffer → Bytes → Option Buffer
put_bytes b s =
    if leb b.writer_idx (length b.contents)
    then some (record b {
      contents = copy_at b.contents b.writer_idx s;
      writer_idx = add32 b.writer_idx (length s);
    })
    else none

unfoldable pub write : Buffer → Bytes → Option Buffer
write b s = elim (resize_if_needed b (length s % 2 ^ 32)) [ none ↦ none | some b' ↦ put_bytes b' s ]

-- `binary.BigEndian` of Go's library.
abbrev pub be32 : ℕ → Bytes
be32 n = (n / 2 ^ 24 % 256) ∷ (n / 2 ^ 16 % 256) ∷ (n / 2 ^ 8 % 256) ∷ (n % 256) ∷ []

abbrev pub be16 : ℕ → Bytes
be16 n = (n / 2 ^ 8 % 256) ∷ (n % 256) ∷ []

-- They panic on too few bytes.
abbrev pub from_be32 : Bytes → Option ℕ
from_be32 (a ∷ b ∷ c ∷ d ∷ rest) = some (a * 2 ^ 24 + b * 2 ^ 16 + c * 2 ^ 8 + d)
from_be32 _ = none

abbrev pub from_be16 : Bytes → Option ℕ
from_be16 (a ∷ b ∷ rest) = some (a * 2 ^ 8 + b)
from_be16 _ = none

-- The four or two bytes are put in the array if they fit, which resizing has seen to.
abbrev pub put_number : Buffer → Bytes → Option Buffer
put_number b s = if leb (b.writer_idx + length s) (length b.contents) then put_bytes b s else none

unfoldable pub write_uint32 : Buffer → ℕ → Option Buffer
write_uint32 b n = elim (resize_if_needed b 4) [ none ↦ none | some b' ↦ put_number b' (be32 n) ]

unfoldable pub write_uint16 : Buffer → ℕ → Option Buffer
write_uint16 b n = elim (resize_if_needed b 2) [ none ↦ none | some b' ↦ put_number b' (be16 n) ]

abbrev pub decoded : (Bytes → Option ℕ) → Option (Buffer × Option Bytes) → Option (Buffer × ℕ)
decoded f none = none
decoded f (some (b, none)) = none
decoded f (some (b, some s)) = elim (f s) [ none ↦ none | some n ↦ some (b, n) ]

unfoldable pub read_uint32 : Buffer → Option (Buffer × ℕ)
read_uint32 b = decoded from_be32 (read b 4)

unfoldable pub read_uint16 : Buffer → Option (Buffer × ℕ)
read_uint16 b = decoded from_be16 (read b 2)

unfoldable pub put_uint32 : Buffer → ℕ → ℕ → Option Buffer
put_uint32 b n idx =
    if leb (idx + 4) (length b.contents)
    then some (record b { contents = copy_at b.contents idx (be32 n) })
    else none

unfoldable pub put : Buffer → ℕ → Bytes → Option Buffer
put b writer_idx s =
    if leb writer_idx (length b.contents)
    then some (record b { contents = copy_at b.contents writer_idx s })
    else none
