-- ===== src/Buffer/Tests.antt =====
-- The theorems on pulsar-client-go/pulsar/internal/buffer.go at concrete inputs.
use pr.Base.{[], arith, refl, some, ◌∷◌, ◌≡◌}
use pr.Buffer.{Buffer, write, read_uint32}
use pr.Buffer.Fifo.{IsValid, unread, write-appends}
use pr.Buffer.Number.{read_uint32-be32}

-- Bytes 7 and 8 are unread, and one place is left.
abbrev small : Buffer
small = record { contents = 1 ∷ 7 ∷ 8 ∷ 0 ∷ []; reader_idx = 1; writer_idx = 3 }

small-IsValid : IsValid small
small-IsValid = omega arith

abbrev numbered : Buffer
numbered = record { contents = 0 ∷ 0 ∷ 1 ∷ 2 ∷ 9 ∷ []; reader_idx = 0; writer_idx = 5 }

write-appends_example :
    (b : Buffer) × (write small (4 ∷ 5 ∷ 6 ∷ []) ≡ some b)
    × IsValid b
    × (unread b ≡ 7 ∷ 8 ∷ 4 ∷ 5 ∷ 6 ∷ [])
write-appends_example = write-appends small (4 ∷ 5 ∷ 6 ∷ []) small-IsValid (omega arith)

read_uint32-be32_example :
    (b : Buffer) × (read_uint32 numbered ≡ some (b, 258)) × IsValid b × (unread b ≡ 9 ∷ [])
read_uint32-be32_example = read_uint32-be32 numbered 258 (9 ∷ []) (omega arith) (omega arith) refl
