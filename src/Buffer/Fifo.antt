-- ===== src/Buffer/Fifo.antt =====
-- The buffer of pulsar-client-go/pulsar/internal/buffer.go is a queue of bytes.
use pr.Base.{
  Bool-cases, add32, ap, arith, drop, if◌then◌else◌, inl, inr, length, length-drop,
  length-replicate, length-take, ltb, refl, replicate, some, take, ℕ, ◌%◌, ◌*◌, ◌++◌, ◌+◌, ◌-◌, ◌/◌,
  ◌<◌, ◌^◌, ◌∙◌, ◌≡◌, ◌≤◌,
}
use pr.Buffer.{
  Bytes, Buffer, overlay, copy_at, read, resize, resize_if_needed, write, readable_bytes,
  writable_bytes,
}
use pr.Buffer.Window.{
  window, length-overlay, length-copy_at, take-overlay, window-copy_at, length-window, window-split,
}

-- The indices are in order and within the array, whose length is a uint32.
pub record IsValid (b : Buffer) : Type 0 where
  pub in_order : b.reader_idx ≤ b.writer_idx
  pub within : b.writer_idx ≤ length b.contents
  pub fits : length b.contents < 2 ^ 32

-- The bytes that are written and not yet read.
abbrev pub unread : Buffer → Bytes
unread b = window b.contents b.reader_idx b.writer_idx

pub length-unread : (b : Buffer) → IsValid b → length (unread b) ≡ b.writer_idx - b.reader_idx
length-unread b v = length-window b.contents b.reader_idx b.writer_idx v.in_order v.within

read-all :
    (b : Buffer)
    → IsValid b
    → read b (readable_bytes b) ≡ some (record b { reader_idx = b.writer_idx }, some (unread b))
unfolding read
read-all b v =
    let e : add32 b.reader_idx (readable_bytes b) ≡ b.writer_idx = omega arith in ground (arith, e)

-- The buffer that `Resize` makes.
abbrev pub resized : Buffer → ℕ → Buffer
resized b n = record {
  contents = overlay (replicate n 0) (unread b);
  reader_idx = 0;
  writer_idx = b.writer_idx - b.reader_idx;
}

pub resize-eq : (b : Buffer) (n : ℕ) → IsValid b → resize b n ≡ some (resized b n)
unfolding resize
resize-eq b n v =
    let e : readable_bytes b ≡ b.writer_idx - b.reader_idx = omega arith in
    ground (arith, read-all b v, e)

resized-IsValid :
    (b : Buffer) (n : ℕ)
    → IsValid b
    → b.writer_idx - b.reader_idx ≤ n
    → n < 2 ^ 32
    → IsValid (resized b n)
resized-IsValid b n v h l =
    omega (arith, length-overlay (replicate n 0) (unread b), length-replicate {A = ℕ} n 0)

unread-resized :
    (b : Buffer) (n : ℕ)
    → IsValid b
    → b.writer_idx - b.reader_idx ≤ n
    → unread (resized b n) ≡ unread b
unread-resized b n v h =
    let e : b.writer_idx - b.reader_idx - 0 ≡ length (unread b) =
      omega (arith, length-unread b v) in
    rw e (
      take-overlay (replicate n 0) (unread b)
        (omega (arith, length-unread b v, length-replicate {A = ℕ} n 0)))

-- What making room leaves: the same unread bytes, and `n` places after them.
pub record HasRoom (b : Buffer) (n : ℕ) (b' : Buffer) : Type 0 where
  pub valid : IsValid b'
  pub same : unread b' ≡ unread b
  pub room : b'.writer_idx + n ≤ length b'.contents

resized-HasRoom :
    (b : Buffer) (n k : ℕ)
    → IsValid b
    → b.writer_idx - b.reader_idx + n ≤ k
    → k < 2 ^ 32
    → HasRoom b n (resized b k)
resized-HasRoom b n k v h l = record {
  valid = resized-IsValid b k v (omega arith) l;
  same = unread-resized b k v (omega arith);
  room = omega (arith, length-overlay (replicate k 0) (unread b), length-replicate {A = ℕ} k 0);
}

-- The size that `ResizeIfNeeded` asks for.
abbrev new_size : Buffer → ℕ → ℕ
new_size b n =
    let needed = add32 (length b.contents % 2 ^ 32) n in
    let least = (length b.contents * 3 / 2) % 2 ^ 32 in if ltb needed least then least else needed

new_size_enough :
    (b : Buffer) (n : ℕ)
    → 2 * length b.contents + n < 2 ^ 31
    → (length b.contents + n ≤ new_size b n) × (new_size b n < 2 ^ 32)
new_size_enough b n s = ground arith

pub resize_if_needed-HasRoom :
    (b : Buffer) (n : ℕ)
    → IsValid b
    → 2 * length b.contents + n < 2 ^ 31
    → (b' : Buffer) × (resize_if_needed b n ≡ some b') × HasRoom b n b'
unfolding resize_if_needed
resize_if_needed-HasRoom b n v s = elim (Bool-cases (ltb (writable_bytes b) n)) [
  | inl full ↦ (
    resized b (new_size b n),
    rw full (resize-eq b (new_size b n) v),
    resized-HasRoom b n (new_size b n) v (omega (arith, v.within, new_size_enough b n s))
        (new_size_enough b n s).1,
  )
  | inr room ↦ (b, rw room, record { valid = v; same = refl; room = ground arith })
]

-- What a copy past the unread bytes leaves.
abbrev pub put_result : Buffer → Bytes → Buffer
put_result b s = record b {
  contents = copy_at b.contents b.writer_idx s;
  writer_idx = add32 b.writer_idx (length s);
}

pub put_result-IsValid :
    (b : Buffer) (s : Bytes)
    → IsValid b
    → b.writer_idx + length s ≤ length b.contents
    → IsValid (put_result b s)
put_result-IsValid b s v h = omega (arith, length-copy_at b.contents b.writer_idx s)

pub unread-put :
    (b : Buffer) (s : Bytes)
    → IsValid b
    → b.writer_idx + length s ≤ length b.contents
    → unread (put_result b s) ≡ unread b ++ s
unread-put b s v h =
    let e : add32 b.writer_idx (length s) ≡ b.writer_idx + length s = omega arith in
    rw e (window-copy_at b.contents b.reader_idx b.writer_idx s v.in_order h)

-- `Write` of any bytes within the limits succeeds, growing the array if it has to, and appends
-- exactly those bytes to the unread ones.
pub write-appends :
    (b : Buffer) (s : Bytes)
    → IsValid b
    → 2 * length b.contents + length s < 2 ^ 31
    → (b' : Buffer) × (write b s ≡ some b') × IsValid b' × (unread b' ≡ unread b ++ s)
unfolding write
write-appends b s v l =
    let (b', e, h) = resize_if_needed-HasRoom b (length s % 2 ^ 32) v (omega arith) in
    let m : length s % 2 ^ 32 ≡ length s = omega arith in
    (
      put_result b' s,
      ground (arith, e, h.valid.within),
      put_result-IsValid b' s h.valid (omega (arith, h.room)),
      unread-put b' s h.valid (omega (arith, h.room)) ∙ ap (λ u. u ++ s) h.same,
    )

-- `Read` of no more than the unread bytes gives the first of them, and leaves the rest unread.
pub read-takes :
    (b : Buffer) (n : ℕ)
    → IsValid b
    → n ≤ length (unread b)
    → (b' : Buffer) × (s : Bytes) × (read b n ≡ some (b', some s))
      × (unread b ≡ s ++ unread b')
      × (length s ≡ n)
      × IsValid b'
read-takes b n v l =
    let u = length-unread b v in
    let e : add32 b.reader_idx n ≡ b.reader_idx + n = omega (arith, v.in_order, v.within, v.fits) in
    let e' : b.reader_idx + n - b.reader_idx ≡ n = omega arith in
    (
      record b { reader_idx = b.reader_idx + n },
      take n (drop b.reader_idx b.contents),
      unfold read in ground (arith, e, e', ap (λ k. take k (drop b.reader_idx b.contents)) e'),
      window-split b.contents b.reader_idx n b.writer_idx (omega (arith, v.in_order)),
      omega (
        arith,
        length-take n (drop b.reader_idx b.contents),
        length-drop b.reader_idx b.contents,
        v.in_order,
        v.within,
      ),
      omega (arith, v.in_order),
    )
