-- ===== src/Producer/Counting.antt =====
-- The counters of cmd/producer/main.go at the end.
use native.Mathlib.Nat.{mul-le-mul_left, div-le_self}
use pr.Base.{
  Option, [], add64, ap, arith, inl, inr, length, refl, some, suc, sym, zero, ℕ, ◌%◌, ◌*◌, ◌+◌, ◌/◌,
  ◌<◌, ◌^◌, ◌∙◌, ◌∷◌, ◌≡◌, ◌≤◌, ◌⊎◌,
}
use pr.Producer.{
  Bytes, Options, Counters, Round, delivered, failed, interrupted, done, sends, messages_per_worker,
  make_payload, count_sent, count_error, work, work_all, produce,
}

-- The bytes are those of the messages that were sent, and no more than so many were tried.
pub record IsCounted (o : Options) (most : ℕ) (c : Counters) : Type 0 where
  pub bytes : c.sent_bytes ≡ o.message_size * c.sent_count % 2 ^ 64
  pub tried : c.sent_count + c.error_count ≤ most

make_payload-returns :
    (t : Bytes) (w j : ℕ) → 3 ≤ length t → (p : Bytes) × (make_payload t w j ≡ some p)
unfolding make_payload
make_payload-returns [] w j l = absurd (omega arith)
make_payload-returns (a ∷ []) w j l = absurd (omega arith)
make_payload-returns (a ∷ b ∷ []) w j l = absurd (omega arith)
make_payload-returns (a ∷ b ∷ c ∷ t) w j l = ((w % 256) ∷ (j % 256) ∷ (j / 256 % 256) ∷ t, refl)

add_size : (m b x : ℕ) → b ≡ m * x % 2 ^ 64 → (b + m) % 2 ^ 64 ≡ m * (x + 1) % 2 ^ 64
add_size m b x h = omega arith

count_sent-IsCounted :
    (o : Options) (t : Bytes) (most : ℕ) (c : Counters)
    → most < 2 ^ 63
    → IsCounted o most c
    → IsCounted o (most + 1) (count_sent o t c)
count_sent-IsCounted o t most c l h =
    let e : add64 c.sent_count 1 ≡ c.sent_count + 1 = omega (arith, h.tried) in
    record {
      bytes =
          add_size o.message_size c.sent_bytes c.sent_count h.bytes
          ∙ ap (λ x. o.message_size * x % 2 ^ 64) (sym e);
      tried = omega (arith, e, h.tried);
    }

count_error-IsCounted :
    (o : Options) (t : Bytes) (most : ℕ) (c : Counters)
    → most < 2 ^ 63
    → IsCounted o most c
    → IsCounted o (most + 1) (count_error o t c)
count_error-IsCounted o t most c l h = record { bytes = h.bytes; tried = omega (arith, h.tried) }

IsCounted-mono :
    (o : Options) (most more : ℕ) (c : Counters)
    → IsCounted o most c
    → most ≤ more
    → IsCounted o more c
IsCounted-mono o most more c h l = record { bytes = h.bytes; tried = omega (arith, h.tried) }

round_cases :
    (r : Round) → (r ≡ done) ⊎ (r ≡ sends delivered) ⊎ (r ≡ sends failed) ⊎ (r ≡ sends interrupted)
round_cases done = inl refl
round_cases (sends delivered) = inr (inl refl)
round_cases (sends failed) = inr (inr (inl refl))
round_cases (sends interrupted) = inr (inr (inr refl))

abbrev Counts : Options → ℕ → Option Counters → Type 0
Counts o most x = (c : Counters) × (x ≡ some c) × IsCounted o most c

work-Counts :
    (o : Options) (t : Bytes) (w : ℕ) (rounds : ℕ → Round) (left j most : ℕ) (c : Counters)
    → 3 ≤ length t
    → most + left < 2 ^ 63
    → IsCounted o most c
    → Counts o (most + left) (work o t w rounds left j c)
unfolding work
work-Counts o t w rounds zero j most c l s h =
    (c, refl, IsCounted-mono o most (most + 0) c h (omega arith))
work-Counts o t w rounds (suc left) j most c l s h =
    let (p, e) = make_payload-returns t w j l in
    let stay = IsCounted-mono o most (most + suc left) c h (omega arith) in
    let (c1, e1, h1) =
      work-Counts o t w rounds left (j + 1) (most + 1) (count_sent o t c) l (omega arith)
        (count_sent-IsCounted o t most c (omega arith) h) in
    let (c2, e2, h2) =
      work-Counts o t w rounds left (j + 1) (most + 1) (count_error o t c) l (omega arith)
        (count_error-IsCounted o t most c (omega arith) h) in
    let next : most + 1 + left ≤ most + suc left = omega arith in
    elim (round_cases (rounds j)) [
      | inl d ↦ (c, ground (arith, d), stay)
      | inr (inl d) ↦ (
        c1,
        ground (arith, d, e, e1),
        IsCounted-mono o (most + 1 + left) (most + suc left) c1 h1 next,
      )
      | inr (inr (inl d)) ↦ (
        c2,
        ground (arith, d, e, e2),
        IsCounted-mono o (most + 1 + left) (most + suc left) c2 h2 next,
      )
      | inr (inr (inr d)) ↦ (c, ground (arith, d, e), stay)
    ]

div_mul_le : (x k : ℕ) → x / k * k ≤ x
div_mul_le x k = omega arith

work_all-Counts :
    (o : Options) (t : Bytes) (rounds : ℕ → ℕ → Round) (messages n : ℕ) (c : Counters)
    → 3 ≤ length t
    → messages * n < 2 ^ 63
    → IsCounted o 0 c
    → Counts o (messages * n) (work_all o t rounds messages n c)
unfolding work_all
work_all-Counts o t rounds messages zero c l s h =
    (c, refl, IsCounted-mono o 0 (messages * 0) c h (omega arith))
work_all-Counts o t rounds messages (suc n) c l s h =
    let step : messages * n + messages ≡ messages * suc n = omega arith in
    let (c1, e1, h1) = work_all-Counts o t rounds messages n c l (omega (arith, step, s)) h in
    let (c2, e2, h2) =
      work-Counts o t n (rounds n) messages 0 (messages * n) c1 l (omega (arith, step, s)) h1 in
    (
      c2,
      ground (arith, e1, e2),
      IsCounted-mono o (messages * n + messages) (messages * suc n) c2 h2 (omega (arith, step)),
    )

total_le : (size total x : ℕ) → x ≤ total / size → size * x ≤ total
total_le size total x h = omega (arith, div_mul_le total size, mul-le-mul_left size h)

-- Whatever each `Send` comes to and wherever the context ends, a producer with at least one worker,
-- a template of the message size, that of three bytes or more, and a total below 2 ^ 63 ends without
-- panic; it has then counted the bytes of the messages that it counted,
-- these are at most the total, and the messages and errors are at most the total in messages.
pub produce-counts :
    (o : Options) (t : Bytes) (rounds : ℕ → ℕ → Round)
    → length t ≡ o.message_size
    → 3 ≤ o.message_size
    → 0 < o.concurrency
    → o.total_size < 2 ^ 63
    → (c : Counters) × (produce o t rounds ≡ some c)
      × (c.sent_bytes ≡ o.message_size * c.sent_count)
      × (c.sent_bytes ≤ o.total_size)
      × (c.sent_count + c.error_count ≤ o.total_size / o.message_size)
unfolding produce messages_per_worker
produce-counts o t rounds k l p s =
    let most = o.total_size / o.message_size in
    let all : most / o.concurrency * o.concurrency ≤ most = div_mul_le most o.concurrency in
    let less : most ≤ o.total_size = div-le_self o.total_size o.message_size in
    let (c, e, h) =
      work_all-Counts o t rounds (most / o.concurrency) o.concurrency
        (record { sent_bytes = 0; sent_count = 0; error_count = 0 }) (omega (arith, k))
        (omega (arith, all, less)) (record { bytes = omega arith; tried = omega arith }) in
    let within : o.message_size * c.sent_count ≤ o.total_size =
      total_le o.message_size o.total_size c.sent_count (omega (arith, h.tried, all)) in
    let exact : c.sent_bytes ≡ o.message_size * c.sent_count = omega (arith, h.bytes, within) in
    (c, ground (arith, e), exact, omega (arith, exact, within), omega (arith, h.tried, all))
