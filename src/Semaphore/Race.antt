-- ===== src/Semaphore/Race.antt =====
-- A waiter that gives up while a release is handing it the permit, in
-- pulsar-client-go/pulsar/internal/semaphore.go.
use pr.Base.{arith, subst, suc, zero, ℕ, ◌+◌, ◌<◌, ◌^◌, ◌≡◌, ◌≤◌}
use pr.Semaphore.{Semaphore, acquire, receive, give_up, release}
use pr.Semaphore.Steps.{acquires, releases, receives, gives_up, Reach, here, next}

abbrev pub fresh : ℕ → Semaphore
fresh m = record { max_permits = m; permits = 0; waiters = 0; senders = 0; holders = 0 }

-- With `n` permits held, nobody waiting.
abbrev held : ℕ → ℕ → Semaphore
held m n = record { max_permits = m; permits = n; waiters = 0; senders = 0; holders = n }

acquire-held : (m n : ℕ) → n < m → m + 2 < 2 ^ 31 → acquire (held m n) ≡ held m (suc n)
unfolding acquire
acquire-held m n h b = ground arith

Reach-held : (m n : ℕ) → n ≤ m → m + 2 < 2 ^ 31 → Reach 0 (fresh m) (held m n)
Reach-held m zero h b = here
Reach-held m (suc n) h b =
    subst (Reach 0 (fresh m)) (acquire-held m n h b)
      (next (Reach-held m n (omega arith) b) (acquires (held m n) (omega arith)))

-- One more acquire waits; a release starts to send; the waiter gives up; two acquires follow, and
-- the send that was left over meets the second.
abbrev race : Semaphore → Semaphore
race s = receive (acquire (acquire (give_up (release (acquire s)))))

race-Reach : (m : ℕ) → 0 < m → m + 2 < 2 ^ 31 → Reach 0 (held m m) (race (held m m))
unfolding acquire release give_up
race-Reach m h b =
    let start = held m m in
    let waited = acquire start in
    let released = release waited in
    let given_up = give_up released in
    next
      (next
        (next
          (next (next (next here (acquires start (omega arith))) (releases waited (ground arith)))
            (gives_up released (ground arith) (ground arith)))
          (acquires given_up (ground arith)))
        (acquires (acquire given_up) (ground arith)))
      (receives (acquire (acquire given_up)) (ground arith) (ground arith))

race-holders : (m : ℕ) → 0 < m → m + 2 < 2 ^ 31 → (race (held m m)).holders ≡ m + 1
unfolding acquire receive give_up release
race-holders m h b = ground arith

Reach-trans : {k : ℕ} {s t u : Semaphore} → Reach k s t → Reach k t u → Reach k s u
Reach-trans r here = r
Reach-trans r (next q st) = next (Reach-trans r q) st

-- Without that restriction every semaphore, of a maximum below 2 ^ 31 - 2, can be made to have one holder more than its maximum: a
-- waiter gives up after a release has counted it, and the release's send stays behind.
pub Reach-over_admits :
    (m : ℕ) → 0 < m → m + 2 < 2 ^ 31 → (s : Semaphore) × Reach 0 (fresh m) s × (s.holders ≡ m + 1)
Reach-over_admits m h b = (
  race (held m m),
  Reach-trans (Reach-held m m (omega arith) b) (race-Reach m h b),
  race-holders m h b,
)
