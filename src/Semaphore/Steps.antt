-- ===== src/Semaphore/Steps.antt =====
-- Threads that share the semaphore of pulsar-client-go/pulsar/internal/semaphore.go, interleaved at
-- its atomic operations.
use pr.Base.{arith, ℕ, ◌+◌, ◌<◌, ◌^◌, ◌≡◌, ◌≤◌}
use Prim.Native.Nat.{min}
use pr.Semaphore.{Semaphore, acquire, receive, give_up, try_acquire, release}

-- Any thread acquires, or tries to, while fewer than 2 ^ 31 - 1 hold or wait; a holder releases; a send meets a waiter; and the context of a
-- waiter ends, while at least `spare` more threads wait than send.
pub data Step (spare : ℕ) : Semaphore → Semaphore → Type 0 where
  acquires : (s : Semaphore) → s.holders + s.waiters + 1 < 2 ^ 31 → Step spare s (acquire s)
  tries : (s : Semaphore) → s.holders + s.waiters + 1 < 2 ^ 31 → Step spare s (try_acquire s).0
  releases : (s : Semaphore) → 0 < s.holders → Step spare s (release s)
  receives : (s : Semaphore) → 0 < s.waiters → 0 < s.senders → Step spare s (receive s)
  gives_up :
      (s : Semaphore) → 0 < s.waiters → s.senders + spare ≤ s.waiters → Step spare s (give_up s)

pub data Reach (spare : ℕ) (s : Semaphore) : Semaphore → Type 0 where
  here : Reach spare s s
  next : {t u : Semaphore} → Reach spare s t → Step spare t u → Reach spare s u

-- The integer counts holders and waiters, in int32; the permits that are held or on their way are as
-- many as asked for, up to the maximum.
pub record IsFair (s : Semaphore) : Type 0 where
  pub limit : s.max_permits < 2 ^ 31
  pub small : s.permits < 2 ^ 31
  pub counted : s.permits ≡ s.holders + s.waiters
  pub used : s.holders + s.senders ≡ min s.max_permits s.permits

Step-IsFair : {s t : Semaphore} → Step 1 s t → IsFair s → IsFair t
unfolding acquire try_acquire release receive give_up
Step-IsFair (acquires s b) f = ground arith
Step-IsFair (tries s b) f = ground arith
Step-IsFair (releases s h) f = ground arith
Step-IsFair (receives s w n) f = ground arith
Step-IsFair (gives_up s w n) f = ground arith

-- From a semaphore of which this holds, such as a new one: if fewer than 2 ^ 31 threads hold or wait
-- at any time, and no context ends while every waiter has a
-- send on its way, then whatever the threads do: the integer counts holders and waiters, and the permits held or on their way are as many as asked for,
-- up to the maximum. So at most the maximum are held, and nobody waits for a permit that is free.
pub Reach-IsFair : {s t : Semaphore} → IsFair s → Reach 1 s t → IsFair t
Reach-IsFair f here = f
Reach-IsFair f (next r st) = Step-IsFair st (Reach-IsFair f r)

pub holders-le : {s : Semaphore} → IsFair s → s.holders ≤ s.max_permits
holders-le f = omega arith
