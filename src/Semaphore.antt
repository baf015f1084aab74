-- ===== src/Semaphore.antt =====
-- pulsar-client-go/pulsar/internal/semaphore.go: permits counted by an atomic integer, and a channel
-- without a buffer on which a release hands a permit to a waiting acquire.
pub mod Steps
pub mod Race
mod Tests
use pr.Base.{
  Bool, Option, add32, false, if◌then◌else◌, none, not, slt32, some, sub32, true, ℕ, ◌+◌, ◌-◌, ◌==◌,
}

-- `max_permits` and `permits` are int32, the second as a word that wraps. The three counts below it are the threads at the points of the code where
-- they can stand: in the select of `Acquire`, in the send of `Release`, and past an acquire.
pub record Semaphore : Type 0 where
  pub max_permits : ℕ
  pub permits : ℕ
  pub waiters : ℕ
  pub senders : ℕ
  pub holders : ℕ

-- A maximum that is not positive ends the program.
abbrev pub new_semaphore : ℕ → Option Semaphore
new_semaphore n =
    if n == 0
    then none
    else some (record { max_permits = n; permits = 0; waiters = 0; senders = 0; holders = 0 })

-- `Acquire` up to its select, in which it waits if the permits are exceeded.
unfoldable pub acquire : Semaphore → Semaphore
acquire s =
    let permits = add32 s.permits 1 in
    if not (slt32 s.max_permits permits)
    then record s { permits = permits; holders = s.holders + 1 }
    else record s { permits = permits; waiters = s.waiters + 1 }

-- The two cases of the select: a send is received, or the context has ended.
unfoldable pub receive : Semaphore → Semaphore
receive s = record s { waiters = s.waiters - 1; senders = s.senders - 1; holders = s.holders + 1 }

unfoldable pub give_up : Semaphore → Semaphore
give_up s = record s { permits = sub32 s.permits 1; waiters = s.waiters - 1 }

-- `TryAcquire` at the round of its loop in which the integer did not change between load and swap.
unfoldable pub try_acquire : Semaphore → Semaphore × Bool
try_acquire s =
    if not (slt32 s.permits s.max_permits)
    then (s, false)
    else (record s { permits = add32 s.permits 1; holders = s.holders + 1 }, true)

-- `Release` by a holder, up to its send.
unfoldable pub release : Semaphore → Semaphore
release s =
    let permits = sub32 s.permits 1 in
    if not (slt32 permits s.max_permits)
    then record s { permits = permits; holders = s.holders - 1; senders = s.senders + 1 }
    else record s { permits = permits; holders = s.holders - 1 }
