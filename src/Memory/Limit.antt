-- ===== src/Memory/Limit.antt =====
-- What the limit of pulsar-client-go/pulsar/internal/memory_limit_controller.go promises.
use pr.Base.{
  All, Bool, Bool-cases, List, [], arith, false, inl, inr, not, slt64, some, subst, true, ℕ, ◌&&◌,
  ◌+◌, ◌<◌, ◌^◌, ◌∷◌, ◌≡◌, ◌≤◌, ◌⊎◌,
}
use pr.Memory.{
  force_reserve_memory, MemoryLimitController, is_memory_limited, again, returns, check_trigger,
  attempt, try_reserve_memory, release_memory, reserve_loop, reserve_memory,
}

module _ (reached under : ℕ → Bool) where
  -- Usage exceeds the limit by one request, and by what was reserved without regard to it.
  pub record IsBounded (largest limit forced : ℕ) (m : MemoryLimitController) : Type 0 where
    pub same_limit : m.limit ≡ limit
    pub used : m.current_usage ≤ limit + largest + forced

  -- Threads interleaved at their atomic operations: an attempt with any value that was loaded
  -- before, of at most `largest` bytes, a release of at most what is in use, or a reservation by
  -- force, whose bytes are the first index.
  pub data Step (largest : ℕ) : ℕ → MemoryLimitController → MemoryLimitController → Type 0 where
    tries :
        (m m' : MemoryLimitController) (loaded size : ℕ) (done : Bool)
        → size ≤ largest
        → attempt reached under m loaded size ≡ returns m' done
        → Step largest 0 m m'
    releases :
        (m : MemoryLimitController) (size : ℕ)
        → size ≤ m.current_usage
        → Step largest 0 m (release_memory m size).0
    forces :
        (m : MemoryLimitController) (size : ℕ)
        → Step largest size m (force_reserve_memory reached under m size)

  -- The index is the sum of what was forced.
  pub data Reach (largest : ℕ) (m : MemoryLimitController)
      : ℕ → MemoryLimitController → Type 0 where
    here : Reach largest m 0 m
    next :
        {forced size : ℕ} {a b : MemoryLimitController}
        → Reach largest m forced a
        → Step largest size a b
        → Reach largest m (forced + size) b

  attempt-IsBounded :
      (largest limit forced : ℕ) (m : MemoryLimitController) (loaded size : ℕ)
      → 0 < limit
      → limit + largest + forced < 2 ^ 62
      → size ≤ largest
      → IsBounded largest limit forced m
      → (m' : MemoryLimitController) (done : Bool)
      → attempt reached under m loaded size ≡ returns m' done
      → IsBounded largest limit forced m'
  unfolding attempt check_trigger
  attempt-IsBounded largest limit forced m loaded size p f l v m' done e = ground arith

  release-IsBounded :
      (largest limit forced : ℕ) (m : MemoryLimitController) (size : ℕ)
      → limit + largest + forced < 2 ^ 62
      → size ≤ m.current_usage
      → IsBounded largest limit forced m
      → IsBounded largest limit forced (release_memory m size).0
  unfolding release_memory
  release-IsBounded largest limit forced m size f l v = ground arith

  force-IsBounded :
      (largest limit forced : ℕ) (m : MemoryLimitController) (size : ℕ)
      → limit + largest + (forced + size) < 2 ^ 62
      → IsBounded largest limit forced m
      → IsBounded largest limit (forced + size) (force_reserve_memory reached under m size)
  unfolding force_reserve_memory check_trigger
  force-IsBounded largest limit forced m size f v = ground arith

  module _ (largest limit : ℕ) (p : 0 < limit) where
    Step-IsBounded :
        {forced size : ℕ} {m n : MemoryLimitController}
        → limit + largest + (forced + size) < 2 ^ 62
        → Step largest size m n
        → IsBounded largest limit forced m
        → IsBounded largest limit (forced + size) n
    Step-IsBounded {forced} f (tries m m' loaded size done l e) v =
        subst (λ k. IsBounded largest limit k m') (omega arith)
          (attempt-IsBounded largest limit forced m loaded size p (omega arith) l v m' done e)
    Step-IsBounded {forced} f (releases m size l) v =
        subst (λ k. IsBounded largest limit k (release_memory m size).0) (omega arith)
          (release-IsBounded largest limit forced m size (omega arith) l v)
    Step-IsBounded {forced} f (forces m size) v = force-IsBounded largest limit forced m size f v

    -- With a positive limit, from a usage of at most the limit and one reservation of `largest` bytes,
    -- in any interleaving of reservations of at most `largest` bytes each,
    -- releases of at most what is in use, and reservations by force, of `forced` bytes together: the
    -- usage is at most the limit, one reservation and the forced bytes together, if these are below
    -- 2 ^ 62.
    pub Reach-IsBounded :
        {m n : MemoryLimitController} {forced : ℕ}
        → limit + largest + forced < 2 ^ 62
        → IsBounded largest limit 0 m
        → Reach largest m forced n
        → IsBounded largest limit forced n
    Reach-IsBounded f v here = v
    Reach-IsBounded f v (next {forced} {size} r s) =
        Step-IsBounded f s (Reach-IsBounded (omega arith) v r)

  -- An attempt whose load is out of date goes round again or is refused because of the usage that it
  -- loaded; else it does what one without interference does.
  pub attempt-linear :
      (m : MemoryLimitController) (loaded size : ℕ)
      → (attempt reached under m loaded size ≡ again)
        ⊎ ((attempt reached under m loaded size ≡ returns m false)
            × (is_memory_limited m ≡ true)
            × (slt64 m.limit loaded ≡ true))
        ⊎ (attempt reached under m loaded size
            ≡ returns
                (try_reserve_memory reached under m size).0
                (try_reserve_memory reached under m size).1)
  unfolding attempt try_reserve_memory
  attempt-linear m loaded size = ground arith

  -- With a positive limit, limit and usage below 2 ^ 62, and no more released than is in use: a release
  -- wakes the waiting reservations exactly when it takes the usage from over the limit to at most the
  -- limit, that is, when a reservation that was refused will now be granted.
  pub release_memory-wakes :
      (m : MemoryLimitController) (size want : ℕ)
      → 0 < m.limit
      → m.limit < 2 ^ 62
      → m.current_usage < 2 ^ 62
      → size ≤ m.current_usage
      → (release_memory m size).1 ≡ (
          not (try_reserve_memory reached under m want).1
          && (try_reserve_memory reached under (release_memory m size).0 want).1)
  unfolding release_memory try_reserve_memory
  release_memory-wakes m size want p l u s = ground arith

  loop-never_refuses :
      (m : MemoryLimitController) (size : ℕ) (es : List (MemoryLimitController × Bool))
      → All (λ e. e.1 ≡ true) es
      → (r : MemoryLimitController × Bool) → reserve_loop reached under m size es ≡ some r
      → r.1 ≡ true
  unfolding reserve_loop
  loop-never_refuses m size [] w r e =
      elim (Bool-cases (try_reserve_memory reached under m size).1) [
        | inl yes_now ↦ ground (arith, yes_now)
        | inr no_now ↦ ground (arith, no_now)
      ]
  loop-never_refuses m size ((later, woken) ∷ es) w r e =
      ground (arith, loop-never_refuses later size es w.1 r)

  -- `ReserveMemory` reports failure only if its context ended: when every wait ended by being woken,
  -- it has reserved the memory or still waits.
  pub reserve_memory-never_refuses :
      (m locked : MemoryLimitController) (size : ℕ) (es : List (MemoryLimitController × Bool))
      → All (λ e. e.1 ≡ true) es
      → (r : MemoryLimitController × Bool) → reserve_memory reached under m locked size es ≡ some r
      → r.1 ≡ true
  unfolding reserve_memory
  reserve_memory-never_refuses m locked size es w r e =
      ground (arith, loop-never_refuses locked size es w r)
