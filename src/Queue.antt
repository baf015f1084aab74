-- ===== src/Queue.antt =====
-- pulsar-client-go/pulsar/internal/blocking_queue.go: a bounded queue in a ring of slots. The mutex
-- makes each method one step. A slot, and an item, is `none` where it is nil.
pub mod Slots
pub mod Refine
pub mod Simulation
mod Tests
use pr.Base.{
  Bool, List, Option, [], compare, false, get_or, if◌then◌else◌, leb, length, none, replicate, set,
  some, suc, true, zero, ℕ, ◌%◌, ◌+◌, ◌-◌, ◌==◌, ◌∷◌,
}

-- The conditions `isNotEmpty` and `isNotFull` are in the results of the methods: a method that has to
-- wait gives `none`, and it is called again when it is woken; a last Boolean is whether the method
-- signals the condition, `isNotEmpty` for one that puts and `isNotFull` for one that takes.
pub record BlockingQueue (A : Type 0) : Type 0 where
  pub items : List (Option A)
  pub head_idx : ℕ
  pub tail_idx : ℕ
  pub size : ℕ
  pub max_size : ℕ

abbrev pub new_blocking_queue : (A : Type 0) → ℕ → BlockingQueue A
new_blocking_queue A max_size = record {
  items = replicate max_size none;
  head_idx = 0;
  tail_idx = 0;
  size = 0;
  max_size = max_size;
}

module _ {A : Type 0} where
  -- The last component: whether a reader is signalled.
  unfoldable pub put_unsafe : BlockingQueue A → Option A → Option (BlockingQueue A × Bool)
  put_unsafe q item =
      let tail = q.tail_idx + 1 in
      if q.size == q.max_size
      then none
      else some (
        record q {
          items = set q.items q.tail_idx item;
          size = q.size + 1;
          tail_idx = if leb q.max_size tail then 0 else tail;
        },
        q.size == 0,
      )

  abbrev pub head_item : BlockingQueue A → Option A
  head_item q = get_or q.items q.head_idx none

  -- A writer is signalled whenever an item is taken.
  unfoldable pub dequeue : BlockingQueue A → BlockingQueue A × Option A × Bool
  dequeue q =
      let head = q.head_idx + 1 in
      (
        record q {
          items = set q.items q.head_idx none;
          head_idx = if head == length q.items then 0 else head;
          size = q.size - 1;
        },
        head_item q,
        true,
      )

  -- `none`: the reader waits.
  unfoldable pub take_item : BlockingQueue A → Option (BlockingQueue A × Option A × Bool)
  unfolding dequeue
  take_item q = if q.size == 0 then none else some (dequeue q)

  unfoldable pub poll : BlockingQueue A → BlockingQueue A × Option A × Bool
  unfolding dequeue
  poll q = if q.size == 0 then (q, none, false) else dequeue q

  unfoldable pub compare_and_poll :
      BlockingQueue A → (Option A → Bool) → BlockingQueue A × Option A × Bool
  unfolding dequeue
  compare_and_poll q compare =
      if q.size == 0
      then (q, none, false)
      else if compare (head_item q)
      then dequeue q
      else (q, none, false)

  unfoldable pub peek : BlockingQueue A → Option A
  peek q = if q.size == 0 then none else head_item q

  unfoldable pub peek_last : BlockingQueue A → Option A
  peek_last q =
      if q.size == 0 then none else get_or q.items ((q.head_idx + q.size - 1) % q.max_size) none

  -- The loop of `ReadableSlice` and `IterateUnsafe`, by the rounds left.
  unfoldable pub read_from : List (Option A) → ℕ → ℕ → ℕ → List (Option A)
  read_from items max_size zero read_idx = []
  read_from items max_size (suc n) read_idx =
      let next = read_idx + 1 in
      get_or items read_idx none ∷ read_from items max_size n (if next == max_size then 0 else next)

  unfoldable pub readable_slice : BlockingQueue A → List (Option A)
  unfolding read_from
  readable_slice q = read_from q.items q.max_size q.size q.head_idx
