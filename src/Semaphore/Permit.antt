-- ===== src/Semaphore/Permit.antt =====
-- `SemaphorePermitWaiter` and `SemaphorePermit` of src/semaphore.rs: drops, `forget`, `split` and
-- `merge`. The loop of `activate_waiters` gets as much fuel as there are entries.
use async_priority_lock_rs.Base.{
  ℕ, ◌+◌, ◌-◌, ◌%◌, ◌^◌, Bool, true, false, not, ◌&&◌, ◌||◌, Option, some, if◌then◌else◌, ltb, leb,
  length, is_none, is_none_or, ◌>>=◌,
}
use async_priority_lock_rs.Priority.{Priority}
use async_priority_lock_rs.Waiter
use async_priority_lock_rs.Queue.{PriorityQueue, iter}
use async_priority_lock_rs.Semaphore.{
  Features, SemaphoreWaiter, semaphore_priority, count_of, usize_max, max_permits,
}
use async_priority_lock_rs.Semaphore.Inner.{
  SemaphoreInner, activate_waiters, notify_oversized_waiters,
}
use async_priority_lock_rs.Semaphore.Acquire.{InsufficientPermitsError}

-- `a + b` on `usize`.
abbrev pub wrapping_add : ℕ → ℕ → ℕ
wrapping_add a b = (a + b) % 2 ^ 64

-- `a - b` on `usize`.
abbrev pub wrapping_sub : ℕ → ℕ → ℕ
wrapping_sub a b = (a + (2 ^ 64 - b)) % 2 ^ 64

module _ {P : Type 0} (features : Features) (p : Priority P)
    (Q : PriorityQueue (semaphore_priority features p)) where
  open Q use {Queue, enqueue, dequeue, get_by_handle, update_node}

  abbrev Inner : Type 0
  Inner = SemaphoreInner features p Q

  unfoldable pub activate : Inner → Option ℕ → Option Inner
  unfolding activate_waiters iter
  activate sem next = do xs ← iter Q sem.queue; activate_waiters features p Q (length xs) sem next

  -- What `SemaphorePermitWaiter::drop` does once the entry is out of the queue.
  unfoldable pub after_dequeue : Inner → Bool → Option (SemaphoreWaiter P) → Option ℕ → Option Inner
  unfolding activate
  after_dequeue sem is_active prev next =
      if is_none next || not (is_active || ltb 0 sem.available)
      then some sem
      else (if is_active || is_none_or prev (λ x. x.waiter.has_lock)
          then activate sem next
          else some sem)

  -- `SemaphorePermitWaiter::drop`.
  unfoldable pub drop_waiter : Inner → ℕ → Option Inner
  unfolding after_dequeue
  drop_waiter sem handle = do
    node ← get_by_handle sem.queue handle
    r ← dequeue sem.queue handle
    after_dequeue
        (record sem {
          queue = r.0;
          available =
              if node.waiter.has_lock
              then wrapping_add sem.available (count_of features node)
              else sem.available;
        })
        node.waiter.has_lock r.1 r.2

  pub data Dropped : Type 0 where
    done : Inner → Dropped
    panicked : Inner → Dropped

  -- `SemaphorePermit::drop`. The panic leaves the entry dequeued and its permits lost.
  unfoldable pub drop_permit : Inner → ℕ → Option Dropped
  unfolding activate
  drop_permit sem handle = do
    node ← get_by_handle sem.queue handle
    r ← dequeue sem.queue handle
    if features.semaphore_total || leb (sem.available + count_of features node) usize_max
        then (activate
              (record sem {
                queue = r.0;
                available = wrapping_add sem.available (count_of features node);
              })
              r.2
            >>= λ sem'. some (done sem'))
        else some (panicked (record sem { queue = r.0 }))

  -- `SemaphorePermit::forget`.
  unfoldable pub forget : Inner → ℕ → Option Inner
  unfolding notify_oversized_waiters
  forget sem handle = do
    node ← get_by_handle sem.queue handle
    r ← dequeue sem.queue handle
    let sem' = record sem {
      queue = r.0;
      total =
          if features.semaphore_total
          then wrapping_sub sem.total (count_of features node)
          else sem.total;
    }
    if features.semaphore_total && not (is_none r.2)
        then notify_oversized_waiters features p Q sem' r.2
        else some sem'

  -- `SemaphorePermit::permits`.
  unfoldable pub permits : Inner → ℕ → Option ℕ
  permits sem handle = do node ← get_by_handle sem.queue handle; some (count_of features node)

  pub data Split : Type 0 where
    split_off : Inner → ℕ → Split
    insufficient : Inner → InsufficientPermitsError → Split
    panics : Split

  unfoldable pub take_from : ℕ → SemaphoreWaiter P → SemaphoreWaiter P × Bool
  take_from count node = (
    if ltb count (count_of features node) then record node { count = node.count - count } else node,
    false,
  )

  unfoldable pub split_node : Inner → ℕ → ℕ → (SemaphoreWaiter P → P) → Option Split
  unfolding take_from Waiter.new
  split_node sem handle count priority = do
    node ← get_by_handle sem.queue handle
    q ← update_node sem.queue handle (take_from count)
    let (q', handle') =
        enqueue q (record { priority = priority node; waiter = Waiter.new true; count = count })
    if ltb count (count_of features node)
        then some (split_off (record sem { queue = q' }) handle')
        else some (
            insufficient (record sem { queue = q })
              (record { total = count_of features node; requested = count }))

  -- `split_with_priority`, and `split`, which clones the priority.
  unfoldable pub split_with_priority : Inner → ℕ → ℕ → P → Option Split
  unfolding split_node
  split_with_priority sem handle count priority =
      if ltb 0 count then split_node sem handle count (λ _. priority) else some panics

  unfoldable pub split : Inner → ℕ → ℕ → Option Split
  unfolding split_node
  split sem handle count =
      if ltb 0 count then split_node sem handle count (λ node. node.priority) else some panics

  pub data Merge : Type 0 where
    merged : Inner → Merge
    refused : Inner → Merge
    -- The drop of the other permit panics.
    merge_panics : Inner → Merge

  abbrev pub refused_after : Dropped → Merge
  refused_after (done sem) = refused sem
  refused_after (panicked sem) = merge_panics sem

  unfoldable pub add_to : ℕ → SemaphoreWaiter P → SemaphoreWaiter P × Bool
  add_to other_count node = (
    if ltb max_permits (wrapping_add (count_of features node) other_count)
        then node
        else record node { count = wrapping_add node.count other_count },
    false,
  )

  -- `merge` of a permit of the same semaphore. On refusal `other` is dropped.
  unfoldable pub merge : Inner → (handle other : ℕ) → Option Merge
  unfolding add_to drop_permit
  merge sem handle other = do
    other_node ← get_by_handle sem.queue other
    node ← get_by_handle sem.queue handle
    q ← update_node sem.queue handle (add_to (count_of features other_node))
    let over =
        ltb max_permits (wrapping_add (count_of features node) (count_of features other_node))
    if over
        then (drop_permit (record sem { queue = q }) other >>= λ d. some (refused_after d))
        else (dequeue q other >>= λ r. some (merged (record sem { queue = r.0 })))
