-- ===== src/Semaphore/Acquire.antt =====
-- `do_acquire`, `acquire_many` and `acquire_within_total` of src/semaphore.rs, each up to the point
-- where it returns or awaits, and what the awaiting of it comes to.
use async_priority_lock_rs.Base.{
  ℕ, ◌-◌, Bool, true, false, not, ◌&&◌, Option, none, some, List, [], ◌∷◌, if◌then◌else◌, ltb, leb,
  ◌==◌, is_none_or, ◌>>=◌,
}
use async_priority_lock_rs.Priority.{Priority, is_gt, is_ge}
use async_priority_lock_rs.Waiter
use async_priority_lock_rs.Waiter.{Waiter, Flags, Poll}
use async_priority_lock_rs.Queue.{PriorityQueue, iter}
use async_priority_lock_rs.Semaphore.{
  Features, SemaphoreWaiter, semaphore_priority, on_waiter, clear_bit, set_bit, max_permits,
  usize_max,
}
use async_priority_lock_rs.Semaphore.Inner.{SemaphoreInner}

pub record InsufficientPermitsError : Type 0 where
  pub total : ℕ
  pub requested : ℕ

-- `InsufficientPermitsError::total`.
unfoldable pub error_total : InsufficientPermitsError → Option ℕ
error_total e = if e.total == usize_max then none else some e.total

module _ {P : Type 0} (features : Features) (p : Priority P)
    (Q : PriorityQueue (semaphore_priority features p)) where
  open Q use {Queue, enqueue, for_each, with_ref, get_by_handle}

  abbrev Inner : Type 0
  Inner = SemaphoreInner features p Q

  -- The test of `skip_while`.
  unfoldable pub skips : SemaphoreWaiter P → Bool
  skips x = if x.waiter.has_lock then true else features.semaphore_total && not x.waiter.wants_evict

  -- `x.waiter.evict()` if `x` holds permits and is lower.
  unfoldable pub evict_lower : P → SemaphoreWaiter P → SemaphoreWaiter P
  unfolding Waiter.evict
  evict_lower priority x =
      if features.evict && (x.waiter.has_lock && is_gt (p.compare_to priority x.priority))
      then on_waiter features Waiter.evict x
      else x

  -- `skip_while(..).next()`.
  unfoldable pub first_pending : List (SemaphoreWaiter P) → Option (SemaphoreWaiter P)
  unfolding skips
  first_pending [] = none
  first_pending (x ∷ xs) = if skips x then first_pending xs else some x

  -- The scan of the queue: the queue with the holders that it has evicted, and whether the request
  -- may take its permits now.
  unfoldable pub scan : Queue → P → Option (Queue × Bool)
  unfolding first_pending evict_lower iter
  scan q priority = do
    xs ← iter Q q
    q' ← for_each q none (λ x. (evict_lower priority x, skips x))
    some (q', is_none_or (first_pending xs) (λ x. is_ge (p.compare_to priority x.priority)))

  -- The entry goes into the queue and takes its permits, if it may.
  unfoldable pub enter : Inner → Queue → P → ℕ → Bool → Inner × ℕ
  unfolding Waiter.new
  enter inner q priority count will_acquire =
      let (q', handle) =
        enqueue q
          (record { priority = priority; waiter = Waiter.new will_acquire; count = count }) in
      (
        record inner {
          queue = q';
          available = if will_acquire then inner.available - clear_bit count else inner.available;
        },
        handle,
      )

  -- The holders are asked to give way, where there is not enough available.
  unfoldable pub evict_holders : Inner → P → Option Inner
  unfolding evict_lower
  evict_holders inner priority = do
    q ← for_each inner.queue none (λ x. (evict_lower priority x, true))
    some (record inner { queue = q })

  unfoldable pub acquire_available : Inner → P → ℕ → Option (Inner × ℕ × Bool)
  unfolding scan enter
  acquire_available inner priority count = do
    r ← scan inner.queue priority
    let (inner', handle) = enter inner r.0 priority count r.1
    some (inner', handle, r.1)

  unfoldable pub acquire_short : Inner → P → ℕ → Option (Inner × ℕ × Bool)
  unfolding enter evict_holders
  acquire_short inner priority count = do
    let (inner', handle) = enter inner inner.queue priority count false
    inner'' ← (if features.evict then evict_holders inner' priority else some inner')
    some (inner'', handle, false)

  -- The guard of the entry, and whether it has its permits.
  unfoldable pub do_acquire : Inner → P → ℕ → Option (Inner × ℕ × Bool)
  unfolding acquire_available acquire_short
  do_acquire inner priority count =
      if leb (clear_bit count) inner.available
      then acquire_available inner priority count
      else acquire_short inner priority count

  pub data Acquire : Type 0 where
    acquired : Inner → ℕ → Acquire
    waits : Inner → ℕ → Acquire
    refused : InsufficientPermitsError → Acquire
    panics : Acquire

  abbrev pub outcome : Inner × ℕ × Bool → Acquire
  outcome (inner, handle, true) = acquired inner handle
  outcome (inner, handle, false) = waits inner handle

  unfoldable pub acquire_many : Inner → P → ℕ → Option Acquire
  unfolding do_acquire
  acquire_many inner priority count =
      if ltb count max_permits
      then (do_acquire inner priority count >>= λ r. some (outcome r))
      else some panics

  unfoldable pub acquire_within_total : Inner → P → ℕ → Option Acquire
  unfolding do_acquire
  acquire_within_total inner priority count =
      if ltb count max_permits
      then (if ltb inner.total count
          then some (refused (record { total = inner.total; requested = count }))
          else (do_acquire inner priority (set_bit count) >>= λ r. some (outcome r)))
      else some panics

  -- A poll of the future that both await.
  unfoldable pub poll : Flags → Inner → ℕ → ℕ → Option (Inner × Poll)
  unfolding Waiter.wait_for_flag
  poll target inner handle waker = do
    d ← get_by_handle inner.queue handle
    q ←
        with_ref inner.queue handle
          (on_waiter features (λ w. (Waiter.wait_for_flag target waker w).0))
    some (record inner { queue = q }, (Waiter.wait_for_flag target waker d.waiter).1)

  -- The end of `acquire_within_total`: the flags say whether the permits came before the eviction.
  unfoldable pub after_wait : Flags → ℕ → Option InsufficientPermitsError
  after_wait flags count =
      if flags.lock then none else some (record { total = usize_max; requested = count })
