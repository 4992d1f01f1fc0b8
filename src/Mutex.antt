-- ===== src/Mutex.antt =====
-- src/mutex.rs: `Mutex`, over any `PriorityQueue`. A guard is the handle of its entry. A call holds
-- the queue's lock from its first to its last access, so it is one function on the queue; a lookup
-- that misses is `none`. `evicts` is the feature `evict`.
pub mod Shape
pub mod Invariant
pub mod Release
pub mod Cancel
pub mod Data
pub mod Run
pub mod Sample
pub mod Tests
use mathlib.Core.Option
use async_priority_lock_rs.Base.{
  ℕ, Ordering, lt, Bool, true, false, ◌&&◌, Option, none, some, if◌then◌else◌, ◌>>=◌,
}
use async_priority_lock_rs.Priority.{Priority, is_gt}
use async_priority_lock_rs.Waiter
use async_priority_lock_rs.Waiter.{Waiter, Flags, Poll, lock_flag, evict_flag}
use async_priority_lock_rs.Queue.{PriorityQueue, is_empty, head}

pub record MutexWaiter (P : Type 0) : Type 0 where
  pub priority : P
  pub waiter : Waiter

module _ {P : Type 0} where
  unfoldable pub new_waiter : P → Bool → MutexWaiter P
  unfolding Waiter.new
  new_waiter holder has_lock = record { priority = holder; waiter = Waiter.new has_lock }

  -- `impl Priority for MutexWaiter<P>`.
  unfoldable pub mutex_priority : Priority P → Priority (MutexWaiter P)
  mutex_priority p = record {
    compare_to = λ self other. p.compare_to self.priority other.priority;
    compare_new =
        λ self old. if old.waiter.has_lock then lt else p.compare_new self.priority old.priority;
  }

  -- A change of the waiter inside an entry.
  abbrev pub on_waiter : (Waiter → Waiter) → MutexWaiter P → MutexWaiter P
  on_waiter f d = record d { waiter = f d.waiter }

module _ {P : Type 0} (p : Priority P) (Q : PriorityQueue (mutex_priority p)) where
  open Q use {Queue, enqueue, dequeue, get_by_handle, with_ref, head_handle}

  -- A call through the reference that `queue.head()` gives, if there is one.
  unfoldable pub at_head : (Waiter → Waiter) → Queue → Option Queue
  at_head f q = elim (head_handle q) [ none ↦ some q | some h ↦ with_ref q h (on_waiter f) ]

  -- `try_lock`: the guard, or `TryLockError`.
  unfoldable pub try_lock : Queue → P → Option (Queue × Option ℕ)
  unfolding new_waiter is_empty
  try_lock q priority = do
    empty ← is_empty Q q
    let (q', handle) = enqueue q (new_waiter priority true)
    if empty then some (q', some handle) else some (q, none)

  -- `if priority.compare(&head.priority).is_gt() { head.waiter.evict() }`.
  unfoldable pub evict_head : Bool → P → MutexWaiter P → Queue → Option Queue
  unfolding at_head Waiter.evict
  evict_head evicts priority holder q =
      if evicts && is_gt (p.compare_to priority holder.priority)
      then at_head Waiter.evict q
      else some q

  -- `lock`, until it returns or awaits: the guard, and whether it has the lock.
  unfoldable pub lock : Bool → Queue → P → Option (Queue × ℕ × Bool)
  unfolding new_waiter evict_head head
  lock evicts q priority = do
    maybe_head ← head Q q
    elim maybe_head [
      | none ↦ (let (q', handle) = enqueue q (new_waiter priority true) in some (q', handle, true))
      | some holder ↦ evict_head evicts priority holder q >>= λ q'.
          (let (q'', handle) = enqueue q' (new_waiter priority false) in some (q'', handle, false))
    ]

  -- A poll of `WaiterFlagFut`: what `lock` awaits for HAS_LOCK, `evicted` for WANTS_EVICT.
  unfoldable pub poll : Flags → Queue → ℕ → ℕ → Option (Queue × Poll)
  unfolding Waiter.wait_for_flag
  poll target q handle waker = do
    d ← get_by_handle q handle
    q' ← with_ref q handle (on_waiter (λ w. (Waiter.wait_for_flag target waker w).0))
    some (q', (Waiter.wait_for_flag target waker d.waiter).1)

  -- The drop of `WaiterFlagFut`.
  unfoldable pub drop_future : Queue → ℕ → Option Queue
  unfolding Waiter.clear_waker
  drop_future q handle = with_ref q handle (on_waiter (λ w. (Waiter.clear_waker w).0))

  -- `MutexGuard::drop`.
  unfoldable pub drop_guard : Queue → ℕ → Option Queue
  unfolding at_head Waiter.start
  drop_guard q handle = do
    d ← get_by_handle q handle
    r ← dequeue q handle
    if d.waiter.has_lock then at_head Waiter.start r.0 else some r.0

  -- `lock` dropped while it waits: the future goes first, then the guard.
  unfoldable pub cancel : Queue → ℕ → Option Queue
  unfolding drop_future drop_guard
  cancel q handle = drop_future q handle >>= λ q'. drop_guard q' handle
