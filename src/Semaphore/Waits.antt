-- ===== src/Semaphore/Waits.antt =====
-- src/semaphore.rs: what `acquire_within_total` does from its await on.
pub mod Polls
use mathlib.Core.Option
use async_priority_lock_rs.Base.{
  ℕ, ◌+◌, ◌≤◌, ◌≡◌, ◌⊎◌, inl, inr, refl, sym, ap, ◌∙◌, subst, Bool, true, false, ◌||◌, Option, none,
  some, List, [], ◌∷◌, ◌++◌, arith, if◌then◌else◌, Bool-cases, last?, ◌>>=◌, bind-some,
}
use async_priority_lock_rs.Priority.{Priority}
use async_priority_lock_rs.Priority.Laws.{IsLawful}
use async_priority_lock_rs.Waiter
use async_priority_lock_rs.Waiter.{
  Waiter, Flags, Poll, ready, pending as unready, lock_or_evict, flags, has_any,
}
use async_priority_lock_rs.Waiter.Wakes.{wait_for_flag_lem}
use async_priority_lock_rs.Queue.{PriorityQueue}
use async_priority_lock_rs.Queue.Order.{Entry, IsSorted}
use async_priority_lock_rs.Semaphore.{
  Features, SemaphoreWaiter, semaphore_priority, on_waiter, usize_max,
}
use async_priority_lock_rs.Semaphore.Inner.{SemaphoreInner}
use async_priority_lock_rs.Semaphore.Acquire.{
  poll, after_wait, InsufficientPermitsError, error_total,
}
use async_priority_lock_rs.Semaphore.Permit.{drop_waiter}
use async_priority_lock_rs.Semaphore.Entries.{issued, pending, left, weight}
use async_priority_lock_rs.Semaphore.Granted.{Good}
use async_priority_lock_rs.Semaphore.Alike.{
  Same, Alike, Alike-refl, append-Alike, IsSorted-Alike, issued-Alike,
}
use async_priority_lock_rs.Semaphore.Leave.{drop_waiter_lem, looks}

module _ {P : Type 0} (features : Features) (p : Priority P)
    (Q : PriorityQueue (semaphore_priority features p)) where
  abbrev Inner : Type 0
  Inner = SemaphoreInner features p Q

  -- The drop of the future, through the guard that it borrows.
  pub drop_future : Inner → ℕ → Option Inner
  unfolding Waiter.clear_waker
  drop_future sem handle =
      Q.with_ref sem.queue handle (on_waiter features (λ w. (Waiter.clear_waker w).0)) >>= λ q.
      some (record sem { queue = q })

  -- What a poll of `acquire_within_total` comes to: `Pending`, `Ok`, or `Err`.
  pub data Within : Type 0 where
    waiting : Inner → Within
    granted : Inner → Within
    evicted : Inner → InsufficientPermitsError → Within

  -- `Err` drops the guard on the way out.
  pub leave_within : Inner → ℕ → Option InsufficientPermitsError → Option Within
  unfolding drop_waiter
  leave_within sem handle none = some (granted sem)
  leave_within sem handle (some e) =
      drop_waiter features p Q sem handle >>= λ sem'. some (evicted sem' e)

  pub finish_within : Inner → ℕ → ℕ → Poll → Option Within
  unfolding after_wait
  finish_within sem handle count unready = some (waiting sem)
  finish_within sem handle count (ready f) =
      drop_future sem handle >>= λ sem'. leave_within sem' handle (after_wait features p Q f count)

  pub poll_within_total : Inner → (handle waker count : ℕ) → Option Within
  unfolding poll
  poll_within_total sem handle waker count =
      poll features p Q lock_or_evict sem handle waker >>= λ r. finish_within r.0 handle count r.1
