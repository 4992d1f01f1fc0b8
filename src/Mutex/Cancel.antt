-- ===== src/Mutex/Cancel.antt =====
-- A `lock` of src/mutex.rs that is dropped while it waits, in time or too late.
use async_priority_lock_rs.Base.{ℕ, ◌≡◌, some, List, [], ◌∷◌, ◌++◌, ◌>>=◌}
use async_priority_lock_rs.Priority.{Priority}
use async_priority_lock_rs.Waiter
use async_priority_lock_rs.Queue.{PriorityQueue}
use async_priority_lock_rs.Queue.Order.{Entry}
use async_priority_lock_rs.Mutex.{
  MutexWaiter, mutex_priority, on_waiter, drop_future, drop_guard, cancel,
}
use async_priority_lock_rs.Mutex.Invariant.{Inv}
use async_priority_lock_rs.Mutex.Release.{
  started, drop_guard-holder, drop_guard-waiter, drop_future_lem,
}

module _ {P : Type 0} (p : Priority P) (Q : PriorityQueue (mutex_priority p)) where
  open Q use {Queue, entries}

  cancel-eq :
      (q q1 q' : Queue) (h : ℕ)
      → drop_future p Q q h ≡ some q1
      → drop_guard p Q q1 h ≡ some q'
      → cancel p Q q h ≡ some q'
  unfolding cancel
  cancel-eq q q1 q' h e f = rw (e, ◌>>=◌) f

  -- What is queued when an entry has left from between two parts.
  abbrev pub without :
      List (Entry (MutexWaiter P)) → List (Entry (MutexWaiter P)) → List (Entry (MutexWaiter P))
  without [] ys = started p Q ys
  without (x ∷ xs) ys = (x ∷ xs) ++ ys

  -- From a queue with the invariant, a `lock` that is cancelled takes its entry out and leaves all
  -- others as they were; if it has been given the lock already, the next waiter gets that. The
  -- invariant stays.
  pub cancel_lem :
      (q : Queue) (xs ys : List (Entry (MutexWaiter P))) (h : ℕ) (d : MutexWaiter P)
      → Inv p Q q
      → entries q ≡ xs ++ (h, d) ∷ ys
      → (q' : Queue) × (cancel p Q q h ≡ some q') × (entries q' ≡ without xs ys) × Inv p Q q'
  cancel_lem q [] ys h d v e =
      let (q1, r1, e1, v1) = drop_future_lem p Q q [] ys h d v e in
      let (q', r, e', v') =
        drop_guard-holder p Q q1 h (on_waiter (λ w. (Waiter.clear_waker w).0) d) ys v1 e1 in
      (q', cancel-eq q q1 q' h r1 r, e', v')
  cancel_lem q (x ∷ xs) ys h d v e =
      let (q1, r1, e1, v1) = drop_future_lem p Q q (x ∷ xs) ys h d v e in
      let (q', r, e', v') =
        drop_guard-waiter p Q q1 x xs ys h (on_waiter (λ w. (Waiter.clear_waker w).0) d) v1 e1 in
      (q', cancel-eq q q1 q' h r1 r, e', v')
