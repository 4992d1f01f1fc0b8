-- ===== src/Mutex/Release.antt =====
-- What dropping a guard, polling and cancelling do to the queue of a mutex.
use async_priority_lock_rs.Base.{
  ℕ, ◌≡◌, refl, sym, ◌∙◌, subst, true, false, Option, some, List, [], ◌∷◌, ◌++◌, arith,
  All-append_right,
}
use async_priority_lock_rs.Priority.{Priority}
use async_priority_lock_rs.Waiter
use async_priority_lock_rs.Waiter.{Waiter, Flags, Poll, lock_flag, evict_flag}
use async_priority_lock_rs.Queue.{PriorityQueue}
use async_priority_lock_rs.Queue.Order.{Entry}
use async_priority_lock_rs.Mutex.{
  MutexWaiter, mutex_priority, on_waiter, at_head, poll, drop_future, drop_guard,
}
use async_priority_lock_rs.Mutex.Shape.{Held, Shape, Shape-replace, Shape-remove}
use async_priority_lock_rs.Mutex.Invariant.{Inv, at_head-cons, at_head-nil, start-has_lock}

module _ {P : Type 0} (p : Priority P) (Q : PriorityQueue (mutex_priority p)) where
  open Q use {Queue, entries, IsValid, dequeue}

  -- The waiters after the lock has been handed to the first of them.
  abbrev pub started : List (Entry (MutexWaiter P)) → List (Entry (MutexWaiter P))
  started [] = []
  started ((h, d) ∷ xs) = (h, on_waiter Waiter.start d) ∷ xs

  Shape-started :
      (x : Entry (MutexWaiter P)) (xs : List (Entry (MutexWaiter P)))
      → Shape p (x ∷ xs)
      → Shape p (started xs)
  Shape-started x [] s = tt
  Shape-started x ((h, d) ∷ xs) s = (start-has_lock d.waiter, s.1.1, s.2.1)

  at_head-started :
      (q : Queue) (es : List (Entry (MutexWaiter P)))
      → IsValid q
      → entries q ≡ es
      → (q' : Queue) × (at_head p Q Waiter.start q ≡ some q')
        × (entries q' ≡ started es)
        × IsValid q'
  at_head-started q [] v e = (q, at_head-nil p Q Waiter.start q v e, e, v)
  at_head-started q ((h, d) ∷ xs) v e = at_head-cons p Q Waiter.start q h d xs v e

  drop_guard-held :
      (q q' : Queue) (h : ℕ) (d : MutexWaiter P) (r : Option (MutexWaiter P) × Option ℕ)
      → Q.get_by_handle q h ≡ some d
      → dequeue q h ≡ some (q', r.0, r.1)
      → d.waiter.has_lock ≡ true
      → drop_guard p Q q h ≡ at_head p Q Waiter.start q'
  unfolding drop_guard
  drop_guard-held q q' h d r g e l = rw (g, e, l) refl

  drop_guard-waiting :
      (q q' : Queue) (h : ℕ) (d : MutexWaiter P) (r : Option (MutexWaiter P) × Option ℕ)
      → Q.get_by_handle q h ≡ some d
      → dequeue q h ≡ some (q', r.0, r.1)
      → d.waiter.has_lock ≡ false
      → drop_guard p Q q h ≡ some q'
  unfolding drop_guard
  drop_guard-waiting q q' h d r g e l = rw (g, e, l) refl

  -- From a queue with the invariant, dropping the holder's guard hands the lock to the first
  -- waiter, and the invariant stays.
  pub drop_guard-holder :
      (q : Queue) (h : ℕ) (d : MutexWaiter P) (xs : List (Entry (MutexWaiter P)))
      → Inv p Q q
      → entries q ≡ (h, d) ∷ xs
      → (q' : Queue) × (drop_guard p Q q h ≡ some q') × (entries q' ≡ started xs) × Inv p Q q'
  drop_guard-holder q h d xs v e =
      let s = subst (Shape p) e v.shape in
      let (q1, r, e1, v1) = Q.dequeue_lem q [] xs h d v.valid e in
      let (q', r', e', v') = at_head-started q1 xs v1 e1 in
      (
        q',
        drop_guard-held q q1 h d _ (Q.get_by_handle_lem q [] xs h d v.valid e) r s.0 ∙ r',
        e',
        record { valid = v'; shape = subst (Shape p) (sym e') (Shape-started (h, d) xs s) },
      )

  -- From a queue with the invariant, dropping a guard that waits takes it out and leaves all others
  -- as they were.
  pub drop_guard-waiter :
      (q : Queue) (x : Entry (MutexWaiter P)) (xs ys : List (Entry (MutexWaiter P))) (h : ℕ)
      (d : MutexWaiter P)
      → Inv p Q q
      → entries q ≡ (x ∷ xs) ++ (h, d) ∷ ys
      → (q' : Queue) × (drop_guard p Q q h ≡ some q') × (entries q' ≡ (x ∷ xs) ++ ys) × Inv p Q q'
  drop_guard-waiter q x xs ys h d v e =
      let s = subst (Shape p) e v.shape in
      let (q', r, e', v') = Q.dequeue_lem q (x ∷ xs) ys h d v.valid e in
      (
        q',
        drop_guard-waiting q q' h d _ (Q.get_by_handle_lem q (x ∷ xs) ys h d v.valid e) r
            (All-append_right (Held false) xs ((h, d) ∷ ys) s.1).0,
        e',
        record { valid = v'; shape = subst (Shape p) (sym e') (Shape-remove p x xs ys (h, d) s) },
      )

  -- A change of a waiter that keeps its lock flag.
  with_ref-Inv :
      (f : Waiter → Waiter) (q : Queue) (xs ys : List (Entry (MutexWaiter P))) (h : ℕ)
      (d : MutexWaiter P)
      → (f d.waiter).has_lock ≡ d.waiter.has_lock
      → Inv p Q q
      → entries q ≡ xs ++ (h, d) ∷ ys
      → (q' : Queue) × (Q.with_ref q h (on_waiter f) ≡ some q')
        × (entries q' ≡ xs ++ (h, on_waiter f d) ∷ ys)
        × Inv p Q q'
  with_ref-Inv f q xs ys h d keep v e =
      let (q', r, e', v') = Q.with_ref_lem q xs ys h d (on_waiter f) v.valid e in
      (
        q',
        r,
        e',
        record {
          valid = v';
          shape =
              subst (Shape p) (sym e') (
                Shape-replace p xs ys h d (on_waiter f d) (refl, keep) (subst (Shape p) e v.shape));
        },
      )

  wait_for_flag-has_lock :
      (target : Flags) (k : ℕ) (w : Waiter)
      → (Waiter.wait_for_flag target k w).0.has_lock ≡ w.has_lock
  unfolding Waiter.wait_for_flag
  wait_for_flag-has_lock target k w = ground arith

  -- From a queue with the invariant, a poll reads and writes the one waiter, and answers from its
  -- flags; the invariant stays.
  pub poll_lem :
      (target : Flags) (q : Queue) (xs ys : List (Entry (MutexWaiter P))) (h k : ℕ)
      (d : MutexWaiter P)
      → Inv p Q q
      → entries q ≡ xs ++ (h, d) ∷ ys
      → (q' : Queue) × (poll p Q target q h k
          ≡ some (q', (Waiter.wait_for_flag target k d.waiter).1))
        × (entries q' ≡ xs ++ (h, on_waiter (λ w. (Waiter.wait_for_flag target k w).0) d) ∷ ys)
        × Inv p Q q'
  unfolding poll
  poll_lem target q xs ys h k d v e =
      let (q', r, e', v') =
        with_ref-Inv (λ w. (Waiter.wait_for_flag target k w).0) q xs ys h d
          (wait_for_flag-has_lock target k d.waiter) v e in
      (q', rw (Q.get_by_handle_lem q xs ys h d v.valid e, r) refl, e', v')

  pub drop_future_lem :
      (q : Queue) (xs ys : List (Entry (MutexWaiter P))) (h : ℕ) (d : MutexWaiter P)
      → Inv p Q q
      → entries q ≡ xs ++ (h, d) ∷ ys
      → (q' : Queue) × (drop_future p Q q h ≡ some q')
        × (entries q' ≡ xs ++ (h, on_waiter (λ w. (Waiter.clear_waker w).0) d) ∷ ys)
        × Inv p Q q'
  unfolding drop_future Waiter.clear_waker
  drop_future_lem q xs ys h d v e =
      with_ref-Inv (λ w. (Waiter.clear_waker w).0) q xs ys h d refl v e
