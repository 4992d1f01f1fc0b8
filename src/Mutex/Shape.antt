-- ===== src/Mutex/Shape.antt =====
-- What the queue of a mutex looks like: the holder first, then the waiters by priority.
use async_priority_lock_rs.Base.{
  ℕ, ◌≡◌, refl, sym, ap, ◌∙◌, subst, Bool, true, false, List, [], ◌∷◌, ◌++◌, All, All-append,
  All-append_left, All-append_right, All-mono,
}
use async_priority_lock_rs.Priority.{Priority, is_ge}
use async_priority_lock_rs.Priority.Laws.{IsPreorder, IsLawful, ge_of_le}
use async_priority_lock_rs.Queue.Order.{
  Entry, IsSorted, IsSorted-insert, IsSorted-remove, Accepts, Enqueued,
}
use async_priority_lock_rs.Mutex.{MutexWaiter, mutex_priority}

module _ {P : Type 0} where
  abbrev pub Held : Bool → Entry (MutexWaiter P) → Type 0
  Held b e = e.1.waiter.has_lock ≡ b

module _ {P : Type 0} (p : Priority P) where
  abbrev pub Shape : List (Entry (MutexWaiter P)) → Type 0
  Shape [] = Unit {0}
  Shape (x ∷ xs) = Held true x × All (Held false) xs × IsSorted (mutex_priority p) xs

  -- Two entries that agree in the lock flag and the priority.
  abbrev pub Same : MutexWaiter P → MutexWaiter P → Type 0
  Same d e = (e.priority ≡ d.priority) × (e.waiter.has_lock ≡ d.waiter.has_lock)

  Held-replace :
      (b : Bool) (xs ys : List (Entry (MutexWaiter P))) (h : ℕ) (d e : MutexWaiter P)
      → Same d e
      → All (Held b) (xs ++ (h, d) ∷ ys)
      → All (Held b) (xs ++ (h, e) ∷ ys)
  Held-replace b [] ys h d e s a = (s.1 ∙ a.0, a.1)
  Held-replace b (x ∷ xs) ys h d e s a = (a.0, Held-replace b xs ys h d e s a.1)

  below-replace :
      (z : MutexWaiter P) (xs ys : List (Entry (MutexWaiter P))) (h : ℕ) (d e : MutexWaiter P)
      → Same d e
      → All (λ y. is_ge ((mutex_priority p).compare_to z y.1) ≡ true) (xs ++ (h, d) ∷ ys)
      → All (λ y. is_ge ((mutex_priority p).compare_to z y.1) ≡ true) (xs ++ (h, e) ∷ ys)
  unfolding mutex_priority
  below-replace z [] ys h d e s a = (ap (λ q. is_ge (p.compare_to z.priority q)) s.0 ∙ a.0, a.1)
  below-replace z (x ∷ xs) ys h d e s a = (a.0, below-replace z xs ys h d e s a.1)

  IsSorted-replace :
      (xs ys : List (Entry (MutexWaiter P))) (h : ℕ) (d e : MutexWaiter P)
      → Same d e
      → IsSorted (mutex_priority p) (xs ++ (h, d) ∷ ys)
      → IsSorted (mutex_priority p) (xs ++ (h, e) ∷ ys)
  unfolding mutex_priority
  IsSorted-replace [] ys h d e s a =
      (subst (λ q. All (λ y. is_ge (p.compare_to q y.1.priority) ≡ true) ys) (sym s.0) a.0, a.1)
  IsSorted-replace (x ∷ xs) ys h d e s a =
      (below-replace x.1 xs ys h d e s a.0, IsSorted-replace xs ys h d e s a.1)

  pub Shape-replace :
      (xs ys : List (Entry (MutexWaiter P))) (h : ℕ) (d e : MutexWaiter P)
      → Same d e
      → Shape (xs ++ (h, d) ∷ ys)
      → Shape (xs ++ (h, e) ∷ ys)
  Shape-replace [] ys h d e s a = (s.1 ∙ a.0, a.1, a.2)
  Shape-replace (x ∷ xs) ys h d e s a =
      (a.0, Held-replace false xs ys h d e s a.1, IsSorted-replace xs ys h d e s a.2)

  -- Dropping a waiter leaves the shape.
  pub Shape-remove :
      (x : Entry (MutexWaiter P)) (xs ys : List (Entry (MutexWaiter P))) (z : Entry (MutexWaiter P))
      → Shape (x ∷ xs ++ z ∷ ys)
      → Shape (x ∷ xs ++ ys)
  Shape-remove x xs ys z s = (
    s.0,
    All-append _ xs ys (All-append_left _ xs (z ∷ ys) s.1) (All-append_right _ xs (z ∷ ys) s.1).1,
    IsSorted-remove (mutex_priority p) xs ys z s.2,
  )

  module _ (law : IsLawful p) where
    pub mutex-IsPreorder : IsPreorder (mutex_priority p).compare_to
    unfolding mutex_priority
    mutex-IsPreorder = record {
      swap = λ a b. law.swap a.priority b.priority;
      trans = λ a b d. law.trans a.priority b.priority d.priority;
    }

    -- A new waiter is pinned behind the holder and goes among the others by priority.
    pub mutex-Accepts :
        (d : MutexWaiter P) (x : Entry (MutexWaiter P)) (xs : List (Entry (MutexWaiter P)))
        → Shape (x ∷ xs)
        → Accepts (mutex_priority p) d (x ∷ []) xs
    unfolding mutex_priority
    mutex-Accepts d x xs s = record {
      order = mutex-IsPreorder;
      behind = (rw s.0 refl, tt);
      agrees = All-mono _ _ (λ e h n. rw h (law.agrees d.priority e.1.priority n)) xs s.1;
      sorted = s.2;
    }

    pub Shape-Enqueued :
        (h : ℕ) (d : MutexWaiter P) (x : Entry (MutexWaiter P))
        (xs new : List (Entry (MutexWaiter P)))
        → d.waiter.has_lock ≡ false
        → Shape (x ∷ xs)
        → Enqueued (mutex_priority p) h d (x ∷ []) xs new
        → Shape new
    Shape-Enqueued h d x xs new f s w =
        let held = subst (All (Held false)) w.split s.1 in
        let sorted = subst (IsSorted (mutex_priority p)) w.split s.2 in
        subst Shape (sym w.result) (
          s.0,
          All-append _ w.before ((h, d) ∷ w.later) (All-append_left _ w.before w.later held)
              (f, All-append_right _ w.before w.later held),
          IsSorted-insert (mutex_priority p) w.before w.later (h, d) sorted
              (All-mono _ _ (λ e k. ge_of_le mutex-IsPreorder d e.1 k) w.before w.above) w.below,
        )
