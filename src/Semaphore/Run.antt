-- ===== src/Semaphore/Run.antt =====
-- The runs of a semaphore with `semaphore-total`: any calls in any order, on handles that are queued.
use async_priority_lock_rs.Base.{
  ℕ, ◌+◌, ◌≤◌, ◌≡◌, ◌≢◌, inl, inr, sym, ap, ◌∙◌, subst, Bool, true, some, arith,
}
use async_priority_lock_rs.Priority.{Priority}
use async_priority_lock_rs.Priority.Laws.{IsLawful}
use async_priority_lock_rs.Waiter.{Flags, Poll}
use async_priority_lock_rs.Queue.{PriorityQueue}
use async_priority_lock_rs.Queue.Order.{IsSorted}
use async_priority_lock_rs.Semaphore.{Features, SemaphoreWaiter, semaphore_priority, usize_max}
use async_priority_lock_rs.Semaphore.Inner.{SemaphoreInner}
use async_priority_lock_rs.Semaphore.Acquire.{do_acquire, poll}
use async_priority_lock_rs.Semaphore.Permit.{
  drop_waiter, done, drop_permit, forget, split_node, split_off, merge, merged, refused,
}
use async_priority_lock_rs.Semaphore.Pool.{new, added, try_add_permits, forget_permits}
use async_priority_lock_rs.Semaphore.Entries.{issued}
use async_priority_lock_rs.Semaphore.Balance.{
  Queued, Holds, Balanced, the_same, acquire-Balanced, add-Balanced, drop_permit-Balanced,
  drop_waiter-Balanced, forget-Balanced, forget_free-Balanced, merge-Balanced, poll-Balanced,
  split-Balanced,
}

module _ {P : Type 0} (features : Features) (p : Priority P)
    (Q : PriorityQueue (semaphore_priority features p)) (law : IsLawful p) where
  open Q use {Queue, entries}

  abbrev Inner : Type 0
  Inner = SemaphoreInner features p Q

  pub data Step (sem sem' : Inner) : Type 0 where
    acquires :
        (priority : P) (count h : ℕ) (got : Bool)
        → do_acquire features p Q sem priority count ≡ some (sem', h, got)
        → Step sem sem'
    drops_waiter :
        (h : ℕ)
        → Queued features p Q law sem h
        → drop_waiter features p Q sem h ≡ some sem'
        → Step sem sem'
    drops_permit :
        (h : ℕ)
        → Holds features p Q law sem h
        → drop_permit features p Q sem h ≡ some (done sem')
        → Step sem sem'
    forgets :
        (h : ℕ)
        → Holds features p Q law sem h
        → forget features p Q sem h ≡ some sem'
        → Step sem sem'
    splits :
        (h count h' : ℕ) (f : SemaphoreWaiter P → P)
        → Holds features p Q law sem h
        → split_node features p Q sem h count f ≡ some (split_off sem' h')
        → Step sem sem'
    merges :
        (h o : ℕ)
        → h ≢ o
        → Holds features p Q law sem h
        → Holds features p Q law sem o
        → merge features p Q sem h o ≡ some (merged sem')
        → Step sem sem'
    refuses :
        (h o : ℕ)
        → h ≢ o
        → Holds features p Q law sem h
        → Holds features p Q law sem o
        → merge features p Q sem h o ≡ some (refused sem')
        → Step sem sem'
    adds :
        (count n : ℕ) → try_add_permits features p Q sem count ≡ some (added sem' n) → Step sem sem'
    forgets_free :
        (count n : ℕ) → forget_permits features p Q sem count ≡ some (sem', n) → Step sem sem'
    polls :
        (target : Flags) (h k : ℕ) (r : Poll)
        → Queued features p Q law sem h
        → poll features p Q target sem h k ≡ some (sem', r)
        → Step sem sem'

  pub data Reach (capacity : ℕ) : Inner → Type 0 where
    start : Reach capacity (new features p Q capacity)
    step : {sem sem' : Inner} → Reach capacity sem → Step sem sem' → Reach capacity sem'

  module _ (on : features.semaphore_total ≡ true) where
    -- Every call keeps a semaphore balanced: what is available and what is out are the total.
    pub Step-Balanced :
        {sem sem' : Inner}
        → Step sem sem'
        → Balanced features p Q law sem
        → Balanced features p Q law sem'
    Step-Balanced {sem} {sem'} (acquires priority count h got e) b =
        acquire-Balanced features p Q law sem sem' priority count h got on b e
    Step-Balanced {sem} {sem'} (drops_waiter h at e) b =
        let (s, r, b') = drop_waiter-Balanced features p Q law sem h b at in
        subst (Balanced features p Q law) (the_same r e) b'
    Step-Balanced {sem} {sem'} (drops_permit h holds e) b =
        let (s, r, b') = drop_permit-Balanced features p Q law sem h b holds in
        let same : s ≡ sem' = cc in subst (Balanced features p Q law) same b'
    Step-Balanced {sem} {sem'} (forgets h holds e) b =
        let (s, r, b') = forget-Balanced features p Q law sem h on b holds in
        subst (Balanced features p Q law) (the_same r e) b'
    Step-Balanced {sem} {sem'} (splits h count h' f holds e) b =
        split-Balanced features p Q law sem sem' h count h' f b holds e
    Step-Balanced {sem} {sem'} (merges h o apart holds other e) b =
        merge-Balanced features p Q law sem sem' h o b apart holds other (inl e)
    Step-Balanced {sem} {sem'} (refuses h o apart holds other e) b =
        merge-Balanced features p Q law sem sem' h o b apart holds other (inr e)
    Step-Balanced {sem} {sem'} (adds count n e) b =
        add-Balanced features p Q law sem sem' count n on b e
    Step-Balanced {sem} {sem'} (forgets_free count n e) b =
        forget_free-Balanced features p Q law sem sem' count n on b e
    Step-Balanced {sem} {sem'} (polls target h k r at e) b =
        poll-Balanced features p Q law sem sem' target h k r b at e

    start-Balanced :
        (capacity : ℕ)
        → capacity ≤ usize_max
        → Balanced features p Q law (new features p Q capacity)
    unfolding new
    start-Balanced capacity fits = record {
      good = record {
        valid = Q.default-IsValid;
        sorted = subst (IsSorted (semaphore_priority features p)) (sym Q.entries-default) tt;
      };
      balance = ap (λ es. capacity + issued features es) Q.entries-default ∙ omega arith;
      bounded = fits;
    }

    Reach-Balanced :
        (capacity : ℕ)
        → capacity ≤ usize_max
        → {sem : Inner} → Reach capacity sem
        → Balanced features p Q law sem
    Reach-Balanced capacity fits start = start-Balanced capacity fits
    Reach-Balanced capacity fits (step r s) = Step-Balanced s (Reach-Balanced capacity fits r)

    -- With `semaphore-total`, a lawful priority and a capacity that fits a word, after any history
    -- of calls the permits that are available and those that are out add up to the total, the total
    -- fits a word, and the queue is sorted: no permit is lost or issued twice.
    pub Reach-total :
        (capacity : ℕ) (sem : Inner)
        → capacity ≤ usize_max
        → Reach capacity sem
        → (sem.available + issued features (entries sem.queue) ≡ sem.total)
          × (sem.total ≤ usize_max)
          × IsSorted (semaphore_priority features p) (entries sem.queue)
    Reach-total capacity sem fits r =
        let b = Reach-Balanced capacity fits r in (b.balance, b.bounded, b.good.sorted)
