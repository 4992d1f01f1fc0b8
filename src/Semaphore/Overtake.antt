-- ===== src/Semaphore/Overtake.antt =====
-- Who a new request gets past, in `do_acquire` of src/semaphore.rs: without `semaphore-total`
-- nobody of a higher priority, with it everybody who has not been evicted.
use async_priority_lock_rs.Base.{
  ℕ, ◌≤◌, ◌≡◌, inl, inr, refl, sym, ap, ◌∙◌, subst, Bool, true, false, some, List, [], ◌∷◌, arith,
  All, All-mono, Bool-cases,
}
use async_priority_lock_rs.Priority.{Priority, is_ge}
use async_priority_lock_rs.Priority.Laws.{IsLawful}
use async_priority_lock_rs.Queue.{PriorityQueue}
use async_priority_lock_rs.Queue.Order.{Entry, items, IsSorted}
use async_priority_lock_rs.Semaphore.{Features, SemaphoreWaiter, clear_bit, semaphore_priority}
use async_priority_lock_rs.Semaphore.Inner.{SemaphoreInner}
use async_priority_lock_rs.Semaphore.Acquire.{skips, first_pending, do_acquire}
use async_priority_lock_rs.Semaphore.Entries.{Held, pending, pending_behind, pending-id}
use async_priority_lock_rs.Semaphore.Granted.{Good}
use async_priority_lock_rs.Semaphore.Grants.{may_acquire, IsCount}
use async_priority_lock_rs.Semaphore.Decision.{will_acquire, do_acquire_lem}

module _ {P : Type 0} (features : Features) (p : Priority P)
    (Q : PriorityQueue (semaphore_priority features p)) (law : IsLawful p) where
  open Q use {Queue, entries}

  abbrev Inner : Type 0
  Inner = SemaphoreInner features p Q

  -- The entry is not of a higher priority than the request.
  abbrev pub NotHigher : P → Entry (SemaphoreWaiter P) → Type 0
  NotHigher priority e = is_ge (p.compare_to priority e.1.priority) ≡ true

  behind_first :
      (priority : P) (e y : Entry (SemaphoreWaiter P))
      → Held false e
      → NotHigher priority e
      → is_ge ((semaphore_priority features p).compare_to e.1 y.1) ≡ true
      → NotHigher priority y
  unfolding semaphore_priority
  behind_first priority e y free above below =
      ground (arith, law.trans priority e.1.priority y.1.priority above)

  pending-Held :
      (e : Entry (SemaphoreWaiter P)) (es : List (Entry (SemaphoreWaiter P)))
      → Held true e
      → pending features (e ∷ es) ≡ pending features es
  pending-Held e es h = ground arith

  pending-free :
      (e : Entry (SemaphoreWaiter P)) (es : List (Entry (SemaphoreWaiter P)))
      → Held false e
      → pending features (e ∷ es) ≡ e ∷ pending features es
  pending-free e es h = ground arith

  -- Without `semaphore-total` the scan stops at the first pending entry, which is the highest.
  first_pending-highest :
      (es : List (Entry (SemaphoreWaiter P))) (priority : P)
      → features.semaphore_total ≡ false
      → IsSorted (semaphore_priority features p) es
      → may_acquire features p Q law (items es) priority ≡ true
      → All (NotHigher priority) (pending features es)
  unfolding first_pending skips
  first_pending-highest [] priority off s m = tt
  first_pending-highest (e ∷ es) priority off s m = elim (Bool-cases e.1.waiter.has_lock) [
    | inl held ↦
        subst (All (NotHigher priority)) (sym (pending-Held e es held))
          (first_pending-highest es priority off s.1 (ground arith))
    | inr free ↦
        let here : NotHigher priority e = ground arith in
        subst (All (NotHigher priority))
          (sym (
            pending-free e es free
            ∙ ap (λ xs. e ∷ xs) (pending-id features es (pending_behind features p e es free s.0))))
          (here, All-mono _ _ (λ y. behind_first priority e y free here) es s.0)
  ]

  abbrev pub NotEvicted : Entry (SemaphoreWaiter P) → Type 0
  NotEvicted e = e.1.waiter.wants_evict ≡ false

  -- With `semaphore-total` the scan skips every pending entry that has not been evicted.
  first_pending-skipped :
      (es : List (Entry (SemaphoreWaiter P))) (priority : P)
      → features.semaphore_total ≡ true
      → All NotEvicted (pending features es)
      → may_acquire features p Q law (items es) priority ≡ true
  unfolding first_pending skips
  first_pending-skipped [] priority on a = refl
  first_pending-skipped (e ∷ es) priority on a = elim (Bool-cases e.1.waiter.has_lock) [
    | inl held ↦ ground (
      arith,
      first_pending-skipped es priority on (subst (All NotEvicted) (pending-Held e es held) a),
    )
    | inr free ↦
        let a' : All NotEvicted (e ∷ pending features es) =
          subst (All NotEvicted) (pending-free e es free) a in
        ground (arith, a'.0, first_pending-skipped es priority on a'.1)
  ]

  module _ (inner : Inner) (priority : P) (count : ℕ) (v : Good features p Q law inner.queue)
      (c : IsCount features p Q law count) where
    answer :
        (inner' : Inner) (handle : ℕ) (will : Bool)
        → do_acquire features p Q inner priority count ≡ some (inner', handle, will)
        → will_acquire features p Q law inner priority count v c ≡ will
    answer inner' handle will e =
        let r = (do_acquire_lem features p Q law inner priority count v c).returned in cc

    -- Without `semaphore-total`, on a sorted queue, a request that gets its permits at once finds
    -- enough of them available and is past no pending request of a higher priority.
    pub do_acquire-no_overtake :
        (inner' : Inner) (handle : ℕ)
        → features.semaphore_total ≡ false
        → do_acquire features p Q inner priority count ≡ some (inner', handle, true)
        → (clear_bit count ≤ inner.available)
          × All (NotHigher priority) (pending features (entries inner.queue))
    do_acquire-no_overtake inner' handle off e =
        let w = answer inner' handle true e in
        let m : may_acquire features p Q law (items (entries inner.queue)) priority ≡ true =
          ground arith in
        (ground arith, first_pending-highest (entries inner.queue) priority off v.sorted m)

    -- With `semaphore-total`, on a sorted queue in which no pending request has been evicted, a
    -- request gets its permits at once whenever enough of them are available, past all pending
    -- requests whatever their priority.
    pub do_acquire-barges :
        features.semaphore_total ≡ true
        → All NotEvicted (pending features (entries inner.queue))
        → clear_bit count ≤ inner.available
        → (inner' : Inner) × (handle : ℕ) × (do_acquire features p Q inner priority count
            ≡ some (inner', handle, true))
    do_acquire-barges on a fits =
        let r = do_acquire_lem features p Q law inner priority count v c in
        let m = first_pending-skipped (entries inner.queue) priority on a in
        let w : will_acquire features p Q law inner priority count v c ≡ true = ground arith in
        (r.inner', r.handle, r.returned ∙ ap (λ b. some (r.inner', r.handle, b)) w)
