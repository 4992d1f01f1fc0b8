-- ===== src/Semaphore/Grants.antt =====
-- When a request takes its permits at once, and that it neither makes up nor loses any.
use async_priority_lock_rs.Base.{
  ℕ, ◌+◌, ◌-◌, ◌^◌, ◌≤◌, ◌<◌, ◌≡◌, ◌⊎◌, inl, inr, refl, sym, ap, ◌∙◌, subst, Bool, true, false,
  Option, none, some, List, [], arith, if◌then◌else◌, Bool-cases, ◌>>=◌, is_none_or,
}
use async_priority_lock_rs.Priority.{Priority, is_ge}
use async_priority_lock_rs.Priority.Laws.{IsLawful}
use async_priority_lock_rs.Waiter
use async_priority_lock_rs.Queue.{PriorityQueue, iter}
use async_priority_lock_rs.Queue.Order.{
  Entry, visit, Moved, lawful-Accepts, Enqueued-Moved, Moved-IsSorted,
}
use async_priority_lock_rs.Semaphore.{
  Features, SemaphoreWaiter, clear_bit, semaphore_priority, on_waiter,
}
use async_priority_lock_rs.Semaphore.Inner.{SemaphoreInner}
use async_priority_lock_rs.Semaphore.Acquire.{skips, evict_lower, first_pending, scan, enter}
use async_priority_lock_rs.Semaphore.Entries.{weight, issued, issued-insert, semaphore-IsLawful}
use async_priority_lock_rs.Semaphore.Granted.{Good}
use async_priority_lock_rs.Semaphore.Alike.{
  Same, Same-refl, Alike, visit-Alike, issued-Alike, IsSorted-Alike, evict-Same,
}

module _ {P : Type 0} (features : Features) (p : Priority P)
    (Q : PriorityQueue (semaphore_priority features p)) (law : IsLawful p) where
  open Q use {Queue, entries, IsValid, for_each, enqueue}

  abbrev Inner : Type 0
  Inner = SemaphoreInner features p Q

  pub evict_lower-Same :
      (priority : P) (d : SemaphoreWaiter P) → Same d (evict_lower features p Q priority d)
  unfolding evict_lower
  evict_lower-Same priority d = elim (Bool-cases _) [
    | inl lower ↦
        subst (λ b. Same d (if b then on_waiter features Waiter.evict d else d)) (sym lower)
          (evict-Same features d)
    | inr other ↦
        subst (λ b. Same d (if b then on_waiter features Waiter.evict d else d)) (sym other)
          (Same-refl d)
  ]

  -- A queue in which a loop has set eviction flags.
  pub record Marked (f : SemaphoreWaiter P → SemaphoreWaiter P × Bool) (q : Queue)
      (r : Option Queue) : Type 0 where
    pub queue : Queue
    pub returned : r ≡ some queue
    pub good : Good features p Q law queue
    pub seen : entries queue ≡ visit f (entries q)
    pub alike : Alike (entries q) (entries queue)
    pub weights : issued features (entries queue) ≡ issued features (entries q)

  pub marked :
      (f : SemaphoreWaiter P → SemaphoreWaiter P × Bool) (q : Queue)
      → ((d : SemaphoreWaiter P) → Same d (f d).0)
      → Good features p Q law q
      → Marked f q (for_each q none f)
  marked f q s v =
      let (q', r, e, v') = Q.for_each-none q f v.valid in
      let alike = subst (Alike (entries q)) (sym e) (visit-Alike f s (entries q)) in
      record {
        queue = q';
        returned = r;
        good = record {
          valid = v';
          sorted = IsSorted-Alike features p (entries q) (entries q') alike v.sorted;
        };
        seen = e;
        alike = alike;
        weights = issued-Alike features (entries q) (entries q') alike;
      }

  -- The decision of the scan: the first entry that it does not skip must not be higher.
  abbrev pub may_acquire : List (SemaphoreWaiter P) → P → Bool
  may_acquire xs priority =
      is_none_or (first_pending features p Q xs) (λ x. is_ge (p.compare_to priority x.priority))

  pub scan-some :
      (q q' : Queue) (priority : P) (xs : List (SemaphoreWaiter P))
      → iter Q q ≡ some xs
      → for_each q none (λ x. (evict_lower features p Q priority x, skips features p Q x)) ≡ some q'
      → scan features p Q q priority ≡ some (q', may_acquire xs priority)
  unfolding scan
  scan-some q q' priority xs e f = rw (e, ◌>>=◌) (rw (f, ◌>>=◌) refl)

  -- The entry of a request, which has its permits if it `will` acquire them.
  abbrev pub request : P → Bool → ℕ → SemaphoreWaiter P
  request priority will count = record {
    priority = priority;
    waiter = Waiter.new will;
    count = count;
  }

  -- The state after a request has been entered: its entry is in the queue, where it belongs among the
  -- others, which are as they were but for eviction flags; its permits are taken if it `will` acquire
  -- them, and nothing else changes hands.
  pub record Entered (inner : Inner) (priority : P) (count : ℕ) (will : Bool)
      (r : Option (Inner × ℕ × Bool)) : Type 0 where
    pub inner' : Inner
    pub handle : ℕ
    pub returned : r ≡ some (inner', handle, will)
    pub others : List (Entry (SemaphoreWaiter P))
    pub alike : Alike (entries inner.queue) others
    pub placed :
        Moved
          (semaphore_priority features p)
          handle
          (request priority will count)
          others
          (entries inner'.queue)
    pub taken :
        inner'.available ≡ (if will then inner.available - clear_bit count else inner.available)
    pub good : Good features p Q law inner'.queue
    pub total : inner'.total ≡ inner.total
    pub conserved :
        inner'.available + issued features (entries inner'.queue)
        ≡ inner.available + issued features (entries inner.queue)

  pub record Queued (q : Queue) (d : SemaphoreWaiter P) : Type 0 where
    pub good : Good features p Q law (enqueue q d).0
    pub place :
        Moved
          (semaphore_priority features p)
          (enqueue q d).1
          d
          (entries q)
          (entries (enqueue q d).0)
    pub weights :
        issued features (entries (enqueue q d).0) ≡ issued features (entries q) + weight features d

  pub queued : (q : Queue) (d : SemaphoreWaiter P) → Good features p Q law q → Queued q d
  queued q d v =
      let slaw = semaphore-IsLawful features law in
      let w = Enqueued-Moved slaw (
        Q.enqueue_lem q d [] (entries q) v.valid refl
          (lawful-Accepts slaw d (entries q) v.sorted)) in
      record {
        good = record {
          valid = Q.enqueue-IsValid q d v.valid;
          sorted = Moved-IsSorted slaw w v.sorted;
        };
        place = w;
        weights =
            ap (issued features) w.result
            ∙ issued-insert features w.before w.later ((enqueue q d).1, d)
            ∙ ap (λ es. issued features es + weight features d) (sym w.split);
      }

  -- A count that a caller may pass: below the flag bit, or with it under `semaphore-total`.
  abbrev pub IsCount : ℕ → Type 0
  IsCount count = (features.semaphore_total ≡ true) ⊎ (count < 2 ^ 63)

  weight-request :
      (priority : P) (will : Bool) (count : ℕ)
      → IsCount count
      → weight features (request priority will count) ≡ (if will then clear_bit count else 0)
  unfolding Waiter.new
  weight-request priority will count c = ground arith

  pub enter-good :
      (inner : Inner) (q : Queue) (priority : P) (count : ℕ) (will : Bool)
      → Good features p Q law q
      → Good features p Q law (enter features p Q inner q priority count will).0.queue
  unfolding enter
  enter-good inner q priority count will v = (queued q (request priority will count) v).good

  pub enter-placed :
      (inner : Inner) (q : Queue) (priority : P) (count : ℕ) (will : Bool)
      → Good features p Q law q
      → Moved
          (semaphore_priority features p)
          (enter features p Q inner q priority count will).1
          (request priority will count)
          (entries q)
          (entries (enter features p Q inner q priority count will).0.queue)
  unfolding enter
  enter-placed inner q priority count will v = (queued q (request priority will count) v).place

  pub enter-taken :
      (inner : Inner) (q : Queue) (priority : P) (count : ℕ) (will : Bool)
      → (enter features p Q inner q priority count will).0.available
        ≡ (if will then inner.available - clear_bit count else inner.available)
  unfolding enter
  enter-taken inner q priority count will = refl

  -- The new entry that waits is not asked to give way.
  pub evict_lower-request :
      (priority : P) (count : ℕ)
      → evict_lower features p Q priority (request priority false count)
        ≡ request priority false count
  unfolding evict_lower Waiter.new
  evict_lower-request priority count = ground arith

  pub enter-total :
      (inner : Inner) (q : Queue) (priority : P) (count : ℕ) (will : Bool)
      → (enter features p Q inner q priority count will).0.total ≡ inner.total
  unfolding enter
  enter-total inner q priority count will = refl

  pub enter-conserved :
      (inner : Inner) (q : Queue) (priority : P) (count : ℕ) (will : Bool)
      → Good features p Q law q
      → IsCount count
      → (will ≡ true → clear_bit count ≤ inner.available)
      → (enter features p Q inner q priority count will).0.available
          + issued features (entries (enter features p Q inner q priority count will).0.queue)
        ≡ inner.available + issued features (entries q)
  unfolding enter
  enter-conserved inner q priority count true v c fits =
      let w = (queued q (request priority true count) v).weights in
      omega (arith, w, weight-request priority true count c, fits refl)
  enter-conserved inner q priority count false v c fits =
      let w = (queued q (request priority false count) v).weights in
      omega (arith, w, weight-request priority false count c)
