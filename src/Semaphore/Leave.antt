-- ===== src/Semaphore/Leave.antt =====
-- `SemaphorePermitWaiter::drop` of src/semaphore.rs: a request that leaves, before its permits came
-- or after.
use mathlib.Core.Option
use async_priority_lock_rs.Base.{
  ℕ, ◌+◌, ◌≤◌, ◌≡◌, inl, inr, refl, sym, ap, ◌∙◌, subst, Bool, true, false, ◌&&◌, ◌||◌, Option,
  none, some, List, [], ◌∷◌, ◌++◌, arith, if◌then◌else◌, ltb, Bool-cases, head?, last?, is_none_or,
}
use async_priority_lock_rs.Priority.{Priority}
use async_priority_lock_rs.Priority.Laws.{IsLawful}
use async_priority_lock_rs.Queue.{PriorityQueue}
use async_priority_lock_rs.Queue.Order.{Entry}
use async_priority_lock_rs.Semaphore.{
  Features, SemaphoreWaiter, count_of, semaphore_priority, usize_max,
}
use async_priority_lock_rs.Semaphore.Inner.{SemaphoreInner}
use async_priority_lock_rs.Semaphore.Permit.{activate, after_dequeue, drop_waiter, wrapping_add}
use async_priority_lock_rs.Semaphore.Entries.{weight, issued, pending, left, pending-append}
use async_priority_lock_rs.Semaphore.Granted.{Good}
use async_priority_lock_rs.Semaphore.Release.{
  activate_lem, Removed, removed, found, issued-removed, wrapping_add_id,
}

module _ {P : Type 0} (features : Features) (p : Priority P)
    (Q : PriorityQueue (semaphore_priority features p)) (law : IsLawful p) where
  open Q use {Queue, entries}

  abbrev Inner : Type 0
  Inner = SemaphoreInner features p Q

  -- A leaving request has the waiters behind it looked at.
  abbrev pub looks : ℕ → Bool → Option (SemaphoreWaiter P) → Bool
  looks available is_active prev =
      is_active || (ltb 0 available && is_none_or prev (λ x. x.waiter.has_lock))

  after_dequeue-run :
      (sem : Inner) (active : Bool) (prev : Option (SemaphoreWaiter P)) (next : ℕ)
      → looks sem.available active prev ≡ true
      → after_dequeue features p Q sem active prev (some next)
        ≡ activate features p Q sem (some next)
  unfolding after_dequeue
  after_dequeue-run sem active prev next c = ground arith

  after_dequeue-stay :
      (sem : Inner) (active : Bool) (prev : Option (SemaphoreWaiter P)) (next : Option ℕ)
      → looks sem.available active prev ≡ false
      → after_dequeue features p Q sem active prev next ≡ some sem
  unfolding after_dequeue
  after_dequeue-stay sem active prev next c = ground arith

  after_dequeue-last :
      (sem : Inner) (active : Bool) (prev : Option (SemaphoreWaiter P))
      → after_dequeue features p Q sem active prev none ≡ some sem
  unfolding after_dequeue
  after_dequeue-last sem active prev = refl

  -- The semaphore after a request has left from between `xs` and `ys`.
  pub record Left (sem : Inner) (xs ys : List (Entry (SemaphoreWaiter P))) (served : Bool)
      (r : Option Inner) : Type 0 where
    pub sem' : Inner
    pub returned : r ≡ some sem'
    pub good : Good features p Q law sem'.queue
    pub total : sem'.total ≡ sem.total
    pub conserved :
        sem'.available + issued features (entries sem'.queue)
        ≡ sem.available + issued features (xs ++ ys)
    pub waiting :
        pending features (entries sem'.queue)
        ≡ pending features xs
          ++ (if served then left features sem.available ys else pending features ys)

  unserved :
      (sem : Inner) (xs ys : List (Entry (SemaphoreWaiter P)))
      → Good features p Q law sem.queue
      → entries sem.queue ≡ xs ++ ys
      → Left sem xs ys false (some sem)
  unserved sem xs ys v e = record {
    sem' = sem;
    returned = refl;
    good = v;
    total = refl;
    conserved = ap (λ es. sem.available + issued features es) e;
    waiting = ap (pending features) e ∙ pending-append features xs ys;
  }

  after_dequeue_lem :
      (sem : Inner) (xs ys : List (Entry (SemaphoreWaiter P))) (active : Bool)
      (prev : Option (SemaphoreWaiter P))
      → Good features p Q law sem.queue
      → entries sem.queue ≡ xs ++ ys
      → Left sem xs ys
          (looks sem.available active prev)
          (after_dequeue features p Q sem active prev (Option.map (λ e. e.0) (head? ys)))
  unfolding unserved
  after_dequeue_lem sem xs ys active prev v e =
      elim (Bool-cases (looks sem.available active prev)) [
        | inr stays ↦
            let u = unserved sem xs ys v e in
            subst
              (λ b.
                Left sem xs ys b
                  (after_dequeue features p Q sem active prev (Option.map (λ e. e.0) (head? ys))))
              (sym stays)
              (subst (Left sem xs ys false) (sym (after_dequeue-stay sem active prev _ stays)) u)
        | inl runs ↦
            subst
              (λ b.
                Left sem xs ys b
                  (after_dequeue features p Q sem active prev (Option.map (λ e. e.0) (head? ys))))
              (sym runs) (served ys e runs)
      ]
    where
      served :
          (ys : List (Entry (SemaphoreWaiter P)))
          → entries sem.queue ≡ xs ++ ys
          → looks sem.available active prev ≡ true
          → Left sem xs ys true
              (after_dequeue features p Q sem active prev (Option.map (λ e. e.0) (head? ys)))
      served [] e runs =
          let u = unserved sem xs [] v e in
          record {
            sem' = sem;
            returned = after_dequeue-last sem active prev;
            good = v;
            total = refl;
            conserved = u.conserved;
            waiting = u.waiting;
          }
      served (y ∷ ys) e runs =
          let a = activate_lem features p Q law (y ∷ ys) xs sem v e in
          record {
            sem' = a.sem';
            returned = after_dequeue-run sem active prev y.0 runs ∙ a.returned;
            good = a.good;
            total = a.total;
            conserved = a.conserved;
            waiting = a.waiting;
          }

  module _ (sem : Inner) (xs ys : List (Entry (SemaphoreWaiter P))) (h : ℕ) (d : SemaphoreWaiter P)
      (v : Good features p Q law sem.queue) (here : entries sem.queue ≡ xs ++ (h, d) ∷ ys) where
    abbrev emptied : Queue → Inner
    emptied q = record sem {
      queue = q;
      available =
          if d.waiter.has_lock
          then wrapping_add sem.available (count_of features d)
          else sem.available;
    }

    drop_waiter-eq :
        (r : Removed features p Q law sem xs ys h d v here)
        → drop_waiter features p Q sem h
          ≡ after_dequeue features p Q
              (emptied r.queue)
              d.waiter.has_lock
              (Option.map (λ e. e.1) (last? xs))
              (Option.map (λ e. e.0) (head? ys))
    unfolding drop_waiter
    drop_waiter-eq r = rw (found features p Q law sem xs ys h d v here, r.returned) refl

    emptied-available :
        (q : Queue)
        → sem.available + weight features d ≤ usize_max
        → (emptied q).available ≡ sem.available + weight features d
    emptied-available q fits = elim (Bool-cases d.waiter.has_lock) [
      | inl held ↦
          let f : sem.available + count_of features d ≤ usize_max = ground arith in
          let w =
            wrapping_add_id features p Q law sem xs ys h d v here sem.available
              (count_of features d) f in
          ground (arith, w)
      | inr free ↦ ground arith
    ]

    -- On a sorted queue, and if the sum fits a word, a request that leaves takes nothing with it:
    -- what is available and what is out keep their sum. The waiters behind it are served from what
    -- is then available if it held permits, or if some are available and nobody pending is right
    -- before it; otherwise all stay as they are.
    pub drop_waiter_lem :
        sem.available + weight features d ≤ usize_max
        → (sem' : Inner) × (drop_waiter features p Q sem h ≡ some sem')
          × Good features p Q law sem'.queue
          × (sem'.total ≡ sem.total)
          × (sem'.available + issued features (entries sem'.queue)
              ≡ sem.available + issued features (entries sem.queue))
          × (pending features (entries sem'.queue)
              ≡ pending features xs
                ++ (if looks
                      (sem.available + weight features d)
                      d.waiter.has_lock
                      (Option.map (λ e. e.1) (last? xs))
                    then left features (sem.available + weight features d) ys
                    else pending features ys))
    drop_waiter_lem fits =
        let r = removed features p Q law sem xs ys h d v here in
        let l =
          after_dequeue_lem (emptied r.queue) xs ys d.waiter.has_lock
            (Option.map (λ e. e.1) (last? xs)) r.good r.place in
        let a = emptied-available r.queue fits in
        (
          l.sem',
          drop_waiter-eq r ∙ l.returned,
          l.good,
          l.total,
          omega (arith, l.conserved, a, issued-removed features p Q law sem xs ys h d v here),
          l.waiting
              ∙ ap
                  (λ n.
                    pending features xs
                    ++ (if looks n d.waiter.has_lock (Option.map (λ e. e.1) (last? xs))
                        then left features n ys
                        else pending features ys))
                  a,
        )
