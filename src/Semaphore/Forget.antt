-- ===== src/Semaphore/Forget.antt =====
-- `SemaphorePermit::forget` of src/semaphore.rs: permits that never come back.
use mathlib.Core.Option
use async_priority_lock_rs.Base.{
  ℕ, ◌+◌, ◌≤◌, ◌≡◌, inl, inr, refl, sym, ap, ◌∙◌, subst, Bool, true, false, ◌&&◌, not, Option, some,
  List, [], ◌∷◌, ◌++◌, arith, if◌then◌else◌, Bool-cases, head?, ◌>>=◌, is_none,
}
use async_priority_lock_rs.Priority.{Priority}
use async_priority_lock_rs.Priority.Laws.{IsLawful}
use async_priority_lock_rs.Queue.{PriorityQueue}
use async_priority_lock_rs.Queue.Order.{Entry}
use async_priority_lock_rs.Semaphore.{
  Features, SemaphoreWaiter, count_of, semaphore_priority, usize_max,
}
use async_priority_lock_rs.Semaphore.Inner.{SemaphoreInner, notify_node, notify_oversized_waiters}
use async_priority_lock_rs.Semaphore.Permit.{forget, wrapping_sub}
use async_priority_lock_rs.Semaphore.Entries.{issued}
use async_priority_lock_rs.Semaphore.Alike.{
  Alike, visit-Alike, append-Alike, issued-Alike, IsSorted-Alike,
}
use async_priority_lock_rs.Semaphore.Granted.{Good}
use async_priority_lock_rs.Semaphore.Growth.{notify_node-Same}
use async_priority_lock_rs.Semaphore.Release.{Removed, removed, found, issued-removed}

module _ {P : Type 0} (features : Features) (p : Priority P)
    (Q : PriorityQueue (semaphore_priority features p)) (law : IsLawful p) where
  open Q use {Queue, entries}

  abbrev Inner : Type 0
  Inner = SemaphoreInner features p Q

  -- The waiters behind have been told if they ask for too much.
  record Notified (sem : Inner) (r : Option Inner) : Type 0 where
    sem' : Inner
    returned : r ≡ some sem'
    good : Good features p Q law sem'.queue
    total : sem'.total ≡ sem.total
    available : sem'.available ≡ sem.available
    weights : issued features (entries sem'.queue) ≡ issued features (entries sem.queue)

  notified :
      (sem : Inner) (xs ys : List (Entry (SemaphoreWaiter P))) (h : ℕ) (d : SemaphoreWaiter P)
      → Good features p Q law sem.queue
      → entries sem.queue ≡ xs ++ (h, d) ∷ ys
      → Notified sem (notify_oversized_waiters features p Q sem (some h))
  unfolding notify_oversized_waiters
  notified sem xs ys h d v here =
      let f = notify_node features p Q sem.total in
      let (q, r, e, v') = Q.for_each-some sem.queue xs ys h d f v.valid here in
      let alike : Alike (entries sem.queue) (entries q) =
        subst (λ es. Alike es (entries q)) (sym here)
          (subst (Alike (xs ++ (h, d) ∷ ys)) (sym e) (
            append-Alike xs ((h, d) ∷ ys) _
              (visit-Alike f (notify_node-Same features p Q law sem.total) ((h, d) ∷ ys)))) in
      record {
        sem' = record sem { queue = q };
        returned = rw (r, ◌>>=◌) refl;
        good = record {
          valid = v';
          sorted = IsSorted-Alike features p (entries sem.queue) (entries q) alike v.sorted;
        };
        total = refl;
        available = refl;
        weights = issued-Alike features (entries sem.queue) (entries q) alike;
      }

  module _ (sem : Inner) (xs ys : List (Entry (SemaphoreWaiter P))) (h : ℕ) (d : SemaphoreWaiter P)
      (v : Good features p Q law sem.queue) (here : entries sem.queue ≡ xs ++ (h, d) ∷ ys) where
    abbrev without : Queue → Inner
    without q = record sem {
      queue = q;
      total =
          if features.semaphore_total
          then wrapping_sub sem.total (count_of features d)
          else sem.total;
    }

    forget-plain :
        (r : Removed features p Q law sem xs ys h d v here)
        → (features.semaphore_total && not (is_none (Option.map (λ e. e.0) (head? ys)))) ≡ false
        → forget features p Q sem h ≡ some (without r.queue)
    unfolding forget
    forget-plain r off = rw (found features p Q law sem xs ys h d v here, r.returned, off) refl

    forget-notifies :
        (r : Removed features p Q law sem xs ys h d v here)
        → (features.semaphore_total && not (is_none (Option.map (λ e. e.0) (head? ys)))) ≡ true
        → forget features p Q sem h
          ≡ notify_oversized_waiters features p Q
              (without r.queue)
              (Option.map (λ e. e.0) (head? ys))
    unfolding forget
    forget-notifies r on = rw (found features p Q law sem xs ys h d v here, r.returned, on) refl

    after :
        (r : Removed features p Q law sem xs ys h d v here) (zs : List (Entry (SemaphoreWaiter P)))
        → ys ≡ zs
        → Notified (without r.queue) (forget features p Q sem h)
    after r [] e = record {
      sem' = without r.queue;
      returned = forget-plain r (
          ap (λ ys. features.semaphore_total && not (is_none (Option.map (λ e. e.0) (head? ys)))) e
          ∙ off features.semaphore_total);
      good = r.good;
      total = refl;
      available = refl;
      weights = refl;
    }
      where
        off : (b : Bool) → (b && false) ≡ false
        off true = refl
        off false = refl
    after r ((k, z) ∷ zs) e = elim (Bool-cases features.semaphore_total) [
      | inr off ↦ record {
        sem' = without r.queue;
        returned = forget-plain r (ground arith);
        good = r.good;
        total = refl;
        available = refl;
        weights = refl;
      }
      | inl on ↦
          subst (Notified (without r.queue))
            (sym (
              forget-notifies r (ground arith)
              ∙ ap
                  (λ ys.
                    notify_oversized_waiters features p Q (without r.queue)
                      (Option.map (λ e. e.0) (head? ys)))
                  e))
            (notified (without r.queue) xs zs k z r.good (r.place ∙ ap (λ l. xs ++ l) e))
    ]

    -- If the total covers the permits of the holder and fits a word, `forget` takes them from what
    -- is out and, where it is kept, from the total; what is available stays.
    pub forget_lem :
        d.waiter.has_lock ≡ true
        → count_of features d ≤ sem.total
        → sem.total ≤ usize_max
        → (sem' : Inner) × (forget features p Q sem h ≡ some sem')
          × Good features p Q law sem'.queue
          × (sem'.available ≡ sem.available)
          × (issued features (entries sem'.queue) + count_of features d
              ≡ issued features (entries sem.queue))
          × (sem'.total + (if features.semaphore_total then count_of features d else 0) ≡ sem.total)
    forget_lem held covered bounded =
        let r = removed features p Q law sem xs ys h d v here in
        let n = after r ys refl in
        (
          n.sem',
          n.returned,
          n.good,
          n.available,
          omega (
            arith,
            n.weights,
            ap (issued features) r.place,
            issued-removed features p Q law sem xs ys h d v here,
            ap (λ b. if b then count_of features d else 0) held,
          ),
          ap (λ t. t + (if features.semaphore_total then count_of features d else 0)) n.total
              ∙ less features.semaphore_total,
        )
      where
        less :
            (b : Bool)
            → (if b then wrapping_sub sem.total (count_of features d) else sem.total)
                + (if b then count_of features d else 0)
              ≡ sem.total
        less true = omega (arith, covered, bounded)
        less false = omega arith
