-- ===== src/Semaphore/Release.antt =====
-- Dropping a permit or a waiter: permits come back and are handed on.
use mathlib.Core.Option
use async_priority_lock_rs.Base.{
  ℕ, suc, ◌+◌, ◌≤◌, ◌≡◌, refl, sym, ap, ◌∙◌, subst, true, ◌||◌, some, List, [], ◌∷◌, ◌++◌, arith,
  if◌then◌else◌, leb, length, length-append, head?, last?, ◌>>=◌,
}
use async_priority_lock_rs.Priority.{Priority}
use async_priority_lock_rs.Priority.Laws.{IsLawful}
use async_priority_lock_rs.Queue.{PriorityQueue, iter}
use async_priority_lock_rs.Queue.Order.{Entry, items, IsSorted, IsSorted-remove}
use async_priority_lock_rs.Semaphore.{
  Features, SemaphoreWaiter, count_of, semaphore_priority, usize_max,
}
use async_priority_lock_rs.Semaphore.Inner.{SemaphoreInner, activate_waiters}
use async_priority_lock_rs.Semaphore.Permit.{activate, done, drop_permit, wrapping_add}
use async_priority_lock_rs.Semaphore.Entries.{
  weight, issued, pending, left, rest, Blocked, left-Blocked, issued-insert,
}
use async_priority_lock_rs.Semaphore.Granted.{Good}
use async_priority_lock_rs.Semaphore.Activate.{Activated, activate_waiters_lem}

module _ {P : Type 0} (features : Features) (p : Priority P)
    (Q : PriorityQueue (semaphore_priority features p)) (law : IsLawful p) where
  open Q use {Queue, entries, IsValid, get_by_handle, dequeue}

  abbrev Inner : Type 0
  Inner = SemaphoreInner features p Q

  length-items : (es : List (Entry (SemaphoreWaiter P))) → length (items es) ≡ length es
  length-items [] = refl
  length-items (e ∷ es) = ap suc (length-items es)

  -- `activate` has the fuel that `activate_waiters` needs.
  pub activate_lem :
      (ys xs : List (Entry (SemaphoreWaiter P))) (sem : Inner)
      → Good features p Q law sem.queue
      → entries sem.queue ≡ xs ++ ys
      → Activated features p Q law sem xs ys
          (activate features p Q sem (Option.map (λ e. e.0) (head? ys)))
  unfolding activate iter
  activate_lem ys xs sem v e =
      subst (Activated features p Q law sem xs ys)
        (sym (
          ap
            (λ o. o >>= λ xs.
              activate_waiters features p Q (length xs) sem (Option.map (λ e. e.0) (head? ys)))
            (Q.iter_at-none sem.queue v.valid)))
        (activate_waiters_lem features p Q law (length (items (entries sem.queue))) ys xs sem v e
          (omega (arith, length-items (entries sem.queue), ap length e, length-append {0} xs ys)))

  module _ (sem : Inner) (xs ys : List (Entry (SemaphoreWaiter P))) (h : ℕ) (d : SemaphoreWaiter P)
      (v : Good features p Q law sem.queue) (here : entries sem.queue ≡ xs ++ (h, d) ∷ ys) where
    -- The queue without the entry.
    pub record Removed : Type 0 where
      pub queue : Queue
      pub returned :
          dequeue sem.queue h
          ≡ some (queue, Option.map (λ e. e.1) (last? xs), Option.map (λ e. e.0) (head? ys))
      pub good : Good features p Q law queue
      pub place : entries queue ≡ xs ++ ys

    pub removed : Removed
    removed =
        let (q, r, e, v') = Q.dequeue_lem sem.queue xs ys h d v.valid here in
        record {
          queue = q;
          returned = r;
          good = record {
            valid = v';
            sorted = subst (IsSorted (semaphore_priority features p)) (sym e) (
                IsSorted-remove (semaphore_priority features p) xs ys (h, d)
                  (subst (IsSorted (semaphore_priority features p)) here v.sorted));
          };
          place = e;
        }

    pub found : get_by_handle sem.queue h ≡ some d
    found = Q.get_by_handle_lem sem.queue xs ys h d v.valid here

    pub issued-removed :
        issued features (entries sem.queue) ≡ issued features (xs ++ ys) + weight features d
    issued-removed = ap (issued features) here ∙ issued-insert features xs ys (h, d)

    abbrev pub returning : Removed → Inner
    returning r = record sem {
      queue = r.queue;
      available = wrapping_add sem.available (count_of features d);
    }

    drop_permit-done :
        (r : Removed) (sem' : Inner)
        → (features.semaphore_total || leb (sem.available + count_of features d) usize_max) ≡ true
        → activate features p Q (returning r) (Option.map (λ e. e.0) (head? ys)) ≡ some sem'
        → drop_permit features p Q sem h ≡ some (done sem')
    unfolding drop_permit
    drop_permit-done r sem' fits e = rw (found, r.returned, fits, e) refl

    pub wrapping_add_id : (a b : ℕ) → a + b ≤ usize_max → wrapping_add a b ≡ a + b
    wrapping_add_id a b h = omega arith

    -- If the sum fits a word, the permits of a dropped holder come back whole and are handed on:
    -- the sum of what is available and what is out stays, as does the total, the waiters behind the
    -- holder are served in their order, and nobody of them who could still be served is left
    -- waiting.
    pub drop_permit_lem :
        d.waiter.has_lock ≡ true
        → sem.available + count_of features d ≤ usize_max
        → (sem' : Inner) × (drop_permit features p Q sem h ≡ some (done sem'))
          × Good features p Q law sem'.queue
          × (sem'.total ≡ sem.total)
          × (sem'.available + issued features (entries sem'.queue)
              ≡ sem.available + issued features (entries sem.queue))
          × (pending features (entries sem'.queue)
              ≡ pending features xs ++ left features (sem.available + count_of features d) ys)
          × Blocked features sem'.available (left features (sem.available + count_of features d) ys)
    drop_permit_lem held fits =
        let r = removed in
        let a = activate_lem ys xs (returning r) r.good r.place in
        let back = wrapping_add_id sem.available (count_of features d) fits in
        (
          a.sem',
          drop_permit-done r a.sem' (ground arith) a.returned,
          a.good,
          a.total,
          omega (
            arith,
            a.conserved,
            back,
            issued-removed,
            ap (λ b. if b then count_of features d else 0) held,
          ),
          a.waiting ∙ ap (λ n. pending features xs ++ left features n ys) back,
          subst (λ n. Blocked features n (left features (sem.available + count_of features d) ys))
              (sym (a.available ∙ ap (λ n. rest features n ys) back))
              (left-Blocked features (sem.available + count_of features d) ys),
        )
