-- ===== src/Semaphore/Shares.antt =====
-- `split`, `split_with_priority` of src/semaphore.rs: the permits of one holder become those of two.
use async_priority_lock_rs.Base.{
  ℕ, ◌+◌, ◌-◌, ◌≤◌, ◌<◌, ◌≡◌, ◌⊎◌, inl, inr, refl, sym, ap, ◌∙◌, subst, true, false, some, List, [],
  ◌∷◌, ◌++◌, arith, All-append, All-append_left, All-append_right, ltb, Bool-cases, ◌>>=◌,
}
use async_priority_lock_rs.Priority.{Priority}
use async_priority_lock_rs.Priority.Laws.{IsLawful}
use async_priority_lock_rs.Waiter
use async_priority_lock_rs.Queue.{PriorityQueue}
use async_priority_lock_rs.Queue.Order.{Entry, IsSorted, Moved}
use async_priority_lock_rs.Semaphore.{Features, SemaphoreWaiter, count_of, semaphore_priority}
use async_priority_lock_rs.Semaphore.Inner.{SemaphoreInner}
use async_priority_lock_rs.Semaphore.Permit.{split_off, insufficient, take_from, split_node}
use async_priority_lock_rs.Semaphore.Entries.{weight, issued, issued-insert}
use async_priority_lock_rs.Semaphore.Granted.{Good}
use async_priority_lock_rs.Semaphore.Grants.{queued}

module _ {P : Type 0} (features : Features) (p : Priority P) where
  -- A new count changes nothing in the order of the queue.
  pub IsSorted-recount :
      (xs ys : List (Entry (SemaphoreWaiter P))) (h n : ℕ) (d : SemaphoreWaiter P)
      → IsSorted (semaphore_priority features p) (xs ++ (h, d) ∷ ys)
      → IsSorted (semaphore_priority features p) (xs ++ (h, record d { count = n }) ∷ ys)
  unfolding semaphore_priority
  IsSorted-recount [] ys h n d s = s
  IsSorted-recount (x ∷ xs) ys h n d s = (
    All-append _ xs ((h, record d { count = n }) ∷ ys) (All-append_left _ xs ((h, d) ∷ ys) s.0)
        (All-append_right _ xs ((h, d) ∷ ys) s.0),
    IsSorted-recount xs ys h n d s.1,
  )

module _ {P : Type 0} (features : Features) (p : Priority P)
    (Q : PriorityQueue (semaphore_priority features p)) (law : IsLawful p) where
  open Q use {Queue, entries}

  abbrev Inner : Type 0
  Inner = SemaphoreInner features p Q

  abbrev pub share : P → ℕ → SemaphoreWaiter P
  share priority count = record { priority = priority; waiter = Waiter.new true; count = count }

  split_node-off :
      (sem : Inner) (q : Queue) (h count : ℕ) (d : SemaphoreWaiter P) (f : SemaphoreWaiter P → P)
      → count < count_of features d
      → Q.get_by_handle sem.queue h ≡ some d
      → Q.update_node sem.queue h (take_from features p Q count) ≡ some q
      → split_node features p Q sem h count f
        ≡ some (
            split_off
              (record sem { queue = (Q.enqueue q (share (f d) count)).0 })
              (Q.enqueue q (share (f d) count)).1)
  unfolding split_node
  split_node-off sem q h count d f few e u =
      let l : ltb count (count_of features d) ≡ true = ground arith in
      rw (e, ◌>>=◌) (rw (u, ◌>>=◌) (rw (l) refl))

  split_node-insufficient :
      (sem : Inner) (q : Queue) (h count : ℕ) (d : SemaphoreWaiter P) (f : SemaphoreWaiter P → P)
      → count_of features d ≤ count
      → Q.get_by_handle sem.queue h ≡ some d
      → Q.update_node sem.queue h (take_from features p Q count) ≡ some q
      → split_node features p Q sem h count f
        ≡ some (
            insufficient
              (record sem { queue = q })
              (record { total = count_of features d; requested = count }))
  unfolding split_node
  split_node-insufficient sem q h count d f many e u =
      let l : ltb count (count_of features d) ≡ false = ground arith in
      rw (e, ◌>>=◌) (rw (u, ◌>>=◌) (rw (l) refl))

  take_from-few :
      (count : ℕ) (d : SemaphoreWaiter P)
      → count < count_of features d
      → take_from features p Q count d ≡ (record d { count = d.count - count }, false)
  unfolding take_from
  take_from-few count d few =
      let l : ltb count (count_of features d) ≡ true = ground arith in rw (l) refl

  take_from-many :
      (count : ℕ) (d : SemaphoreWaiter P)
      → count_of features d ≤ count
      → take_from features p Q count d ≡ (d, false)
  unfolding take_from
  take_from-many count d many =
      let l : ltb count (count_of features d) ≡ false = ground arith in rw (l) refl

  -- What the first holder keeps.
  kept_share :
      (count : ℕ) (d : SemaphoreWaiter P)
      → count < count_of features d
      → count_of features (record d { count = d.count - count }) + count ≡ count_of features d
  kept_share count d few = elim (Bool-cases features.semaphore_total) [
    | inl on ↦ ground arith
    | inr off ↦ ground arith
  ]

  shares :
      (count : ℕ) (d : SemaphoreWaiter P) (priority : P)
      → d.waiter.has_lock ≡ true
      → count < count_of features d
      → weight features (record d { count = d.count - count })
          + weight features (share priority count)
        ≡ weight features d
  unfolding Waiter.new
  shares count d priority held few = elim (Bool-cases features.semaphore_total) [
    | inl on ↦ ground arith
    | inr off ↦ ground arith
  ]

  module _ (sem : Inner) (xs ys : List (Entry (SemaphoreWaiter P))) (h count : ℕ)
      (d : SemaphoreWaiter P) (f : SemaphoreWaiter P → P) (v : Good features p Q law sem.queue)
      (here : entries sem.queue ≡ xs ++ (h, d) ∷ ys) where
    -- `split_with_priority` and `split` on a holder: with fewer permits asked for than it has, a
    -- second holder with as many as asked for and the priority chosen is put where it belongs, the first
    -- keeps the rest in its place, the other entries are as they were, and what is available, what is
    -- out and the total stay; with as many or more, the error says what the holder has, and nothing
    -- changes.
    pub split_node_lem :
        d.waiter.has_lock ≡ true
        → ((count < count_of features d)
            × ((sem' : Inner) × (h' : ℕ) × (split_node features p Q sem h count f
                  ≡ some (split_off sem' h'))
                × Good features p Q law sem'.queue
                × (sem'.total ≡ sem.total)
                × (sem'.available ≡ sem.available)
                × (issued features (entries sem'.queue) ≡ issued features (entries sem.queue))
                × Moved
                    (semaphore_priority features p)
                    h'
                    (share (f d) count)
                    (xs ++ (h, record d { count = d.count - count }) ∷ ys)
                    (entries sem'.queue)
                × (count_of features (record d { count = d.count - count }) + count
                    ≡ count_of features d)))
          ⊎ ((count_of features d ≤ count)
              × ((sem' : Inner) × (split_node features p Q sem h count f
                    ≡ some (
                        insufficient sem'
                          (record { total = count_of features d; requested = count })))
                  × Good features p Q law sem'.queue
                  × (sem'.total ≡ sem.total)
                  × (sem'.available ≡ sem.available)
                  × (entries sem'.queue ≡ entries sem.queue)))
    split_node_lem held = elim (Bool-cases (ltb count (count_of features d))) [
      | inl l ↦
          let few : count < count_of features d = ground arith in
          let (q, u, e, v') =
            Q.update_node-false sem.queue xs ys h d (record d { count = d.count - count })
              (take_from features p Q count) v.valid here (take_from-few count d few) in
          let sorted =
            IsSorted-recount features p xs ys h (d.count - count) d
              (subst (IsSorted (semaphore_priority features p)) here v.sorted) in
          let w = queued features p Q law q (share (f d) count) (record {
            valid = v';
            sorted = subst (IsSorted (semaphore_priority features p)) (sym e) sorted;
          }) in
          inl (
            few,
            (
              _,
              _,
              split_node-off sem q h count d f few
                  (Q.get_by_handle_lem sem.queue xs ys h d v.valid here) u,
              w.good,
              refl,
              refl,
              omega (
                arith,
                w.weights,
                ap (issued features) e,
                ap (issued features) here,
                issued-insert features xs ys (h, d),
                issued-insert features xs ys (h, record d { count = d.count - count }),
                shares count d (f d) held few,
              ),
              subst
                  (λ es.
                    Moved (semaphore_priority features p) (Q.enqueue q (share (f d) count)).1
                      (share (f d) count) es (entries (Q.enqueue q (share (f d) count)).0))
                  e w.place,
              kept_share count d few,
            ),
          )
      | inr l ↦
          let many : count_of features d ≤ count = ground arith in
          let (q, u, e, v') =
            Q.update_node-false sem.queue xs ys h d d (take_from features p Q count) v.valid here
              (take_from-many count d many) in
          inr (
            many,
            (
              _,
              split_node-insufficient sem q h count d f many
                  (Q.get_by_handle_lem sem.queue xs ys h d v.valid here) u,
              record {
                valid = v';
                sorted =
                    subst (IsSorted (semaphore_priority features p)) (sym (e ∙ sym here)) v.sorted;
              },
              refl,
              refl,
              e ∙ sym here,
            ),
          )
    ]
