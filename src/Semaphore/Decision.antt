-- ===== src/Semaphore/Decision.antt =====
-- `do_acquire` on all its branches, who is let in, and who is let past.
use async_priority_lock_rs.Base.{
  ℕ, ◌+◌, ◌≡◌, inl, inr, refl, sym, ap, ◌∙◌, subst, Bool, true, false, ◌&&◌, none, some, arith,
  if◌then◌else◌, leb, Bool-cases, ◌>>=◌,
}
use async_priority_lock_rs.Priority.{Priority}
use async_priority_lock_rs.Priority.Laws.{IsLawful}
use async_priority_lock_rs.Queue.{PriorityQueue, iter}
use async_priority_lock_rs.Queue.Order.{items, visit, Moved}
use async_priority_lock_rs.Semaphore.{Features, SemaphoreWaiter, clear_bit, semaphore_priority}
use async_priority_lock_rs.Semaphore.Inner.{SemaphoreInner}
use async_priority_lock_rs.Semaphore.Acquire.{
  skips, evict_lower, scan, enter, evict_holders, acquire_available, acquire_short, do_acquire,
}
use async_priority_lock_rs.Semaphore.Entries.{issued}
use async_priority_lock_rs.Semaphore.Alike.{Alike-refl, visit-Alike, Moved-visit}
use async_priority_lock_rs.Semaphore.Granted.{Good}
use async_priority_lock_rs.Semaphore.Grants.{
  marked, may_acquire, scan-some, Entered, IsCount, enter-good, enter-total, enter-conserved,
  enter-placed, enter-taken, request, evict_lower-request, evict_lower-Same,
}

module _ {P : Type 0} (features : Features) (p : Priority P)
    (Q : PriorityQueue (semaphore_priority features p)) (law : IsLawful p) where
  open Q use {Queue, entries, IsValid, for_each, enqueue}

  abbrev Inner : Type 0
  Inner = SemaphoreInner features p Q

  abbrev entered : Inner → Queue → P → ℕ → Bool → Inner × ℕ
  entered = enter features p Q

  acquire_available-eq :
      (inner : Inner) (q : Queue) (priority : P) (count : ℕ) (will : Bool)
      → scan features p Q inner.queue priority ≡ some (q, will)
      → acquire_available features p Q inner priority count
        ≡ some
            ((entered inner q priority count will).0, (entered inner q priority count will).1, will)
  unfolding acquire_available
  acquire_available-eq inner q priority count will e = rw (e, ◌>>=◌) refl

  evict_holders-eq :
      (inner : Inner) (q : Queue) (priority : P)
      → for_each inner.queue none (λ x. (evict_lower features p Q priority x, true)) ≡ some q
      → evict_holders features p Q inner priority ≡ some (record inner { queue = q })
  unfolding evict_holders
  evict_holders-eq inner q priority e = rw (e, ◌>>=◌) refl

  acquire_short-evict :
      (inner inner' : Inner) (priority : P) (count : ℕ)
      → features.evict ≡ true
      → evict_holders features p Q (entered inner inner.queue priority count false).0 priority
        ≡ some inner'
      → acquire_short features p Q inner priority count
        ≡ some (inner', (entered inner inner.queue priority count false).1, false)
  unfolding acquire_short
  acquire_short-evict inner inner' priority count on e = ground arith

  acquire_short-plain :
      (inner : Inner) (priority : P) (count : ℕ)
      → features.evict ≡ false
      → acquire_short features p Q inner priority count
        ≡ some (
          (entered inner inner.queue priority count false).0,
          (entered inner inner.queue priority count false).1,
          false,
        )
  unfolding acquire_short
  acquire_short-plain inner priority count off = ground arith

  module _ (inner : Inner) (priority : P) (count : ℕ) (v : Good features p Q law inner.queue)
      (c : IsCount features p Q law count) where
    abbrev pub enough : Bool
    enough = leb (clear_bit count) inner.available

    -- The request takes its permits now.
    abbrev pub will_acquire : Bool
    will_acquire = enough && may_acquire features p Q law (items (entries inner.queue)) priority

    available_lem :
        enough ≡ true
        → Entered features p Q law inner priority count
            (may_acquire features p Q law (items (entries inner.queue)) priority)
            (acquire_available features p Q inner priority count)
    available_lem fits =
        let m =
          marked features p Q law (λ x. (evict_lower features p Q priority x, skips features p Q x))
            inner.queue (evict_lower-Same features p Q law priority) v in
        let will = may_acquire features p Q law (items (entries inner.queue)) priority in
        record {
          inner' = (entered inner m.queue priority count will).0;
          handle = (entered inner m.queue priority count will).1;
          returned = acquire_available-eq inner m.queue priority count will (
              scan-some features p Q law inner.queue m.queue priority (items (entries inner.queue))
                (unfold iter in Q.iter_at-none inner.queue v.valid) m.returned);
          others = entries m.queue;
          alike = m.alike;
          placed = enter-placed features p Q law inner m.queue priority count will m.good;
          taken = enter-taken features p Q law inner m.queue priority count will;
          good = enter-good features p Q law inner m.queue priority count will m.good;
          total = enter-total features p Q law inner m.queue priority count will;
          conserved =
              enter-conserved features p Q law inner m.queue priority count will m.good c
                (λ _. ground arith)
              ∙ ap (λ n. inner.available + n) m.weights;
        }

    short_lem :
        enough ≡ false
        → Entered features p Q law inner priority count false
            (acquire_short features p Q inner priority count)
    short_lem none_fit = elim (Bool-cases features.evict) [
      | inr off ↦ record {
        inner' = put.0;
        handle = put.1;
        returned = acquire_short-plain inner priority count off;
        others = entries inner.queue;
        alike = Alike-refl (entries inner.queue);
        placed = put-placed;
        taken = put-taken;
        good = put-good;
        total = put-total;
        conserved = put-conserved;
      }
      | inl on ↦
          let f : SemaphoreWaiter P → SemaphoreWaiter P × Bool =
            λ x. (evict_lower features p Q priority x, true) in
          let m =
            marked features p Q law f put.0.queue (evict_lower-Same features p Q law priority)
              put-good in
          record {
            inner' = record put.0 { queue = m.queue };
            handle = put.1;
            returned =
                acquire_short-evict inner _ priority count on
                  (evict_holders-eq put.0 m.queue priority m.returned);
            others = visit f (entries inner.queue);
            alike =
                visit-Alike f (evict_lower-Same features p Q law priority) (entries inner.queue);
            placed =
                subst
                  (Moved (semaphore_priority features p) put.1
                    (request features p Q law priority false count) (visit f (entries inner.queue)))
                  (sym m.seen)
                  (Moved-visit features p (evict_lower features p Q priority) put.1 _
                    (entries inner.queue) (entries put.0.queue)
                    (evict_lower-Same features p Q law priority)
                    (evict_lower-request features p Q law priority count) put-placed);
            taken = put-taken;
            good = m.good;
            total = put-total;
            conserved = ap (λ n. put.0.available + n) m.weights ∙ put-conserved;
          }
    ]
      where
        put : Inner × ℕ
        put = entered inner inner.queue priority count false

        put-good : Good features p Q law (entered inner inner.queue priority count false).0.queue
        put-good = enter-good features p Q law inner inner.queue priority count false v

        put-placed :
            Moved
              (semaphore_priority features p)
              (entered inner inner.queue priority count false).1
              (request features p Q law priority false count)
              (entries inner.queue)
              (entries (entered inner inner.queue priority count false).0.queue)
        put-placed = enter-placed features p Q law inner inner.queue priority count false v

        put-taken : (entered inner inner.queue priority count false).0.available ≡ inner.available
        put-taken = enter-taken features p Q law inner inner.queue priority count false

        put-total : (entered inner inner.queue priority count false).0.total ≡ inner.total
        put-total = enter-total features p Q law inner inner.queue priority count false

        put-conserved :
            (entered inner inner.queue priority count false).0.available
              + issued features (entries (entered inner inner.queue priority count false).0.queue)
            ≡ inner.available + issued features (entries inner.queue)
        put-conserved =
            enter-conserved features p Q law inner inner.queue priority count false v c (λ e. cc)

    enough-do_acquire :
        (b : Bool)
        → enough ≡ b
        → do_acquire features p Q inner priority count ≡ (
            if b
            then acquire_available features p Q inner priority count
            else acquire_short features p Q inner priority count)
    unfolding do_acquire
    enough-do_acquire b e =
        ap
          (λ c.
            if c
            then acquire_available features p Q inner priority count
            else acquire_short features p Q inner priority count)
          e

    -- On a sorted queue and with a count below the flag bit, or with `semaphore-total`,
    -- `do_acquire` always returns. It lets the request in exactly when enough permits are available and
    -- the scan finds no higher pending request. Its entry, with the priority and the count asked for, is
    -- in the queue in either case, as a holder or as a waiter, behind no lower and before no higher
    -- entry; the others are as they were but for eviction flags and wakers. What is available falls by the
    -- count if the request is let in and stays otherwise, what is available and what is out keep their
    -- sum, the total stays, and the queue stays well formed and sorted.
    pub do_acquire_lem :
        Entered features p Q law inner priority count will_acquire
          (do_acquire features p Q inner priority count)
    do_acquire_lem = elim (Bool-cases enough) [
      | inl fits ↦
          let may = may_acquire features p Q law (items (entries inner.queue)) priority in
          subst
            (λ b.
              Entered features p Q law inner priority count (b && may)
                (do_acquire features p Q inner priority count))
            (sym fits)
            (subst (Entered features p Q law inner priority count may)
              (sym (enough-do_acquire true fits)) (available_lem fits))
      | inr none_fit ↦
          let may = may_acquire features p Q law (items (entries inner.queue)) priority in
          subst
            (λ b.
              Entered features p Q law inner priority count (b && may)
                (do_acquire features p Q inner priority count))
            (sym none_fit)
            (subst (Entered features p Q law inner priority count false)
              (sym (enough-do_acquire false none_fit)) (short_lem none_fit))
    ]
