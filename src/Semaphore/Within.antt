-- ===== src/Semaphore/Within.antt =====
-- `acquire_within_total` of src/semaphore.rs, on all its branches.
use async_priority_lock_rs.Base.{
  ℕ, ◌+◌, ◌-◌, ap, ◌∙◌, List, if◌then◌else◌, ◌≤◌, ◌<◌, ◌≡◌, ◌⊎◌, inl, inr, refl, Bool, true, false,
  some, arith, ltb, Bool-cases,
}
use async_priority_lock_rs.Priority.{Priority}
use async_priority_lock_rs.Priority.Laws.{IsLawful}
use async_priority_lock_rs.Queue.{PriorityQueue}
use async_priority_lock_rs.Queue.Order.{Entry, Moved}
use async_priority_lock_rs.Semaphore.Alike.{Alike}
use async_priority_lock_rs.Semaphore.Grants.{request}
use async_priority_lock_rs.Semaphore.{
  Features, SemaphoreWaiter, semaphore_priority, max_permits, set_bit, clear_bit,
}
use async_priority_lock_rs.Semaphore.Inner.{SemaphoreInner}
use async_priority_lock_rs.Semaphore.Acquire.{
  do_acquire, acquire_within_total, panics, refused, outcome,
}
use async_priority_lock_rs.Semaphore.Entries.{issued}
use async_priority_lock_rs.Semaphore.Granted.{Good}
use async_priority_lock_rs.Semaphore.Decision.{will_acquire, do_acquire_lem}

module _ {P : Type 0} (features : Features) (p : Priority P)
    (Q : PriorityQueue (semaphore_priority features p)) (law : IsLawful p) where
  open Q use {Queue, entries}

  abbrev Inner : Type 0
  Inner = SemaphoreInner features p Q

  within-panics :
      (inner : Inner) (priority : P) (count : ℕ)
      → max_permits ≤ count
      → acquire_within_total features p Q inner priority count ≡ some panics
  unfolding acquire_within_total
  within-panics inner priority count big =
      let l : ltb count max_permits ≡ false = ground arith in rw (l) refl

  within-refused :
      (inner : Inner) (priority : P) (count : ℕ)
      → count < max_permits
      → inner.total < count
      → acquire_within_total features p Q inner priority count
        ≡ some (refused (record { total = inner.total; requested = count }))
  unfolding acquire_within_total
  within-refused inner priority count small much =
      let l : ltb count max_permits ≡ true = ground arith in
      let m : ltb inner.total count ≡ true = ground arith in rw (l, m) refl

  within-enters :
      (inner inner' : Inner) (priority : P) (count handle : ℕ) (will : Bool)
      → count < max_permits
      → count ≤ inner.total
      → do_acquire features p Q inner priority (set_bit count) ≡ some (inner', handle, will)
      → acquire_within_total features p Q inner priority count
        ≡ some (outcome features p Q (inner', handle, will))
  unfolding acquire_within_total
  within-enters inner inner' priority count handle will small covered e =
      let l : ltb count max_permits ≡ true = ground arith in
      let m : ltb inner.total count ≡ false = ground arith in rw (l, m, e) refl

  module _ (on : features.semaphore_total ≡ true) (inner : Inner) (priority : P) (count : ℕ)
      (v : Good features p Q law inner.queue) where
    abbrev pub will : Bool
    will = will_acquire features p Q law inner priority (set_bit count) v (inl on)

    -- With `semaphore-total` and on a sorted queue, `acquire_within_total` panics on a count of the
    -- maximum or more, and refuses one above the total, with both numbers in the error and nothing
    -- changed. Any other count it enters, up to its return or its await: the bit that marks it counts for
    -- nothing, its entry is in the queue where it belongs, as a holder or as a waiter, the others are as
    -- they were but for eviction flags and wakers, what is available falls by `count` if it is let in and
    -- stays otherwise, what is available and what is out keep their sum, and the total stays.
    pub acquire_within_total_lem :
        ((max_permits ≤ count)
          × (acquire_within_total features p Q inner priority count ≡ some panics))
        ⊎ (((count < max_permits)
              × (inner.total < count)
              × (acquire_within_total features p Q inner priority count
                  ≡ some (refused (record { total = inner.total; requested = count }))))
            ⊎ ((inner' : Inner) × (handle : ℕ) × (count < max_permits)
                × (count ≤ inner.total)
                × (clear_bit (set_bit count) ≡ count)
                × (acquire_within_total features p Q inner priority count
                    ≡ some (outcome features p Q (inner', handle, will)))
                × Good features p Q law inner'.queue
                × (inner'.total ≡ inner.total)
                × (inner'.available ≡ (if will then inner.available - count else inner.available))
                × (inner'.available + issued features (entries inner'.queue)
                    ≡ inner.available + issued features (entries inner.queue))
                × (others : List (Entry (SemaphoreWaiter P))) × Alike (entries inner.queue) others
                × Moved
                    (semaphore_priority features p)
                    handle
                    (request features p Q law priority will (set_bit count))
                    others
                    (entries inner'.queue)))
    acquire_within_total_lem = elim (Bool-cases (ltb count max_permits)) [
      | inr l ↦
          let big : max_permits ≤ count = ground arith in
          inl (big, within-panics inner priority count big)
      | inl l ↦ elim (Bool-cases (ltb inner.total count)) [
        | inl m ↦
            let small : count < max_permits = ground arith in
            let much : inner.total < count = ground arith in
            inr (inl (small, much, within-refused inner priority count small much))
        | inr m ↦
            let small : count < max_permits = ground arith in
            let covered : count ≤ inner.total = ground arith in
            let cleared : clear_bit (set_bit count) ≡ count = ground arith in
            let r = do_acquire_lem features p Q law inner priority (set_bit count) v (inl on) in
            inr (
              inr (
                r.inner',
                r.handle,
                small,
                covered,
                cleared,
                within-enters inner r.inner' priority count r.handle will small covered r.returned,
                r.good,
                r.total,
                r.taken ∙ ap (λ n. if will then inner.available - n else inner.available) cleared,
                r.conserved,
                r.others,
                r.alike,
                r.placed,
              ))
      ]
    ]
