-- ===== src/Semaphore/RunTests.antt =====
-- Histories of `Semaphore`, and calls on two of its permits.
use async_priority_lock_rs.Base.{
  ℕ, ◌+◌, ◌-◌, ◌≤◌, ◌<◌, ◌≡◌, ◌⊎◌, inl, refl, true, false, Bool, none, some, List, [], ◌∷◌, ◌++◌,
  if◌then◌else◌, arith,
}
use async_priority_lock_rs.Priority.{highest_first}
use async_priority_lock_rs.Boxed.{BoxNode}
use async_priority_lock_rs.Boxed.Sample.{by_usize}
use async_priority_lock_rs.Boxed.Tests.{usize-IsLawful}
use async_priority_lock_rs.Queue.Order.{Entry, Moved, IsSorted}
use async_priority_lock_rs.Semaphore.{
  SemaphoreWaiter, semaphore_priority, max_permits, set_bit, clear_bit, usize_max, count_of,
}
use async_priority_lock_rs.Semaphore.Inner.{SemaphoreInner}
use async_priority_lock_rs.Semaphore.Acquire.{
  acquire_within_total, panics, refused, outcome, InsufficientPermitsError, error_total,
}
use async_priority_lock_rs.Semaphore.Permit.{done, drop_permit, forget, merge, merged}
use async_priority_lock_rs.Semaphore.Permit as Permit
use async_priority_lock_rs.Semaphore.Pool.{new}
use async_priority_lock_rs.Semaphore.Entries.{issued, pending, left}
use async_priority_lock_rs.Semaphore.Alike.{Same, Alike}
use async_priority_lock_rs.Semaphore.Grants.{request}
use async_priority_lock_rs.Semaphore.Waits.{poll_within_total, waiting, granted, evicted}
use async_priority_lock_rs.Semaphore.Waits.Polls.{poll_within_total_lem}
use async_priority_lock_rs.Semaphore.Granted.{Good}
use async_priority_lock_rs.Semaphore.Decision.{do_acquire_lem}
use async_priority_lock_rs.Semaphore.Forget.{forget_lem}
use async_priority_lock_rs.Semaphore.Merge.{merge_lem}
use async_priority_lock_rs.Semaphore.Within.{acquire_within_total_lem, will}
use async_priority_lock_rs.Semaphore.Balance.{Holds, Balanced, drop_permit-Balanced}
use async_priority_lock_rs.Semaphore.Run.{Reach, start, step, acquires, Reach-total}
use async_priority_lock_rs.Semaphore.Sample.{full, boxes, item_of, three, busy, waiters, busy-Good}

abbrev Full : Type 0
Full = SemaphoreInner full by_usize (boxes full)

busy-Balanced : Balanced full by_usize (boxes full) usize-IsLawful (busy full)
busy-Balanced = record { good = busy-Good full; balance = refl; bounded = omega arith }

abbrev first : Holds full by_usize (boxes full) usize-IsLawful (busy full) 1
first = record {
  at = record { front = []; back = waiters; item = item_of 5 true 3; place = refl };
  held = refl;
}

drop_permit-Balanced_example :
    (sem' : Full) × (drop_permit full by_usize (boxes full) (busy full) 1 ≡ some (done sem'))
    × Balanced full by_usize (boxes full) usize-IsLawful sem'
drop_permit-Balanced_example =
    drop_permit-Balanced full by_usize (boxes full) usize-IsLawful (busy full) 1 busy-Balanced first

new-Good : Good full by_usize (boxes full) usize-IsLawful (new full by_usize (boxes full) 8).queue
unfolding new
new-Good = record { valid = record { linked = tt; distinct = tt }; sorted = tt }

-- The semaphore of eight permits after a request for three.
abbrev after : Full
after =
    (do_acquire_lem full by_usize (boxes full) usize-IsLawful (new full by_usize (boxes full) 8) 5 3
      new-Good (inl refl)).inner'

after-Reach : Reach full by_usize (boxes full) usize-IsLawful 8 after
after-Reach =
    let r =
      do_acquire_lem full by_usize (boxes full) usize-IsLawful (new full by_usize (boxes full) 8) 5
        3 new-Good (inl refl) in
    step start (acquires 5 3 r.handle _ r.returned)

Reach-total_example :
    (after.available + issued full ((boxes full).entries after.queue) ≡ after.total)
    × (after.total ≤ usize_max)
    × IsSorted (semaphore_priority full by_usize) ((boxes full).entries after.queue)
Reach-total_example =
    Reach-total full by_usize (boxes full) usize-IsLawful refl 8 after (omega arith) after-Reach

forget_lem_example :
    (sem' : Full) × (forget full by_usize (boxes full) (busy full) 1 ≡ some sem')
    × Good full by_usize (boxes full) usize-IsLawful sem'.queue
    × (sem'.available ≡ 1)
    × (issued full ((boxes full).entries sem'.queue) + 3 ≡ issued full ((boxes full).entries three))
    × (sem'.total + 3 ≡ 4)
forget_lem_example =
    forget_lem full by_usize (boxes full) usize-IsLawful (busy full) [] waiters 1 (item_of 5 true 3)
      (busy-Good full) refl refl (omega arith) (omega arith)

-- Two holders, of three and two permits.
abbrev two : List (BoxNode (SemaphoreWaiter ℕ))
two =
    record { addr = 1; item = item_of 5 true 3; prev = none }
    ∷ record { addr = 2; item = item_of 4 true 2; prev = some 1 }
    ∷ []

abbrev pair : Full
pair = record { queue = two; total = 5; available = 0 }

pair-Good : Good full by_usize (boxes full) usize-IsLawful pair.queue
unfolding semaphore_priority highest_first
pair-Good = record {
  valid = record { linked = (refl, (refl, tt)); distinct = ((ground arith, tt), (tt, tt)) };
  sorted = ((refl, tt), (tt, tt));
}

merge_lem_example :
    ((5 ≤ max_permits)
      × ((sem' : Full) × (merge full by_usize (boxes full) pair 1 2 ≡ some (merged sem'))
          × Good full by_usize (boxes full) usize-IsLawful sem'.queue
          × (sem'.total ≡ 5)
          × (sem'.available ≡ 0)
          × (issued full ((boxes full).entries sem'.queue) ≡ issued full ((boxes full).entries two))
          × (n : ℕ) × (us' : List (Entry (SemaphoreWaiter ℕ))) × (vs' : List
              (Entry (SemaphoreWaiter ℕ)))
          × (count_of full (item_of 5 true n) ≡ 5)
          × ((1, item_of 5 true n) ∷ (2, item_of 4 true 2) ∷ []
              ≡ us' ++ (2, item_of 4 true 2) ∷ vs')
          × ((boxes full).entries sem'.queue ≡ us' ++ vs')))
    ⊎ ((max_permits < 5)
        × ((sem' : Full) × (merge full by_usize (boxes full) pair 1 2 ≡ some (Permit.refused sem'))
            × Good full by_usize (boxes full) usize-IsLawful sem'.queue
            × (sem'.total ≡ 5)
            × (sem'.available + issued full ((boxes full).entries sem'.queue)
                ≡ 0 + issued full ((boxes full).entries two))
            × (pending full ((boxes full).entries sem'.queue) ≡ [] ++ left full (0 + 2) [])))
merge_lem_example =
    merge_lem full by_usize (boxes full) usize-IsLawful pair [] ((2, item_of 4 true 2) ∷ [])
      ((1, item_of 5 true 3) ∷ []) [] 1 2 (item_of 5 true 3) (item_of 4 true 2) pair-Good
      (omega arith) refl refl refl refl (omega arith)

-- Whether a request for six gets them.
abbrev sixth : Bool
sixth = will full by_usize (boxes full) usize-IsLawful refl (busy full) 7 6 (busy-Good full)

acquire_within_total_lem_example :
    ((max_permits ≤ 6)
      × (acquire_within_total full by_usize (boxes full) (busy full) 7 6 ≡ some panics))
    ⊎ (((6 < max_permits)
          × (4 < 6)
          × (acquire_within_total full by_usize (boxes full) (busy full) 7 6
              ≡ some (refused (record { total = 4; requested = 6 }))))
        ⊎ ((inner' : Full) × (handle : ℕ) × (6 < max_permits)
            × (6 ≤ 4)
            × (clear_bit (set_bit 6) ≡ 6)
            × (acquire_within_total full by_usize (boxes full) (busy full) 7 6
                ≡ some (outcome full by_usize (boxes full) (inner', handle, sixth)))
            × Good full by_usize (boxes full) usize-IsLawful inner'.queue
            × (inner'.total ≡ 4)
            × (inner'.available ≡ (if sixth then 1 - 6 else 1))
            × (inner'.available + issued full ((boxes full).entries inner'.queue)
                ≡ 1 + issued full ((boxes full).entries three))
            × (others : List (Entry (SemaphoreWaiter ℕ))) × Alike
                ((boxes full).entries three)
                others
            × Moved
                (semaphore_priority full by_usize)
                handle
                (request full by_usize (boxes full) usize-IsLawful 7 sixth (set_bit 6))
                others
                ((boxes full).entries inner'.queue)))
acquire_within_total_lem_example =
    acquire_within_total_lem full by_usize (boxes full) usize-IsLawful refl (busy full) 7 6
      (busy-Good full)

abbrev two_first : List (Entry (SemaphoreWaiter ℕ))
two_first = (1, item_of 5 true 3) ∷ (2, item_of 9 false 4) ∷ []

-- The third entry waits, not evicted.
poll_within_total_lem_example :
    ((false ≡ true)
      × (sem' : Full) × (d' : SemaphoreWaiter ℕ) × (poll_within_total full by_usize
            (boxes full)
            (busy full)
            3
            7
            1
          ≡ some (granted sem'))
      × (sem'.available ≡ 1)
      × (sem'.total ≡ 4)
      × ((boxes full).entries sem'.queue ≡ two_first ++ (3, d') ∷ [])
      × Same (item_of 4 false 1) d'
      × (d'.waiter.waker ≡ none))
    ⊎ (((false ≡ false)
          × (false ≡ true)
          × (sem' : Full) × (e : InsufficientPermitsError) × (poll_within_total full by_usize
                (boxes full)
                (busy full)
                3
                7
                1
              ≡ some (evicted sem' e))
          × (error_total e ≡ none)
          × (e.requested ≡ 1)
          × Good full by_usize (boxes full) usize-IsLawful sem'.queue
          × (sem'.total ≡ 4)
          × (sem'.available + issued full ((boxes full).entries sem'.queue)
              ≡ 1 + issued full ((boxes full).entries three))
          × (pending full ((boxes full).entries sem'.queue) ≡ (2, item_of 9 false 4) ∷ []))
        ⊎ ((false ≡ false)
            × (false ≡ false)
            × (sem' : Full) × (d' : SemaphoreWaiter ℕ) × (poll_within_total full by_usize
                  (boxes full)
                  (busy full)
                  3
                  7
                  1
                ≡ some (waiting sem'))
            × (sem'.available ≡ 1)
            × (sem'.total ≡ 4)
            × ((boxes full).entries sem'.queue ≡ two_first ++ (3, d') ∷ [])
            × Same (item_of 4 false 1) d'
            × (d'.waiter.waker ≡ some 7)))
poll_within_total_lem_example =
    poll_within_total_lem full by_usize (boxes full) usize-IsLawful (busy full) two_first [] 3 7 1
      (item_of 4 false 1) (busy-Good full) refl (omega arith)
