-- ===== src/Semaphore/Tests.antt =====
-- Runs of `Semaphore` on a holder of three permits and two waiters.
use async_priority_lock_rs.Base.{
  ℕ, ◌+◌, ◌≤◌, ◌<◌, ◌≡◌, ◌⊎◌, inl, inr, refl, Bool, true, false, some, [], ◌∷◌, ◌++◌, arith, All,
}
use async_priority_lock_rs.Boxed.Sample.{by_usize}
use async_priority_lock_rs.Boxed.Tests.{usize-IsLawful}
use async_priority_lock_rs.Queue.Order.{Moved}
use async_priority_lock_rs.Semaphore.{usize_max, semaphore_priority}
use async_priority_lock_rs.Semaphore.Inner.{SemaphoreInner, activate_waiters}
use async_priority_lock_rs.Semaphore.Acquire.{do_acquire, first_pending}
use async_priority_lock_rs.Semaphore.Permit.{
  done, drop_permit, drop_waiter, split_off, insufficient, split_node,
}
use async_priority_lock_rs.Semaphore.Pool.{added, overflow, try_add_permits, forget_permits}
use async_priority_lock_rs.Semaphore.Entries.{issued, pending, left, Blocked}
use async_priority_lock_rs.Semaphore.Granted.{Good}
use async_priority_lock_rs.Semaphore.Activate.{Activated, activate_waiters_lem}
use async_priority_lock_rs.Semaphore.Release.{drop_permit_lem}
use async_priority_lock_rs.Semaphore.Grants.{Entered}
use async_priority_lock_rs.Semaphore.Decision.{will_acquire, do_acquire_lem}
use async_priority_lock_rs.Semaphore.Overtake.{do_acquire-no_overtake, do_acquire-barges, NotHigher}
use async_priority_lock_rs.Semaphore.Leave.{drop_waiter_lem}
use async_priority_lock_rs.Semaphore.Growth.{try_add_permits_lem, forget_permits_lem}
use async_priority_lock_rs.Semaphore.Shares.{split_node_lem, share}
use async_priority_lock_rs.Semaphore.Sample.{
  full, plain, boxes, item_of, three, busy, roomy, waiters, busy-Good, roomy-Good, holder_alone,
}

abbrev Plain : Type 0
Plain = SemaphoreInner plain by_usize (boxes plain)

abbrev Full : Type 0
Full = SemaphoreInner full by_usize (boxes full)

drop_permit_lem_example :
    (sem' : Plain) × (drop_permit plain by_usize (boxes plain) (busy plain) 1 ≡ some (done sem'))
    × Good plain by_usize (boxes plain) usize-IsLawful sem'.queue
    × (sem'.total ≡ 4)
    × (sem'.available + issued plain ((boxes plain).entries sem'.queue)
        ≡ 1 + issued plain ((boxes plain).entries three))
    × (pending plain ((boxes plain).entries sem'.queue) ≡ left plain 4 waiters)
    × Blocked plain sem'.available (left plain 4 waiters)
drop_permit_lem_example =
    drop_permit_lem plain by_usize (boxes plain) usize-IsLawful (busy plain) [] waiters 1
      (item_of 5 true 3) (busy-Good plain) refl refl (omega arith)

activate_waiters_lem_example :
    Activated plain by_usize
      (boxes plain)
      usize-IsLawful
      (busy plain)
      ((1, item_of 5 true 3) ∷ [])
      waiters
      (activate_waiters plain by_usize (boxes plain) 2 (busy plain) (some 2))
activate_waiters_lem_example =
    activate_waiters_lem plain by_usize (boxes plain) usize-IsLawful 2 waiters
      ((1, item_of 5 true 3) ∷ []) (busy plain) (busy-Good plain) refl (omega arith)

do_acquire_lem_example :
    Entered plain by_usize
      (boxes plain)
      usize-IsLawful
      (busy plain)
      7
      1
      (will_acquire plain by_usize
        (boxes plain)
        usize-IsLawful
        (busy plain)
        7
        1
        (busy-Good plain)
        (inr (omega arith)))
      (do_acquire plain by_usize (boxes plain) (busy plain) 7 1)
do_acquire_lem_example =
    do_acquire_lem plain by_usize (boxes plain) usize-IsLawful (busy plain) 7 1 (busy-Good plain)
      (inr (omega arith))

drop_waiter_lem_example :
    (sem' : Plain) × (drop_waiter plain by_usize (boxes plain) (busy plain) 2 ≡ some sem')
    × Good plain by_usize (boxes plain) usize-IsLawful sem'.queue
    × (sem'.total ≡ 4)
    × (sem'.available + issued plain ((boxes plain).entries sem'.queue)
        ≡ 1 + issued plain ((boxes plain).entries three))
    × (pending plain ((boxes plain).entries sem'.queue)
        ≡ [] ++ left plain 1 ((3, item_of 4 false 1) ∷ []))
drop_waiter_lem_example =
    drop_waiter_lem plain by_usize (boxes plain) usize-IsLawful (busy plain)
      ((1, item_of 5 true 3) ∷ []) ((3, item_of 4 false 1) ∷ []) 2 (item_of 9 false 4)
      (busy-Good plain) refl (omega arith)

try_add_permits_lem_example :
    ((usize_max < 1 + 3)
      × (try_add_permits plain by_usize (boxes plain) (busy plain) 3 ≡ some overflow))
    ⊎ ((sem' : Plain) × (1 + 3 ≤ usize_max)
        × (try_add_permits plain by_usize (boxes plain) (busy plain) 3
            ≡ some (added sem' sem'.available))
        × Good plain by_usize (boxes plain) usize-IsLawful sem'.queue
        × (sem'.total ≡ 4)
        × (sem'.available + issued plain ((boxes plain).entries sem'.queue)
            ≡ 1 + 3 + issued plain ((boxes plain).entries three))
        × (pending plain ((boxes plain).entries sem'.queue)
            ≡ left plain (1 + 3) ((boxes plain).entries three))
        × Blocked plain sem'.available (left plain (1 + 3) ((boxes plain).entries three)))
try_add_permits_lem_example =
    try_add_permits_lem plain by_usize (boxes plain) usize-IsLawful (busy plain) 3 (busy-Good plain)
      (omega arith)

forget_permits_lem_example :
    (sem' : Full) × (forget_permits full by_usize (boxes full) (busy full) 7 ≡ some (sem', 1))
    × Good full by_usize (boxes full) usize-IsLawful sem'.queue
    × (sem'.available + 1 ≡ 1)
    × (issued full ((boxes full).entries sem'.queue) ≡ issued full ((boxes full).entries three))
    × (sem'.total + 1 ≡ 4)
forget_permits_lem_example =
    forget_permits_lem full by_usize (boxes full) usize-IsLawful (busy full) 7 (busy-Good full)
      (λ _. omega arith) (omega arith)

split_node_lem_example :
    ((2 < 3)
      × ((sem' : Plain) × (h' : ℕ) × (split_node plain by_usize
              (boxes plain)
              (busy plain)
              1
              2
              (λ _. 6)
            ≡ some (split_off sem' h'))
          × Good plain by_usize (boxes plain) usize-IsLawful sem'.queue
          × (sem'.total ≡ 4)
          × (sem'.available ≡ 1)
          × (issued plain ((boxes plain).entries sem'.queue)
              ≡ issued plain ((boxes plain).entries three))
          × Moved
              (semaphore_priority plain by_usize)
              h'
              (share plain by_usize (boxes plain) usize-IsLawful 6 2)
              ((1, item_of 5 true 1) ∷ waiters)
              ((boxes plain).entries sem'.queue)
          × (1 + 2 ≡ 3)))
    ⊎ ((3 ≤ 2)
        × ((sem' : Plain) × (split_node plain by_usize (boxes plain) (busy plain) 1 2 (λ _. 6)
              ≡ some (insufficient sem' (record { total = 3; requested = 2 })))
            × Good plain by_usize (boxes plain) usize-IsLawful sem'.queue
            × (sem'.total ≡ 4)
            × (sem'.available ≡ 1)
            × ((boxes plain).entries sem'.queue ≡ (boxes plain).entries three)))
split_node_lem_example =
    split_node_lem plain by_usize (boxes plain) usize-IsLawful (busy plain) [] waiters 1 2
      (item_of 5 true 3) (λ _. 6) (busy-Good plain) refl refl

do_acquire-barges_example :
    (inner' : Full) × (handle : ℕ) × (do_acquire full by_usize (boxes full) (busy full) 2 1
      ≡ some (inner', handle, true))
do_acquire-barges_example =
    do_acquire-barges full by_usize (boxes full) usize-IsLawful (busy full) 2 1 (busy-Good full)
      (inl refl) refl (refl, (refl, tt)) (omega arith)

-- A request for two of the five permits that are available, with nobody waiting.
abbrev entered : Plain × ℕ × Bool
entered =
    let r =
      do_acquire_lem plain by_usize (boxes plain) usize-IsLawful (roomy plain) 7 2
        (roomy-Good plain) (inr (omega arith)) in
    (r.inner', r.handle, true)

do_acquire-no_overtake_example :
    (2 ≤ 5)
    × All
        (NotHigher plain by_usize (boxes plain) usize-IsLawful 7)
        (pending plain ((boxes plain).entries holder_alone))
unfolding first_pending
do_acquire-no_overtake_example =
    do_acquire-no_overtake plain by_usize (boxes plain) usize-IsLawful (roomy plain) 7 2
      (roomy-Good plain) (inr (omega arith)) entered.0 entered.1 refl
      (do_acquire_lem plain by_usize (boxes plain) usize-IsLawful (roomy plain) 7 2
        (roomy-Good plain) (inr (omega arith))).returned
