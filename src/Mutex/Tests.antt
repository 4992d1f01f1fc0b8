-- ===== src/Mutex/Tests.antt =====
-- Runs of `Mutex` on a holder of priority 5 and two waiters of priority 9 and 4.
use async_priority_lock_rs.Base.{
  ℕ, ◌≡◌, ◌≢◌, ◌⊎◌, refl, true, false, none, some, List, [], ◌∷◌, arith,
}
use async_priority_lock_rs.Waiter
use async_priority_lock_rs.Waiter.{
  Waiter, Flags, Poll, lock_flag, wait_for_flag, ready, flags, has_any, pending, add_flag,
}
use async_priority_lock_rs.Queue.{is_empty, iter}
use async_priority_lock_rs.Boxed.{iter_at, enqueue, insert}
use async_priority_lock_rs.Queue.Order.{Entry, Enqueued}
use async_priority_lock_rs.Boxed.Sample.{by_usize}
use async_priority_lock_rs.Boxed.Tests.{usize-IsLawful}
use async_priority_lock_rs.Mutex.{
  MutexWaiter, mutex_priority, new_waiter, try_lock, lock, drop_guard,
}
use async_priority_lock_rs.Mutex.Cancel.{cancel_lem}
use async_priority_lock_rs.Mutex.{cancel}
use async_priority_lock_rs.Mutex.Invariant.{Inv, lock_lem, try_lock_lem, asked}
use async_priority_lock_rs.Mutex.Release.{started, drop_guard-holder}
use async_priority_lock_rs.Mutex.Run.{
  start, step, Step, try_locks, holders, Reach-exclusive, drain, drain_lem,
}
use async_priority_lock_rs.Mutex.Sample.{boxes, item_of, node_of, three, three-Inv}
open boxes use {Queue, entries}

drain_lem_example :
    (q' : Queue) × (drain by_usize boxes 3 three ≡ some (q', 1 ∷ 2 ∷ 3 ∷ [])) × (entries q' ≡ [])
drain_lem_example = drain_lem by_usize boxes 3 three (entries three) three-Inv refl (omega arith)

lock_lem_example :
    ((entries three ≡ [])
      × (q' : Queue) × (h : ℕ) × (lock by_usize boxes true three 7 ≡ some (q', h, true))
      × (entries q' ≡ (h, new_waiter 7 true) ∷ [])
      × Inv by_usize boxes q')
    ⊎ ((h0 : ℕ) × (d0 : MutexWaiter ℕ) × (xs : List (Entry (MutexWaiter ℕ))) × (entries three
          ≡ (h0, d0) ∷ xs)
        × (q' : Queue) × (h : ℕ) × (lock by_usize boxes true three 7 ≡ some (q', h, false))
        × Enqueued
            (mutex_priority by_usize)
            h
            (new_waiter 7 false)
            ((h0, asked by_usize boxes usize-IsLawful true 7 d0) ∷ [])
            xs
            (entries q')
        × Inv by_usize boxes q')
lock_lem_example = lock_lem by_usize boxes usize-IsLawful true three 7 three-Inv

try_lock_lem_example :
    ((entries three ≡ [])
      × (q' : Queue) × (h : ℕ) × (try_lock by_usize boxes three 7 ≡ some (q', some h))
      × (entries q' ≡ (h, new_waiter 7 true) ∷ [])
      × Inv by_usize boxes q')
    ⊎ ((entries three ≢ []) × (try_lock by_usize boxes three 7 ≡ some (three, none)))
try_lock_lem_example = try_lock_lem by_usize boxes usize-IsLawful three 7 three-Inv

drop_guard-holder_example :
    (q' : Queue) × (drop_guard by_usize boxes three 1 ≡ some q')
    × (entries q' ≡ started by_usize boxes ((2, item_of 9 false) ∷ (3, item_of 4 false) ∷ []))
    × Inv by_usize boxes q'
drop_guard-holder_example =
    drop_guard-holder by_usize boxes three 1 (item_of 5 true)
      ((2, item_of 9 false) ∷ (3, item_of 4 false) ∷ []) three-Inv refl

-- The mutex after a first `try_lock`.
abbrev taken : Queue
taken = node_of 1 5 true none ∷ []

takes : try_lock by_usize boxes boxes.default 5 ≡ some (taken, some 1)
unfolding try_lock new_waiter Waiter.new is_empty iter iter_at enqueue insert
takes = refl

takes-Step : Step by_usize boxes true boxes.default taken
takes-Step = try_locks 5 (some 1) takes

Reach-exclusive_example : holders by_usize boxes (entries taken) ≡ 1
Reach-exclusive_example =
    Reach-exclusive by_usize boxes true taken usize-IsLawful (step start takes-Step)

cancel_lem_example :
    (q' : Queue) × (cancel by_usize boxes three 2 ≡ some q')
    × (entries q' ≡ (1, item_of 5 true) ∷ (3, item_of 4 false) ∷ [])
    × Inv by_usize boxes q'
cancel_lem_example =
    cancel_lem by_usize boxes three ((1, item_of 5 true) ∷ []) ((3, item_of 4 false) ∷ []) 2
      (item_of 9 false) three-Inv refl
