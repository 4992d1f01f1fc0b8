-- ===== src/Semaphore/Sample.antt =====
-- A semaphore over `BoxQueue` with `usize` priorities, for the tests: a holder and two waiters.
use async_priority_lock_rs.Base.{
  ℕ, refl, true, false, Bool, Option, none, some, List, [], ◌∷◌, arith,
}
use async_priority_lock_rs.Priority.{highest_first}
use async_priority_lock_rs.Queue.{PriorityQueue}
use async_priority_lock_rs.Queue.Order.{Entry}
use async_priority_lock_rs.Boxed.{BoxNode}
use async_priority_lock_rs.Boxed.Implementation.{box_queue}
use async_priority_lock_rs.Boxed.Sample.{bump, by_usize}
use async_priority_lock_rs.Boxed.Tests.{usize-IsLawful}
use async_priority_lock_rs.Mutex.Sample.{waiter_of}
use async_priority_lock_rs.Semaphore.{Features, SemaphoreWaiter, semaphore_priority}
use async_priority_lock_rs.Semaphore.Inner.{SemaphoreInner}
use async_priority_lock_rs.Semaphore.Granted.{Good}

-- With `semaphore-total`, and without it.
abbrev pub full : Features
full = record { evict = true; semaphore_total = true }

abbrev pub plain : Features
plain = record { evict = true; semaphore_total = false }

abbrev pub boxes : (features : Features) → PriorityQueue (semaphore_priority features by_usize)
boxes features = box_queue (semaphore_priority features by_usize) true bump

abbrev pub item_of : ℕ → Bool → ℕ → SemaphoreWaiter ℕ
item_of priority held count = record { priority = priority; waiter = waiter_of held; count = count }

abbrev node_of : ℕ → SemaphoreWaiter ℕ → Option ℕ → BoxNode (SemaphoreWaiter ℕ)
node_of a d prev = record { addr = a; item = d; prev = prev }

abbrev pub three : List (BoxNode (SemaphoreWaiter ℕ))
three =
    node_of 1 (item_of 5 true 3) none
    ∷ node_of 2 (item_of 9 false 4) (some 1)
    ∷ node_of 3 (item_of 4 false 1) (some 2)
    ∷ []

abbrev pub holder_alone : List (BoxNode (SemaphoreWaiter ℕ))
holder_alone = node_of 1 (item_of 5 true 3) none ∷ []

-- One permit is available, three are out; the waiters want four and one.
abbrev pub busy : (features : Features) → SemaphoreInner features by_usize (boxes features)
busy features = record { queue = three; total = 4; available = 1 }

abbrev pub roomy : (features : Features) → SemaphoreInner features by_usize (boxes features)
roomy features = record { queue = holder_alone; total = 8; available = 5 }

abbrev pub waiters : List (Entry (SemaphoreWaiter ℕ))
waiters = (2, item_of 9 false 4) ∷ (3, item_of 4 false 1) ∷ []

pub busy-Good :
    (features : Features)
    → Good features by_usize (boxes features) usize-IsLawful (busy features).queue
unfolding semaphore_priority highest_first
busy-Good features = record {
  valid = record {
    linked = (refl, (refl, (refl, tt)));
    distinct = ((ground arith, (ground arith, tt)), ((ground arith, tt), (tt, tt)));
  };
  sorted = ((refl, (refl, tt)), ((refl, tt), (tt, tt)));
}

pub roomy-Good :
    (features : Features)
    → Good features by_usize (boxes features) usize-IsLawful (roomy features).queue
unfolding semaphore_priority highest_first
roomy-Good features = record {
  valid = record { linked = (refl, tt); distinct = (tt, tt) };
  sorted = (tt, tt);
}
