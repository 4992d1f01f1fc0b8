-- ===== src/Mutex/Sample.antt =====
-- A mutex over `BoxQueue` with `usize` priorities: a holder and two waiters, for the tests.
use async_priority_lock_rs.Base.{
  ℕ, refl, true, false, Bool, Option, none, some, List, [], ◌∷◌, arith,
}
use async_priority_lock_rs.Priority.{highest_first}
use async_priority_lock_rs.Waiter.{Waiter}
use async_priority_lock_rs.Queue.{PriorityQueue}
use async_priority_lock_rs.Boxed.{BoxNode}
use async_priority_lock_rs.Boxed.Implementation.{box_queue}
use async_priority_lock_rs.Boxed.Sample.{bump, by_usize}
use async_priority_lock_rs.Mutex.{MutexWaiter, mutex_priority}
use async_priority_lock_rs.Mutex.Invariant.{Inv}

abbrev pub boxes : PriorityQueue (mutex_priority by_usize)
boxes = box_queue (mutex_priority by_usize) true bump

abbrev pub waiter_of : Bool → Waiter
waiter_of held = record {
  has_lock = held;
  wants_evict = false;
  can_drop = true;
  waker = none;
  woken = [];
}

abbrev pub item_of : ℕ → Bool → MutexWaiter ℕ
item_of priority held = record { priority = priority; waiter = waiter_of held }

abbrev pub node_of : ℕ → ℕ → Bool → Option ℕ → BoxNode (MutexWaiter ℕ)
node_of a priority held prev = record { addr = a; item = item_of priority held; prev = prev }

abbrev pub three : List (BoxNode (MutexWaiter ℕ))
three = node_of 1 5 true none ∷ node_of 2 9 false (some 1) ∷ node_of 3 4 false (some 2) ∷ []

pub three-Inv : Inv by_usize boxes three
unfolding mutex_priority highest_first
three-Inv = record {
  valid = record {
    linked = (refl, (refl, (refl, tt)));
    distinct = ((ground arith, (ground arith, tt)), ((ground arith, tt), (tt, tt)));
  };
  shape = (refl, (refl, (refl, tt)), ((refl, tt), (tt, tt)));
}
