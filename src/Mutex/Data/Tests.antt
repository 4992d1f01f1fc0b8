-- ===== src/Mutex/Data/Tests.antt =====
-- A `Mutex` with a number in it: a holder writes.
use async_priority_lock_rs.Base.{
  ℕ, ◌+◌, ◌≡◌, refl, true, false, none, some, List, [], ◌∷◌, inl, All,
}
use async_priority_lock_rs.Waiter
use async_priority_lock_rs.Waiter.{lock_flag, ready}
use async_priority_lock_rs.Queue.{is_empty, iter}
use async_priority_lock_rs.Queue.Order.{Entry}
use async_priority_lock_rs.Boxed.{iter_at, enqueue, insert}
use async_priority_lock_rs.Boxed.Sample.{by_usize}
use async_priority_lock_rs.Boxed.Tests.{usize-IsLawful}
use async_priority_lock_rs.Mutex.{MutexWaiter, new_waiter, try_lock}
use async_priority_lock_rs.Mutex.Shape.{Held}
use async_priority_lock_rs.Mutex.Data.{World, Move, new, deref_mut, History, created, moved}
use async_priority_lock_rs.Mutex.Data.Guards.{guards-exclusive}
use async_priority_lock_rs.Mutex.Sample.{boxes, node_of}
open boxes use {Queue, entries}

abbrev one : Queue
one = node_of 1 5 true none ∷ []

takes : try_lock by_usize boxes boxes.default 5 ≡ some (one, some 1)
unfolding try_lock new_waiter Waiter.new is_empty iter iter_at enqueue insert
takes = refl

abbrev fresh : World by_usize boxes ℕ
fresh = record { mutex = new by_usize boxes ℕ 10; guards = [] }

-- The number goes from 10 to 11.
abbrev written : World by_usize boxes ℕ
written = record {
  mutex = deref_mut by_usize boxes ℕ (λ n. n + 1) (record { queue = one; content = 10 });
  guards = 1 ∷ [];
}

written-History : History by_usize boxes ℕ true 10 written
unfolding new deref_mut
written-History =
    moved (moved created (Move.tries 5 one 1 takes)) (Move.writes 1 (λ n. n + 1) (inl refl))

guards-exclusive_example :
    (d : MutexWaiter ℕ) × (xs : List (Entry (MutexWaiter ℕ))) × (entries written.mutex.queue
      ≡ (1, d) ∷ xs)
    × (d.waiter.has_lock ≡ true)
    × All (Held false) xs
    × All (λ (h : ℕ). h ≡ 1) (1 ∷ [])
guards-exclusive_example =
    guards-exclusive by_usize boxes ℕ usize-IsLawful true 10 written 1 written-History (inl refl)
