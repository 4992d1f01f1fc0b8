-- ===== src/Semaphore/Pool.antt =====
-- The semaphore's own permits: `new`, `try_add_permits`, `forget_permits` of src/semaphore.rs.
use async_priority_lock_rs.Base.{
  ℕ, ◌+◌, ◌-◌, Bool, not, ◌&&◌, Option, none, some, if◌then◌else◌, ltb, ◌==◌, min, ◌>>=◌,
}
use async_priority_lock_rs.Priority.{Priority}
use async_priority_lock_rs.Queue.{PriorityQueue}
use async_priority_lock_rs.Semaphore.{Features, semaphore_priority, usize_max}
use async_priority_lock_rs.Semaphore.Inner.{SemaphoreInner, notify_oversized_waiters}
use async_priority_lock_rs.Semaphore.Permit.{activate, wrapping_add, wrapping_sub}

module _ {P : Type 0} (features : Features) (p : Priority P)
    (Q : PriorityQueue (semaphore_priority features p)) where
  abbrev Inner : Type 0
  Inner = SemaphoreInner features p Q

  -- `Semaphore::new`; `Default` is `new 0`.
  unfoldable pub new : ℕ → Inner
  new capacity = record { queue = Q.default; total = capacity; available = capacity }

  pub data Added : Type 0 where
    added : Inner → ℕ → Added
    overflow : Added

  -- `checked_add` fails.
  unfoldable pub overflows : Inner → ℕ → Bool
  overflows sem count =
      ltb usize_max ((if features.semaphore_total then sem.total else sem.available) + count)

  unfoldable pub try_add_permits : Inner → ℕ → Option Added
  unfolding overflows activate
  try_add_permits sem count =
      if overflows sem count
      then some overflow
      else (activate features p Q
            (record sem {
              total = if features.semaphore_total then sem.total + count else sem.total;
              available = wrapping_add sem.available count;
            })
            (Q.head_handle sem.queue)
          >>= λ sem'. some (added sem' sem'.available))

  -- The semaphore and the number of permits forgotten.
  unfoldable pub forget_permits : Inner → ℕ → Option (Inner × ℕ)
  unfolding notify_oversized_waiters
  forget_permits sem count =
      let n = min count sem.available in
      let sem' = record sem { available = sem.available - n } in
      if features.semaphore_total && not (n == 0)
      then (notify_oversized_waiters features p Q
            (record sem' { total = wrapping_sub sem'.total n }) none
          >>= λ sem''. some (sem'', n))
      else some (sem', n)
