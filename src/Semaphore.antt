-- ===== src/Semaphore.antt =====
-- src/semaphore.rs: `Semaphore`, over any `PriorityQueue`. This file has the waiter and its order;
-- the operations are in the children Inner, Acquire, Permit and Pool.
pub mod Inner
pub mod Acquire
pub mod Permit
pub mod Pool
pub mod Entries
pub mod Granted
pub mod Activate
pub mod Alike
pub mod Release
pub mod Grants
pub mod Decision
pub mod Overtake
pub mod Leave
pub mod Growth
pub mod Shares
pub mod Forget
pub mod Merge
pub mod Balance
pub mod Run
pub mod Sample
pub mod Tests
pub mod Within
pub mod Calls
pub mod Waits
pub mod RunTests
use async_priority_lock_rs.Base.{
  ℕ, ◌+◌, ◌-◌, ◌/◌, ◌%◌, ◌^◌, Ordering, lt, gt, compare, Bool, true, false, ◌&&◌, Option, none,
  some, if◌then◌else◌, ltb, leb, ◌==◌,
}
use async_priority_lock_rs.Priority.{Priority, reverse, then as before}
use async_priority_lock_rs.Waiter
use async_priority_lock_rs.Waiter.{Waiter}
use async_priority_lock_rs.Queue.{PriorityQueue}

-- `usize` has 64 bits.
abbrev pub usize_max : ℕ
usize_max = 2 ^ 64 - 1

-- `usize::MAX >> 1`.
abbrev pub max_permits : ℕ
max_permits = 2 ^ 63 - 1

-- `1 << (usize::BITS - 1)`.
abbrev pub within_total_bit : ℕ
within_total_bit = 2 ^ 63

-- `n & !WITHIN_TOTAL_BIT`, and `n | WITHIN_TOTAL_BIT` for a word `n`.
abbrev pub clear_bit : ℕ → ℕ
clear_bit n = n % 2 ^ 63

abbrev pub set_bit : ℕ → ℕ
set_bit n = if ltb n within_total_bit then n + within_total_bit else n

-- The features that the code is compiled for.
pub record Features : Type 0 where
  pub evict : Bool
  pub semaphore_total : Bool

pub record SemaphoreWaiter (P : Type 0) : Type 0 where
  pub priority : P
  pub waiter : Waiter
  pub count : ℕ

-- The table of `compare` and `compare_new` over the two lock flags.
abbrev pub by_lock : Bool → Bool → Ordering → Ordering
by_lock true false other = gt
by_lock false true other = lt
by_lock _ _ other = other

module _ {P : Type 0} (features : Features) where
  -- `SemaphoreWaiter::count` and `count_and_flag`.
  abbrev pub count_of : SemaphoreWaiter P → ℕ
  count_of w = if features.semaphore_total then clear_bit w.count else w.count

  abbrev pub flag_of : SemaphoreWaiter P → Bool
  flag_of w = leb within_total_bit w.count

  -- `impl Priority for SemaphoreWaiter<P>`.
  unfoldable pub semaphore_priority : Priority P → Priority (SemaphoreWaiter P)
  semaphore_priority p = record {
    compare_to = λ self other.
        by_lock self.waiter.has_lock other.waiter.has_lock
          (p.compare_to self.priority other.priority);
    compare_new = λ self old. by_lock self.waiter.has_lock old.waiter.has_lock (
        if self.waiter.has_lock
        then p.compare_new self.priority old.priority
        else before (p.compare_new self.priority old.priority)
            (reverse (compare (count_of self) (count_of old))));
  }

  abbrev pub on_waiter : (Waiter → Waiter) → SemaphoreWaiter P → SemaphoreWaiter P
  on_waiter f d = record d { waiter = f d.waiter }
