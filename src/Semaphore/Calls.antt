-- ===== src/Semaphore/Calls.antt =====
-- src/semaphore.rs: the calls of `Semaphore` and `SemaphorePermit` that are built on others.
use async_priority_lock_rs.Base.{
  ℕ, ◌<◌, ◌≡◌, refl, sym, ap, ◌∙◌, Bool, true, false, Option, none, some, arith, ltb, ◌==◌, ◌>>=◌,
  if◌then◌else◌,
}
use async_priority_lock_rs.Priority.{Priority}
use async_priority_lock_rs.Waiter.{Poll, evict_flag}
use async_priority_lock_rs.Queue.{PriorityQueue}
use async_priority_lock_rs.Semaphore.{Features, semaphore_priority, usize_max, max_permits}
use async_priority_lock_rs.Semaphore.Inner.{SemaphoreInner}
use async_priority_lock_rs.Semaphore.Acquire.{
  Acquire, acquire_many, acquire_within_total, refused, panics, outcome, InsufficientPermitsError,
  error_total, poll,
}
use async_priority_lock_rs.Semaphore.Permit.{Dropped, drop_permit}
use async_priority_lock_rs.Semaphore.Pool.{new, added, overflow, try_add_permits}

-- `InsufficientPermitsError::requested`.
pub error_requested : InsufficientPermitsError → ℕ
error_requested e = e.requested

-- `belongs_to`: semaphores by their addresses.
pub belongs_to : (own semaphore : ℕ) → Bool
belongs_to own semaphore = own == semaphore

module _ {P : Type 0} (features : Features) (p : Priority P)
    (Q : PriorityQueue (semaphore_priority features p)) where
  abbrev Inner : Type 0
  Inner = SemaphoreInner features p Q

  -- `Default`.
  pub default : Inner
  unfolding new
  default = new features p Q 0

  -- `acquire`, `acquire_from` and `acquire_default`.
  pub acquire : Inner → P → Option (Acquire features p Q)
  unfolding acquire_many
  acquire inner priority = acquire_many features p Q inner priority 1

  pub acquire_from : {I : Type 0} → (I → P) → Inner → I → Option (Acquire features p Q)
  unfolding acquire
  acquire_from into inner priority = acquire inner (into priority)

  pub acquire_default : P → Inner → Option (Acquire features p Q)
  unfolding acquire_many
  acquire_default standard inner = acquire_many features p Q inner standard 1

  -- `acquire_many_default` and `acquire_many_from`: their first `await` gives a future that has not
  -- started, and looks at the semaphore when it is awaited in turn.
  pub acquire_many_default : P → ℕ → Inner → Option (Acquire features p Q)
  unfolding acquire_many
  acquire_many_default standard count = λ inner. acquire_many features p Q inner standard count

  pub acquire_many_from : {I : Type 0} → (I → P) → ℕ → I → Inner → Option (Acquire features p Q)
  unfolding acquire_many
  acquire_many_from into count priority =
      λ inner. acquire_many features p Q inner (into priority) count

  -- `evicted`, each time that its future is polled.
  pub evicted : Inner → ℕ → ℕ → Option (Inner × Poll)
  unfolding poll
  evicted inner handle waker = poll features p Q evict_flag inner handle waker

  -- `add_permits`; `none` inside is the panic of `expect`.
  pub add_permits : Inner → ℕ → Option (Option (Inner × ℕ))
  unfolding try_add_permits
  add_permits sem count = try_add_permits features p Q sem count >>= λ r. elim r [
    | added sem' n ↦ some (some (sem', n))
    | overflow ↦ some none
  ]

  pub total_permits : Inner → ℕ
  total_permits sem = sem.total

  pub available_permits : Inner → ℕ
  available_permits sem = sem.available

  -- `merge` of a permit of another semaphore: `Err(())`, and that permit is dropped where it belongs.
  pub merge_other : (sem other_sem : Inner) → ℕ → Option (Inner × Dropped features p Q)
  unfolding drop_permit
  merge_other sem other_sem other = drop_permit features p Q other_sem other >>= λ d. some (sem, d)

  -- Only the test of the total refuses.
  refused_if :
      (small much : Bool) (x e : InsufficientPermitsError) (r : Option (Inner × ℕ × Bool))
      → (if small
          then (if much then some (refused x) else (r >>= λ t. some (outcome features p Q t)))
          else some panics)
        ≡ some (refused e)
      → (small ≡ true) × (much ≡ true) × (x ≡ e)
  refused_if false much x e r h = absurd cc
  refused_if true true x e r h = (refl, refl, cc)
  refused_if true false x e none h = absurd cc
  refused_if true false x e (some (i, k, true)) h = absurd cc
  refused_if true false x e (some (i, k, false)) h = absurd cc

  -- A request that `acquire_within_total` refuses at once asks for more permits than the total and for
  -- fewer than the maximum, and its error tells both numbers.
  pub refused-total :
      (inner : Inner) (priority : P) (count : ℕ) (e : InsufficientPermitsError)
      → acquire_within_total features p Q inner priority count ≡ some (refused e)
      → (inner.total < count)
        × (count < max_permits)
        × (error_total e ≡ some (total_permits inner))
        × (error_requested e ≡ count)
  unfolding acquire_within_total error_total error_requested total_permits
  refused-total inner priority count e h =
      let (small, much, same) =
        refused_if (ltb count max_permits) (ltb inner.total count)
          (record { total = inner.total; requested = count }) e _ h in
      let known : (inner.total == usize_max) ≡ false = ground arith in
      (
        ground arith,
        ground arith,
        ap error_total (sym same) ∙ rw known refl,
        ap error_requested (sym same),
      )
