-- ===== src/Semaphore/Inner.antt =====
-- `SemaphoreInner` of src/semaphore.rs: granting permits to waiters, and notifying those that ask
-- for more than there is. `total` is used only with the feature `semaphore-total`.
use async_priority_lock_rs.Base.{
  ℕ, zero, suc, ◌-◌, Bool, true, ◌&&◌, Option, none, some, if◌then◌else◌, ltb, ◌>>=◌,
}
use async_priority_lock_rs.Priority.{Priority}
use async_priority_lock_rs.Waiter
use async_priority_lock_rs.Waiter.{Waiter}
use async_priority_lock_rs.Queue.{PriorityQueue}
use async_priority_lock_rs.Semaphore.{
  Features, SemaphoreWaiter, count_of, flag_of, semaphore_priority, on_waiter,
}

module _ {P : Type 0} (features : Features) (p : Priority P)
    (Q : PriorityQueue (semaphore_priority features p)) where
  open Q use {Queue, get_by_handle, get_next_handle, update_node, for_each}

  pub record SemaphoreInner : Type 0 where
    pub queue : Queue
    pub total : ℕ
    pub available : ℕ

  -- What the loop of `activate_waiters` does at a node: `continue`, `break`, or grant.
  pub data Decision : Type 0 where
    skip stop grant : Decision

  unfoldable pub decide : ℕ → SemaphoreWaiter P → Decision
  decide available node =
      if node.waiter.has_lock
      then skip
      else (if ltb available (count_of features node)
          then (if features.semaphore_total && node.waiter.wants_evict then skip else stop)
          else grant)

  -- `x.waiter.start(); true`.
  unfoldable pub start_node : SemaphoreWaiter P → SemaphoreWaiter P × Bool
  unfolding Waiter.start
  start_node x = (on_waiter features Waiter.start x, true)

  unfoldable pub grant_node : SemaphoreInner → ℕ → SemaphoreWaiter P → Option SemaphoreInner
  unfolding start_node
  grant_node sem handle node = do
    q ← update_node sem.queue handle start_node
    some (record sem { queue = q; available = sem.available - count_of features node })

  -- `while let Some(handle) = next.take()`, on fuel; `none` also if the fuel runs out.
  unfoldable pub activate_waiters : ℕ → SemaphoreInner → Option ℕ → Option SemaphoreInner
  unfolding decide grant_node
  activate_waiters fuel sem none = some sem
  activate_waiters zero sem (some handle) = none
  activate_waiters (suc fuel) sem (some handle) = get_by_handle sem.queue handle >>= λ node.
      get_next_handle sem.queue handle >>= λ next. elim (decide sem.available node) [
        | skip ↦ activate_waiters fuel sem next
        | stop ↦ some sem
        | grant ↦ (grant_node sem handle node >>= λ sem'. activate_waiters fuel sem' next)
      ]

  unfoldable pub notify_node : ℕ → SemaphoreWaiter P → SemaphoreWaiter P × Bool
  unfolding Waiter.evict
  notify_node total node = (
    if flag_of features node && ltb total (count_of features node)
        then on_waiter features Waiter.evict node
        else node,
    true,
  )

  unfoldable pub notify_oversized_waiters : SemaphoreInner → Option ℕ → Option SemaphoreInner
  unfolding notify_node
  notify_oversized_waiters sem start = do
    q ← for_each sem.queue start (notify_node sem.total)
    some (record sem { queue = q })
