-- ===== src/Arena/Trait.antt =====
-- The methods of `PriorityQueue` for `ArenaQueue`, src/queue/arena.rs.
pub mod Emplace
pub mod Const
pub mod Refines
pub mod Implementation
pub mod Visit
pub mod Update
pub mod Taken
pub mod Dequeue
pub mod Read
pub mod Enqueue
pub mod Tests
use mathlib.Core.Option
use async_priority_lock_rs.Base.{
  ℕ, zero, suc, ◌-◌, ◌/◌, Bool, true, false, not, ◌&&◌, Option, none, some, List, [], ◌∷◌,
  if◌then◌else◌, ◌==◌, length, ◌>>=◌,
}
use async_priority_lock_rs.Priority.{Priority, is_gt, is_lt}
use async_priority_lock_rs.Arena.{
  ArenaQueue, sentinel, unallocated, expand, node, data_at, write, set_next, set_prev, emplace,
  prev_for, insert, reposition,
}

-- `SharedArenaQueueHandle::maybe_new`.
pub maybe_new : ℕ → Option ℕ
maybe_new offset = if offset == sentinel then none else some offset

module _ {D : Type 0} where
  pub head_handle : ArenaQueue D → Option ℕ
  head_handle q = maybe_new q.head

module _ {D : Type 0} (size : ℕ) where
  pub get_by_handle : ArenaQueue D → ℕ → Option D
  get_by_handle q handle = data_at size q handle

  pub get_next_handle : ArenaQueue D → ℕ → Option (Option ℕ)
  get_next_handle q handle = Option.map (λ n. maybe_new n.next) (node size q handle)

  -- `ArenaQueueIterator`, until its end.
  pub iterate : ℕ → ArenaQueue D → ℕ → Option (List D)
  iterate zero q start = if start == sentinel then some [] else none
  iterate (suc fuel) q start =
      if start == sentinel
      then some []
      else (node size q start >>= λ n.
          n.item >>= λ d. iterate fuel q n.next >>= λ ds. some (d ∷ ds))

  pub iter_at : ArenaQueue D → Option ℕ → Option (List D)
  iter_at q none = iterate (suc (length q.nodes)) q q.head
  iter_at q (some handle) = iterate (suc (length q.nodes)) q handle

  -- `get_by_handle`, for a user that changes the atomics of the data.
  pub with_ref : ArenaQueue D → ℕ → (D → D) → Option (ArenaQueue D)
  with_ref q handle f = do
    item ← data_at size q handle
    write size q handle (λ n. record n { item = some (f item) })

  -- A loop over `ArenaQueueIterator` that changes the atomics of the data, until it breaks.
  pub visit_from : ℕ → ArenaQueue D → ℕ → (D → D × Bool) → Option (ArenaQueue D)
  visit_from zero q current f = if current == sentinel then some q else none
  visit_from (suc fuel) q current f =
      if current == sentinel
      then some q
      else (node size q current >>= λ n. n.item >>= λ d.
          write size q current (λ n. record n { item = some (f d).0 }) >>= λ q'.
          (if (f d).1 then visit_from fuel q' n.next f else some q'))

  pub for_each : ArenaQueue D → Option ℕ → (D → D × Bool) → Option (ArenaQueue D)
  for_each q none f = visit_from (suc (length q.nodes)) q q.head f
  for_each q (some handle) f = visit_from (suc (length q.nodes)) q handle f

module _ {D : Type 0} (dual : Bool) (size : ℕ) where
  -- The new node goes right behind `prev`.
  pub link_behind : ArenaQueue D → ℕ → ℕ → Option (ArenaQueue D)
  link_behind q new_offset prev = do
    n ← node size q prev
    q1 ← set_next size q new_offset n.next
    q2 ← set_next size q1 prev new_offset
    q3 ← (if n.next == sentinel then some q2 else set_prev size dual q2 n.next new_offset)
    set_prev size dual q3 new_offset prev

  -- `dequeue`: the queue, the entry before the node, and the handle of the node after it.
  pub dequeue : ArenaQueue D → ℕ → Option (ArenaQueue D × Option D × Option ℕ)
  dequeue q handle = node size q handle >>= λ old.
      write size (record q { good = handle / size; used = q.used - 1 }) handle
        (λ n. record n { next = unallocated; item = none })
      >>= λ q1.
          (if dual && not (old.next == sentinel)
            then set_prev size dual q1 old.next old.prev
            else some q1)
          >>= λ q2.
              (if handle == q2.head
                then some (record q2 { head = old.next }, none, maybe_new old.next)
                else (prev_for size dual q2 old handle >>= λ prev.
                    set_next size q2 prev old.next >>= λ q3.
                    data_at size q3 prev >>= λ item. some (q3, some item, maybe_new old.next)))

module _ {D : Type 0} (p : Priority D) (dual : Bool) (size : ℕ) where
  pub place_new : ArenaQueue D → ℕ → Option ℕ → Bool → Option (ArenaQueue D × ℕ)
  place_new q new_offset (some prev) true = do
    q' ← link_behind dual size q new_offset prev
    some (q', new_offset)
  place_new q new_offset none true = none
  place_new q new_offset best false = do
    q' ← insert p dual size q new_offset best
    some (q', new_offset)

  -- `enqueue`.
  pub enqueue : ArenaQueue D → D → Option (ArenaQueue D × ℕ)
  enqueue q item = emplace p size (if length q.nodes == q.used then expand q else q) item >>= λ r.
      place_new r.0 r.1 r.2 r.3

  -- `update_node`: whether the node has to move, and from where.
  pub settle : ArenaQueue D → ℕ → D → Option (ArenaQueue D)
  settle q handle item = do
    n ← node size q handle
    maybe_prev ←
        (if handle == q.head then some none else Option.map some (prev_for size dual q n handle))
    above ← elim maybe_prev [
      | none ↦ some false
      | some prev ↦ (data_at size q prev >>= λ d. some (is_gt (p.compare_to item d)))
    ]
    below ←
        (if n.next == sentinel
          then some false
          else (data_at size q n.next >>= λ d. some (is_lt (p.compare_to item d))))
    if above
        then reposition p dual size q handle maybe_prev (maybe_new n.next)
        else (if below then reposition p dual size q handle maybe_prev (some n.next) else some q)

  pub update_node : ArenaQueue D → ℕ → (D → D × Bool) → Option (ArenaQueue D)
  update_node q handle update = do
    item ← data_at size q handle
    q' ← write size q handle (λ n. record n { item = some (update item).0 })
    if (update item).1 then settle q' handle (update item).0 else some q'
