-- ===== src/Waiter/Tests.antt =====
-- Runs of a waiter, whole methods and interleaved steps.
use async_priority_lock_rs.Base.{
  ℕ, ◌≡◌, ◌⊎◌, refl, true, false, ◌&&◌, ◌||◌, not, Option, none, some, [], ◌∷◌,
}
use async_priority_lock_rs.Waiter.{
  Waiter, lock_flag, wait_for_flag, ready, flags, has_any, pending, add_flag,
}
use async_priority_lock_rs.Waiter.Wakes.{wait_for_flag_lem, add_flag_lem}
use async_priority_lock_rs.Waiter.Race.{
  State, initial, owner_step, notifier_step, owner_at, notifier_at, to_return, cleared,
}
use async_priority_lock_rs.Waiter.Safety.{
  Reach, begins, owns, notifies, storage-exclusive, wake-delivered, spin-ends, is_reading,
  is_holding, is_out, is_spinning, steps, to_restore,
}

abbrev waiter_with : Option ℕ → Waiter
waiter_with waker = record {
  has_lock = false;
  wants_evict = false;
  can_drop = true;
  waker = waker;
  woken = [];
}

wait_for_flag_lem_example :
    ((has_any lock_flag (flags (waiter_with none)) ≡ true)
      × ((wait_for_flag lock_flag 77 (waiter_with none)).1 ≡ ready (flags (waiter_with none)))
      × ((wait_for_flag lock_flag 77 (waiter_with none)).0.waker ≡ none))
    ⊎ ((has_any lock_flag (flags (waiter_with none)) ≡ false)
        × ((wait_for_flag lock_flag 77 (waiter_with none)).1 ≡ pending)
        × ((wait_for_flag lock_flag 77 (waiter_with none)).0.waker ≡ some 77))
wait_for_flag_lem_example = wait_for_flag_lem lock_flag 77 (waiter_with none) refl

add_flag_lem_example :
    ((add_flag lock_flag (waiter_with (some 77))).woken ≡ 77 ∷ [])
    × ((add_flag lock_flag (waiter_with (some 77))).waker ≡ none)
    × ((add_flag lock_flag (waiter_with (some 77))).has_lock ≡ true)
    × ((add_flag lock_flag (waiter_with (some 77))).wants_evict ≡ false)
    × ((add_flag lock_flag (waiter_with (some 77))).can_drop ≡ true)
add_flag_lem_example = add_flag_lem lock_flag (waiter_with (some 77))

-- A first poll: `clear_waker`, the write, the `fetch_or`.
abbrev polled : State
polled =
    owner_step lock_flag false
      (owner_step lock_flag false (owner_step lock_flag false (initial false)))

polled-Reach : Reach lock_flag polled
polled-Reach = owns false _ (owns false _ (owns false _ (begins false)))

-- The lock is handed over, up to where the waker is read.
abbrev read_begun : State
read_begun = notifier_step lock_flag (notifier_step lock_flag polled)

storage-exclusive_example :
    (read_begun.storage
      ≡ (read_begun.waker || (is_reading read_begun.notifier || is_holding read_begun.owner)))
    × ((read_begun.waker && (is_reading read_begun.notifier || is_holding read_begun.owner))
        ≡ false)
    × ((is_reading read_begun.notifier
          && not (is_out read_begun.owner || is_spinning read_begun.owner))
        ≡ false)
storage-exclusive_example =
    storage-exclusive lock_flag read_begun
      (notifies lock_flag _ (notifies lock_flag _ polled-Reach))

-- The waker has been called.
abbrev through : State
through = notifier_step lock_flag (notifier_step lock_flag (notifier_step lock_flag read_begun))

wake-delivered_example : through.woken ≡ true
unfolding owner_at notifier_at
wake-delivered_example =
    wake-delivered lock_flag through
      (notifies lock_flag _ (
        notifies lock_flag _
          (notifies lock_flag _ (notifies lock_flag _ (notifies lock_flag _ polled-Reach)))))
      refl refl refl

-- The owner polls again while its waker is being read.
abbrev spinning : State
spinning = owner_step lock_flag false (notifier_step lock_flag (notifier_step lock_flag polled))

spin-ends_example :
    (owner_step lock_flag false
      (steps lock_flag (to_restore lock_flag spinning.notifier) lock_flag spinning)).owner
    ≡ cleared to_return
unfolding owner_at notifier_at
spin-ends_example =
    spin-ends lock_flag lock_flag false to_return spinning
      (owns false _ (notifies lock_flag _ (notifies lock_flag _ polled-Reach))) refl
