-- ===== src/Waiter.antt =====
-- src/waiter.rs: `Waiter`, an atomic word that packs a pointer to a waker with three flag bits. The
-- word is read as a record: the pointer (null is `none`) and the flags. Here each method runs on
-- its own; what may happen between its atomic steps is the matter of the child Race.
pub mod Race
pub mod Safety
pub mod Wakes
pub mod Tests
use async_priority_lock_rs.Base.{
  ℕ, Bool, true, false, not, ◌&&◌, ◌||◌, Option, none, some, List, [], ◌∷◌, ◌++◌, if◌then◌else◌,
  is_some,
}

pub record Waiter : Type 0 where
  pub has_lock : Bool
  pub wants_evict : Bool
  pub can_drop : Bool
  pub waker : Option ℕ
  -- The wakers that `Waker::wake` was called on, oldest first.
  pub woken : List ℕ

-- A set of the flags HAS_LOCK and WANTS_EVICT.
pub record Flags : Type 0 where
  pub lock : Bool
  pub evict : Bool

abbrev pub lock_flag : Flags
lock_flag = record { lock = true; evict = false }

abbrev pub evict_flag : Flags
evict_flag = record { lock = false; evict = true }

abbrev pub lock_or_evict : Flags
lock_or_evict = record { lock = true; evict = true }

-- `Waiter::new`.
unfoldable pub new : Bool → Waiter
new held = record {
  has_lock = held;
  wants_evict = false;
  can_drop = true;
  waker = none;
  woken = [];
}

abbrev pub flags : Waiter → Flags
flags w = record { lock = w.has_lock; evict = w.wants_evict }

-- `maybe_waker.wake()`.
unfoldable pub wake : Option ℕ → Waiter → Waiter
wake none w = w
wake (some k) w = record w { woken = w.woken ++ k ∷ [] }

-- `fetch_and(MASK ^ CAN_DROP)`, and `fetch_or(CAN_DROP)` if the bit was set.
unfoldable pub restore : Bool → Waiter → Waiter
restore was_set w = if was_set then record w { can_drop = true } else w

unfoldable pub notify : Waiter → Waiter
unfolding wake restore
notify w = wake w.waker (restore w.can_drop (record w { waker = none; can_drop = false }))

unfoldable pub add_flag : Flags → Waiter → Waiter
unfolding notify
add_flag f w =
    let w' = record w { has_lock = w.has_lock || f.lock; wants_evict = w.wants_evict || f.evict } in
    if is_some w.waker then notify w' else w'

unfoldable pub start : Waiter → Waiter
unfolding add_flag
start = add_flag lock_flag

unfoldable pub evict : Waiter → Waiter
unfolding add_flag
evict = add_flag evict_flag

-- `clear_waker` with the flags that it returns.
unfoldable pub clear_waker : Waiter → Waiter × Flags
clear_waker w = (record w { waker = none }, flags w)

pub data Poll : Type 0 where
  ready : Flags → Poll
  pending : Poll

-- `flag & target == target` and `flag & target != 0`.
abbrev pub has_all : Flags → Flags → Bool
has_all target f = (not target.lock || f.lock) && (not target.evict || f.evict)

abbrev pub has_any : Flags → Flags → Bool
has_any target f = (target.lock && f.lock) || (target.evict && f.evict)

unfoldable pub wait_for_flag : Flags → ℕ → Waiter → Waiter × Poll
unfolding clear_waker
wait_for_flag target waker w =
    let (w1, f) = clear_waker w in
    let w2 = record w1 { waker = some waker; can_drop = true } in
    let (w3, g) = clear_waker w2 in
    if has_all target f
    then (w1, ready f)
    else (if has_any target (flags w1) then (w3, ready g) else (w2, pending))
