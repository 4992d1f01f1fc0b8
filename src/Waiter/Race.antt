-- ===== src/Waiter/Race.antt =====
-- The atomic steps of src/waiter.rs, interleaved: the owner of a `WaiterFlagFut`, which polls and
-- drops it, and whoever sets a flag. Flags are set under the lock of the queue, and a downgraded
-- guard keeps all writers out, so that one at a time sets flags; the owner polls without a lock.
use async_priority_lock_rs.Base.{Bool, true, false, ◌||◌, if◌then◌else◌}
use async_priority_lock_rs.Waiter.{Flags, has_all, has_any}

-- What the owner does once `clear_waker` is through.
pub data Next : Type 0 where
  to_write to_return to_drop : Next

pub data Owner : Type 0 where
  -- No waker is out; a poll has answered `Pending`; `fetch_or` has found a flag set.
  rests waits again : Owner
  -- In `clear_waker`: waiting for CAN_DROP, about to drop the stored waker, through with it.
  spins drops cleared : Next → Owner
  -- The waker is stored and not yet published; the future has been dropped.
  wrote gone : Owner

pub data Notifier : Type 0 where
  -- Outside of `add_flag`; between its two steps.
  idle flagged : Notifier
  -- In `notify`, with the CAN_DROP that it found: about to read, about to restore, with or without a
  -- waker, and about to wake.
  reading : Bool → Notifier
  restoring : Bool → Bool → Notifier
  waking : Bool → Notifier

pub record State : Type 0 where
  -- The word: its flags, and whether its pointer is set.
  pub lock : Bool
  pub evict : Bool
  pub can_drop : Bool
  pub waker : Bool
  -- The storage in the future holds a waker.
  pub storage : Bool
  -- `wake` has been called since the last waker was published.
  pub woken : Bool
  pub owner : Owner
  pub notifier : Notifier

abbrev pub flags_of : State → Flags
flags_of s = record { lock = s.lock; evict = s.evict }

-- A future for a new waiter, or for one whose last future is gone.
abbrev pub initial : Bool → State
initial held = record {
  lock = held;
  evict = false;
  can_drop = true;
  waker = false;
  storage = false;
  woken = false;
  owner = rests;
  notifier = idle;
}

-- The `fetch_and` of `clear_waker`.
abbrev pub clear : Next → State → State
clear next s = record s {
  waker = false;
  owner = if s.waker then drops next else (if s.can_drop then cleared next else spins next);
}

-- A poll begins, or the drop of the future.
abbrev pub begin : Flags → Bool → State → State
begin target drop s =
    clear (if drop then to_drop else (if has_all target (flags_of s) then to_return else to_write))
      s

unfoldable pub owner_at : Flags → Bool → Owner → State → State
owner_at target drop rests s = begin target drop s
owner_at target drop waits s = begin target drop s
owner_at target drop again s = clear to_return s
owner_at target drop (spins next) s = record s {
  owner = if s.can_drop then cleared next else spins next;
}
owner_at target drop (drops next) s = record s { storage = false; owner = cleared next }
owner_at target drop (cleared to_write) s = record s { storage = true; owner = wrote }
owner_at target drop (cleared to_return) s = record s { owner = rests }
owner_at target drop (cleared to_drop) s = record s { owner = gone }
owner_at target drop wrote s = record s {
  waker = true;
  can_drop = true;
  woken = false;
  owner = if has_any target (flags_of s) then again else waits;
}
owner_at target drop gone s = record s { owner = rests }

-- The next step of the owner, who may choose to drop the future.
abbrev pub owner_step : Flags → Bool → State → State
owner_step target drop s = owner_at target drop s.owner s

unfoldable pub notifier_at : Flags → Notifier → State → State
notifier_at f idle s = record s {
  lock = s.lock || f.lock;
  evict = s.evict || f.evict;
  notifier = if s.waker then flagged else idle;
}
notifier_at f flagged s = record s {
  waker = false;
  can_drop = false;
  notifier = if s.waker then reading s.can_drop else restoring false s.can_drop;
}
notifier_at f (reading r) s = record s { storage = false; notifier = restoring true r }
notifier_at f (restoring has r) s = record s {
  can_drop = if r then true else s.can_drop;
  notifier = waking has;
}
notifier_at f (waking has) s = record s { woken = s.woken || has; notifier = idle }

-- The next step of the notifier, with the flag to set if it begins.
abbrev pub notifier_step : Flags → State → State
notifier_step f s = notifier_at f s.notifier s
