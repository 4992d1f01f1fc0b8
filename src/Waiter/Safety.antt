-- ===== src/Waiter/Safety.antt =====
-- The interleavings of src/waiter.rs are safe: no waker is read while the owner has the storage, and
-- no wake-up is lost.
use async_priority_lock_rs.Base.{
  ℕ, zero, suc, ◌≡◌, refl, Bool, true, false, ◌&&◌, ◌||◌, not, if◌then◌else◌, arith,
}
use async_priority_lock_rs.Waiter.{Flags, has_any}
use async_priority_lock_rs.Waiter.Race.{
  Next, to_write, to_return, to_drop, Owner, rests, waits, again, spins, drops, cleared, wrote,
  gone, Notifier, idle, flagged, reading, restoring, waking, State, flags_of, initial, owner_at,
  owner_step, notifier_at, notifier_step,
}

abbrev pub is_reading : Notifier → Bool
is_reading (reading _) = true
is_reading _ = false

-- The owner is about to use the stored waker.
abbrev pub is_holding : Owner → Bool
is_holding (drops _) = true
is_holding wrote = true
is_holding _ = false

-- The waker may be out: published, or taken by the notifier.
abbrev pub is_out : Owner → Bool
is_out waits = true
is_out again = true
is_out _ = false

abbrev pub is_waits : Owner → Bool
is_waits waits = true
is_waits _ = false

abbrev pub is_spinning : Owner → Bool
is_spinning (spins _) = true
is_spinning _ = false

-- CAN_DROP may be unset, and will be restored.
abbrev restores : Notifier → Bool
restores (reading r) = r
restores (restoring _ r) = r
restores _ = false

abbrev settled : Notifier → Bool
settled (reading r) = r
settled (restoring _ r) = r
settled _ = true

-- The notifier has the waker, or will find it.
abbrev carries : Notifier → Bool
carries (reading _) = true
carries (restoring has _) = has
carries (waking has) = has
carries _ = false

abbrev is_flagged : Notifier → Bool
is_flagged flagged = true
is_flagged _ = false

abbrev implies : Bool → Bool → Bool
implies a b = not a || b

abbrev word_ok : State → Bool
word_ok s =
    (s.can_drop || restores s.notifier)
    && (settled s.notifier && implies (is_reading s.notifier) (not s.can_drop))

abbrev storage_ok : State → Bool
storage_ok s =
    (if s.storage
      then s.waker || (is_reading s.notifier || is_holding s.owner)
      else not s.waker && (not (is_reading s.notifier) && not (is_holding s.owner)))
    && (implies s.waker (is_out s.owner && not (is_reading s.notifier))
        && implies (is_reading s.notifier) (is_out s.owner || is_spinning s.owner))

abbrev wake_ok : Flags → State → Bool
wake_ok target s = implies (is_waits s.owner) (
    s.woken
    || (carries s.notifier
        || (s.waker && (not (has_any target (flags_of s)) || is_flagged s.notifier))))

abbrev ok : Flags → State → Bool
ok target s = word_ok s && (storage_ok s && wake_ok target s)

module _ (target : Flags) where
  owner-ok :
      (drop : Bool) (s : State)
      → ok target s ≡ true
      → (o : Owner) → s.owner ≡ o
      → ok target (owner_at target drop o s) ≡ true
  unfolding owner_at
  owner-ok drop s h rests e = ground arith
  owner-ok drop s h waits e = ground arith
  owner-ok drop s h again e = ground arith
  owner-ok drop s h (spins next) e = ground arith
  owner-ok drop s h (drops next) e = ground arith
  owner-ok drop s h (cleared to_write) e = ground arith
  owner-ok drop s h (cleared to_return) e = ground arith
  owner-ok drop s h (cleared to_drop) e = ground arith
  owner-ok drop s h wrote e = ground arith
  owner-ok drop s h gone e = ground arith

  notifier-ok :
      (f : Flags) (s : State)
      → ok target s ≡ true
      → (n : Notifier) → s.notifier ≡ n
      → ok target (notifier_at f n s) ≡ true
  unfolding notifier_at
  notifier-ok f s h idle e = ground arith
  notifier-ok f s h flagged e = ground arith
  notifier-ok f s h (reading r) e = ground arith
  notifier-ok f s h (restoring has r) e = ground arith
  notifier-ok f s h (waking has) e = ground arith

  -- Any interleaving of the steps of the two, from a new waiter on.
  pub data Reach : State → Type 0 where
    begins : (held : Bool) → Reach (initial held)
    owns : (drop : Bool) (s : State) → Reach s → Reach (owner_step target drop s)
    notifies : (f : Flags) (s : State) → Reach s → Reach (notifier_step f s)

  Reach-ok : (s : State) → Reach s → ok target s ≡ true
  Reach-ok s (begins held) = refl
  Reach-ok s (owns drop r w) = owner-ok drop r (Reach-ok r w) r.owner refl
  Reach-ok s (notifies f r w) = notifier-ok f r (Reach-ok r w) r.notifier refl

  -- In every interleaving the storage holds a waker exactly while that is published, is being read by
  -- the notifier, or is in the hands of the owner, and these exclude each other; while it is being
  -- read the owner is at most waiting for that to end, so that nothing is dropped or written.
  pub storage-exclusive :
      (s : State)
      → Reach s
      → (s.storage ≡ (s.waker || (is_reading s.notifier || is_holding s.owner)))
        × ((s.waker && (is_reading s.notifier || is_holding s.owner)) ≡ false)
        × ((is_reading s.notifier && not (is_out s.owner || is_spinning s.owner)) ≡ false)
  storage-exclusive s r = let h = Reach-ok s r in (ground arith, ground arith, ground arith)

  -- No wake-up is lost: if the last poll has answered `Pending` and a flag that it waits for is set,
  -- then its waker has been called, once the notifier is through.
  pub wake-delivered :
      (s : State)
      → Reach s
      → s.owner ≡ waits
      → s.notifier ≡ idle
      → has_any target (flags_of s) ≡ true
      → s.woken ≡ true
  wake-delivered s r o n f = let h = Reach-ok s r in ground arith

  -- How many steps the notifier has to take before it has restored CAN_DROP.
  abbrev pub to_restore : Notifier → ℕ
  to_restore (reading _) = 2
  to_restore (restoring _ _) = 1
  to_restore _ = 0

  abbrev pub steps : ℕ → Flags → State → State
  steps zero f s = s
  steps (suc n) f s = steps n f (notifier_step f s)

  spin-through :
      (f : Flags) (drop : Bool) (next : Next) (s : State) (n : Notifier)
      → ok target s ≡ true
      → s.owner ≡ spins next
      → s.notifier ≡ n
      → (owner_step target drop (steps (to_restore n) f s)).owner ≡ cleared next
  unfolding owner_at notifier_at
  spin-through f drop next s idle h o e = ground arith
  spin-through f drop next s flagged h o e = ground arith
  spin-through f drop next s (reading r) h o e = ground arith
  spin-through f drop next s (restoring has r) h o e = ground arith
  spin-through f drop next s (waking has) h o e = ground arith

  -- The wait of `clear_waker` for CAN_DROP ends: after at most two steps of the notifier, the next
  -- look at the word lets the owner go on.
  pub spin-ends :
      (f : Flags) (drop : Bool) (next : Next) (s : State)
      → Reach s
      → s.owner ≡ spins next
      → (owner_step target drop (steps (to_restore s.notifier) f s)).owner ≡ cleared next
  spin-ends f drop next s r o = spin-through f drop next s s.notifier (Reach-ok s r) o refl
