-- ===== src/Waiter/Wakes.antt =====
-- What a poll of `WaiterFlagFut` answers, and that the flags it waits for wake it (src/waiter.rs).
use async_priority_lock_rs.Base.{
  Option-cases, Option, none, some, List, [], ◌++◌, ◌∷◌, ℕ, ◌≡◌, ◌⊎◌, inl, inr, true, false, none,
  some, [], ◌∷◌, ◌++◌, arith, ◌||◌, Bool-cases,
}
use async_priority_lock_rs.Waiter.{
  Waiter, Flags, ready, pending, has_all, has_any, flags, wait_for_flag, clear_waker, add_flag,
  notify, wake, restore,
}

-- A poll that waits for something answers at once if one of the flags is set, with the flags and
-- with no waker left behind. Otherwise it is pending, and its waker is the one that is stored.
pub wait_for_flag_lem :
    (target : Flags) (k : ℕ) (w : Waiter)
    → (target.lock || target.evict) ≡ true
    → ((has_any target (flags w) ≡ true)
        × ((wait_for_flag target k w).1 ≡ ready (flags w))
        × ((wait_for_flag target k w).0.waker ≡ none))
      ⊎ ((has_any target (flags w) ≡ false)
          × ((wait_for_flag target k w).1 ≡ pending)
          × ((wait_for_flag target k w).0.waker ≡ some k))
unfolding wait_for_flag clear_waker
wait_for_flag_lem target k w t = elim (Bool-cases (has_any target (flags w))) [
  | inl set ↦ elim (Bool-cases (has_all target (flags w))) [
    | inl all ↦ inl (ground arith)
    | inr some_of ↦ inl (ground arith)
  ]
  | inr unset ↦ let all : has_all target (flags w) ≡ false = ground arith in inr (ground arith)
]

-- The calls of wakers, with one more if there is a waker.
abbrev pub called : Option ℕ → List ℕ → List ℕ
called none ks = ks
called (some k) ks = ks ++ k ∷ []

-- A flag that is set while a waker is stored calls that waker, once, and leaves none behind, so
-- that the next poll answers from the flags; a flag that is set while none is stored calls nobody.
pub add_flag_lem :
    (f : Flags) (w : Waiter)
    → ((add_flag f w).woken ≡ called w.waker w.woken)
      × ((add_flag f w).waker ≡ none)
      × ((add_flag f w).has_lock ≡ (w.has_lock || f.lock))
      × ((add_flag f w).wants_evict ≡ (w.wants_evict || f.evict))
      × ((add_flag f w).can_drop ≡ w.can_drop)
unfolding add_flag notify wake restore
add_flag_lem f w = elim (Option-cases w.waker) [ inl e ↦ ground arith | inr (k, e) ↦ ground arith ]
