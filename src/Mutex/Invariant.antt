-- ===== src/Mutex/Invariant.antt =====
-- Every operation of a mutex succeeds on queued handles and keeps the holder first and alone.
use mathlib.Core.Option
use async_priority_lock_rs.Base.{
  ℕ, ◌≡◌, ◌≢◌, ◌⊎◌, refl, sym, ap, ◌∙◌, subst, inl, inr, Bool, true, false, ◌&&◌, none, some, List,
  [], ◌∷◌, arith, head?, Bool-cases, ◌>>=◌, if◌then◌else◌, is_none,
}
use async_priority_lock_rs.Priority.{Priority, is_gt}
use async_priority_lock_rs.Priority.Laws.{IsLawful}
use async_priority_lock_rs.Waiter
use async_priority_lock_rs.Waiter.{Waiter, Flags, Poll, lock_flag, evict_flag}
use async_priority_lock_rs.Queue.{PriorityQueue, head, is_empty}
use async_priority_lock_rs.Queue.Order.{Entry, items, Enqueued, Enqueued-nil}
use async_priority_lock_rs.Mutex.{
  MutexWaiter, mutex_priority, new_waiter, on_waiter, at_head, try_lock, evict_head, lock,
}
use async_priority_lock_rs.Mutex.Shape.{
  Shape, Same, Shape-replace, Shape-Enqueued, mutex-Accepts, mutex-IsPreorder,
}

evict-has_lock : (w : Waiter) → (Waiter.evict w).has_lock ≡ w.has_lock
unfolding Waiter.evict
evict-has_lock w = ground arith

pub start-has_lock : (w : Waiter) → (Waiter.start w).has_lock ≡ true
unfolding Waiter.start
start-has_lock w = ground arith

module _ {P : Type 0} (p : Priority P) (Q : PriorityQueue (mutex_priority p)) where
  open Q use {Queue, entries, IsValid, enqueue}

  pub record Inv (q : Queue) : Type 0 where
    pub valid : IsValid q
    pub shape : Shape p (entries q)

  pub default-Inv : Inv Q.default
  default-Inv = record {
    valid = Q.default-IsValid;
    shape = subst (Shape p) (sym Q.entries-default) tt;
  }

  head_lem : (q : Queue) → IsValid q → head Q q ≡ some (head? (items (entries q)))
  unfolding head
  head_lem q v = ap (Option.map head?) (Q.iter_at-none q v)

  is_empty_lem : (q : Queue) → IsValid q → is_empty Q q ≡ some (is_none (head? (items (entries q))))
  unfolding is_empty
  is_empty_lem q v = ap (Option.map (λ xs. is_none (head? xs))) (Q.iter_at-none q v)

  -- A call on the waiter of the first entry.
  pub at_head-cons :
      (f : Waiter → Waiter) (q : Queue) (h : ℕ) (d : MutexWaiter P)
      (xs : List (Entry (MutexWaiter P)))
      → IsValid q
      → entries q ≡ (h, d) ∷ xs
      → (q' : Queue) × (at_head p Q f q ≡ some q')
        × (entries q' ≡ (h, on_waiter f d) ∷ xs)
        × IsValid q'
  unfolding at_head
  at_head-cons f q h d xs v e =
      let (q', r, e', v') = Q.with_ref_lem q [] xs h d (on_waiter f) v e in
      let first : Q.head_handle q ≡ some h =
        Q.head_handle_lem q v ∙ ap (λ es. Option.map (λ e. e.0) (head? es)) e in
      (q', rw (first, at_head) r, e', v')

  pub at_head-nil :
      (f : Waiter → Waiter) (q : Queue) → IsValid q → entries q ≡ [] → at_head p Q f q ≡ some q
  unfolding at_head
  at_head-nil f q v e =
      let none_first : Q.head_handle q ≡ none =
        Q.head_handle_lem q v ∙ ap (λ es. Option.map (λ e. e.0) (head? es)) e in
      rw (none_first, at_head)

  entries-cases :
      (es : List (Entry (MutexWaiter P)))
      → (es ≡ [])
        ⊎ ((h : ℕ) × (d : MutexWaiter P) × (xs : List (Entry (MutexWaiter P))) × (es ≡ (h, d) ∷ xs))
  entries-cases [] = inl refl
  entries-cases ((h, d) ∷ xs) = inr (h, d, xs, refl)

  module _ (law : IsLawful p) where
    enqueue-first :
        (q : Queue) (priority : P)
        → Inv q
        → entries q ≡ []
        → (entries (enqueue q (new_waiter priority true)).0
            ≡ ((enqueue q (new_waiter priority true)).1, new_waiter priority true) ∷ [])
          × Inv (enqueue q (new_waiter priority true)).0
    unfolding new_waiter
    enqueue-first q priority v e =
        let d = new_waiter priority true in
        let w =
          Q.enqueue_lem q d [] [] v.valid e
            (record { order = mutex-IsPreorder p law; behind = tt; agrees = tt; sorted = tt }) in
        let alone = Enqueued-nil w in
        (
          alone,
          record {
            valid = Q.enqueue-IsValid q d v.valid;
            shape = subst (Shape p) (sym alone) (refl, tt, tt);
          },
        )

    -- With a lawful priority, and from a queue with the invariant, `try_lock` takes a free mutex at
    -- once and refuses a held one, leaving it as it was.
    pub try_lock_lem :
        (q : Queue) (priority : P)
        → Inv q
        → ((entries q ≡ [])
            × (q' : Queue) × (h : ℕ) × (try_lock p Q q priority ≡ some (q', some h))
            × (entries q' ≡ (h, new_waiter priority true) ∷ [])
            × Inv q')
          ⊎ ((entries q ≢ []) × (try_lock p Q q priority ≡ some (q, none)))
    unfolding try_lock
    try_lock_lem q priority v = elim (entries-cases (entries q)) [
      | inl e ↦
          let (alone, v') = enqueue-first q priority v e in
          let empty : is_empty Q q ≡ some true =
            is_empty_lem q v.valid ∙ ap (λ es. some (is_none (head? (items es)))) e in
          inl (
            e,
            (enqueue q (new_waiter priority true)).0,
            (enqueue q (new_waiter priority true)).1,
            rw (empty, try_lock),
            alone,
            v',
          )
      | inr (h, d, xs, e) ↦
          let busy : is_empty Q q ≡ some false =
            is_empty_lem q v.valid ∙ ap (λ es. some (is_none (head? (items es)))) e in
          inr (λ n. cc (e, n), rw (busy, try_lock))
    ]

    -- The holder is asked to give way exactly when the feature is on and the newcomer is higher.
    abbrev pub asked : Bool → P → MutexWaiter P → MutexWaiter P
    asked evicts priority d =
        if evicts && is_gt (p.compare_to priority d.priority) then on_waiter Waiter.evict d else d

    evict_head-cons :
        (evicts : Bool) (priority : P) (q : Queue) (h : ℕ) (d : MutexWaiter P)
        (xs : List (Entry (MutexWaiter P)))
        → Inv q
        → entries q ≡ (h, d) ∷ xs
        → (q' : Queue) × (evict_head p Q evicts priority d q ≡ some q')
          × (entries q' ≡ (h, asked evicts priority d) ∷ xs)
          × IsValid q'
    unfolding evict_head
    evict_head-cons evicts priority q h d xs v e =
        elim (Bool-cases (evicts && is_gt (p.compare_to priority d.priority))) [
          | inl high ↦ rw high (at_head-cons Waiter.evict q h d xs v.valid e)
          | inr low ↦ rw low (q, refl, e, v.valid)
        ]

    asked-Same :
        (evicts : Bool) (priority : P) (d : MutexWaiter P) → Same p d (asked evicts priority d)
    asked-Same evicts priority d = ground (arith, evict-has_lock d.waiter)

    lock-free :
        (evicts : Bool) (q : Queue) (priority : P)
        → head Q q ≡ some none
        → lock p Q evicts q priority
          ≡ some (
            (enqueue q (new_waiter priority true)).0,
            (enqueue q (new_waiter priority true)).1,
            true,
          )
    unfolding lock
    lock-free evicts q priority e = rw (e, lock)

    lock-held :
        (evicts : Bool) (q q' : Queue) (priority : P) (d : MutexWaiter P)
        → head Q q ≡ some (some d)
        → evict_head p Q evicts priority d q ≡ some q'
        → lock p Q evicts q priority
          ≡ some (
            (enqueue q' (new_waiter priority false)).0,
            (enqueue q' (new_waiter priority false)).1,
            false,
          )
    unfolding lock
    lock-held evicts q q' priority d e r = rw (e, lock) (rw (r, ◌>>=◌) refl)

    -- With a lawful priority, and from a queue with the invariant, `lock` takes a free mutex at
    -- once. On a held one it queues a waiter without the lock behind the holder, by priority among
    -- the other waiters, and with the feature `evict` asks a lower holder to give way. The
    -- invariant stays.
    pub lock_lem :
        (evicts : Bool) (q : Queue) (priority : P)
        → Inv q
        → ((entries q ≡ [])
            × (q' : Queue) × (h : ℕ) × (lock p Q evicts q priority ≡ some (q', h, true))
            × (entries q' ≡ (h, new_waiter priority true) ∷ [])
            × Inv q')
          ⊎ ((h0 : ℕ) × (d0 : MutexWaiter P) × (xs : List (Entry (MutexWaiter P))) × (entries q
                ≡ (h0, d0) ∷ xs)
              × (q' : Queue) × (h : ℕ) × (lock p Q evicts q priority ≡ some (q', h, false))
              × Enqueued
                  (mutex_priority p)
                  h
                  (new_waiter priority false)
                  ((h0, asked evicts priority d0) ∷ [])
                  xs
                  (entries q')
              × Inv q')
    lock_lem evicts q priority v = elim (entries-cases (entries q)) [
      | inl e ↦
          let (alone, v') = enqueue-first q priority v e in
          inl (
            e,
            (enqueue q (new_waiter priority true)).0,
            (enqueue q (new_waiter priority true)).1,
            lock-free evicts q priority (head_lem q v.valid ∙ ap (λ es. some (head? (items es))) e),
            alone,
            v',
          )
      | inr (h0, d0, xs, e) ↦
          let (q', r, e', valid) = evict_head-cons evicts priority q h0 d0 xs v e in
          let d = new_waiter priority false in
          let s =
            Shape-replace p [] xs h0 d0 (asked evicts priority d0) (asked-Same evicts priority d0)
              (subst (Shape p) e v.shape) in
          let w =
            Q.enqueue_lem q' d ((h0, asked evicts priority d0) ∷ []) xs valid e'
              (mutex-Accepts p law d (h0, asked evicts priority d0) xs s) in
          inr (
            h0,
            d0,
            xs,
            e,
            (enqueue q' d).0,
            (enqueue q' d).1,
            lock-held evicts q q' priority d0
                (head_lem q v.valid ∙ ap (λ es. some (head? (items es))) e) r,
            w,
            record {
              valid = Q.enqueue-IsValid q' d valid;
              shape =
                  Shape-Enqueued p law (enqueue q' d).1 d (h0, asked evicts priority d0) xs _
                    (unfold new_waiter Waiter.new in refl) s w;
            },
          )
    ]
