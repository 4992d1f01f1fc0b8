-- ===== src/Mutex/Run.antt =====
-- The runs of a mutex: any calls in any order, on handles that are queued.
use async_priority_lock_rs.Base.{
  ℕ, zero, suc, ◌+◌, ◌≤◌, ◌≡◌, refl, ap, ◌∙◌, subst, inl, inr, Bool, false, Option, none, some,
  List, [], ◌∷◌, ◌++◌, map, arith, All, head?, ◌>>=◌, if◌then◌else◌, is_none, length,
}
use async_priority_lock_rs.Priority.{Priority}
use async_priority_lock_rs.Priority.Laws.{IsLawful}
use async_priority_lock_rs.Waiter.{Flags, Poll}
use async_priority_lock_rs.Queue.{PriorityQueue}
use async_priority_lock_rs.Queue.Order.{Entry}
use async_priority_lock_rs.Mutex.{
  MutexWaiter, mutex_priority, try_lock, lock, poll, drop_future, drop_guard,
}
use async_priority_lock_rs.Mutex.Shape.{Held, Shape}
use async_priority_lock_rs.Mutex.Invariant.{Inv, default-Inv, try_lock_lem, lock_lem}
use async_priority_lock_rs.Mutex.Release.{
  started, drop_guard-holder, drop_guard-waiter, poll_lem, drop_future_lem,
}

module _ {P : Type 0} (p : Priority P) (Q : PriorityQueue (mutex_priority p)) where
  open Q use {Queue, entries}

  -- A guard or a pending `lock`: its entry is in the queue.
  pub record Queued (q : Queue) (h : ℕ) : Type 0 where
    pub front : List (Entry (MutexWaiter P))
    pub back : List (Entry (MutexWaiter P))
    pub item : MutexWaiter P
    pub place : entries q ≡ front ++ (h, item) ∷ back

  pub data Step (evicts : Bool) (q q' : Queue) : Type 0 where
    try_locks :
        (priority : P) (r : Option ℕ) → try_lock p Q q priority ≡ some (q', r) → Step evicts q q'
    locks :
        (priority : P) (h : ℕ) (done : Bool)
        → lock p Q evicts q priority ≡ some (q', h, done)
        → Step evicts q q'
    polls :
        (target : Flags) (h k : ℕ) (r : Poll)
        → Queued q h
        → poll p Q target q h k ≡ some (q', r)
        → Step evicts q q'
    drops_future : (h : ℕ) → Queued q h → drop_future p Q q h ≡ some q' → Step evicts q q'
    drops_guard : (h : ℕ) → Queued q h → drop_guard p Q q h ≡ some q' → Step evicts q q'

  pub data Reach (evicts : Bool) : Queue → Type 0 where
    start : Reach evicts Q.default
    step : {q q' : Queue} → Reach evicts q → Step evicts q q' → Reach evicts q'

  -- A guard can always be dropped.
  pub drop_guard-Inv :
      (q : Queue) (h : ℕ)
      → Inv p Q q
      → Queued q h
      → (q' : Queue) × (drop_guard p Q q h ≡ some q') × Inv p Q q'
  drop_guard-Inv q h v at = go at.front at.place
    where
      go :
          (xs : List (Entry (MutexWaiter P)))
          → entries q ≡ xs ++ (h, at.item) ∷ at.back
          → (q' : Queue) × (drop_guard p Q q h ≡ some q') × Inv p Q q'
      go [] e = let (q', r, e', v') = drop_guard-holder p Q q h at.item at.back v e in (q', r, v')
      go (x ∷ xs) e =
          let (q', r, e', v') = drop_guard-waiter p Q q x xs at.back h at.item v e in (q', r, v')

  pub the_same : {A : Type 0} {o : Option A} {a b : A} → o ≡ some a → o ≡ some b → a ≡ b
  the_same e f = cc

  module _ (law : IsLawful p) (evicts : Bool) where
    try_lock-Inv :
        (q q' : Queue) (priority : P) (r : Option ℕ)
        → Inv p Q q
        → try_lock p Q q priority ≡ some (q', r)
        → Inv p Q q'
    try_lock-Inv q q' priority r v e = elim (try_lock_lem p Q law q priority v) [
      | inl (_, q1, h, f, _, v') ↦ subst (Inv p Q) (ap (λ t. t.0) (the_same f e)) v'
      | inr (_, f) ↦ subst (Inv p Q) (ap (λ t. t.0) (the_same f e)) v
    ]

    lock-Inv :
        (q q' : Queue) (priority : P) (h : ℕ) (done : Bool)
        → Inv p Q q
        → lock p Q evicts q priority ≡ some (q', h, done)
        → Inv p Q q'
    lock-Inv q q' priority h done v e = elim (lock_lem p Q law evicts q priority v) [
      | inl (_, q1, _, f, _, v') ↦ subst (Inv p Q) (ap (λ t. t.0) (the_same f e)) v'
      | inr (_, _, _, _, q1, _, f, _, v') ↦ subst (Inv p Q) (ap (λ t. t.0) (the_same f e)) v'
    ]

    -- With a lawful priority, every call keeps the holder first and alone, and the waiters sorted.
    pub Step-Inv : {q q' : Queue} → Step evicts q q' → Inv p Q q → Inv p Q q'
    Step-Inv {q} {q'} (try_locks priority r e) v = try_lock-Inv q q' priority r v e
    Step-Inv {q} {q'} (locks priority h done e) v = lock-Inv q q' priority h done v e
    Step-Inv {q} {q'} (polls target h k r at e) v =
        let (q1, f, _, v') = poll_lem p Q target q at.front at.back h k at.item v at.place in
        subst (Inv p Q) (ap (λ t. t.0) (the_same f e)) v'
    Step-Inv {q} {q'} (drops_future h at e) v =
        let (q1, f, _, v') = drop_future_lem p Q q at.front at.back h at.item v at.place in
        subst (Inv p Q) (the_same f e) v'
    Step-Inv {q} {q'} (drops_guard h at e) v =
        let (q1, f, v') = drop_guard-Inv q h v at in subst (Inv p Q) (the_same f e) v'

    pub Reach-Inv : {q : Queue} → Reach evicts q → Inv p Q q
    Reach-Inv start = default-Inv p Q
    Reach-Inv (step r s) = Step-Inv s (Reach-Inv r)

  abbrev pub holders : List (Entry (MutexWaiter P)) → ℕ
  holders [] = 0
  holders (x ∷ xs) = (if x.1.waiter.has_lock then 1 else 0) + holders xs

  holders-none : (xs : List (Entry (MutexWaiter P))) → All (Held false) xs → holders xs ≡ 0
  holders-none [] a = refl
  holders-none (x ∷ xs) a = ground (arith, holders-none xs a.1)

  pub holders-Shape :
      (xs : List (Entry (MutexWaiter P)))
      → Shape p xs
      → holders xs ≡ (if is_none (head? xs) then 0 else 1)
  holders-Shape [] s = refl
  holders-Shape (x ∷ xs) s = ground (arith, holders-none xs s.1)

  -- With a lawful priority, after any history of calls on a mutex exactly one entry has the lock,
  -- or none is queued: no two holders, and nobody waits for a lock that nobody has.
  pub Reach-exclusive :
      (evicts : Bool) (q : Queue)
      → IsLawful p
      → Reach evicts q
      → holders (entries q) ≡ (if is_none (head? (entries q)) then 0 else 1)
  Reach-exclusive evicts q law r = holders-Shape (entries q) (Reach-Inv law evicts r).shape

  -- The entry with the lock.
  abbrev pub holder : List (Entry (MutexWaiter P)) → Option ℕ
  holder [] = none
  holder (x ∷ xs) = if x.1.waiter.has_lock then some x.0 else holder xs

  -- As long as somebody has the lock, the holder drops its guard.
  pub drain : ℕ → Queue → Option (Queue × List ℕ)
  drain zero q = some (q, [])
  drain (suc n) q = elim (holder (entries q)) [
    | none ↦ some (q, [])
    | some h ↦ drop_guard p Q q h >>= λ q'. drain n q' >>= λ r. some (r.0, h ∷ r.1)
  ]

  handles-started :
      (xs : List (Entry (MutexWaiter P))) → map (λ e. e.0) (started p Q xs) ≡ map (λ e. e.0) xs
  handles-started [] = refl
  handles-started (x ∷ xs) = refl

  length-started : (xs : List (Entry (MutexWaiter P))) → length (started p Q xs) ≡ length xs
  length-started [] = refl
  length-started (x ∷ xs) = refl

  drain-step :
      (n h : ℕ) (q q1 q2 : Queue) (hs : List ℕ)
      → holder (entries q) ≡ some h
      → drop_guard p Q q h ≡ some q1
      → drain n q1 ≡ some (q2, hs)
      → drain (suc n) q ≡ some (q2, h ∷ hs)
  unfolding drain
  drain-step n h q q1 q2 hs e f g = rw (e, drain) (rw (f, ◌>>=◌) (rw (g, ◌>>=◌) refl))

  holder-first :
      (x : Entry (MutexWaiter P)) (xs : List (Entry (MutexWaiter P)))
      → Shape p (x ∷ xs)
      → holder (x ∷ xs) ≡ some x.0
  holder-first x xs s = rw (s.0) refl

  -- In a mutex with its invariant, if whoever has the lock drops its guard, again and again, the lock
  -- goes round all queued requests: each of them has it in its turn, once and in the order of the
  -- queue, and the mutex is free at the end.
  pub drain_lem :
      (n : ℕ) (q : Queue) (es : List (Entry (MutexWaiter P)))
      → Inv p Q q
      → entries q ≡ es
      → length es ≤ n
      → (q' : Queue) × (drain n q ≡ some (q', map (λ e. e.0) es)) × (entries q' ≡ [])
  unfolding drain
  drain_lem zero q [] v e l = (q, refl, e)
  drain_lem zero q (x ∷ xs) v e l = absurd (omega arith)
  drain_lem (suc n) q [] v e l = (q, rw (ap holder e, drain) refl, e)
  drain_lem (suc n) q ((h, d) ∷ xs) v e l =
      let (q1, r1, e1, v1) = drop_guard-holder p Q q h d xs v e in
      let (q2, r2, e2) = drain_lem n q1 (started p Q xs) v1 e1 (omega (arith, length-started xs)) in
      (
        q2,
        drain-step n h q q1 q2 (map (λ e. e.0) xs)
            (ap holder e ∙ holder-first (h, d) xs (subst (Shape p) e v.shape)) r1
            (r2 ∙ ap (λ hs. some (q2, hs)) (handles-started xs)),
        e2,
      )
