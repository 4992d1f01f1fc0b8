-- ===== src/Semaphore/Growth.antt =====
-- `try_add_permits` and `forget_permits` of src/semaphore.rs, on all their branches.
use async_priority_lock_rs.Base.{
  ℕ, ◌+◌, ◌-◌, ◌≤◌, ◌<◌, ◌≡◌, ◌⊎◌, inl, inr, refl, sym, ap, ◌∙◌, subst, true, false, ◌&&◌, not,
  none, some, [], arith, if◌then◌else◌, ltb, Bool-cases, ◌>>=◌, ◌==◌, min,
}
use async_priority_lock_rs.Priority.{Priority}
use async_priority_lock_rs.Priority.Laws.{IsLawful}
use async_priority_lock_rs.Waiter
use async_priority_lock_rs.Queue.{PriorityQueue}
use async_priority_lock_rs.Semaphore.{
  Features, SemaphoreWaiter, count_of, flag_of, semaphore_priority, usize_max, on_waiter,
}
use async_priority_lock_rs.Semaphore.Inner.{SemaphoreInner, notify_node, notify_oversized_waiters}
use async_priority_lock_rs.Semaphore.Permit.{activate, wrapping_add, wrapping_sub}
use async_priority_lock_rs.Semaphore.Pool.{
  added, overflow, overflows, try_add_permits, forget_permits,
}
use async_priority_lock_rs.Semaphore.Entries.{issued, pending, left, Blocked, left-Blocked, rest}
use async_priority_lock_rs.Semaphore.Alike.{Same, Same-refl, evict-Same}
use async_priority_lock_rs.Semaphore.Granted.{Good}
use async_priority_lock_rs.Semaphore.Grants.{marked}
use async_priority_lock_rs.Semaphore.Release.{activate_lem}

module _ {P : Type 0} (features : Features) (p : Priority P)
    (Q : PriorityQueue (semaphore_priority features p)) (law : IsLawful p) where
  open Q use {Queue, entries}

  abbrev Inner : Type 0
  Inner = SemaphoreInner features p Q

  -- The permits that may not overflow.
  abbrev pub counted : Inner → ℕ
  counted sem = if features.semaphore_total then sem.total else sem.available

  abbrev grown : Inner → ℕ → Inner
  grown sem count = record sem {
    total = if features.semaphore_total then sem.total + count else sem.total;
    available = wrapping_add sem.available count;
  }

  try_add_permits-over :
      (sem : Inner) (count : ℕ)
      → usize_max < counted sem + count
      → try_add_permits features p Q sem count ≡ some overflow
  unfolding try_add_permits overflows
  try_add_permits-over sem count over = ground arith

  try_add_permits-eq :
      (sem sem' : Inner) (count : ℕ)
      → counted sem + count ≤ usize_max
      → activate features p Q (grown sem count) (Q.head_handle sem.queue) ≡ some sem'
      → try_add_permits features p Q sem count ≡ some (added sem' sem'.available)
  unfolding try_add_permits overflows
  try_add_permits-eq sem sem' count fits e =
      let o : ltb usize_max (counted sem + count) ≡ false = ground arith in rw (o, e, ◌>>=◌) refl

  module _ (sem : Inner) (count : ℕ) (v : Good features p Q law sem.queue)
      (bounded : sem.available ≤ counted sem) where
    -- On a sorted queue, and if what is available is no more than what may not overflow, added
    -- permits are handed out at once, in the order of the queue, until nobody who could be served
    -- is waiting; on overflow the call reports an error and changes nothing.
    pub try_add_permits_lem :
        ((usize_max < counted sem + count)
          × (try_add_permits features p Q sem count ≡ some overflow))
        ⊎ ((sem' : Inner) × (counted sem + count ≤ usize_max)
            × (try_add_permits features p Q sem count ≡ some (added sem' sem'.available))
            × Good features p Q law sem'.queue
            × (sem'.total ≡ (if features.semaphore_total then sem.total + count else sem.total))
            × (sem'.available + issued features (entries sem'.queue)
                ≡ sem.available + count + issued features (entries sem.queue))
            × (pending features (entries sem'.queue)
                ≡ left features (sem.available + count) (entries sem.queue))
            × Blocked features sem'.available
                (left features (sem.available + count) (entries sem.queue)))
    try_add_permits_lem = elim (Bool-cases (ltb usize_max (counted sem + count))) [
      | inl over ↦
          let o : usize_max < counted sem + count = ground arith in
          inl (o, try_add_permits-over sem count o)
      | inr fits ↦
          let f : counted sem + count ≤ usize_max = ground arith in
          let a = activate_lem features p Q law (entries sem.queue) [] (grown sem count) v refl in
          let w : wrapping_add sem.available count ≡ sem.available + count = ground arith in
          inr (
            a.sem',
            f,
            try_add_permits-eq sem a.sem' count f (
                ap (activate features p Q (grown sem count)) (Q.head_handle_lem sem.queue v.valid)
                ∙ a.returned),
            a.good,
            a.total,
            omega (arith, a.conserved, w),
            a.waiting ∙ ap (λ n. left features n (entries sem.queue)) w,
            subst
                (λ n.
                  Blocked features n (left features (sem.available + count) (entries sem.queue)))
                (sym (a.available ∙ ap (λ n. rest features n (entries sem.queue)) w))
                (left-Blocked features (sem.available + count) (entries sem.queue)),
          )
    ]

  pub notify_node-Same :
      (total : ℕ) (d : SemaphoreWaiter P) → Same d (notify_node features p Q total d).0
  unfolding notify_node
  notify_node-Same total d =
      elim (Bool-cases (flag_of features d && ltb total (count_of features d))) [
        | inl over ↦
            subst (λ b. Same d (if b then on_waiter features Waiter.evict d else d)) (sym over)
              (evict-Same features d)
        | inr fits ↦
            subst (λ b. Same d (if b then on_waiter features Waiter.evict d else d)) (sym fits)
              (Same-refl d)
      ]

  notify-eq :
      (sem : Inner) (q : Queue)
      → Q.for_each sem.queue none (notify_node features p Q sem.total) ≡ some q
      → notify_oversized_waiters features p Q sem none ≡ some (record sem { queue = q })
  unfolding notify_oversized_waiters
  notify-eq sem q e = rw (e, ◌>>=◌) refl

  module _ (sem : Inner) (count : ℕ) (v : Good features p Q law sem.queue) where
    abbrev pub forgotten : ℕ
    forgotten = min count sem.available

    abbrev shrunk : Inner
    shrunk = record sem {
      available = sem.available - forgotten;
      total = wrapping_sub sem.total forgotten;
    }

    forget_permits-notifies :
        (sem' : Inner)
        → (features.semaphore_total && not (forgotten == 0)) ≡ true
        → notify_oversized_waiters features p Q shrunk none ≡ some sem'
        → forget_permits features p Q sem count ≡ some (sem', forgotten)
    unfolding forget_permits
    forget_permits-notifies sem' on e = rw (on, e, ◌>>=◌) refl

    forget_permits-plain :
        (features.semaphore_total && not (forgotten == 0)) ≡ false
        → forget_permits features p Q sem count
          ≡ some (record sem { available = sem.available - forgotten }, forgotten)
    unfolding forget_permits
    forget_permits-plain off = rw (off) refl

    none_forgotten :
        (features.semaphore_total && not (forgotten == 0)) ≡ false
        → sem.total + (if features.semaphore_total then forgotten else 0) ≡ sem.total
    none_forgotten off = elim (Bool-cases features.semaphore_total) [
      | inl total ↦ ground arith
      | inr no_total ↦ ground arith
    ]

    all_forgotten :
        (features.semaphore_total ≡ true → sem.available ≤ sem.total)
        → sem.total ≤ usize_max
        → (features.semaphore_total && not (forgotten == 0)) ≡ true
        → wrapping_sub sem.total forgotten + (if features.semaphore_total then forgotten else 0)
          ≡ sem.total
    all_forgotten covered bounded on =
        let total : features.semaphore_total ≡ true = ground arith in
        rw (total) (omega (arith, covered total))

    -- If the total covers what is available and fits a word, `forget_permits` takes as many of the
    -- available permits as it is asked for and answers how many that were; no issued permit goes,
    -- and the total, where it is kept, shrinks by as many.
    pub forget_permits_lem :
        (features.semaphore_total ≡ true → sem.available ≤ sem.total)
        → sem.total ≤ usize_max
        → (sem' : Inner) × (forget_permits features p Q sem count ≡ some (sem', forgotten))
          × Good features p Q law sem'.queue
          × (sem'.available + forgotten ≡ sem.available)
          × (issued features (entries sem'.queue) ≡ issued features (entries sem.queue))
          × (sem'.total + (if features.semaphore_total then forgotten else 0) ≡ sem.total)
    forget_permits_lem covered bounded =
        elim (Bool-cases (features.semaphore_total && not (forgotten == 0))) [
          | inr off ↦ (_, forget_permits-plain off, v, omega arith, refl, none_forgotten off)
          | inl on ↦
              let m =
                marked features p Q law (notify_node features p Q shrunk.total) sem.queue
                  (notify_node-Same shrunk.total) v in
              (
                record shrunk { queue = m.queue },
                forget_permits-notifies _ on (notify-eq shrunk m.queue m.returned),
                m.good,
                omega arith,
                m.weights,
                all_forgotten covered bounded on,
              )
        ]
