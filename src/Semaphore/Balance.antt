-- ===== src/Semaphore/Balance.antt =====
-- A balanced semaphore, with `semaphore-total`, and that each call keeps it balanced.
use async_priority_lock_rs.Base.{
  ℕ, ◌+◌, ◌≤◌, ◌≡◌, ◌≢◌, ◌⊎◌, inl, inr, refl, sym, ap, ◌∙◌, subst, Bool, true, Option, some, List,
  ◌∷◌, ◌++◌, arith, if◌then◌else◌, ◌>>=◌, min,
}
use async_priority_lock_rs.Priority.{Priority}
use async_priority_lock_rs.Priority.Laws.{IsLawful}
use async_priority_lock_rs.Waiter
use async_priority_lock_rs.Waiter.{Waiter, Flags, Poll}
use async_priority_lock_rs.Queue.{PriorityQueue}
use async_priority_lock_rs.Queue.Order.{Entry}
use async_priority_lock_rs.Semaphore.{
  Features, SemaphoreWaiter, count_of, semaphore_priority, usize_max, on_waiter,
}
use async_priority_lock_rs.Semaphore.Inner.{SemaphoreInner}
use async_priority_lock_rs.Semaphore.Acquire.{do_acquire, poll}
use async_priority_lock_rs.Semaphore.Permit.{
  drop_waiter, done, drop_permit, forget, split_node, split_off, merge, merged, refused,
}
use async_priority_lock_rs.Semaphore.Pool.{added, try_add_permits, forget_permits}
use async_priority_lock_rs.Semaphore.Entries.{weight, issued, issued-insert}
use async_priority_lock_rs.Semaphore.Alike.{
  Alike, Alike-refl, append-Alike, issued-Alike, IsSorted-Alike,
}
use async_priority_lock_rs.Semaphore.Granted.{Good}
use async_priority_lock_rs.Semaphore.Decision.{do_acquire_lem}
use async_priority_lock_rs.Semaphore.Release.{drop_permit_lem}
use async_priority_lock_rs.Semaphore.Leave.{drop_waiter_lem}
use async_priority_lock_rs.Semaphore.Growth.{try_add_permits_lem, forget_permits_lem}
use async_priority_lock_rs.Semaphore.Shares.{split_node_lem}
use async_priority_lock_rs.Semaphore.Forget.{forget_lem}
use async_priority_lock_rs.Semaphore.Merge.{merge_lem}

pub the_same : {A : Type 0} {o : Option A} {a b : A} → o ≡ some a → o ≡ some b → a ≡ b
the_same e f = cc

module _ {P : Type 0} (features : Features) (p : Priority P)
    (Q : PriorityQueue (semaphore_priority features p)) (law : IsLawful p) where
  open Q use {Queue, entries}

  abbrev Inner : Type 0
  Inner = SemaphoreInner features p Q

  -- A request or a permit: its entry is in the queue.
  pub record Queued (sem : Inner) (h : ℕ) : Type 0 where
    pub front : List (Entry (SemaphoreWaiter P))
    pub back : List (Entry (SemaphoreWaiter P))
    pub item : SemaphoreWaiter P
    pub place : entries sem.queue ≡ front ++ (h, item) ∷ back

  -- A permit: its entry has the permits.
  pub record Holds (sem : Inner) (h : ℕ) : Type 0 where
    pub at : Queued sem h
    pub held : at.item.waiter.has_lock ≡ true

  -- The permits that are available and those that are out are the total.
  pub record Balanced (sem : Inner) : Type 0 where
    pub good : Good features p Q law sem.queue
    pub balance : sem.available + issued features (entries sem.queue) ≡ sem.total
    pub bounded : sem.total ≤ usize_max

  weight-le :
      (sem : Inner) (h : ℕ) (at : Queued sem h)
      → weight features at.item ≤ issued features (entries sem.queue)
  weight-le sem h at =
      omega
        (arith, ap (issued features) at.place, issued-insert features at.front at.back (h, at.item))

  count-le :
      (sem : Inner) (h : ℕ) (holds : Holds sem h)
      → count_of features holds.at.item ≤ issued features (entries sem.queue)
  count-le sem h holds = omega (
    arith,
    weight-le sem h holds.at,
    ap (λ b. if b then count_of features holds.at.item else 0) holds.held,
  )

  kept :
      (sem sem' : Inner)
      → Balanced sem
      → Good features p Q law sem'.queue
      → sem'.total ≡ sem.total
      → sem'.available + issued features (entries sem'.queue)
        ≡ sem.available + issued features (entries sem.queue)
      → Balanced sem'
  kept sem sem' b good total conserved = record {
    good = good;
    balance = conserved ∙ b.balance ∙ sym total;
    bounded = subst (λ n. n ≤ usize_max) (sym total) b.bounded;
  }

  pub acquire-Balanced :
      (sem sem' : Inner) (priority : P) (count h : ℕ) (got : Bool)
      → features.semaphore_total ≡ true
      → Balanced sem
      → do_acquire features p Q sem priority count ≡ some (sem', h, got)
      → Balanced sem'
  acquire-Balanced sem sem' priority count h got on b e =
      let r = do_acquire_lem features p Q law sem priority count b.good (inl on) in
      subst Balanced (ap (λ t. t.0) (the_same r.returned e))
        (kept sem r.inner' b r.good r.total r.conserved)

  -- In a balanced semaphore, a permit can always be dropped: the drop does not panic, and the
  -- semaphore stays balanced.
  pub drop_permit-Balanced :
      (sem : Inner) (h : ℕ)
      → Balanced sem
      → Holds sem h
      → (sem' : Inner) × (drop_permit features p Q sem h ≡ some (done sem')) × Balanced sem'
  drop_permit-Balanced sem h b holds =
      let (sem', r, good, total, conserved, _, _) =
        drop_permit_lem features p Q law sem holds.at.front holds.at.back h holds.at.item b.good
          holds.at.place holds.held (omega (arith, count-le sem h holds, b.balance, b.bounded)) in
      (sem', r, kept sem sem' b good total conserved)

  pub drop_waiter-Balanced :
      (sem : Inner) (h : ℕ)
      → Balanced sem
      → Queued sem h
      → (sem' : Inner) × (drop_waiter features p Q sem h ≡ some sem') × Balanced sem'
  drop_waiter-Balanced sem h b at =
      let (sem', r, good, total, conserved, _) =
        drop_waiter_lem features p Q law sem at.front at.back h at.item b.good at.place
          (omega (arith, weight-le sem h at, b.balance, b.bounded)) in
      (sem', r, kept sem sem' b good total conserved)

  pub forget-Balanced :
      (sem : Inner) (h : ℕ)
      → features.semaphore_total ≡ true
      → Balanced sem
      → Holds sem h
      → (sem' : Inner) × (forget features p Q sem h ≡ some sem') × Balanced sem'
  forget-Balanced sem h on b holds =
      let (sem', r, good, available, weights, total) =
        forget_lem features p Q law sem holds.at.front holds.at.back h holds.at.item b.good
          holds.at.place holds.held (omega (arith, count-le sem h holds, b.balance)) b.bounded in
      let total' =
        ap (λ b. sem'.total + (if b then count_of features holds.at.item else 0)) (sym on) in
      (
        sem',
        r,
        record {
          good = good;
          balance = omega (arith, available, weights, total, total', b.balance);
          bounded = omega (arith, total, total', b.bounded);
        },
      )

  pub split-Balanced :
      (sem sem' : Inner) (h count h' : ℕ) (f : SemaphoreWaiter P → P)
      → Balanced sem
      → Holds sem h
      → split_node features p Q sem h count f ≡ some (split_off sem' h')
      → Balanced sem'
  split-Balanced sem sem' h count h' f b holds e =
      elim (split_node_lem features p Q law sem holds.at.front holds.at.back h count holds.at.item f
        b.good holds.at.place holds.held) [
          | inl (_, (s, _, r, good, total, available, weights, _, _)) ↦
              let same : s ≡ sem' = cc in
              subst Balanced same (kept sem s b good total (omega (arith, available, weights)))
          | inr (_, (s, r, _, _, _, _)) ↦ absurd (cc)
        ]

  module _ (sem sem' : Inner) (h o : ℕ) (b : Balanced sem) (apart : h ≢ o) (holds : Holds sem h)
      (other : Holds sem o) where
    pub merge-Balanced :
        (merge features p Q sem h o ≡ some (merged sem'))
          ⊎ (merge features p Q sem h o ≡ some (refused sem'))
        → Balanced sem'
    merge-Balanced e =
        elim (merge_lem features p Q law sem holds.at.front holds.at.back other.at.front
          other.at.back h o holds.at.item other.at.item b.good apart holds.at.place other.at.place
          holds.held other.held (omega (arith, b.balance, b.bounded))) [
            | inl (_, (s, r, good, total, available, weights, _, _, _, _, _, _)) ↦
                subst Balanced (as_merged s r e)
                  (kept sem s b good total (omega (arith, available, weights)))
            | inr (_, (s, r, good, total, conserved, _)) ↦
                subst Balanced (as_refused s r e) (kept sem s b good total conserved)
          ]
      where
        as_merged :
            (s : Inner)
            → merge features p Q sem h o ≡ some (merged s)
            → (merge features p Q sem h o ≡ some (merged sem'))
              ⊎ (merge features p Q sem h o ≡ some (refused sem'))
            → s ≡ sem'
        as_merged s r (inl e) = cc
        as_merged s r (inr e) = absurd (cc)

        as_refused :
            (s : Inner)
            → merge features p Q sem h o ≡ some (refused s)
            → (merge features p Q sem h o ≡ some (merged sem'))
              ⊎ (merge features p Q sem h o ≡ some (refused sem'))
            → s ≡ sem'
        as_refused s r (inl e) = absurd (cc)
        as_refused s r (inr e) = cc

  pub add-Balanced :
      (sem sem' : Inner) (count n : ℕ)
      → features.semaphore_total ≡ true
      → Balanced sem
      → try_add_permits features p Q sem count ≡ some (added sem' n)
      → Balanced sem'
  add-Balanced sem sem' count n on b e =
      elim (try_add_permits_lem features p Q law sem count b.good (ground (arith, b.balance))) [
        | inl (_, r) ↦ absurd (cc)
        | inr (s, fits, r, good, total, conserved, _, _) ↦
            let same : s ≡ sem' = cc in
            let grows : s.total ≡ sem.total + count = ground arith in
            let fits' : sem.total + count ≤ usize_max = ground arith in
            subst Balanced same (record {
              good = good;
              balance = omega (arith, conserved, b.balance, grows);
              bounded = omega (arith, grows, fits');
            })
      ]

  pub forget_free-Balanced :
      (sem sem' : Inner) (count n : ℕ)
      → features.semaphore_total ≡ true
      → Balanced sem
      → forget_permits features p Q sem count ≡ some (sem', n)
      → Balanced sem'
  forget_free-Balanced sem sem' count n on b e =
      let (s, r, good, available, weights, total) =
        forget_permits_lem features p Q law sem count b.good (λ _. omega (arith, b.balance))
          b.bounded in
      let same : s ≡ sem' = cc in
      let total' = ap (λ c. s.total + (if c then min count sem.available else 0)) (sym on) in
      subst Balanced same (record {
        good = good;
        balance = omega (arith, available, weights, total, total', b.balance);
        bounded = omega (arith, total, total', b.bounded);
      })

  wait_for_flag-has_lock :
      (target : Flags) (k : ℕ) (w : Waiter)
      → (Waiter.wait_for_flag target k w).0.has_lock ≡ w.has_lock
  unfolding Waiter.wait_for_flag
  wait_for_flag-has_lock target k w = ground arith

  pub poll-Balanced :
      (sem sem' : Inner) (target : Flags) (h k : ℕ) (r : Poll)
      → Balanced sem
      → Queued sem h
      → poll features p Q target sem h k ≡ some (sem', r)
      → Balanced sem'
  unfolding poll
  poll-Balanced sem sem' target h k r b at e =
      let f = on_waiter features (λ w. (Waiter.wait_for_flag target k w).0) in
      let (q, u, place, valid) =
        Q.with_ref_lem sem.queue at.front at.back h at.item f b.good.valid at.place in
      let found = Q.get_by_handle_lem sem.queue at.front at.back h at.item b.good.valid at.place in
      let alike : Alike (entries sem.queue) (entries q) =
        subst (λ es. Alike es (entries q)) (sym at.place)
          (subst (Alike (at.front ++ (h, at.item) ∷ at.back)) (sym place) (
            append-Alike at.front _ _ (
              refl,
              record {
                priority = refl;
                has_lock = wait_for_flag-has_lock target k at.item.waiter;
                count = refl;
              },
              Alike-refl at.back,
            ))) in
      let done_at : poll features p Q target sem h k
          ≡ some (record sem { queue = q }, (Waiter.wait_for_flag target k at.item.waiter).1) =
        rw (found, ◌>>=◌) (rw (u, ◌>>=◌) refl) in
      subst Balanced (ap (λ t. t.0) (the_same done_at e)) (
        kept sem (record sem { queue = q }) b
          (record {
            valid = valid;
            sorted = IsSorted-Alike features p (entries sem.queue) (entries q) alike b.good.sorted;
          })
          refl
          (ap (λ n. sem.available + n)
            (issued-Alike features (entries sem.queue) (entries q) alike)))
