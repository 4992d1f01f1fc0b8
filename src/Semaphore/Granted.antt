-- ===== src/Semaphore/Granted.antt =====
-- What a step of `activate_waiters` does at an entry, and what one grant does to the queue.
use mathlib.Core.List.{append_assoc}
use async_priority_lock_rs.Base.{
  ℕ, suc, ◌+◌, ◌-◌, ◌≡◌, refl, sym, ap, ◌∙◌, subst, true, false, Option, some, List, [], ◌∷◌, ◌++◌,
  arith, All, if◌then◌else◌, ltb, length, length-insert,
}
use async_priority_lock_rs.Priority.{Priority}
use async_priority_lock_rs.Priority.Laws.{IsLawful}
use async_priority_lock_rs.Waiter
use async_priority_lock_rs.Queue.{PriorityQueue}
use async_priority_lock_rs.Queue.Order.{Entry, IsSorted, IsSorted-remove, Moved-IsSorted}
use async_priority_lock_rs.Semaphore.{
  Features, SemaphoreWaiter, count_of, semaphore_priority, on_waiter,
}
use async_priority_lock_rs.Semaphore.Inner.{
  SemaphoreInner, skip, stop, grant, decide, start_node, grant_node, activate_waiters,
}
use async_priority_lock_rs.Semaphore.Entries.{
  Held, weight, issued, pending, leaving, pending-insert, issued-insert, semaphore-IsLawful,
  Held-before,
}

module _ {P : Type 0} where
  -- Where the held entries of a queue end.
  pub Held-prefix :
      (b l xs ys : List (Entry (SemaphoreWaiter P)))
      → xs ++ ys ≡ b ++ l
      → All (Held true) b
      → All (Held false) ys
      → (mid : List (Entry (SemaphoreWaiter P))) × (xs ≡ b ++ mid) × (l ≡ mid ++ ys)
  Held-prefix [] l xs ys e h f = (xs, refl, sym e)
  Held-prefix (x ∷ b) l [] [] e h f = cc
  Held-prefix (x ∷ b) l [] (y ∷ ys) e h f = absurd (ground (arith, h.0, f.0))
  Held-prefix (x ∷ b) l (x' ∷ xs) ys e h f =
      let (mid, p, q) = Held-prefix b l xs ys (ground arith) h.1 f in (mid, ground (arith, p), q)

module _ {P : Type 0} (features : Features) (p : Priority P)
    (Q : PriorityQueue (semaphore_priority features p)) (law : IsLawful p) where
  open Q use {Queue, entries, IsValid, get_by_handle, get_next_handle}

  abbrev Inner : Type 0
  Inner = SemaphoreInner features p Q

  pub record Good (q : Queue) : Type 0 where
    pub valid : IsValid q
    pub sorted : IsSorted (semaphore_priority features p) (entries q)

  module _ (fuel h : ℕ) (sem : Inner) (d : SemaphoreWaiter P) (next : Option ℕ)
      (g : get_by_handle sem.queue h ≡ some d) (n : get_next_handle sem.queue h ≡ some next) where
    pub step-skip :
        decide features p Q sem.available d ≡ skip
        → activate_waiters features p Q (suc fuel) sem (some h)
          ≡ activate_waiters features p Q fuel sem next
    unfolding activate_waiters
    step-skip e = ground arith

    pub step-stop :
        decide features p Q sem.available d ≡ stop
        → activate_waiters features p Q (suc fuel) sem (some h) ≡ some sem
    unfolding activate_waiters
    step-stop e = ground arith

    pub step-grant :
        (sem' : Inner)
        → decide features p Q sem.available d ≡ grant
        → grant_node features p Q sem h d ≡ some sem'
        → activate_waiters features p Q (suc fuel) sem (some h)
          ≡ activate_waiters features p Q fuel sem' next
    unfolding activate_waiters
    step-grant sem' e f = ground arith

  module _ (a : ℕ) (d : SemaphoreWaiter P) where
    pub decide-held : d.waiter.has_lock ≡ true → decide features p Q a d ≡ skip
    unfolding decide
    decide-held h = ground arith

    pub decide-leaving :
        d.waiter.has_lock ≡ false
        → ltb a (count_of features d) ≡ true
        → leaving features d ≡ true
        → decide features p Q a d ≡ skip
    unfolding decide
    decide-leaving f s l = ground arith

    pub decide-stop :
        d.waiter.has_lock ≡ false
        → ltb a (count_of features d) ≡ true
        → leaving features d ≡ false
        → decide features p Q a d ≡ stop
    unfolding decide
    decide-stop f s l = ground arith

    pub decide-grant :
        d.waiter.has_lock ≡ false
        → ltb a (count_of features d) ≡ false
        → decide features p Q a d ≡ grant
    unfolding decide
    decide-grant f s = ground arith

  abbrev pub granted : SemaphoreWaiter P → SemaphoreWaiter P
  granted d = on_waiter features Waiter.start d

  granted-held : (d : SemaphoreWaiter P) → (granted d).waiter.has_lock ≡ true
  unfolding Waiter.start
  granted-held d = ground arith

  weight-granted : (d : SemaphoreWaiter P) → weight features (granted d) ≡ count_of features d
  weight-granted d = ap (λ b. if b then count_of features d else 0) (granted-held d)

  -- One grant: the waiter moves among the holders, and the rest of the walk stays ahead.
  pub record Granted (sem : Inner) (h : ℕ) (d : SemaphoreWaiter P)
      (xs ys : List (Entry (SemaphoreWaiter P))) : Type 0 where
    pub sem' : Inner
    pub returned : grant_node features p Q sem h d ≡ some sem'
    pub good : Good sem'.queue
    pub total : sem'.total ≡ sem.total
    pub available : sem'.available ≡ sem.available - count_of features d
    pub front : List (Entry (SemaphoreWaiter P))
    pub place : entries sem'.queue ≡ front ++ ys
    pub waiting : pending features front ≡ pending features xs
    pub weights : issued features front ≡ issued features xs + count_of features d
    pub size : length front ≡ suc (length xs)

  grant_node-some :
      (sem : Inner) (h : ℕ) (d : SemaphoreWaiter P) (q : Queue)
      → Q.update_node sem.queue h (start_node features p Q) ≡ some q
      → grant_node features p Q sem h d
        ≡ some (record sem { queue = q; available = sem.available - count_of features d })
  unfolding grant_node
  grant_node-some sem h d q e = ground arith

  start_node-eq : (d : SemaphoreWaiter P) → start_node features p Q d ≡ (granted d, true)
  unfolding start_node
  start_node-eq d = refl

  pub grant_node_lem :
      (sem : Inner) (h : ℕ) (d : SemaphoreWaiter P) (xs ys : List (Entry (SemaphoreWaiter P)))
      → Good sem.queue
      → entries sem.queue ≡ xs ++ (h, d) ∷ ys
      → All (Held false) ys
      → Granted sem h d xs ys
  grant_node_lem sem h d xs ys v e f =
      let slaw = semaphore-IsLawful features law in
      let sorted =
        IsSorted-remove (semaphore_priority features p) xs ys (h, d)
          (subst (IsSorted (semaphore_priority features p)) e v.sorted) in
      let (q, r, w, v') =
        Q.update_node-true sem.queue xs ys h d (granted d) (start_node features p Q) v.valid e
          (start_node-eq d) slaw sorted in
      let held = Held-before features p (granted d) w.before (granted-held d) w.above in
      let (mid, b, l) = Held-prefix w.before w.later xs ys w.split held f in
      record {
        sem' = record sem { queue = q; available = sem.available - count_of features d };
        returned = grant_node-some sem h d q r;
        good = record { valid = v'; sorted = Moved-IsSorted slaw w sorted };
        total = refl;
        available = refl;
        front = w.before ++ (h, granted d) ∷ mid;
        place =
            w.result
            ∙ ap (λ t. w.before ++ (h, granted d) ∷ t) l
            ∙ sym (append_assoc w.before ((h, granted d) ∷ mid) ys);
        waiting =
            pending-insert features w.before mid (h, granted d) (granted-held d)
            ∙ ap (pending features) (sym b);
        weights =
            issued-insert features w.before mid (h, granted d)
            ∙ ap (λ n. n + weight features (granted d)) (ap (issued features) (sym b))
            ∙ ap (λ n. issued features xs + n) (weight-granted d);
        size = length-insert w.before mid (h, granted d) ∙ ap (λ l. suc (length l)) (sym b);
      }
