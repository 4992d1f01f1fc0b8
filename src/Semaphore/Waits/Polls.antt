-- ===== src/Semaphore/Waits/Polls.antt =====
-- A poll of `acquire_within_total` that awaits, on all its branches.
use mathlib.Core.Option
use async_priority_lock_rs.Base.{
  ℕ, ◌+◌, ◌≤◌, ◌≡◌, ◌⊎◌, inl, inr, refl, sym, ap, ◌∙◌, subst, true, false, none, some, List, ◌∷◌,
  ◌++◌, arith, if◌then◌else◌, Bool-cases, last?, bind-some,
}
use async_priority_lock_rs.Priority.{Priority}
use async_priority_lock_rs.Priority.Laws.{IsLawful}
use async_priority_lock_rs.Waiter
use async_priority_lock_rs.Waiter.{
  Waiter, Flags, Poll, ready, pending as unready, lock_or_evict, flags, has_any,
}
use async_priority_lock_rs.Waiter.Wakes.{wait_for_flag_lem}
use async_priority_lock_rs.Queue.{PriorityQueue}
use async_priority_lock_rs.Queue.Order.{Entry}
use async_priority_lock_rs.Semaphore.{
  Features, SemaphoreWaiter, semaphore_priority, on_waiter, usize_max,
}
use async_priority_lock_rs.Semaphore.Inner.{SemaphoreInner}
use async_priority_lock_rs.Semaphore.Acquire.{
  poll, after_wait, InsufficientPermitsError, error_total,
}
use async_priority_lock_rs.Semaphore.Permit.{drop_waiter}
use async_priority_lock_rs.Semaphore.Entries.{issued, pending, left, weight}
use async_priority_lock_rs.Semaphore.Granted.{Good}
use async_priority_lock_rs.Semaphore.Alike.{
  Same, Alike, Alike-refl, append-Alike, IsSorted-Alike, issued-Alike,
}
use async_priority_lock_rs.Semaphore.Leave.{drop_waiter_lem, looks}
use async_priority_lock_rs.Semaphore.Waits.{
  drop_future, waiting, granted, evicted, leave_within, finish_within, poll_within_total,
}

module _ {P : Type 0} (features : Features) (p : Priority P)
    (Q : PriorityQueue (semaphore_priority features p)) (law : IsLawful p) where
  open Q use {Queue, entries}

  wait_for_flag-has_lock :
      (target : Flags) (k : ℕ) (w : Waiter)
      → (Waiter.wait_for_flag target k w).0.has_lock ≡ w.has_lock
  unfolding Waiter.wait_for_flag
  wait_for_flag-has_lock target k w = ground arith

  -- A queue in which the waiter of one entry has changed, but not its lock flag.
  record Touched (q : Queue) (xs ys : List (Entry (SemaphoreWaiter P))) (h : ℕ)
      (d : SemaphoreWaiter P) (f : Waiter → Waiter) : Type 0 where
    queue : Queue
    run : Q.with_ref q h (on_waiter features f) ≡ some queue
    good : Good features p Q law queue
    place : entries queue ≡ xs ++ (h, on_waiter features f d) ∷ ys
    alike : Alike (entries q) (entries queue)

  touched :
      (f : Waiter → Waiter) (q : Queue) (xs ys : List (Entry (SemaphoreWaiter P))) (h : ℕ)
      (d : SemaphoreWaiter P)
      → (f d.waiter).has_lock ≡ d.waiter.has_lock
      → Good features p Q law q
      → entries q ≡ xs ++ (h, d) ∷ ys
      → Touched q xs ys h d f
  touched f q xs ys h d keep v here =
      let (q', run, place, valid) =
        Q.with_ref_lem q xs ys h d (on_waiter features f) v.valid here in
      let alike : Alike (entries q) (entries q') =
        subst (λ es. Alike es (entries q')) (sym here)
          (subst (Alike (xs ++ (h, d) ∷ ys)) (sym place) (
            append-Alike xs _ _
              (refl, record { priority = refl; has_lock = keep; count = refl }, Alike-refl ys))) in
      record {
        queue = q';
        run = run;
        good = record {
          valid = valid;
          sorted = IsSorted-Alike features p (entries q) (entries q') alike v.sorted;
        };
        place = place;
        alike = alike;
      }

  module _ (sem : SemaphoreInner features p Q) (xs ys : List (Entry (SemaphoreWaiter P)))
      (h waker count : ℕ) (d : SemaphoreWaiter P) (v : Good features p Q law sem.queue)
      (here : entries sem.queue ≡ xs ++ (h, d) ∷ ys) where
    abbrev looked : Waiter → Waiter
    looked w = (Waiter.wait_for_flag lock_or_evict waker w).0

    abbrev polled : SemaphoreWaiter P
    polled = on_waiter features looked d

    seen : Touched sem.queue xs ys h d looked
    seen =
        touched looked sem.queue xs ys h d (wait_for_flag-has_lock lock_or_evict waker d.waiter) v
          here

    poll-seen :
        (r : Poll)
        → (Waiter.wait_for_flag lock_or_evict waker d.waiter).1 ≡ r
        → poll features p Q lock_or_evict sem h waker ≡ some (record sem { queue = seen.queue }, r)
    unfolding poll
    poll-seen r e =
        bind-some _ (Q.get_by_handle_lem sem.queue xs ys h d v.valid here)
          (bind-some _ seen.run (ap (λ r. some (record sem { queue = seen.queue }, r)) e))

    clear-has_lock : (w : Waiter) → (Waiter.clear_waker w).0.has_lock ≡ w.has_lock
    unfolding Waiter.clear_waker
    clear-has_lock w = refl

    clear-waker : (w : Waiter) → (Waiter.clear_waker w).0.waker ≡ none
    unfolding Waiter.clear_waker
    clear-waker w = refl

    abbrev sem1 : SemaphoreInner features p Q
    sem1 = record sem { queue = seen.queue }

    -- The future is dropped after it was ready.
    gone : Touched seen.queue xs ys h polled (λ w. (Waiter.clear_waker w).0)
    gone =
        touched (λ w. (Waiter.clear_waker w).0) seen.queue xs ys h polled
          (clear-has_lock polled.waiter) seen.good seen.place

    abbrev cleared : SemaphoreWaiter P
    cleared = on_waiter features (λ w. (Waiter.clear_waker w).0) polled

    abbrev sem2 : SemaphoreInner features p Q
    sem2 = record sem { queue = gone.queue }

    cleared-has_lock : cleared.waiter.has_lock ≡ d.waiter.has_lock
    cleared-has_lock =
        clear-has_lock polled.waiter ∙ wait_for_flag-has_lock lock_or_evict waker d.waiter

    cleared-Same : Same d cleared
    cleared-Same = record { priority = refl; has_lock = cleared-has_lock; count = refl }

    poll_within-ready :
        (f : Flags)
        → (Waiter.wait_for_flag lock_or_evict waker d.waiter).1 ≡ ready f
        → poll_within_total features p Q sem h waker count
          ≡ leave_within features p Q sem2 h (after_wait features p Q f count)
    unfolding poll_within_total finish_within drop_future
    poll_within-ready f e =
        bind-some _ (poll-seen (ready f) e) (bind-some _ (bind-some _ gone.run refl) refl)

    poll_within-unready :
        (Waiter.wait_for_flag lock_or_evict waker d.waiter).1 ≡ unready
        → poll_within_total features p Q sem h waker count ≡ some (waiting sem1)
    unfolding poll_within_total finish_within
    poll_within-unready e = bind-some _ (poll-seen unready e) refl

    after-held :
        d.waiter.has_lock ≡ true
        → leave_within features p Q sem2 h (after_wait features p Q (flags d.waiter) count)
          ≡ some (granted sem2)
    unfolding leave_within after_wait
    after-held held = rw (held) refl

    abbrev lapse : InsufficientPermitsError
    lapse = record { total = usize_max; requested = count }

    after-free :
        (sem' : SemaphoreInner features p Q)
        → d.waiter.has_lock ≡ false
        → drop_waiter features p Q sem2 h ≡ some sem'
        → leave_within features p Q sem2 h (after_wait features p Q (flags d.waiter) count)
          ≡ some (evicted sem' lapse)
    unfolding leave_within after_wait
    after-free sem' free e = rw (free) (bind-some _ e refl)

    issued_same : issued features (entries gone.queue) ≡ issued features (entries sem.queue)
    issued_same =
        issued-Alike features (entries seen.queue) (entries gone.queue) gone.alike
        ∙ issued-Alike features (entries sem.queue) (entries seen.queue) seen.alike

    -- The request has been evicted, and leaves.
    leaves :
        d.waiter.has_lock ≡ false
        → sem.available ≤ usize_max
        → (sem' : SemaphoreInner features p Q) × (drop_waiter features p Q sem2 h ≡ some sem')
          × Good features p Q law sem'.queue
          × (sem'.total ≡ sem.total)
          × (sem'.available + issued features (entries sem'.queue)
              ≡ sem.available + issued features (entries sem.queue))
          × (pending features (entries sem'.queue)
              ≡ pending features xs
                ++ (if looks features p Q law sem.available false (Option.map (λ e. e.1) (last? xs))
                    then left features sem.available ys
                    else pending features ys))
    leaves free fits =
        let none_held : cleared.waiter.has_lock ≡ false = cleared-has_lock ∙ free in
        let no_weight : weight features cleared ≡ 0 = rw (none_held) refl in
        let (sem', run, good, total, conserved, waits) =
          drop_waiter_lem features p Q law sem2 xs ys h cleared gone.good gone.place
            (omega (arith, no_weight, fits)) in
        let same : sem.available + weight features cleared ≡ sem.available =
          omega (arith, no_weight) in
        (
          sem',
          run,
          good,
          total,
          conserved ∙ ap (λ n. sem.available + n) issued_same,
          waits
              ∙ ap
                  (λ n.
                    pending features xs
                    ++ (if looks features p Q law n cleared.waiter.has_lock
                          (Option.map (λ e. e.1) (last? xs))
                        then left features n ys
                        else pending features ys))
                  same
              ∙ ap
                  (λ b.
                    pending features xs
                    ++ (if looks features p Q law sem.available b (Option.map (λ e. e.1) (last? xs))
                        then left features sem.available ys
                        else pending features ys))
                  none_held,
        )

    -- On a sorted queue and with what is available within a word, a poll of a request that waits in
    -- `acquire_within_total` never faults. If it has its permits, evicted or not, it returns them, with its entry and the others in place. If it
    -- has been evicted before, it returns an error that tells the count but no total, and leaves: it
    -- takes nothing with it, and the waiters behind it are served if some permits are available and
    -- nobody pending is right before it. Otherwise it stays, with its waker stored.
    pub poll_within_total_lem :
        sem.available ≤ usize_max
        → ((d.waiter.has_lock ≡ true)
            × (sem' : SemaphoreInner features p Q) × (d' : SemaphoreWaiter P) × (poll_within_total
                  features p Q sem h waker count
                ≡ some (granted sem'))
            × (sem'.available ≡ sem.available)
            × (sem'.total ≡ sem.total)
            × (entries sem'.queue ≡ xs ++ (h, d') ∷ ys)
            × Same d d'
            × (d'.waiter.waker ≡ none))
          ⊎ (((d.waiter.has_lock ≡ false)
                × (d.waiter.wants_evict ≡ true)
                × (sem' : SemaphoreInner features p Q) × (e : InsufficientPermitsError)
                × (poll_within_total features p Q sem h waker count ≡ some (evicted sem' e))
                × (error_total e ≡ none)
                × (e.requested ≡ count)
                × Good features p Q law sem'.queue
                × (sem'.total ≡ sem.total)
                × (sem'.available + issued features (entries sem'.queue)
                    ≡ sem.available + issued features (entries sem.queue))
                × (pending features (entries sem'.queue)
                    ≡ pending features xs
                      ++ (if looks features p Q law sem.available false
                            (Option.map (λ e. e.1) (last? xs))
                          then left features sem.available ys
                          else pending features ys)))
              ⊎ ((d.waiter.has_lock ≡ false)
                  × (d.waiter.wants_evict ≡ false)
                  × (sem' : SemaphoreInner features p Q) × (d' : SemaphoreWaiter P)
                  × (poll_within_total features p Q sem h waker count ≡ some (waiting sem'))
                  × (sem'.available ≡ sem.available)
                  × (sem'.total ≡ sem.total)
                  × (entries sem'.queue ≡ xs ++ (h, d') ∷ ys)
                  × Same d d'
                  × (d'.waiter.waker ≡ some waker)))
    unfolding error_total
    poll_within_total_lem fits = elim (wait_for_flag_lem lock_or_evict waker d.waiter refl) [
      | inl (set, answer, _) ↦ elim (Bool-cases d.waiter.has_lock) [
        | inl held ↦ inl (
          held,
          sem2,
          cleared,
          poll_within-ready (flags d.waiter) answer ∙ after-held held,
          refl,
          refl,
          gone.place,
          cleared-Same,
          clear-waker polled.waiter,
        )
        | inr free ↦
            let (sem', run, good, total, conserved, waits) = leaves free fits in
            inr (
              inl (
                free,
                ground arith,
                sem',
                lapse,
                poll_within-ready (flags d.waiter) answer ∙ after-free sem' free run,
                refl,
                refl,
                good,
                total,
                conserved,
                waits,
              ))
      ]
      | inr (unset, answer, stored) ↦ inr (
          inr (
            ground arith,
            ground arith,
            sem1,
            polled,
            poll_within-unready answer,
            refl,
            refl,
            seen.place,
            record {
              priority = refl;
              has_lock = wait_for_flag-has_lock lock_or_evict waker d.waiter;
              count = refl;
            },
            stored,
          ))
    ]
