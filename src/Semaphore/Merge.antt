-- ===== src/Semaphore/Merge.antt =====
-- `SemaphorePermit::merge` of src/semaphore.rs: the permits of two holders become those of one.
use async_priority_lock_rs.Base.{
  ℕ, ◌+◌, ◌≤◌, ◌<◌, ◌≡◌, ◌≢◌, ◌⊎◌, inl, inr, refl, sym, ap, ◌∙◌, subst, true, false, Option, some,
  List, [], ◌∷◌, ◌++◌, arith, if◌then◌else◌, ltb, Bool-cases, ◌>>=◌,
}
use async_priority_lock_rs.Priority.{Priority}
use async_priority_lock_rs.Priority.Laws.{IsLawful}
use async_priority_lock_rs.Queue.{PriorityQueue}
use async_priority_lock_rs.Queue.Order.{Entry, IsSorted}
use async_priority_lock_rs.Semaphore.{
  Features, SemaphoreWaiter, count_of, semaphore_priority, usize_max, max_permits,
}
use async_priority_lock_rs.Semaphore.Inner.{SemaphoreInner}
use async_priority_lock_rs.Semaphore.Permit.{
  merge, merged, refused, add_to, wrapping_add, drop_permit, done,
}
use async_priority_lock_rs.Semaphore.Entries.{weight, issued, issued-insert, pending, left}
use async_priority_lock_rs.Semaphore.Granted.{Good}
use async_priority_lock_rs.Semaphore.Release.{removed, issued-removed, drop_permit_lem}
use async_priority_lock_rs.Semaphore.Shares.{IsSorted-recount}

module _ {D : Type 0} where
  -- A change of one entry leaves the others where they are.
  pub elsewhere :
      (xs ys us vs : List (Entry D)) (h o : ℕ) (d d' e : D)
      → h ≢ o
      → xs ++ (h, d) ∷ ys ≡ us ++ (o, e) ∷ vs
      → (us' : List (Entry D)) × (vs' : List (Entry D)) × (xs ++ (h, d') ∷ ys ≡ us' ++ (o, e) ∷ vs')
  elsewhere [] ys [] vs h o d d' e n eq = absurd (n (cc))
  elsewhere [] ys (u ∷ us) vs h o d d' e n eq = ((h, d') ∷ us, vs, ground arith)
  elsewhere (x ∷ xs) ys [] vs h o d d' e n eq = ([], xs ++ (h, d') ∷ ys, ground arith)
  elsewhere (x ∷ xs) ys (u ∷ us) vs h o d d' e n eq =
      let (us', vs', r) = elsewhere xs ys us vs h o d d' e n (ground arith) in
      (x ∷ us', vs', ap (λ l. x ∷ l) r)

-- Two holders have no more than all of them.
weights-le :
    {P : Type 0} (features : Features) (xs ys us vs : List (Entry (SemaphoreWaiter P))) (h o : ℕ)
    (d e : SemaphoreWaiter P)
    → h ≢ o
    → xs ++ (h, d) ∷ ys ≡ us ++ (o, e) ∷ vs
    → weight features d + weight features e ≤ issued features (xs ++ (h, d) ∷ ys)
weights-le features [] ys [] vs h o d e n eq = absurd (n (cc))
weights-le features [] ys (u ∷ us) vs h o d e n eq =
    let behind : ys ≡ us ++ (o, e) ∷ vs = ground arith in
    omega (arith, ap (issued features) behind, issued-insert features us vs (o, e))
weights-le features (x ∷ xs) ys [] vs h o d e n eq =
    let first : x ≡ (o, e) = cc in
    omega (arith, ap (λ z. weight features z.1) first, issued-insert features xs ys (h, d))
weights-le features (x ∷ xs) ys (u ∷ us) vs h o d e n eq =
    omega (arith, weights-le features xs ys us vs h o d e n (ground arith))

module _ {P : Type 0} (features : Features) (p : Priority P)
    (Q : PriorityQueue (semaphore_priority features p)) (law : IsLawful p) where
  open Q use {Queue, entries}

  abbrev Inner : Type 0
  Inner = SemaphoreInner features p Q

  abbrev added_to : SemaphoreWaiter P → ℕ → SemaphoreWaiter P
  added_to d n = record d { count = wrapping_add d.count n }

  add_to-over :
      (n : ℕ) (d : SemaphoreWaiter P)
      → ltb max_permits (wrapping_add (count_of features d) n) ≡ true
      → add_to features p Q n d ≡ (d, false)
  unfolding add_to
  add_to-over n d over = rw (over) refl

  add_to-fits :
      (n : ℕ) (d : SemaphoreWaiter P)
      → ltb max_permits (wrapping_add (count_of features d) n) ≡ false
      → add_to features p Q n d ≡ (added_to d n, false)
  unfolding add_to
  add_to-fits n d fits = rw (fits) refl

  merge-over :
      (sem sem' : Inner) (q : Queue) (h o : ℕ) (d e : SemaphoreWaiter P)
      → Q.get_by_handle sem.queue o ≡ some e
      → Q.get_by_handle sem.queue h ≡ some d
      → Q.update_node sem.queue h (add_to features p Q (count_of features e)) ≡ some q
      → ltb max_permits (wrapping_add (count_of features d) (count_of features e)) ≡ true
      → drop_permit features p Q (record sem { queue = q }) o ≡ some (done sem')
      → merge features p Q sem h o ≡ some (refused sem')
  unfolding merge
  merge-over sem sem' q h o d e at_o at_h u over dropped =
      rw (at_o, ◌>>=◌) (rw (at_h, ◌>>=◌) (rw (u, ◌>>=◌) (rw (over, dropped) refl)))

  merge-fits :
      (sem : Inner) (q q' : Queue) (h o : ℕ) (d e : SemaphoreWaiter P)
      (r : Option (SemaphoreWaiter P) × Option ℕ)
      → Q.get_by_handle sem.queue o ≡ some e
      → Q.get_by_handle sem.queue h ≡ some d
      → Q.update_node sem.queue h (add_to features p Q (count_of features e)) ≡ some q
      → ltb max_permits (wrapping_add (count_of features d) (count_of features e)) ≡ false
      → Q.dequeue q o ≡ some (q', r.0, r.1)
      → merge features p Q sem h o ≡ some (merged (record sem { queue = q' }))
  unfolding merge
  merge-fits sem q q' h o d e r at_o at_h u fits out =
      rw (at_o, ◌>>=◌) (rw (at_h, ◌>>=◌) (rw (u, ◌>>=◌) (rw (fits, out) refl)))

  weight-added_to :
      (d : SemaphoreWaiter P) (n : ℕ)
      → d.waiter.has_lock ≡ true
      → count_of features d + n ≤ max_permits
      → weight features (added_to d n) ≡ weight features d + n
  weight-added_to d n held fits = elim (Bool-cases features.semaphore_total) [
    | inl on ↦ ground arith
    | inr off ↦ ground arith
  ]

  module _ (sem : Inner) (xs ys us vs : List (Entry (SemaphoreWaiter P))) (h o : ℕ)
      (d e : SemaphoreWaiter P) (v : Good features p Q law sem.queue) (apart : h ≢ o)
      (here : entries sem.queue ≡ xs ++ (h, d) ∷ ys) (there : entries sem.queue ≡ us ++ (o, e) ∷ vs)
      (held : d.waiter.has_lock ≡ true) (other_held : e.waiter.has_lock ≡ true) where
    abbrev sum : ℕ
    sum = count_of features d + count_of features e

    weight-held :
        (w : SemaphoreWaiter P) → w.waiter.has_lock ≡ true → weight features w ≡ count_of features w
    weight-held w l = ap (λ b. if b then count_of features w else 0) l

    sum-le : sum ≤ issued features (entries sem.queue)
    sum-le =
        let w = weights-le features xs ys us vs h o d e apart (sym here ∙ there) in
        omega (arith, w, weight-held d held, weight-held e other_held, ap (issued features) here)

    wrapping-sum :
        sem.available + issued features (entries sem.queue) ≤ usize_max
        → wrapping_add (count_of features d) (count_of features e) ≡ sum
    wrapping-sum bounded = omega (arith, sum-le, bounded)

    at_h : Q.get_by_handle sem.queue h ≡ some d
    at_h = Q.get_by_handle_lem sem.queue xs ys h d v.valid here

    at_o : Q.get_by_handle sem.queue o ≡ some e
    at_o = Q.get_by_handle_lem sem.queue us vs o e v.valid there

    abbrev Merged : Type 0
    Merged =
        (sem' : Inner) × (merge features p Q sem h o ≡ some (merged sem'))
        × Good features p Q law sem'.queue
        × (sem'.total ≡ sem.total)
        × (sem'.available ≡ sem.available)
        × (issued features (entries sem'.queue) ≡ issued features (entries sem.queue))
        × (n : ℕ) × (us' : List (Entry (SemaphoreWaiter P))) × (vs' : List
            (Entry (SemaphoreWaiter P)))
        × (count_of features (record d { count = n }) ≡ sum)
        × (xs ++ (h, record d { count = n }) ∷ ys ≡ us' ++ (o, e) ∷ vs')
        × (entries sem'.queue ≡ us' ++ vs')

    merge-merged :
        sem.available + issued features (entries sem.queue) ≤ usize_max → sum ≤ max_permits → Merged
    merge-merged bounded fits =
        let f : ltb max_permits (wrapping_add (count_of features d) (count_of features e)) ≡ false =
          ground (arith, wrapping-sum bounded) in
        let (q, u, place, valid) =
          Q.update_node-false sem.queue xs ys h d (added_to d (count_of features e))
            (add_to features p Q (count_of features e)) v.valid here
            (add_to-fits (count_of features e) d f) in
        let good : Good features p Q law q = record {
          valid = valid;
          sorted = subst (IsSorted (semaphore_priority features p)) (sym place) (
              IsSorted-recount features p xs ys h (wrapping_add d.count (count_of features e)) d
                (subst (IsSorted (semaphore_priority features p)) here v.sorted));
        } in
        let (us', vs', at) =
          elsewhere xs ys us vs h o d (added_to d (count_of features e)) e apart
            (sym here ∙ there) in
        let sem1 : Inner = record sem { queue = q } in
        let r = removed features p Q law sem1 us' vs' o e good (place ∙ at) in
        (
          record sem { queue = r.queue },
          merge-fits sem q r.queue h o d e _ at_o at_h u f r.returned,
          r.good,
          refl,
          refl,
          omega (
            arith,
            ap (issued features) r.place,
            issued-removed features p Q law sem1 us' vs' o e good (place ∙ at),
            ap (issued features) place,
            issued-insert features xs ys (h, added_to d (count_of features e)),
            weight-added_to d (count_of features e) held fits,
            weight-held e other_held,
            ap (issued features) here,
            issued-insert features xs ys (h, d),
          ),
          wrapping_add d.count (count_of features e),
          us',
          vs',
          ap (λ b. if b then count_of features (added_to d (count_of features e)) else 0) (sym held)
              ∙ weight-added_to d (count_of features e) held fits
              ∙ ap (λ n. n + count_of features e) (weight-held d held),
          at,
          r.place,
        )

    -- If all permits together fit a word, a merge of two different holders succeeds if the two have
    -- together no more than one may have: this one, at its place, then has the permits of both, the
    -- other entry is gone, the rest of the queue, the total, what is available and what is out are as
    -- they were. Otherwise it is refused: the other permit is dropped, its permits go to the waiters
    -- behind it in the order of the queue, and the sum of what is available and what is out stays.
    pub merge_lem :
        sem.available + issued features (entries sem.queue) ≤ usize_max
        → ((sum ≤ max_permits)
            × ((sem' : Inner) × (merge features p Q sem h o ≡ some (merged sem'))
                × Good features p Q law sem'.queue
                × (sem'.total ≡ sem.total)
                × (sem'.available ≡ sem.available)
                × (issued features (entries sem'.queue) ≡ issued features (entries sem.queue))
                × (n : ℕ) × (us' : List (Entry (SemaphoreWaiter P))) × (vs' : List
                    (Entry (SemaphoreWaiter P)))
                × (count_of features (record d { count = n }) ≡ sum)
                × (xs ++ (h, record d { count = n }) ∷ ys ≡ us' ++ (o, e) ∷ vs')
                × (entries sem'.queue ≡ us' ++ vs')))
          ⊎ ((max_permits < sum)
              × ((sem' : Inner) × (merge features p Q sem h o ≡ some (refused sem'))
                  × Good features p Q law sem'.queue
                  × (sem'.total ≡ sem.total)
                  × (sem'.available + issued features (entries sem'.queue)
                      ≡ sem.available + issued features (entries sem.queue))
                  × (pending features (entries sem'.queue)
                      ≡ pending features us
                        ++ left features (sem.available + count_of features e) vs)))
    merge_lem bounded = elim (Bool-cases (ltb max_permits sum)) [
      | inr l ↦ let fits : sum ≤ max_permits = ground arith in inl (fits, merge-merged bounded fits)
      | inl l ↦
          let over : max_permits < sum = ground arith in
          let f : ltb max_permits (wrapping_add (count_of features d) (count_of features e))
              ≡ true =
            ground (arith, wrapping-sum bounded) in
          let (q, u, place, valid) =
            Q.update_node-false sem.queue xs ys h d d (add_to features p Q (count_of features e))
              v.valid here (add_to-over (count_of features e) d f) in
          let same : entries q ≡ entries sem.queue = place ∙ sym here in
          let sem1 : Inner = record sem { queue = q } in
          let (sem', r, good, total, conserved, waiting, _) =
            drop_permit_lem features p Q law sem1 us vs o e
              (record {
                valid = valid;
                sorted = subst (IsSorted (semaphore_priority features p)) (sym same) v.sorted;
              })
              (same ∙ there) other_held (omega (arith, sum-le, bounded)) in
          inr (
            over,
            (
              sem',
              merge-over sem sem' q h o d e at_o at_h u f r,
              good,
              total,
              conserved ∙ ap (λ es. sem.available + issued features es) same,
              waiting,
            ),
          )
    ]
