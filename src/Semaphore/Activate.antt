-- ===== src/Semaphore/Activate.antt =====
-- `activate_waiters` hands the available permits to the pending waiters in their order.
use mathlib.Core.Option
use mathlib.Core.List.{append_assoc}
use async_priority_lock_rs.Base.{
  ℕ, zero, suc, ◌+◌, ◌≤◌, ◌≡◌, inl, inr, refl, sym, ap, ◌∙◌, subst, true, false, Option, none, some,
  List, [], ◌∷◌, ◌++◌, arith, All, if◌then◌else◌, ltb, length, length-append, Bool-cases, head?,
}
use async_priority_lock_rs.Priority.{Priority, is_ge}
use async_priority_lock_rs.Priority.Laws.{IsLawful}
use async_priority_lock_rs.Queue.{PriorityQueue}
use async_priority_lock_rs.Queue.Order.{Entry, IsSorted}
use async_priority_lock_rs.Semaphore.{Features, SemaphoreWaiter, count_of, semaphore_priority}
use async_priority_lock_rs.Semaphore.Inner.{SemaphoreInner, activate_waiters}
use async_priority_lock_rs.Semaphore.Entries.{
  issued, pending, leaving, left, rest, issued-append, pending-append, walk-held, walk-leaving,
  walk-stop, walk-grant, pending_behind,
}
use async_priority_lock_rs.Semaphore.Granted.{
  Good, Granted, step-skip, step-stop, step-grant, decide-held, decide-leaving, decide-stop,
  decide-grant, grant_node_lem,
}

module _ {P : Type 0} (features : Features) (p : Priority P)
    (Q : PriorityQueue (semaphore_priority features p)) (law : IsLawful p) where
  open Q use {Queue, entries, IsValid, get_by_handle, get_next_handle}

  abbrev Inner : Type 0
  Inner = SemaphoreInner features p Q

  -- The outcome of handing out what `sem` has available along `ys`, when `xs` has been passed.
  pub record Activated (sem : Inner) (xs ys : List (Entry (SemaphoreWaiter P))) (r : Option Inner)
      : Type 0 where
    pub sem' : Inner
    pub returned : r ≡ some sem'
    pub good : Good features p Q law sem'.queue
    pub total : sem'.total ≡ sem.total
    pub waiting :
        pending features (entries sem'.queue)
        ≡ pending features xs ++ left features sem.available ys
    pub available : sem'.available ≡ rest features sem.available ys
    pub conserved :
        sem'.available + issued features (entries sem'.queue)
        ≡ sem.available + issued features (xs ++ ys)
    pub size : length (entries sem'.queue) ≡ length (xs ++ ys)

  abbrev head_handle_of : List (Entry (SemaphoreWaiter P)) → Option ℕ
  head_handle_of ys = Option.map (λ e. e.0) (head? ys)

  -- A step of the walk that passes an entry by.
  passed :
      (sem : Inner) (xs ys : List (Entry (SemaphoreWaiter P))) (e : Entry (SemaphoreWaiter P))
      (r s : Option Inner)
      → r ≡ s
      → pending features (xs ++ e ∷ []) ++ left features sem.available ys
        ≡ pending features xs ++ left features sem.available (e ∷ ys)
      → rest features sem.available ys ≡ rest features sem.available (e ∷ ys)
      → Activated sem (xs ++ e ∷ []) ys s
      → Activated sem xs (e ∷ ys) r
  passed sem xs ys e r s same l a v = record {
    sem' = v.sem';
    returned = same ∙ v.returned;
    good = v.good;
    total = v.total;
    waiting = v.waiting ∙ l;
    available = v.available ∙ a;
    conserved =
        v.conserved ∙ ap (λ es. sem.available + issued features es) (append_assoc xs (e ∷ []) ys);
    size = v.size ∙ ap length (append_assoc xs (e ∷ []) ys);
  }

  pending-passed :
      (xs ys zs : List (Entry (SemaphoreWaiter P))) (e : Entry (SemaphoreWaiter P))
      → pending features (e ∷ []) ++ ys ≡ zs
      → pending features (xs ++ e ∷ []) ++ ys ≡ pending features xs ++ zs
  pending-passed xs ys zs e h =
      ap (λ l. l ++ ys) (pending-append features xs (e ∷ []))
      ∙ append_assoc (pending features xs) (pending features (e ∷ [])) ys
      ∙ ap (λ l. pending features xs ++ l) h

  below_here :
      (xs ys : List (Entry (SemaphoreWaiter P))) (z : Entry (SemaphoreWaiter P))
      → IsSorted (semaphore_priority features p) (xs ++ z ∷ ys)
      → All (λ y. is_ge ((semaphore_priority features p).compare_to z.1 y.1) ≡ true) ys
  below_here [] ys z s = s.0
  below_here (x ∷ xs) ys z s = below_here xs ys z s.1

  enough_le : (a n : ℕ) → ltb a n ≡ false → n ≤ a
  enough_le a n h = ground arith

  activate-none : (fuel : ℕ) (sem : Inner) → activate_waiters features p Q fuel sem none ≡ some sem
  unfolding activate_waiters
  activate-none zero sem = refl
  activate-none (suc fuel) sem = refl

  finished :
      (fuel : ℕ) (sem : Inner) (xs : List (Entry (SemaphoreWaiter P)))
      → Good features p Q law sem.queue
      → entries sem.queue ≡ xs ++ []
      → Activated sem xs [] (activate_waiters features p Q fuel sem none)
  finished fuel sem xs v e = record {
    sem' = sem;
    returned = activate-none fuel sem;
    good = v;
    total = refl;
    waiting = ap (pending features) e ∙ pending-append features xs [];
    available = refl;
    conserved = ap (λ es. sem.available + issued features es) e;
    size = ap length e;
  }

  stopped :
      (sem : Inner) (xs ys : List (Entry (SemaphoreWaiter P))) (e : Entry (SemaphoreWaiter P))
      (r : Option Inner)
      → Good features p Q law sem.queue
      → entries sem.queue ≡ xs ++ e ∷ ys
      → r ≡ some sem
      → e.1.waiter.has_lock ≡ false
      → (rest features sem.available (e ∷ ys) ≡ sem.available)
        × (left features sem.available (e ∷ ys) ≡ e ∷ pending features ys)
      → Activated sem xs (e ∷ ys) r
  stopped sem xs ys e r v place same free w = record {
    sem' = sem;
    returned = same;
    good = v;
    total = refl;
    waiting =
        ap (pending features) place
        ∙ pending-append features xs (e ∷ ys)
        ∙ ap (λ l. pending features xs ++ l)
            (ap (λ b. if b then pending features ys else e ∷ pending features ys) free ∙ sym w.1);
    available = sym w.0;
    conserved = ap (λ es. sem.available + issued features es) place;
    size = ap length place;
  }

  regranted :
      (sem : Inner) (xs ys : List (Entry (SemaphoreWaiter P))) (h : ℕ) (d : SemaphoreWaiter P)
      (r s : Option Inner) (g : Granted features p Q law sem h d xs ys)
      → r ≡ s
      → d.waiter.has_lock ≡ false
      → ltb sem.available (count_of features d) ≡ false
      → Activated g.sem' g.front ys s
      → Activated sem xs ((h, d) ∷ ys) r
  regranted sem xs ys h d r s g same free enough v =
      let w = walk-grant features sem.available (h, d) ys free enough in
      record {
        sem' = v.sem';
        returned = same ∙ v.returned;
        good = v.good;
        total = v.total ∙ g.total;
        waiting =
            v.waiting
            ∙ ap (λ l. l ++ left features g.sem'.available ys) g.waiting
            ∙ ap (λ a. pending features xs ++ left features a ys) g.available
            ∙ ap (λ l. pending features xs ++ l) (sym w.1);
        available = v.available ∙ ap (λ a. rest features a ys) g.available ∙ sym w.0;
        conserved = omega (
          arith,
          v.conserved,
          g.available,
          g.weights,
          issued-append features g.front ys,
          issued-append features xs ((h, d) ∷ ys),
          ap (λ b. if b then count_of features d else 0) free,
          enough_le sem.available (count_of features d) enough,
        );
        size = omega (
          arith,
          v.size,
          g.size,
          length-append {0} g.front ys,
          length-append {0} xs ((h, d) ∷ ys),
        );
      }

  -- `activate_waiters`, begun at any entry of a sorted queue, ends with as much fuel as there are
  -- entries ahead. It hands out the available permits in the order of the queue; the queue stays
  -- sorted, and no permit is lost or made up.
  pub activate_waiters_lem :
      (fuel : ℕ) (ys xs : List (Entry (SemaphoreWaiter P))) (sem : Inner)
      → Good features p Q law sem.queue
      → entries sem.queue ≡ xs ++ ys
      → length ys ≤ fuel
      → Activated sem xs ys (activate_waiters features p Q fuel sem (head_handle_of ys))
  activate_waiters_lem fuel [] xs sem v place l = finished fuel sem xs v place
  activate_waiters_lem zero (e ∷ ys) xs sem v place l = absurd (omega arith)
  activate_waiters_lem (suc fuel) ((h, d) ∷ ys) xs sem v place l =
      let g = Q.get_by_handle_lem sem.queue xs ys h d v.valid place in
      let n = Q.get_next_handle_lem sem.queue xs ys h d v.valid place in
      let further =
        activate_waiters_lem fuel ys (xs ++ (h, d) ∷ []) sem v
          (place ∙ sym (append_assoc xs ((h, d) ∷ []) ys)) (omega arith) in
      elim (Bool-cases d.waiter.has_lock) [
        | inl held ↦
            let w = walk-held features sem.available (h, d) ys held in
            passed sem xs ys (h, d) _ _
              (step-skip features p Q law fuel h sem d _ g n
                (decide-held features p Q law sem.available d held))
              (pending-passed xs _ _ (h, d)
                (ap (λ b. (if b then [] else (h, d) ∷ []) ++ left features sem.available ys) held
                  ∙ sym w.1))
              (sym w.0) further
        | inr free ↦ elim (Bool-cases (ltb sem.available (count_of features d))) [
          | inl short ↦ elim (Bool-cases (leaving features d)) [
            | inl goes ↦
                let w = walk-leaving features sem.available (h, d) ys free short goes in
                passed sem xs ys (h, d) _ _
                  (step-skip features p Q law fuel h sem d _ g n
                    (decide-leaving features p Q law sem.available d free short goes))
                  (pending-passed xs _ _ (h, d)
                    (ap (λ b. (if b then [] else (h, d) ∷ []) ++ left features sem.available ys)
                        free
                      ∙ sym w.1))
                  (sym w.0) further
            | inr stays ↦
                stopped sem xs ys (h, d) _ v place
                  (step-stop features p Q law fuel h sem d _ g n
                    (decide-stop features p Q law sem.available d free short stays))
                  free (walk-stop features sem.available (h, d) ys free short stays)
          ]
          | inr enough ↦
              let behind =
                pending_behind features p (h, d) ys free
                  (below_here xs ys (h, d)
                    (subst (IsSorted (semaphore_priority features p)) place v.sorted)) in
              let gr = grant_node_lem features p Q law sem h d xs ys v place behind in
              regranted sem xs ys h d _ _ gr
                (step-grant features p Q law fuel h sem d _ g n gr.sem'
                  (decide-grant features p Q law sem.available d free enough) gr.returned)
                free enough
                (activate_waiters_lem fuel ys gr.front gr.sem' gr.good gr.place (omega arith))
        ]
      ]
