-- ===== src/Semaphore/Alike.antt =====
-- Loops that set eviction flags leave the order of a queue and its permits as they were.
use async_priority_lock_rs.Base.{
  ℕ, suc, Ordering, ◌≡◌, refl, ap, ◌∙◌, Bool, true, false, List, [], ◌∷◌, ◌++◌, arith, All,
  if◌then◌else◌, length,
}
use async_priority_lock_rs.Priority.{Priority, is_ge, is_le}
use async_priority_lock_rs.Waiter
use async_priority_lock_rs.Queue.Order.{Entry, IsSorted, Moved, visit}
use async_priority_lock_rs.Semaphore.{Features, SemaphoreWaiter, semaphore_priority, on_waiter}
use async_priority_lock_rs.Semaphore.Entries.{issued, weight}

module _ {P : Type 0} where
  -- The same request, but for its eviction flag and its waker.
  pub record Same (d e : SemaphoreWaiter P) : Type 0 where
    pub priority : e.priority ≡ d.priority
    pub has_lock : e.waiter.has_lock ≡ d.waiter.has_lock
    pub count : e.count ≡ d.count

  pub Same-refl : (d : SemaphoreWaiter P) → Same d d
  Same-refl d = record { priority = refl; has_lock = refl; count = refl }

  abbrev pub Alike : (xs ys : List (Entry (SemaphoreWaiter P))) → Type 0
  Alike [] [] = Unit {0}
  Alike [] (y ∷ ys) = ⊥
  Alike (x ∷ xs) [] = ⊥
  Alike (x ∷ xs) (y ∷ ys) = (y.0 ≡ x.0) × Same x.1 y.1 × Alike xs ys

  pub Alike-refl : (xs : List (Entry (SemaphoreWaiter P))) → Alike xs xs
  Alike-refl [] = tt
  Alike-refl (x ∷ xs) = (refl, Same-refl x.1, Alike-refl xs)

  go_on :
      (b : Bool) (es fs : List (Entry (SemaphoreWaiter P)))
      → Alike es fs
      → Alike es (if b then fs else es)
  go_on true es fs a = a
  go_on false es fs a = Alike-refl es

  pub visit-Alike :
      (f : SemaphoreWaiter P → SemaphoreWaiter P × Bool)
      → ((d : SemaphoreWaiter P) → Same d (f d).0)
      → (es : List (Entry (SemaphoreWaiter P))) → Alike es (visit f es)
  visit-Alike f s [] = tt
  visit-Alike f s ((h, d) ∷ es) = (refl, s d, go_on (f d).1 es _ (visit-Alike f s es))

  pub append-Alike :
      (xs ys zs : List (Entry (SemaphoreWaiter P))) → Alike ys zs → Alike (xs ++ ys) (xs ++ zs)
  append-Alike [] ys zs a = a
  append-Alike (x ∷ xs) ys zs a = (refl, Same-refl x.1, append-Alike xs ys zs a)

  -- A loop over all entries.
  pub visit-append :
      (g : SemaphoreWaiter P → SemaphoreWaiter P) (xs ys : List (Entry (SemaphoreWaiter P)))
      → visit (λ x. (g x, true)) (xs ++ ys)
        ≡ visit (λ x. (g x, true)) xs ++ visit (λ x. (g x, true)) ys
  visit-append g [] ys = refl
  visit-append g ((h, d) ∷ xs) ys = ap (λ l. (h, g d) ∷ l) (visit-append g xs ys)

  pub length-Alike :
      (xs ys : List (Entry (SemaphoreWaiter P))) → Alike xs ys → length ys ≡ length xs
  length-Alike [] [] a = refl
  length-Alike [] (y ∷ ys) a = absurd a
  length-Alike (x ∷ xs) [] a = absurd a
  length-Alike (x ∷ xs) (y ∷ ys) a = ap suc (length-Alike xs ys a.2)

evict-has_lock : (w : Waiter.Waiter) → (Waiter.evict w).has_lock ≡ w.has_lock
unfolding Waiter.evict
evict-has_lock w = ground arith

module _ {P : Type 0} (features : Features) where
  weight-Same : (d e : SemaphoreWaiter P) → Same d e → weight features e ≡ weight features d
  weight-Same d e s = ground arith

  pub issued-Alike :
      (xs ys : List (Entry (SemaphoreWaiter P)))
      → Alike xs ys
      → issued features ys ≡ issued features xs
  issued-Alike [] [] a = refl
  issued-Alike [] (y ∷ ys) a = absurd a
  issued-Alike (x ∷ xs) [] a = absurd a
  issued-Alike (x ∷ xs) (y ∷ ys) a = omega (arith, weight-Same x.1 y.1 a.1, issued-Alike xs ys a.2)

  pub evict-Same : (d : SemaphoreWaiter P) → Same d (on_waiter features Waiter.evict d)
  evict-Same d = record { priority = refl; has_lock = evict-has_lock d.waiter; count = refl }

  module _ (p : Priority P) where
    compare-Same :
        (x y x' y' : SemaphoreWaiter P)
        → Same x x'
        → Same y y'
        → (semaphore_priority features p).compare_to x' y'
          ≡ (semaphore_priority features p).compare_to x y
    unfolding semaphore_priority
    compare-Same x y x' y' s t = ground arith

    pub compare-Alike :
        (r : Ordering → Bool) (x x' : SemaphoreWaiter P) (ys zs : List (Entry (SemaphoreWaiter P)))
        → Same x x'
        → Alike ys zs
        → All (λ y. r ((semaphore_priority features p).compare_to x y.1) ≡ true) ys
        → All (λ y. r ((semaphore_priority features p).compare_to x' y.1) ≡ true) zs
    compare-Alike r x x' [] [] s a h = tt
    compare-Alike r x x' [] (z ∷ zs) s a h = absurd a
    compare-Alike r x x' (y ∷ ys) [] s a h = absurd a
    compare-Alike r x x' (y ∷ ys) (z ∷ zs) s a h =
        (ap r (compare-Same x y.1 x' z.1 s a.1) ∙ h.0, compare-Alike r x x' ys zs s a.2 h.1)

    pub IsSorted-Alike :
        (xs ys : List (Entry (SemaphoreWaiter P)))
        → Alike xs ys
        → IsSorted (semaphore_priority features p) xs
        → IsSorted (semaphore_priority features p) ys
    IsSorted-Alike [] [] a s = tt
    IsSorted-Alike [] (y ∷ ys) a s = absurd a
    IsSorted-Alike (x ∷ xs) [] a s = absurd a
    IsSorted-Alike (x ∷ xs) (y ∷ ys) a s =
        (compare-Alike is_ge x.1 y.1 xs ys a.1 a.2 s.0, IsSorted-Alike xs ys a.2 s.1)

    -- A loop over all entries leaves one that it does not change where it is.
    pub Moved-visit :
        (g : SemaphoreWaiter P → SemaphoreWaiter P) (h : ℕ) (d : SemaphoreWaiter P)
        (old new : List (Entry (SemaphoreWaiter P)))
        → ((e : SemaphoreWaiter P) → Same e (g e))
        → g d ≡ d
        → Moved (semaphore_priority features p) h d old new
        → Moved
            (semaphore_priority features p)
            h
            d
            (visit (λ x. (g x, true)) old)
            (visit (λ x. (g x, true)) new)
    Moved-visit g h d old new s same w =
        let f : SemaphoreWaiter P → SemaphoreWaiter P × Bool = λ x. (g x, true) in
        record {
          before = visit f w.before;
          later = visit f w.later;
          split = ap (visit f) w.split ∙ visit-append g w.before w.later;
          result =
              ap (visit f) w.result
              ∙ visit-append g w.before ((h, d) ∷ w.later)
              ∙ ap (λ e. visit f w.before ++ (h, e) ∷ visit f w.later) same;
          above =
              compare-Alike is_le d d w.before _ (Same-refl d) (visit-Alike f s w.before) w.above;
          below = compare-Alike is_ge d d w.later _ (Same-refl d) (visit-Alike f s w.later) w.below;
        }
