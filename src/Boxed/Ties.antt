-- ===== src/Boxed/Ties.antt =====
-- Entries of the same priority in a `BoxQueue`: `FIFO` and `LIFO` of src/priority.rs decide their order.
use async_priority_lock_rs.Base.{◌≡◌, subst, Bool, true, List, [], ◌∷◌, ◌++◌, arith, All, All-mono}
use async_priority_lock_rs.Priority.{
  Ord, highest_first, Fifo, Lifo, fifo, lifo, is_ge, is_gt, is_le, is_lt,
}
use async_priority_lock_rs.Priority.Laws.{IsPreorder}
use async_priority_lock_rs.Queue.Order.{Entry, IsSorted, IsSorted-right, Stops}
use async_priority_lock_rs.Boxed.{BoxNode, Allocator, enqueue}
use async_priority_lock_rs.Boxed.Chain.{entries}
use async_priority_lock_rs.Boxed.Insert.{enqueue-FirstFit}

module _ {O : Type 0} (o : Ord O) (law : IsPreorder o.cmp) where
  -- Strictly above the first of a sorted list is strictly above all.
  above_lower :
      (a b d : O) → is_gt (o.cmp a b) ≡ true → is_ge (o.cmp b d) ≡ true → is_gt (o.cmp a d) ≡ true
  above_lower a b d h k = ground (arith, law.swap a d, law.swap a b, law.trans b d a k)

  fifo_later :
      (d : Fifo O) (es : List (Entry (Fifo O)))
      → IsSorted (fifo (highest_first o)) es
      → Stops (fifo (highest_first o)) d es
      → All (λ e. is_gt (o.cmp d.inner e.1.inner) ≡ true) es
  unfolding fifo highest_first
  fifo_later d [] s t = tt
  fifo_later d (e ∷ es) s t =
      let here : is_gt (o.cmp d.inner e.1.inner) ≡ true = ground arith in
      (here, All-mono _ _ (λ y k. above_lower d.inner e.1.inner y.1.inner here k) es s.0)

  fifo_before :
      (d e : Fifo O)
      → is_lt ((fifo (highest_first o)).compare_new d e) ≡ true
      → is_le (o.cmp d.inner e.inner) ≡ true
  unfolding fifo highest_first
  fifo_before d e h = ground arith

  lifo_later :
      (d : Lifo O) (es : List (Entry (Lifo O)))
      → IsSorted (lifo (highest_first o)) es
      → Stops (lifo (highest_first o)) d es
      → All (λ e. is_ge (o.cmp d.inner e.1.inner) ≡ true) es
  unfolding lifo highest_first
  lifo_later d [] s t = tt
  lifo_later d (e ∷ es) s t =
      let here : is_ge (o.cmp d.inner e.1.inner) ≡ true = ground arith in
      (here, All-mono _ _ (λ y k. law.trans d.inner e.1.inner y.1.inner here k) es s.0)

  lifo_before :
      (d e : Lifo O)
      → is_lt ((lifo (highest_first o)).compare_new d e) ≡ true
      → is_lt (o.cmp d.inner e.inner) ≡ true
  unfolding lifo highest_first
  lifo_before d e h = ground arith

  module _ (dual : Bool) (a : Allocator) where
    -- In a sorted chain with `FIFO` a new entry goes behind all queued entries that are not lower,
    -- so behind all of the same priority, and before all lower ones.
    pub enqueue-fifo :
        (ns : List (BoxNode (Fifo O))) (d : Fifo O)
        → IsSorted (fifo (highest_first o)) (entries ns)
        → (before : List (Entry (Fifo O))) × (later : List (Entry (Fifo O))) × (entries ns
            ≡ before ++ later)
          × (entries (enqueue (fifo (highest_first o)) dual a ns d).0
              ≡ before ++ ((enqueue (fifo (highest_first o)) dual a ns d).1, d) ∷ later)
          × All (λ e. is_le (o.cmp d.inner e.1.inner) ≡ true) before
          × All (λ e. is_gt (o.cmp d.inner e.1.inner) ≡ true) later
    enqueue-fifo ns d s =
        let p = fifo (highest_first o) in
        let w = enqueue-FirstFit p dual a ns d in
        let sorted = IsSorted-right p w.before w.later (subst (IsSorted p) w.split s) in
        (
          w.before,
          w.later,
          w.split,
          w.result,
          All-mono _ _ (λ e h. fifo_before d e.1 h) w.before w.above,
          fifo_later d w.later sorted w.stops,
        )

    -- In a sorted chain with `LIFO` a new entry goes behind the higher entries only, so before all
    -- of the same priority.
    pub enqueue-lifo :
        (ns : List (BoxNode (Lifo O))) (d : Lifo O)
        → IsSorted (lifo (highest_first o)) (entries ns)
        → (before : List (Entry (Lifo O))) × (later : List (Entry (Lifo O))) × (entries ns
            ≡ before ++ later)
          × (entries (enqueue (lifo (highest_first o)) dual a ns d).0
              ≡ before ++ ((enqueue (lifo (highest_first o)) dual a ns d).1, d) ∷ later)
          × All (λ e. is_lt (o.cmp d.inner e.1.inner) ≡ true) before
          × All (λ e. is_ge (o.cmp d.inner e.1.inner) ≡ true) later
    enqueue-lifo ns d s =
        let p = lifo (highest_first o) in
        let w = enqueue-FirstFit p dual a ns d in
        let sorted = IsSorted-right p w.before w.later (subst (IsSorted p) w.split s) in
        (
          w.before,
          w.later,
          w.split,
          w.result,
          All-mono _ _ (λ e h. lifo_before d e.1 h) w.before w.above,
          lifo_later d w.later sorted w.stops,
        )
