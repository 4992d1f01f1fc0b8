-- ===== src/Queue/Handles.antt =====
-- Handles that differ from one another, in lists of entries.
use async_priority_lock_rs.Base.{
  ℕ, ◌≢◌, sym, List, [], ◌∷◌, ◌++◌, All, All-append, All-append_left, All-append_right,
}
use async_priority_lock_rs.Queue.Order.{Entry, Distinct}

module _ {D : Type 0} where
  pub Distinct-insert :
      (xs ys : List (Entry D)) (z : Entry D)
      → Distinct (xs ++ ys)
      → All (λ e. z.0 ≢ e.0) (xs ++ ys)
      → Distinct (xs ++ z ∷ ys)
  Distinct-insert [] ys z d f = (f, d)
  Distinct-insert (x ∷ xs) ys z d f = (
    All-append _ xs (z ∷ ys) (All-append_left _ xs ys d.0)
        (λ e. f.0 (sym e), All-append_right _ xs ys d.0),
    Distinct-insert xs ys z d.1 f.1,
  )

  pub Distinct-remove :
      (xs ys : List (Entry D)) (z : Entry D) → Distinct (xs ++ z ∷ ys) → Distinct (xs ++ ys)
  Distinct-remove [] ys z d = d.1
  Distinct-remove (x ∷ xs) ys z d = (
    All-append _ xs ys (All-append_left _ xs (z ∷ ys) d.0) (All-append_right _ xs (z ∷ ys) d.0).1,
    Distinct-remove xs ys z d.1,
  )

  -- The entry at hand has a handle of its own.
  pub Distinct-apart :
      (xs ys : List (Entry D)) (z : Entry D)
      → Distinct (xs ++ z ∷ ys)
      → All (λ e. z.0 ≢ e.0) (xs ++ ys)
  Distinct-apart [] ys z d = d.0
  Distinct-apart (x ∷ xs) ys z d =
      (λ e. (All-append_right _ xs (z ∷ ys) d.0).0 (sym e), Distinct-apart xs ys z d.1)

module _ {D : Type 0} where
  same_handles :
      (z : Entry D) (xs ys : List (Entry D)) (h : ℕ) (d e : D)
      → All (λ y. z.0 ≢ y.0) (xs ++ (h, d) ∷ ys)
      → All (λ y. z.0 ≢ y.0) (xs ++ (h, e) ∷ ys)
  same_handles z [] ys h d e a = a
  same_handles z (x ∷ xs) ys h d e a = (a.0, same_handles z xs ys h d e a.1)

  pub Distinct-replace :
      (xs ys : List (Entry D)) (h : ℕ) (d e : D)
      → Distinct (xs ++ (h, d) ∷ ys)
      → Distinct (xs ++ (h, e) ∷ ys)
  Distinct-replace [] ys h d e a = a
  Distinct-replace (x ∷ xs) ys h d e a =
      (same_handles x xs ys h d e a.0, Distinct-replace xs ys h d e a.1)
