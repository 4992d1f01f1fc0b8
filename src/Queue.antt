-- ===== src/Queue.antt =====
-- src/queue.rs: the trait `PriorityQueue`, as a record of operations and of the contract that its
-- documentation and its users rely on. A handle is a number; `none` stands for a lookup through a
-- handle that is not queued, which the trait calls undefined behaviour.
pub mod Order
pub mod Handles
pub mod Hints
pub mod Reference
pub mod Agreement
pub mod Tests
use async_priority_lock_rs.Base.{
  ℕ, ◌≡◌, Bool, true, false, Option, none, some, List, ◌∷◌, ◌++◌, map, head?, last?, is_none,
}
use mathlib.Core.Option
use async_priority_lock_rs.Priority.{Priority}
use async_priority_lock_rs.Priority.Laws.{IsLawful}
use Order.{Entry, items, visit, IsSorted, Distinct, Accepts, Enqueued, Moved}

pub record PriorityQueue {D : Type 0} (p : Priority D) : Type 1 where
  pub Queue : Type 0
  pub default : Queue
  pub enqueue : Queue → D → Queue × ℕ
  -- The queue, the entry before the removed one, and the handle of the entry after it.
  pub dequeue : Queue → ℕ → Option (Queue × Option D × Option ℕ)
  pub get_by_handle : Queue → ℕ → Option D
  pub iter_at : Queue → Option ℕ → Option (List D)
  pub update_node : Queue → ℕ → (D → D × Bool) → Option Queue
  pub head_handle : Queue → Option ℕ
  pub get_next_handle : Queue → ℕ → Option (Option ℕ)
  -- A change of an entry's atomic through a shared reference, behind the queue's back.
  pub with_ref : Queue → ℕ → (D → D) → Option Queue
  -- A loop over the references that the iterator gives from a handle on (`none`: from the head),
  -- which may change their atomics and end early.
  pub for_each : Queue → Option ℕ → (D → D × Bool) → Option Queue
  -- The view: the entries in order, each behind its handle.
  pub entries : Queue → List (Entry D)
  pub IsValid : Queue → Type 0
  pub default-IsValid : IsValid default
  pub entries-default : entries default ≡ List.[]
  pub distinct : (q : Queue) → IsValid q → Distinct (entries q)
  pub enqueue-IsValid : (q : Queue) (d : D) → IsValid q → IsValid (enqueue q d).0
  pub enqueue_lem :
      (q : Queue) (d : D) (pinned free : List (Entry D))
      → IsValid q
      → entries q ≡ pinned ++ free
      → Accepts p d pinned free
      → Enqueued p (enqueue q d).1 d pinned free (entries (enqueue q d).0)
  pub head_handle_lem :
      (q : Queue) → IsValid q → head_handle q ≡ Option.map (λ e. e.0) (head? (entries q))
  pub iter_at-none : (q : Queue) → IsValid q → iter_at q none ≡ some (items (entries q))
  pub dequeue_lem :
      (q : Queue) (xs ys : List (Entry D)) (h : ℕ) (d : D)
      → IsValid q
      → entries q ≡ xs ++ (h, d) ∷ ys
      → (q' : Queue) × (dequeue q h
          ≡ some (q', Option.map (λ e. e.1) (last? xs), Option.map (λ e. e.0) (head? ys)))
        × (entries q' ≡ xs ++ ys)
        × IsValid q'
  pub get_by_handle_lem :
      (q : Queue) (xs ys : List (Entry D)) (h : ℕ) (d : D)
      → IsValid q
      → entries q ≡ xs ++ (h, d) ∷ ys
      → get_by_handle q h ≡ some d
  pub get_next_handle_lem :
      (q : Queue) (xs ys : List (Entry D)) (h : ℕ) (d : D)
      → IsValid q
      → entries q ≡ xs ++ (h, d) ∷ ys
      → get_next_handle q h ≡ some (Option.map (λ e. e.0) (head? ys))
  pub iter_at-some :
      (q : Queue) (xs ys : List (Entry D)) (h : ℕ) (d : D)
      → IsValid q
      → entries q ≡ xs ++ (h, d) ∷ ys
      → iter_at q (some h) ≡ some (items ((h, d) ∷ ys))
  pub with_ref_lem :
      (q : Queue) (xs ys : List (Entry D)) (h : ℕ) (d : D) (f : D → D)
      → IsValid q
      → entries q ≡ xs ++ (h, d) ∷ ys
      → (q' : Queue) × (with_ref q h f ≡ some q') × (entries q' ≡ xs ++ (h, f d) ∷ ys) × IsValid q'
  pub for_each-none :
      (q : Queue) (f : D → D × Bool)
      → IsValid q
      → (q' : Queue) × (for_each q none f ≡ some q')
        × (entries q' ≡ visit f (entries q))
        × IsValid q'
  pub for_each-some :
      (q : Queue) (xs ys : List (Entry D)) (h : ℕ) (d : D) (f : D → D × Bool)
      → IsValid q
      → entries q ≡ xs ++ (h, d) ∷ ys
      → (q' : Queue) × (for_each q (some h) f ≡ some q')
        × (entries q' ≡ xs ++ visit f ((h, d) ∷ ys))
        × IsValid q'
  -- An update that reports no change of the priority leaves the entry where it is.
  pub update_node-false :
      (q : Queue) (xs ys : List (Entry D)) (h : ℕ) (d e : D) (f : D → D × Bool)
      → IsValid q
      → entries q ≡ xs ++ (h, d) ∷ ys
      → f d ≡ (e, false)
      → (q' : Queue) × (update_node q h f ≡ some q') × (entries q' ≡ xs ++ (h, e) ∷ ys) × IsValid q'
  -- Otherwise the entry ends up where its new priority belongs among the others.
  pub update_node-true :
      (q : Queue) (xs ys : List (Entry D)) (h : ℕ) (d e : D) (f : D → D × Bool)
      → IsValid q
      → entries q ≡ xs ++ (h, d) ∷ ys
      → f d ≡ (e, true)
      → IsLawful p
      → IsSorted p (xs ++ ys)
      → (q' : Queue) × (update_node q h f ≡ some q')
        × Moved p h e (xs ++ ys) (entries q')
        × IsValid q'

-- The trait's provided methods.
module _ {D : Type 0} {p : Priority D} (Q : PriorityQueue p) where
  open Q use {Queue, iter_at}

  unfoldable pub iter : Queue → Option (List D)
  iter q = iter_at q none

  unfoldable pub is_empty : Queue → Option Bool
  unfolding iter
  is_empty q = Option.map (λ xs. is_none (head? xs)) (iter q)

  unfoldable pub head : Queue → Option (Option D)
  unfolding iter
  head q = Option.map head? (iter q)
