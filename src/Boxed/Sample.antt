-- ===== src/Boxed/Sample.antt =====
-- A concrete allocator, which takes the address after the highest one in use, and a chain of nodes
-- by `usize` priority.
use async_priority_lock_rs.Base.{ℕ, suc, max, ◌<◌, ◌≢◌, Option, List, [], ◌∷◌, arith, All}
use async_priority_lock_rs.Priority.{Priority, highest_first, usize_ord}
use async_priority_lock_rs.Boxed.{BoxNode, Allocator}

abbrev pub highest : List ℕ → ℕ
highest [] = 0
highest (a ∷ rest) = max a (highest rest)

below_highest : (n : ℕ) (used : List ℕ) → highest used < n → All (λ a. n ≢ a) used
below_highest n [] h = tt
below_highest n (a ∷ rest) h = (ground arith, below_highest n rest (omega arith))

pub highest-fresh : (used : List ℕ) → All (λ a. suc (highest used) ≢ a) used
highest-fresh used = below_highest (suc (highest used)) used (omega arith)

abbrev pub bump : Allocator
bump = record { alloc = λ used. suc (highest used); fresh = highest-fresh }

abbrev pub by_usize : Priority ℕ
by_usize = highest_first usize_ord

abbrev pub node_at : ℕ → ℕ → Option ℕ → BoxNode ℕ
node_at a d prev = record { addr = a; item = d; prev = prev }
