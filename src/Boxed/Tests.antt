-- ===== src/Boxed/Tests.antt =====
-- Runs of `BoxQueue` on chains of three nodes, for the theorems of src/queue/boxed.rs.
use mathlib.Core.Option
use async_priority_lock_rs.Base.{All, compare}
use async_priority_lock_rs.Priority.{Fifo, fifo, is_gt, is_le}
use async_priority_lock_rs.Queue.Order.{Entry}
use async_priority_lock_rs.Boxed.Ties.{enqueue-fifo}
use async_priority_lock_rs.Base.{ℕ, ◌≡◌, refl, true, none, some, List, [], ◌∷◌, ◌++◌, arith, head?}
use async_priority_lock_rs.Priority.{highest_first, usize_ord}
use async_priority_lock_rs.Priority.Laws.{IsLawful, highest_first-IsLawful, usize-IsPreorder}
use async_priority_lock_rs.Queue.Order.{Moved, FirstFit}
use async_priority_lock_rs.Boxed.{BoxNode, enqueue, dequeue, update_node}
use async_priority_lock_rs.Boxed.Chain.{entries}
use async_priority_lock_rs.Boxed.Insert.{IsChain, enqueue-IsChain, enqueue-FirstFit}
use async_priority_lock_rs.Boxed.Unlink.{last_item}
use async_priority_lock_rs.Boxed.Refines.{dequeue-node, update-true}
use async_priority_lock_rs.Boxed.Sample.{bump, by_usize, node_at}

pub usize-IsLawful : IsLawful by_usize
usize-IsLawful = highest_first-IsLawful usize_ord usize-IsPreorder

abbrev front : List (BoxNode ℕ)
front = node_at 1 9 none ∷ []

abbrev middle : BoxNode ℕ
middle = node_at 2 7 (some 1)

abbrev back : List (BoxNode ℕ)
back = node_at 3 4 (some 2) ∷ []

three-IsChain : IsChain true (front ++ middle ∷ back)
three-IsChain = record {
  linked = (refl, (refl, (refl, tt)));
  distinct = ((ground arith, (ground arith, tt)), ((ground arith, tt), (tt, tt)));
}

enqueue-IsChain_example : IsChain true (enqueue by_usize true bump (front ++ middle ∷ back) 7).0
enqueue-IsChain_example =
    enqueue-IsChain by_usize true bump (front ++ middle ∷ back) 7 three-IsChain

enqueue-FirstFit_example :
    FirstFit by_usize
      (enqueue by_usize true bump (front ++ middle ∷ back) 7).1
      7
      (entries (front ++ middle ∷ back))
      (entries (enqueue by_usize true bump (front ++ middle ∷ back) 7).0)
enqueue-FirstFit_example = enqueue-FirstFit by_usize true bump (front ++ middle ∷ back) 7

dequeue-node_example :
    (ns : List (BoxNode ℕ)) × (dequeue by_usize true (front ++ middle ∷ back) 2
      ≡ some (ns, last_item front, Option.map (λ e. e.0) (head? (entries back))))
    × (entries ns ≡ entries front ++ entries back)
    × IsChain true ns
dequeue-node_example = dequeue-node by_usize true front back middle three-IsChain

update-true_example :
    (ns : List (BoxNode ℕ)) × (update_node by_usize true (front ++ middle ∷ back) 2 (λ _. (1, true))
      ≡ some ns)
    × Moved by_usize 2 1 (entries front ++ entries back) (entries ns)
    × IsChain true ns
unfolding highest_first
update-true_example =
    update-true by_usize true front back middle three-IsChain 1 (λ _. (1, true)) refl usize-IsLawful
      ((refl, tt), (tt, tt))

-- Two entries of priority 7 and 4, in `FIFO` and in `LIFO`.
abbrev fifo_two : List (BoxNode (Fifo ℕ))
fifo_two =
    record { addr = 1; item = record { inner = 7 }; prev = none }
    ∷ record { addr = 2; item = record { inner = 4 }; prev = some 1 }
    ∷ []

enqueue-fifo_example :
    (before : List (Entry (Fifo ℕ))) × (later : List (Entry (Fifo ℕ))) × (entries fifo_two
      ≡ before ++ later)
    × (entries (enqueue (fifo by_usize) true bump fifo_two (record { inner = 7 })).0
        ≡ before
          ++ (
            (enqueue (fifo by_usize) true bump fifo_two (record { inner = 7 })).1,
            record { inner = 7 },
          )
            ∷ later)
    × All (λ e. is_le (compare 7 e.1.inner) ≡ true) before
    × All (λ e. is_gt (compare 7 e.1.inner) ≡ true) later
unfolding fifo highest_first
enqueue-fifo_example =
    enqueue-fifo usize_ord usize-IsPreorder true bump fifo_two (record { inner = 7 })
      ((refl, tt), (tt, tt))
