-- ===== src/Queue/Tests.antt =====
-- A history of calls on a `BoxQueue` and on an `ArenaQueue`, with `FIFO` priorities.
use async_priority_lock_rs.Base.{ℕ, ◌≡◌, refl, true, false, some, List, [], ◌∷◌, arith, map}
use async_priority_lock_rs.Priority.{Priority, Fifo, fifo, highest_first, usize_ord}
use async_priority_lock_rs.Priority.Laws.{
  IsLawful, fifo-IsLawful, fifo-IsDecisive, highest_first-IsLawful, usize-IsPreorder,
}
use async_priority_lock_rs.Queue.{iter}
use async_priority_lock_rs.Queue.Reference.{Call, put, take_out, reference, play}
use async_priority_lock_rs.Queue.Agreement.{queues-agree}
use async_priority_lock_rs.Boxed.{BoxNode}
use async_priority_lock_rs.Boxed.Sample.{bump}
use async_priority_lock_rs.Boxed.Implementation.{box_queue}
use async_priority_lock_rs.Arena.{ArenaQueue}
use async_priority_lock_rs.Arena.Cells.{IsSize}
use async_priority_lock_rs.Arena.Trait.Implementation.{arena_queue}

abbrev oldest_first : Priority (Fifo ℕ)
oldest_first = fifo (highest_first usize_ord)

oldest_first-IsLawful : IsLawful oldest_first
oldest_first-IsLawful =
    fifo-IsLawful (highest_first usize_ord) (highest_first-IsLawful usize_ord usize-IsPreorder)

abbrev node_size : IsSize 24
node_size = record { positive = omega arith; even = refl }

abbrev of : ℕ → Fifo ℕ
of n = record { inner = n }

abbrev calls : List (Call (Fifo ℕ))
calls =
    put (of 3) ∷ put (of 8) ∷ put (of 5) ∷ take_out 1 ∷ put (of 8) ∷ put (of 1) ∷ take_out 9 ∷ []

calls_seen : map (λ d. d.inner) (reference oldest_first calls []) ≡ 8 ∷ 8 ∷ 3 ∷ 1 ∷ []
unfolding fifo highest_first
calls_seen = refl

queues-agree_example :
    (ns : List (BoxNode (Fifo ℕ))) × (q : ArenaQueue (Fifo ℕ)) × (play
        (box_queue oldest_first true bump)
        calls
        []
      ≡ some ns)
    × (play
          (arena_queue oldest_first false node_size)
          calls
          (arena_queue oldest_first false node_size).default
        ≡ some q)
    × (iter (box_queue oldest_first true bump) ns ≡ some (reference oldest_first calls []))
    × (iter (arena_queue oldest_first false node_size) q ≡ some (reference oldest_first calls []))
queues-agree_example =
    queues-agree oldest_first oldest_first-IsLawful (fifo-IsDecisive usize_ord usize-IsPreorder)
      true false bump node_size calls
