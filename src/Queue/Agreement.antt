-- ===== src/Queue/Agreement.antt =====
-- The queues of src/queue/boxed.rs and src/queue/arena.rs beside one another.
use async_priority_lock_rs.Base.{ℕ, ◌≡◌, sym, ap, ◌∙◌, subst, Bool, some, List, []}
use async_priority_lock_rs.Priority.{Priority}
use async_priority_lock_rs.Priority.Laws.{IsLawful, IsDecisive}
use async_priority_lock_rs.Queue.{PriorityQueue, iter}
use async_priority_lock_rs.Queue.Order.{items, IsSorted}
use async_priority_lock_rs.Queue.Reference.{
  Call, place, reference, place-first, place-Fits, play, IsOrderly, play-reference,
}
use async_priority_lock_rs.Boxed.{BoxNode, Allocator}
use async_priority_lock_rs.Boxed.Insert.{enqueue-FirstFit}
use async_priority_lock_rs.Boxed.Implementation.{box_queue}
use async_priority_lock_rs.Arena.{ArenaQueue}
use async_priority_lock_rs.Arena.Cells.{IsSize}
use async_priority_lock_rs.Arena.Valid.{Holds-entries}
use async_priority_lock_rs.Arena.Trait.Enqueue.{enqueue-Put}
use async_priority_lock_rs.Arena.Trait.Implementation.{arena_queue, put-run}

module _ {D : Type 0} (p : Priority D) where
  box-IsOrderly : (dual : Bool) (a : Allocator) → IsOrderly (box_queue p dual a)
  box-IsOrderly dual a ns d v s =
      let w = enqueue-FirstFit p dual a ns d in
      ap items w.result
      ∙ place-first p _ d w.before w.later w.above w.stops
      ∙ ap (λ es. place p d (items es)) (sym w.split)

  arena-IsOrderly :
      IsDecisive p → (dual : Bool) {size : ℕ} (s : IsSize size) → IsOrderly (arena_queue p dual s)
  arena-IsOrderly k dual {size} s q d v o =
      let Q = arena_queue p dual s in
      let t = enqueue-Put p dual s q (Q.entries q) d v in
      ap (λ r. items (Q.entries r.0)) (put-run p dual s q d (t.queue, t.handle) t.run)
      ∙ ap items (Holds-entries dual s t.queue _ t.holds)
      ∙ place-Fits p t.handle d t.before t.later k (subst (IsSorted p) t.split o) t.fits
      ∙ ap (λ es. place p d (items es)) (sym t.split)

  module _ (law : IsLawful p) (Q : PriorityQueue p) (orderly : IsOrderly Q) where
    open Q use {Queue, default, entries-default, default-IsValid, iter_at-none}

    -- A client's history on a new queue.
    from_new :
        (cs : List (Call D))
        → (q : Queue) × (play Q cs default ≡ some q) × (iter Q q ≡ some (reference p cs []))
    unfolding iter
    from_new cs =
        let t =
          play-reference Q law orderly cs default [] default-IsValid
            (subst (IsSorted p) (sym entries-default) tt) (ap items entries-default) in
        (t.queue, t.run, iter_at-none t.queue t.valid ∙ ap some t.shown)

  -- With a lawful priority that decides between every new entry and every queued one, a `BoxQueue` and
  -- an `ArenaQueue`, single or dual linked, never fault on any history of `enqueue` and `dequeue`, and
  -- their iterators give the same entries in the same order: that of the reference.
  pub queues-agree :
      (law : IsLawful p) (k : IsDecisive p) (dual dual' : Bool) (a : Allocator) {size : ℕ}
      (s : IsSize size) (cs : List (Call D))
      → (ns : List (BoxNode D)) × (q : ArenaQueue D) × (play (box_queue p dual a) cs [] ≡ some ns)
        × (play (arena_queue p dual' s) cs (arena_queue p dual' s).default ≡ some q)
        × (iter (box_queue p dual a) ns ≡ some (reference p cs []))
        × (iter (arena_queue p dual' s) q ≡ some (reference p cs []))
  queues-agree law k dual dual' a s cs =
      let (ns, run, shown) = from_new law (box_queue p dual a) (box-IsOrderly dual a) cs in
      let (q, run', shown') = from_new law (arena_queue p dual' s) (arena-IsOrderly k dual' s) cs in
      (ns, q, run, run', shown, shown')
