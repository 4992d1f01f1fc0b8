-- ===== src/Arena/At.antt =====
-- An entry that the block of an `ArenaQueue` holds: its node, the others, and the mark of its slot.
use async_priority_lock_rs.Base.{
  ℕ, ◌/◌, ◌≡◌, ◌≢◌, sym, ap, ◌∙◌, subst, Bool, true, some, List, ◌∷◌, ◌++◌, arith,
}
use async_priority_lock_rs.Queue.Order.{Entry}
use async_priority_lock_rs.Queue.Handles.{Distinct-remove, Distinct-apart}
use async_priority_lock_rs.Arena.{ArenaQueue, sentinel, unallocated, slot}
use async_priority_lock_rs.Arena.Cells.{IsSize, flags, flag-taken, slot-flags, cell-slot}
use async_priority_lock_rs.Arena.Chain.{first, last, Chain-right, Cell, first-taken}
use async_priority_lock_rs.Arena.Pieces.{Apart}
use async_priority_lock_rs.Arena.Cut.{node_at}
use async_priority_lock_rs.Arena.Valid.{Holds}

module _ {D : Type 0} (dual : Bool) (size : ℕ) (q : ArenaQueue D) (xs ys : List (Entry D)) (h : ℕ)
    (d : D) (w : Holds dual size q (xs ++ (h, d) ∷ ys)) where
  abbrev pub old_at : Cell dual size q.nodes h (first sentinel ys) (last sentinel xs) d
  old_at = node_at dual size q.nodes xs ys h d w.chain

  pub Apart-at : Apart h (xs ++ ys)
  Apart-at = record {
    distinct = Distinct-remove xs ys (h, d) w.distinct;
    fresh = Distinct-apart xs ys (h, d) w.distinct;
  }

module _ {D : Type 0} (dual : Bool) {size : ℕ} (s : IsSize size) (q : ArenaQueue D)
    (xs ys : List (Entry D)) (h : ℕ) (d : D) (w : Holds dual size q (xs ++ (h, d) ∷ ys)) where
  pub onward-taken : first sentinel ys ≢ unallocated
  onward-taken =
      first-taken dual s q.nodes h sentinel ys
        (Chain-right dual size q.nodes sentinel sentinel xs ((h, d) ∷ ys) w.chain).1 (omega arith)

  pub mark_at : slot (h / size) (flags q.nodes) ≡ some true
  mark_at =
      let n = old_at dual size q xs ys h d w in
      slot-flags (h / size) q.nodes n.content (cell-slot s h q.nodes n.content n.here).1
      ∙ ap some (flag-taken n.content (subst (λ k. k ≢ unallocated) (sym n.onward) onward-taken))
