-- ===== src/Arena/Trait/Tests.antt =====
-- Runs of `ArenaQueue` on nodes of 24 bytes.
use async_priority_lock_rs.Priority.Laws.{IsLawful, highest_first-IsLawful, usize-IsPreorder}
use mathlib.Core.List.{Perm}
use async_priority_lock_rs.Arena.Drop.{released, drop_queue, drop_queue-entries}
use async_priority_lock_rs.Queue.Order.{
  items, Entry, IsSorted, Accepts, Enqueued, Moved, lawful-Accepts,
}
use async_priority_lock_rs.Arena.Cells.{IsSize, flag}
use async_priority_lock_rs.Arena.Valid.{Holds, entries, IsValid, Holds-entries, Holds-IsValid}
use async_priority_lock_rs.Arena.Trait.Refines.{
  enqueue-arena, dequeue-arena, update_node-arena, enqueue-dequeue,
}
use async_priority_lock_rs.Base.{
  ℕ, ◌≡◌, refl, Bool, true, false, Option, none, some, List, [], ◌∷◌, ◌>>=◌, arith, if◌then◌else◌,
  inr,
}
use async_priority_lock_rs.Priority.{Priority, highest_first, usize_ord}
use async_priority_lock_rs.Arena.{
  unallocated, ArenaQueue, default, const_default, slot, set_slot, fresh_nodes, expand, pointing_to,
  cell, data_at, write, set_next, set_prev, prev_for, better, search, emplace, walk, insert_behind,
  insert, reposition,
}
use async_priority_lock_rs.Arena.Trait.{
  enqueue, dequeue, iter_at, update_node, maybe_new, iterate, link_behind, place_new, settle,
}

abbrev by_usize : Priority ℕ
by_usize = highest_first usize_ord

abbrev put : Bool → List ℕ → ArenaQueue ℕ → Option (ArenaQueue ℕ)
put dual [] q = some q
put dual (d ∷ ds) q = enqueue by_usize dual 24 q d >>= λ r. put dual ds r.0

abbrev shown : Bool → Option (ArenaQueue ℕ) → Option (List ℕ)
shown dual q = q >>= λ q. iter_at 24 q none

-- The queue sorts what is put into it, over a growth of the block.
sorts :
    shown true (put true (3 ∷ 8 ∷ 5 ∷ 5 ∷ 9 ∷ 1 ∷ []) default) ≡ some (9 ∷ 8 ∷ 5 ∷ 5 ∷ 3 ∷ 1 ∷ [])
unfolding highest_first slot set_slot fresh_nodes expand pointing_to cell data_at write set_next
    set_prev prev_for better search emplace walk insert_behind insert reposition enqueue dequeue
    iter_at update_node maybe_new iterate link_behind place_new settle
sorts = refl

sorts_single :
    shown false (put false (3 ∷ 8 ∷ 5 ∷ 5 ∷ 9 ∷ 1 ∷ []) default) ≡ some (9 ∷ 8 ∷ 5 ∷ 5 ∷ 3 ∷ 1 ∷ [])
unfolding highest_first slot set_slot fresh_nodes expand pointing_to cell data_at write set_next
    set_prev prev_for better search emplace walk insert_behind insert reposition enqueue dequeue
    iter_at update_node maybe_new iterate link_behind place_new settle
sorts_single = refl

-- The node at 24 is dequeued, the one at 48 updated.
changes :
    shown true (
      put true (3 ∷ 8 ∷ 5 ∷ 7 ∷ []) default >>= λ q.
      dequeue true 24 q 24 >>= λ r. update_node by_usize true 24 r.0 48 (λ _. (1, true)))
    ≡ some (7 ∷ 3 ∷ 1 ∷ [])
unfolding highest_first slot set_slot fresh_nodes expand pointing_to cell data_at write set_next
    set_prev prev_for better search emplace walk insert_behind insert reposition enqueue dequeue
    iter_at update_node maybe_new iterate link_behind place_new settle
changes = refl

changes_single :
    shown false (
      put false (3 ∷ 8 ∷ 5 ∷ 7 ∷ []) default >>= λ q.
      dequeue false 24 q 24 >>= λ r. update_node by_usize false 24 r.0 48 (λ _. (1, true)))
    ≡ some (7 ∷ 3 ∷ 1 ∷ [])
unfolding highest_first slot set_slot fresh_nodes expand pointing_to cell data_at write set_next
    set_prev prev_for better search emplace walk insert_behind insert reposition enqueue dequeue
    iter_at update_node maybe_new iterate link_behind place_new settle
changes_single = refl

-- The first look at the head of a queue from `ConstDefault` reads outside of the block.
const_default_faults : shown true (some const_default) ≡ none
unfolding highest_first slot set_slot fresh_nodes expand pointing_to cell data_at write set_next
    set_prev prev_for better search emplace walk insert_behind insert reposition enqueue dequeue
    iter_at update_node maybe_new iterate link_behind place_new settle
const_default_faults = refl

abbrev entry_size : IsSize 24
entry_size = record { positive = omega arith; even = refl }

by_usize-IsLawful : IsLawful by_usize
by_usize-IsLawful = highest_first-IsLawful usize_ord usize-IsPreorder

-- A block with the entries 9 at 48, 7 at 24 and 4 at 0.
abbrev three : Bool → ArenaQueue ℕ
three dual = record {
  nodes =
      record { next = 1; prev = if dual then 24 else 0; item = some 4 }
      ∷ record { next = 0; prev = if dual then 48 else 0; item = some 7 }
      ∷ record { next = 24; prev = if dual then 1 else 0; item = some 9 }
      ∷ record { next = unallocated; prev = 0; item = none }
      ∷ [];
  used = 3;
  good = 3;
  head = 48;
}

abbrev three_entries : List (Entry ℕ)
three_entries = (48, 9) ∷ (24, 7) ∷ (0, 4) ∷ []

three-Holds : Holds true 24 (three true) three_entries
unfolding cell slot flag
three-Holds = record {
  chain = (
    record { content = _; here = refl; onward = refl; filled = refl; back = refl },
    (
      record { content = _; here = refl; onward = refl; filled = refl; back = refl },
      (record { content = _; here = refl; onward = refl; filled = refl; back = refl }, tt),
    ),
  );
  front = refl;
  distinct = ((ground arith, (ground arith, tt)), ((ground arith, tt), (tt, tt)));
  owned = (refl, (refl, (refl, (tt, tt))));
  counted = refl;
  enough = refl;
  good = inr (omega arith);
  slots = inr (0, refl);
}

three-IsValid : IsValid true 24 (three true)
three-IsValid = Holds-IsValid true entry_size (three true) three_entries three-Holds

three_seen : entries 24 (three true) ≡ three_entries
three_seen = Holds-entries true entry_size (three true) three_entries three-Holds

three-IsSorted : IsSorted by_usize three_entries
unfolding highest_first
three-IsSorted = ((refl, (refl, tt)), ((refl, tt), (tt, tt)))

three-Accepts : Accepts by_usize 7 [] three_entries
three-Accepts = lawful-Accepts by_usize-IsLawful 7 three_entries three-IsSorted

enqueue-arena_example :
    (q' : ArenaQueue ℕ) × (h : ℕ) × (enqueue by_usize true 24 (three true) 7 ≡ some (q', h))
    × Enqueued by_usize h 7 [] three_entries (entries 24 q')
    × IsValid true 24 q'
enqueue-arena_example =
    enqueue-arena by_usize true entry_size (three true) three-IsValid 7 [] three_entries three_seen
      three-Accepts

dequeue-arena_example :
    (q' : ArenaQueue ℕ) × (dequeue true 24 (three true) 24 ≡ some (q', some 9, some 0))
    × (entries 24 q' ≡ (48, 9) ∷ (0, 4) ∷ [])
    × IsValid true 24 q'
dequeue-arena_example =
    dequeue-arena by_usize true entry_size (three true) three-IsValid ((48, 9) ∷ []) ((0, 4) ∷ [])
      24 7 three_seen

enqueue-dequeue_example :
    (q1 : ArenaQueue ℕ) × (h : ℕ) × (q2 : ArenaQueue ℕ) × (before : Option ℕ) × (next : Option ℕ)
    × (enqueue by_usize true 24 (three true) 5 ≡ some (q1, h))
    × (dequeue true 24 q1 h ≡ some (q2, before, next))
    × (entries 24 q2 ≡ entries 24 (three true))
    × IsValid true 24 q2
enqueue-dequeue_example = enqueue-dequeue by_usize true entry_size (three true) three-IsValid 5

update_node-arena_example :
    (q' : ArenaQueue ℕ) × (update_node by_usize true 24 (three true) 48 (λ _. (5, true)) ≡ some q')
    × Moved by_usize 48 5 ((24, 7) ∷ (0, 4) ∷ []) (entries 24 q')
    × IsValid true 24 q'
update_node-arena_example =
    update_node-arena by_usize true entry_size (three true) three-IsValid [] ((24, 7) ∷ (0, 4) ∷ [])
      48 9 5 (λ _. (5, true)) three_seen refl by_usize-IsLawful three-IsSorted.1

drop_queue-entries_example :
    (ds : List ℕ) × (Perm ds (items (entries 24 (three true))))
    × (drop_queue false (three true) ≡ some (released ds true))
unfolding cell
drop_queue-entries_example = drop_queue-entries true entry_size (three true) three-IsValid false
