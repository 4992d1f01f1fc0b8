-- ===== src/Arena/Trait/Const.antt =====
-- A queue from `ConstDefault`, whose head is 0 in place of the sentinel, src/queue/arena.rs:68-77.
use async_priority_lock_rs.Base.{ℕ, Bool, some, ◌∷◌, if◌then◌else◌}
use async_priority_lock_rs.Priority.{Priority}
use async_priority_lock_rs.Arena.{ArenaNode, ArenaQueue, sentinel, unallocated, fresh_nodes}

abbrev with_prev : {D : Type 0} → Bool → ℕ → ArenaNode D → ArenaNode D
with_prev dual v n = if dual then record n { prev = v } else n

abbrev self_node : {D : Type 0} → Bool → D → ArenaNode D
self_node dual d =
    with_prev dual 0 (with_prev dual sentinel (record { next = 0; prev = 0; item = some d }))

-- The queue that holds `d` at 0, linked to itself.
abbrev looped : {D : Type 0} → Bool → D → ArenaQueue D
looped dual d = record { nodes = self_node dual d ∷ fresh_nodes 3; used = 1; good = 1; head = 0 }

module _ {D : Type 0} (p : Priority D) (size : ℕ) (d : D) where
  -- The node that `emplace` has filled, and that is not linked yet.
  abbrev unlinked : ArenaQueue D
  unlinked = record {
    nodes = record { next = unallocated; prev = 0; item = some d } ∷ fresh_nodes 3;
    used = 1;
    good = 1;
    head = 0;
  }
