-- ===== src/Arena.antt =====
-- src/queue/arena.rs: `ArenaQueue`. The nodes lie in one block, `size` bytes each; links and handles
-- are byte offsets into it. `dual` is `HAS_PREV`. `none` is a read outside of the block or of data
-- that is not there, `unreachable!`, or a loop that has run out of fuel: as many steps as there are
-- slots.
pub mod Cells
pub mod Chain
pub mod Cut
pub mod Drop
pub mod Insert
pub mod Links
pub mod Owned
pub mod At
pub mod Pieces
pub mod Replace
pub mod Reposition
pub mod Prev
pub mod Search
pub mod Growth
pub mod Valid
pub mod Trait
use mathlib.Core.Option
use async_priority_lock_rs.Base.{
  ℕ, zero, suc, ◌+◌, ◌-◌, ◌*◌, ◌/◌, ◌%◌, ◌^◌, lt, eq, gt, Bool, true, false, Option, none, some,
  List, [], ◌∷◌, ◌++◌, if◌then◌else◌, ◌==◌, length, is_none_or, ◌>>=◌,
}
use async_priority_lock_rs.Priority.{Priority, is_ge, is_gt}

-- `SENTINEL`, and `UNALLOCATED`, which is `usize::MAX`.
abbrev pub sentinel : ℕ
sentinel = 1

abbrev pub unallocated : ℕ
unallocated = 2 ^ 64 - 1

-- `DualLinkArenaQueueNode`; the single linked one has no `prev`. `item` is the `MaybeUninit`.
pub record ArenaNode (D : Type 0) : Type 0 where
  pub next : ℕ
  pub prev : ℕ
  pub item : Option D

-- `nodes` is the block; its length is `size`.
pub record ArenaQueue (D : Type 0) : Type 0 where
  pub nodes : List (ArenaNode D)
  pub used : ℕ
  pub good : ℕ
  pub head : ℕ

module _ {A : Type 0} where
  pub slot : ℕ → List A → Option A
  slot i [] = none
  slot zero (x ∷ xs) = some x
  slot (suc i) (x ∷ xs) = slot i xs

  pub set_slot : ℕ → (A → A) → List A → List A
  set_slot i f [] = []
  set_slot zero f (x ∷ xs) = f x ∷ xs
  set_slot (suc i) f (x ∷ xs) = x ∷ set_slot i f xs

module _ {D : Type 0} where
  -- `Default::default`, and `ConstDefault::DEFAULT`.
  abbrev pub default : ArenaQueue D
  default = record { nodes = []; used = 0; good = 0; head = sentinel }

  abbrev pub const_default : ArenaQueue D
  const_default = record { nodes = []; used = 0; good = 0; head = 0 }

  pub fresh_nodes : ℕ → List (ArenaNode D)
  fresh_nodes zero = []
  fresh_nodes (suc n) = record { next = unallocated; prev = 0; item = none } ∷ fresh_nodes n

  -- `expand`: four nodes at first, then twice as many.
  pub expand : ArenaQueue D → ArenaQueue D
  expand q = record q {
    nodes = q.nodes ++ fresh_nodes (if length q.nodes == 0 then 4 else length q.nodes);
    good = length q.nodes;
  }

  -- `x.next() == offset`, first in the block.
  pub pointing_to : ℕ → ℕ → List (ArenaNode D) → Option ℕ
  pointing_to offset i [] = none
  pointing_to offset i (n ∷ ns) = if n.next == offset then some i else pointing_to offset (suc i) ns

module _ {D : Type 0} (size : ℕ) where
  -- The node at an offset into the block.
  pub cell : ℕ → List (ArenaNode D) → Option (ArenaNode D)
  cell offset ns = if offset % size == 0 then slot (offset / size) ns else none

  -- `node`.
  abbrev pub node : ArenaQueue D → ℕ → Option (ArenaNode D)
  node q offset = cell offset q.nodes

  pub data_at : ArenaQueue D → ℕ → Option D
  data_at q offset = do n ← node q offset; n.item

  pub write : ArenaQueue D → ℕ → (ArenaNode D → ArenaNode D) → Option (ArenaQueue D)
  write q offset f = do
    _ ← node q offset
    some (record q { nodes = set_slot (offset / size) f q.nodes })

  pub set_next : ArenaQueue D → ℕ → ℕ → Option (ArenaQueue D)
  set_next q offset val = write q offset (λ n. record n { next = val })

  -- Nothing is written in a single linked node.
  pub set_prev : Bool → ArenaQueue D → ℕ → ℕ → Option (ArenaQueue D)
  set_prev dual q offset val = write q offset (λ n. if dual then record n { prev = val } else n)

  -- `prev_for`.
  pub prev_for : Bool → ArenaQueue D → ArenaNode D → ℕ → Option ℕ
  prev_for dual q n offset =
      if dual then some n.prev else Option.map (λ i. i * size) (pointing_to offset 0 q.nodes)

module _ {D : Type 0} (p : Priority D) (size : ℕ) where
  -- What the search of `emplace` has found: the slot, the node to start from, and whether the new one
  -- goes right behind that.
  pub better : D → ArenaQueue D → ℕ → D → Option ℕ → Option (Option ℕ × Bool)
  better item q offset node_data best = elim (p.compare_new item node_data) [
    | gt ↦ some (best, false)
    | eq ↦ some (some offset, true)
    | lt ↦ elim best [
      | none ↦ some (some offset, false)
      | some b ↦ data_at size q b >>= λ b_data.
          some (if is_gt (p.compare_to node_data b_data) then some offset else some b, false)
    ]
  ]

  -- `(idx + 1) & idx_mask`: the number of slots is a power of two.
  pub search : ℕ → D → ArenaQueue D → ℕ → Option ℕ → Bool → Option (ℕ × Option ℕ × Bool)
  search zero item q idx best found = none
  search (suc fuel) item q idx best found = slot idx q.nodes >>= λ n.
      (if n.next == unallocated
        then some (idx, best, found)
        else (if found
            then search fuel item q ((idx + 1) % length q.nodes) best true
            else (n.item >>= λ node_data. better item q (idx * size) node_data best >>= λ b.
                search fuel item q ((idx + 1) % length q.nodes) b.0 b.1)))

  -- `emplace`: the queue, the offset of the new node, and what the search has found.
  pub emplace : ArenaQueue D → D → Option (ArenaQueue D × ℕ × Option ℕ × Bool)
  emplace q item = do
    r ← search (length q.nodes) item q q.good none false
    q' ← write size q (r.0 * size) (λ n. record n { item = some item })
    some (record q' { good = (r.0 + 1) % length q.nodes; used = q.used + 1 }, r.0 * size, r.1, r.2)

module _ {D : Type 0} (p : Priority D) (dual : Bool) (size : ℕ) where
  -- `while prev.next() != SENTINEL`: the node to insert behind.
  pub walk : ℕ → ArenaQueue D → D → ℕ → ℕ → Option (ArenaQueue D × ℕ)
  walk zero q new_data new_offset prev = none
  walk (suc fuel) q new_data new_offset prev = node size q prev >>= λ n.
      (if n.next == sentinel
        then some (q, prev)
        else (data_at size q n.next >>= λ next_data.
            (if is_ge (p.compare_new new_data next_data)
              then (set_prev size dual q n.next new_offset >>= λ q'. some (q', prev))
              else walk fuel q new_data new_offset n.next)))

  pub insert_behind : ArenaQueue D → D → ℕ → ℕ → Option (ArenaQueue D)
  insert_behind q new_data new_offset start = do
    r ← walk (length q.nodes) q new_data new_offset start
    prev ← node size r.0 r.1
    q1 ← set_next size r.0 new_offset prev.next
    q2 ← set_prev size dual q1 new_offset r.1
    set_next size q2 r.1 new_offset

  -- `insert`.
  pub insert : ArenaQueue D → ℕ → Option ℕ → Option (ArenaQueue D)
  insert q new_offset (some prev) = do
    new_data ← data_at size q new_offset
    insert_behind q new_data new_offset prev
  insert q new_offset none = data_at size q new_offset >>= λ new_data.
      (if q.head == sentinel
        then (set_next size q new_offset sentinel >>= λ q1.
            set_prev size dual q1 new_offset sentinel >>= λ q2.
            some (record q2 { head = new_offset }))
        else (data_at size q q.head >>= λ head_data.
            (if is_ge (p.compare_new new_data head_data)
              then (set_next size q new_offset q.head >>= λ q1.
                  set_prev size dual q1 new_offset sentinel >>= λ q2.
                  set_prev size dual q2 q.head new_offset >>= λ q3.
                  some (record q3 { head = new_offset }))
              else insert_behind q new_data new_offset q.head)))

  -- `reposition`; `prev` and `next` are the neighbours, if there are any.
  pub reposition : ArenaQueue D → ℕ → Option ℕ → Option ℕ → Option (ArenaQueue D)
  reposition q offset (some prev) next = do
    n ← node size q offset
    q1 ← set_next size q prev n.next
    q2 ← elim next [ none ↦ some q1 | some nxt ↦ set_prev size dual q1 nxt n.prev ]
    insert q2 offset none
  reposition q offset none next = do
    n ← node size q offset
    q1 ← elim next [ none ↦ some q | some nxt ↦ set_prev size dual q nxt sentinel ]
    insert (record q1 { head = n.next }) offset (some n.next)
