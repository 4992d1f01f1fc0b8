-- ===== src/Boxed.antt =====
-- src/queue/boxed.rs: `BoxQueue`. A node owns the next one in its `Box`, so the queue is a list of
-- nodes; a node's address is its handle, and `prev` is the raw pointer of the dual linked node.
-- `dual` is `HAS_PREV`. `none` is a dereference of an address that no node of the queue has.
pub mod Chain
pub mod Insert
pub mod Unlink
pub mod Single
pub mod Update
pub mod Walk
pub mod Visit
pub mod Refines
pub mod Implementation
pub mod Ties
pub mod Sample
pub mod Tests
use mathlib.Core.Option
use async_priority_lock_rs.Base.{
  ℕ, ◌≢◌, Bool, true, false, ◌&&◌, Option, none, some, List, [], ◌∷◌, map, All, head?, ◌==◌,
  if◌then◌else◌, is_none_or, ◌>>=◌,
}
use async_priority_lock_rs.Priority.{Priority, is_ge, is_le, is_gt}

pub record BoxNode (D : Type 0) : Type 0 where
  pub addr : ℕ
  pub item : D
  pub prev : Option ℕ

-- `Box::pin`: an address that no live node has.
pub record Allocator : Type 0 where
  pub alloc : List ℕ → ℕ
  pub fresh : (used : List ℕ) → All (λ a. alloc used ≢ a) used

module _ {D : Type 0} where
  abbrev pub addrs : List (BoxNode D) → List ℕ
  addrs = map (λ n. n.addr)

  -- `N::new`.
  abbrev pub new_node : ℕ → D → BoxNode D
  new_node a d = record { addr = a; item = d; prev = none }

  -- A dereference of a raw pointer.
  pub find : ℕ → List (BoxNode D) → Option (BoxNode D)
  find ptr [] = none
  find ptr (n ∷ ns) = if n.addr == ptr then some n else find ptr ns

  -- `node.next()` of the node at `ptr`: the list that it owns.
  pub rest_of : ℕ → List (BoxNode D) → List (BoxNode D)
  rest_of ptr [] = []
  rest_of ptr (n ∷ ns) = if n.addr == ptr then ns else rest_of ptr ns

  -- `*node.next() = tail` for the node at `ptr`.
  pub set_next : ℕ → List (BoxNode D) → List (BoxNode D) → List (BoxNode D)
  set_next ptr tail [] = []
  set_next ptr tail (n ∷ ns) = if n.addr == ptr then n ∷ tail else n ∷ set_next ptr tail ns

  -- A write to the data of the node at `ptr`.
  pub set_item : ℕ → D → List (BoxNode D) → List (BoxNode D)
  set_item ptr d [] = []
  set_item ptr d (n ∷ ns) =
      if n.addr == ptr then record n { item = d } ∷ ns else n ∷ set_item ptr d ns

  abbrev pub head_addr : List (BoxNode D) → Option ℕ
  head_addr ns = Option.map (λ n. n.addr) (head? ns)

  pub get_by_handle : List (BoxNode D) → ℕ → Option D
  get_by_handle ns ptr = Option.map (λ n. n.item) (find ptr ns)

  -- `BoxQueueIterator::next`, until the end of the list.
  unfoldable pub iter_at : List (BoxNode D) → Option ℕ → Option (List D)
  iter_at ns none = some (map (λ n. n.item) ns)
  iter_at ns (some ptr) = do n ← find ptr ns; some (n.item ∷ map (λ n. n.item) (rest_of ptr ns))

  pub get_next_handle : List (BoxNode D) → ℕ → Option (Option ℕ)
  get_next_handle ns ptr = do n ← find ptr ns; some (head_addr (rest_of ptr ns))

  -- Interior mutability: a change of an atomic inside the data, through `&N::Data`.
  pub with_ref : List (BoxNode D) → ℕ → (D → D) → Option (List (BoxNode D))
  with_ref ns ptr f = do n ← find ptr ns; some (set_item ptr (f n.item) ns)

  -- The same for the nodes that the iterator visits, until the loop ends.
  pub visit_nodes : (D → D × Bool) → List (BoxNode D) → List (BoxNode D)
  visit_nodes f [] = []
  visit_nodes f (n ∷ ns) =
      record n { item = (f n.item).0 } ∷ (if (f n.item).1 then visit_nodes f ns else ns)

  -- The chain with a change of the part that begins at `ptr`.
  pub from : ℕ → (List (BoxNode D) → List (BoxNode D)) → List (BoxNode D) → List (BoxNode D)
  from ptr g [] = []
  from ptr g (n ∷ ns) = if n.addr == ptr then g (n ∷ ns) else n ∷ from ptr g ns

  pub for_each : List (BoxNode D) → Option ℕ → (D → D × Bool) → Option (List (BoxNode D))
  for_each ns none f = some (visit_nodes f ns)
  for_each ns (some ptr) f = do _ ← find ptr ns; some (from ptr (visit_nodes f) ns)

module _ {D : Type 0} (p : Priority D) (dual : Bool) where
  -- `BoxQueueNode::set_prev`, which does nothing in a single linked node.
  pub set_prev : Option ℕ → BoxNode D → BoxNode D
  set_prev v n = if dual then record n { prev = v } else n

  -- `if let Some(nxt) = &next { nxt.set_prev(v) }`.
  pub set_prev_head : Option ℕ → List (BoxNode D) → List (BoxNode D)
  set_prev_head v [] = []
  set_prev_head v (n ∷ ns) = set_prev v n ∷ ns

  -- The walk from `curr` to the last node that the new one goes behind.
  pub place : (new curr : BoxNode D) → List (BoxNode D) → List (BoxNode D)
  place new curr [] = curr ∷ set_prev (some curr.addr) new ∷ []
  place new curr (next ∷ rest) =
      if is_ge (p.compare_new new.item next.item)
      then curr ∷ set_prev (some curr.addr) new ∷ set_prev (some new.addr) next ∷ rest
      else curr ∷ place new next rest

  unfoldable pub insert : List (BoxNode D) → BoxNode D → List (BoxNode D)
  insert [] new = new ∷ []
  insert (head ∷ rest) new =
      if is_ge (p.compare_new new.item head.item)
      then new ∷ set_prev (some new.addr) head ∷ rest
      else place new head rest

  unfoldable pub enqueue : Allocator → List (BoxNode D) → D → List (BoxNode D) × ℕ
  enqueue a ns d = (insert ns (new_node (a.alloc (addrs ns)) d), a.alloc (addrs ns))

  -- `next.take()`, `nxt.set_prev(node.prev())`, and `next` in place of the node.
  pub unlink : List (BoxNode D) → BoxNode D → List (BoxNode D)
  unlink ns node = elim node.prev [
    | none ↦ set_prev_head node.prev (rest_of node.addr ns)
    | some q ↦ set_next q (set_prev_head node.prev (rest_of node.addr ns)) ns
  ]

  pub dequeue_dual : List (BoxNode D) → ℕ → Option (List (BoxNode D) × Option D × Option ℕ)
  dequeue_dual ns ptr = do
    node ← find ptr ns
    let handle = head_addr (rest_of ptr ns)
    elim node.prev [
      | none ↦ some (unlink ns node, none, handle)
      | some q ↦ find q ns >>= λ prev. some (unlink ns node, some prev.item, handle)
    ]

  -- `while let Some(next) = node.next()` of the single linked queue.
  pub dequeue_walk : ℕ → BoxNode D → List (BoxNode D) → List (BoxNode D) × Option D × Option ℕ
  dequeue_walk ptr node [] = (node ∷ [], none, none)
  dequeue_walk ptr node (next ∷ rest) =
      let (ns, last, handle) = dequeue_walk ptr next rest in
      if next.addr == ptr
      then (node ∷ rest, some node.item, head_addr rest)
      else (node ∷ ns, last, handle)

  pub dequeue_single : List (BoxNode D) → ℕ → List (BoxNode D) × Option D × Option ℕ
  dequeue_single [] ptr = ([], none, none)
  dequeue_single (head ∷ rest) ptr =
      if head.addr == ptr then (rest, none, head_addr rest) else dequeue_walk ptr head rest

  pub dequeue : List (BoxNode D) → ℕ → Option (List (BoxNode D) × Option D × Option ℕ)
  dequeue ns ptr = if dual then dequeue_dual ns ptr else some (dequeue_single ns ptr)

  pub fits_before : List (BoxNode D) → BoxNode D → Bool
  fits_before ns node =
      is_none_or (head? (rest_of node.addr ns)) (λ nxt. is_ge (p.compare_to node.item nxt.item))

  -- "is the current location good?"
  pub stays_dual : List (BoxNode D) → BoxNode D → Option Bool
  stays_dual ns node = elim node.prev [
    | none ↦ some (fits_before ns node)
    | some q ↦
        find q ns >>= λ prev. some (is_le (p.compare_to node.item prev.item) && fits_before ns node)
  ]

  pub update_dual : List (BoxNode D) → ℕ → Option (List (BoxNode D))
  update_dual ns ptr = do
    node ← find ptr ns
    good ← stays_dual ns node
    if good then some ns else some (insert (unlink ns node) (set_prev none node))

  -- The walk of the single linked queue: the node that has to move and the list without it, or the
  -- list as it is. `none` is `unreachable!`.
  pub update_walk :
      ℕ → BoxNode D → List (BoxNode D) → Option (List (BoxNode D) × Option (BoxNode D))
  update_walk ptr node [] = none
  update_walk ptr node (next ∷ rest) =
      let further = update_walk ptr next rest >>= λ r. some (node ∷ r.0, r.1) in
      if next.addr == ptr
      then (if is_le (p.compare_to next.item node.item)
            && is_none_or (head? rest) (λ nxt. is_ge (p.compare_to next.item nxt.item))
          then some (node ∷ next ∷ rest, none)
          else some (node ∷ rest, some next))
      else further

  abbrev pub reinsert : List (BoxNode D) × Option (BoxNode D) → List (BoxNode D)
  reinsert (ns, none) = ns
  reinsert (ns, some node) = insert ns node

  pub update_single : List (BoxNode D) → ℕ → Option (List (BoxNode D))
  update_single [] ptr = none
  update_single (head ∷ rest) ptr =
      if head.addr == ptr
      then (if is_none_or (head? rest) (λ nxt. is_gt (p.compare_to head.item nxt.item))
          then some (head ∷ rest)
          else some (insert rest head))
      else Option.map reinsert (update_walk ptr head rest)

  pub update_moved : List (BoxNode D) → ℕ → Option (List (BoxNode D))
  update_moved ns ptr = if dual then update_dual ns ptr else update_single ns ptr

  pub update_node : List (BoxNode D) → ℕ → (D → D × Bool) → Option (List (BoxNode D))
  update_node ns ptr update = do
    node ← find ptr ns
    let (d, changed) = update node.item
    if changed then update_moved (set_item ptr d ns) ptr else some (set_item ptr d ns)
