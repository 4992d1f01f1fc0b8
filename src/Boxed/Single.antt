-- ===== src/Boxed/Single.antt =====
-- Unlinking a node of a single linked chain.
use async_priority_lock_rs.Base.{
  ℕ, ◌≡◌, sym, subst, false, Option, none, some, List, [], ◌∷◌, ◌++◌, arith,
}
use async_priority_lock_rs.Priority.{Priority}
use async_priority_lock_rs.Queue.Order.{Distinct}
use async_priority_lock_rs.Queue.Handles.{Distinct-remove}
use async_priority_lock_rs.Boxed.{BoxNode, dequeue_walk, dequeue_single, head_addr}
use async_priority_lock_rs.Boxed.Chain.{entry, entries, entries-append, Fresh}
use async_priority_lock_rs.Boxed.Insert.{Linked, IsChain}
use async_priority_lock_rs.Boxed.Unlink.{last_item}

module _ {D : Type 0} where
  pub Linked-false : (v : Option ℕ) (ns : List (BoxNode D)) → Linked false v ns
  Linked-false v [] = tt
  Linked-false v (n ∷ ns) = (tt, Linked-false (some n.addr) ns)

  dequeue_walk_lem :
      (p : Priority D) (node : BoxNode D) (ms back : List (BoxNode D)) (n : BoxNode D)
      → Fresh node.addr ms
      → dequeue_walk p false node.addr n (ms ++ node ∷ back)
        ≡ (n ∷ ms ++ back, last_item (n ∷ ms), head_addr back)
  unfolding dequeue_walk
  dequeue_walk_lem p node [] back n f = ground arith
  dequeue_walk_lem p node (m ∷ ms) back n f = ground (arith, dequeue_walk_lem p node ms back m f.1)

  pub dequeue_single_lem :
      (p : Priority D) (front back : List (BoxNode D)) (node : BoxNode D)
      → Fresh node.addr front
      → dequeue_single p false (front ++ node ∷ back) node.addr
        ≡ (front ++ back, last_item front, head_addr back)
  unfolding dequeue_single
  dequeue_single_lem p [] back node f = ground arith
  dequeue_single_lem p (n ∷ ns) back node f = ground (arith, dequeue_walk_lem p node ns back n f.1)

  pub removed-IsChain :
      (front back : List (BoxNode D)) (node : BoxNode D)
      → IsChain false (front ++ node ∷ back)
      → IsChain false (front ++ back)
  removed-IsChain front back node c = record {
    linked = Linked-false none (front ++ back);
    distinct = subst Distinct (sym (entries-append front back)) (
        Distinct-remove (entries front) (entries back) (entry node)
          (subst Distinct (entries-append front (node ∷ back)) c.distinct));
  }
