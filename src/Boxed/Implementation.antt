-- ===== src/Boxed/Implementation.antt =====
-- `BoxQueue`, single or dual linked, is a `PriorityQueue`.
use mathlib.Core.Option
use async_priority_lock_rs.Base.{
  ◌≡◌, refl, ap, ◌∙◌, subst, Bool, true, false, some, List, [], ◌∷◌, ◌++◌, map, head?, last?,
}
use async_priority_lock_rs.Priority.{Priority}
use async_priority_lock_rs.Queue.{PriorityQueue}
use async_priority_lock_rs.Queue.Order.{items, visit, IsSorted, Moved, FirstFit, FirstFit-Enqueued}
use async_priority_lock_rs.Boxed.{
  BoxNode, Allocator, enqueue, dequeue, get_by_handle, iter_at, get_next_handle, with_ref, for_each,
  update_node, head_addr,
}
use async_priority_lock_rs.Boxed.Chain.{by_node, entries}
use async_priority_lock_rs.Boxed.Insert.{IsChain, enqueue-IsChain, enqueue-FirstFit}
use async_priority_lock_rs.Boxed.Unlink.{head_addr-entries}
use async_priority_lock_rs.Boxed.Visit.{for_each-head, for_each-node}
use async_priority_lock_rs.Boxed.Refines.{
  find-node, rest-node, map-items, iter_at-found, get_next_handle-found, get_by_handle-found,
  iter_at-entries, dequeue-node, with_ref-node, update-false, update-true,
}

module _ {D : Type 0} (p : Priority D) (dual : Bool) (a : Allocator) where
  -- `BoxQueue<N>` is a `PriorityQueue`.
  abbrev pub box_queue : PriorityQueue p
  box_queue = record {
    Queue = List (BoxNode D);
    default = [];
    enqueue = enqueue p dual a;
    dequeue = dequeue p dual;
    get_by_handle = get_by_handle;
    iter_at = iter_at;
    update_node = update_node p dual;
    head_handle = head_addr;
    get_next_handle = get_next_handle;
    with_ref = with_ref;
    for_each = for_each;
    entries = entries;
    IsValid = IsChain dual;
    default-IsValid = record { linked = tt; distinct = tt };
    entries-default = refl;
    distinct = λ ns c. c.distinct;
    enqueue-IsValid = enqueue-IsChain p dual a;
    enqueue_lem = λ ns d pinned free c e acc. FirstFit-Enqueued acc (
        subst (λ es. FirstFit p (enqueue p dual a ns d).1 d es (entries (enqueue p dual a ns d).0))
          e (enqueue-FirstFit p dual a ns d));
    head_handle_lem = λ ns c. head_addr-entries ns;
    iter_at-none = λ ns c. iter_at-entries ns;
    dequeue_lem = λ ns xs ys h d c e.
        by_node
          (λ ns xs ys h d.
            IsChain dual ns
            → (ns' : List (BoxNode D)) × (dequeue p dual ns h
                ≡ some (ns', Option.map (λ e. e.1) (last? xs), Option.map (λ e. e.0) (head? ys)))
              × (entries ns' ≡ xs ++ ys)
              × IsChain dual ns')
          (dequeue-node p dual) ns xs ys h d e c;
    get_by_handle_lem = λ ns xs ys h d c e.
        by_node (λ ns xs ys h d. IsChain dual ns → get_by_handle ns h ≡ some d)
          (λ front back node c.
            get_by_handle-found _ node node.addr (find-node dual front back node c))
          ns xs ys h d e c;
    get_next_handle_lem = λ ns xs ys h d c e.
        by_node
          (λ ns xs ys h d.
            IsChain dual ns → get_next_handle ns h ≡ some (Option.map (λ e. e.0) (head? ys)))
          (λ front back node c.
            get_next_handle-found _ node node.addr (find-node dual front back node c)
            ∙ ap (λ r. some (head_addr r)) (rest-node dual front back node c)
            ∙ ap some (head_addr-entries back))
          ns xs ys h d e c;
    iter_at-some = λ ns xs ys h d c e.
        by_node (λ ns xs ys h d. IsChain dual ns → iter_at ns (some h) ≡ some (items ((h, d) ∷ ys)))
          (λ front back node c.
            iter_at-found _ node node.addr (find-node dual front back node c)
            ∙ ap (λ r. some (node.item ∷ map (λ n. n.item) r)) (rest-node dual front back node c)
            ∙ ap (λ l. some (node.item ∷ l)) (map-items back))
          ns xs ys h d e c;
    with_ref_lem = λ ns xs ys h d f c e.
        by_node
          (λ ns xs ys h d.
            IsChain dual ns
            → (ns' : List (BoxNode D)) × (with_ref ns h f ≡ some ns')
              × (entries ns' ≡ xs ++ (h, f d) ∷ ys)
              × IsChain dual ns')
          (λ front back node c. with_ref-node p dual front back node c (f node.item) f refl) ns xs
          ys h d e c;
    for_each-none = λ ns f c. for_each-head f dual ns c;
    for_each-some = λ ns xs ys h d f c e.
        by_node
          (λ ns xs ys h d.
            IsChain dual ns
            → (ns' : List (BoxNode D)) × (for_each ns (some h) f ≡ some ns')
              × (entries ns' ≡ xs ++ visit f ((h, d) ∷ ys))
              × IsChain dual ns')
          (for_each-node f dual) ns xs ys h d e c;
    update_node-false = λ ns xs ys h d d' f c e g.
        by_node
          (λ ns xs ys h d.
            IsChain dual ns
            → f d ≡ (d', false)
            → (ns' : List (BoxNode D)) × (update_node p dual ns h f ≡ some ns')
              × (entries ns' ≡ xs ++ (h, d') ∷ ys)
              × IsChain dual ns')
          (λ front back node c g. update-false p dual front back node c d' f g) ns xs ys h d e c g;
    update_node-true = λ ns xs ys h d d' f c e g law s.
        by_node
          (λ ns xs ys h d.
            IsChain dual ns
            → f d ≡ (d', true)
            → IsSorted p (xs ++ ys)
            → (ns' : List (BoxNode D)) × (update_node p dual ns h f ≡ some ns')
              × Moved p h d' (xs ++ ys) (entries ns')
              × IsChain dual ns')
          (λ front back node c g s. update-true p dual front back node c d' f g law s) ns xs ys h d
          e c g s;
  }
