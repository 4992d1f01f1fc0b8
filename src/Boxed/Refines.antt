-- ===== src/Boxed/Refines.antt =====
-- What the methods of `BoxQueue`, single or dual linked, do at a node of a well-formed chain.
use mathlib.Core.Option
use async_priority_lock_rs.Base.{
  ℕ, ◌≡◌, refl, sym, ap, ◌∙◌, subst, Bool, true, false, Option, none, some, List, [], ◌∷◌, ◌++◌,
  map, arith, head?, if◌then◌else◌,
}
use async_priority_lock_rs.Priority.{Priority}
use async_priority_lock_rs.Priority.Laws.{IsLawful}
use async_priority_lock_rs.Queue.Order.{items, IsSorted, Moved, Distinct}
use async_priority_lock_rs.Queue.Handles.{Distinct-replace}
use async_priority_lock_rs.Boxed.{
  BoxNode, find, rest_of, set_item, dequeue, get_by_handle, iter_at, get_next_handle, with_ref,
  update_node, update_moved, head_addr,
}
use async_priority_lock_rs.Boxed.Chain.{
  entries, entries-append, find-append, rest_of-append, set_item-append,
}
use async_priority_lock_rs.Boxed.Insert.{IsChain, LinkAt}
use async_priority_lock_rs.Boxed.Unlink.{
  Fresh-front, unlinked, unlinked-IsChain, entries-unlinked, dequeue_dual_lem, head_addr-entries,
  Linked-at, Linked-join, last_item,
}
use async_priority_lock_rs.Boxed.Single.{removed-IsChain, dequeue_single_lem}
use async_priority_lock_rs.Boxed.Update.{Settled, update_dual-Settled}
use async_priority_lock_rs.Boxed.Walk.{update_single-Settled}

module _ {D : Type 0} where
  relink :
      (dual : Bool) (v : Option ℕ) (n : BoxNode D) (d : D)
      → LinkAt dual v n
      → LinkAt dual v (record n { item = d })
  relink true v n d h = h
  relink false v n d h = tt

  -- New data in a node leaves the chain well formed.
  replaced-IsChain :
      (dual : Bool) (front back : List (BoxNode D)) (node : BoxNode D) (d : D)
      → IsChain dual (front ++ node ∷ back)
      → IsChain dual (front ++ record node { item = d } ∷ back)
  replaced-IsChain dual front back node d c =
      let (here, behind) = Linked-at dual none front back node c.linked in
      record {
        linked =
            Linked-join dual none front (node ∷ back) _ c.linked
              (relink dual _ node d here, behind);
        distinct = subst Distinct (sym (entries-append front _)) (
            Distinct-replace (entries front) (entries back) node.addr node.item d
              (subst Distinct (entries-append front (node ∷ back)) c.distinct));
      }

  pub find-node :
      (dual : Bool) (front back : List (BoxNode D)) (node : BoxNode D)
      → IsChain dual (front ++ node ∷ back)
      → find node.addr (front ++ node ∷ back) ≡ some node
  find-node dual front back node c =
      find-append front back node (Fresh-front front back node c.distinct)

  pub rest-node :
      (dual : Bool) (front back : List (BoxNode D)) (node : BoxNode D)
      → IsChain dual (front ++ node ∷ back)
      → rest_of node.addr (front ++ node ∷ back) ≡ back
  rest-node dual front back node c =
      rest_of-append front back node (Fresh-front front back node c.distinct)

  pub map-items : (ns : List (BoxNode D)) → map (λ n. n.item) ns ≡ items (entries ns)
  map-items [] = refl
  map-items (n ∷ ns) = ap (λ l. n.item ∷ l) (map-items ns)

  pub iter_at-found :
      (ns : List (BoxNode D)) (n : BoxNode D) (ptr : ℕ)
      → find ptr ns ≡ some n
      → iter_at ns (some ptr) ≡ some (n.item ∷ map (λ n. n.item) (rest_of ptr ns))
  unfolding iter_at
  iter_at-found ns n ptr e = ground arith

  pub get_next_handle-found :
      (ns : List (BoxNode D)) (n : BoxNode D) (ptr : ℕ)
      → find ptr ns ≡ some n
      → get_next_handle ns ptr ≡ some (head_addr (rest_of ptr ns))
  unfolding get_next_handle
  get_next_handle-found ns n ptr e = ground arith

  with_ref-found :
      (ns : List (BoxNode D)) (n : BoxNode D) (ptr : ℕ) (f : D → D)
      → find ptr ns ≡ some n
      → with_ref ns ptr f ≡ some (set_item ptr (f n.item) ns)
  unfolding with_ref
  with_ref-found ns n ptr f e = ground arith

  pub get_by_handle-found :
      (ns : List (BoxNode D)) (n : BoxNode D) (ptr : ℕ)
      → find ptr ns ≡ some n
      → get_by_handle ns ptr ≡ some n.item
  unfolding get_by_handle
  get_by_handle-found ns n ptr e = ground arith

  pub iter_at-entries : (ns : List (BoxNode D)) → iter_at ns none ≡ some (items (entries ns))
  unfolding iter_at
  iter_at-entries ns = ap some (map-items ns)

module _ {D : Type 0} (p : Priority D) where
  update_node-found :
      (dual : Bool) (ns : List (BoxNode D)) (n : BoxNode D) (ptr : ℕ) (f : D → D × Bool) (d : D)
      (b : Bool)
      → find ptr ns ≡ some n
      → f n.item ≡ (d, b)
      → update_node p dual ns ptr f
        ≡ (if b then update_moved p dual (set_item ptr d ns) ptr else some (set_item ptr d ns))
  unfolding update_node
  update_node-found dual ns n ptr f d b e g = ground arith

  update_moved-Settled :
      (law : IsLawful p) (dual : Bool) (front back : List (BoxNode D)) (node : BoxNode D)
      → IsChain dual (front ++ node ∷ back)
      → IsSorted p (entries front ++ entries back)
      → Settled p dual
          (entries front)
          (entries back)
          node
          (update_moved p dual (front ++ node ∷ back) node.addr)
  unfolding update_moved
  update_moved-Settled law true front back node c s = update_dual-Settled p law front back node c s
  update_moved-Settled law false front back node c s =
      update_single-Settled p law front back node c s

  -- `dequeue` of any node of a well-formed chain, single or dual linked, takes out that entry alone,
  -- returns the entry before it and the handle of the one after it, and leaves a well-formed chain.
  pub dequeue-node :
      (dual : Bool) (front back : List (BoxNode D)) (node : BoxNode D)
      → IsChain dual (front ++ node ∷ back)
      → (ns : List (BoxNode D)) × (dequeue p dual (front ++ node ∷ back) node.addr
          ≡ some (ns, last_item front, Option.map (λ e. e.0) (head? (entries back))))
        × (entries ns ≡ entries front ++ entries back)
        × IsChain dual ns
  unfolding dequeue
  dequeue-node true front back node c = (
    unlinked p front back node true,
    dequeue_dual_lem p front back node c,
    entries-unlinked p front back node true,
    unlinked-IsChain p front back node c,
  )
  dequeue-node false front back node c = (
    front ++ back,
    ap some (
        dequeue_single_lem p front back node (Fresh-front front back node c.distinct)
        ∙ ap (λ h. (front ++ back, last_item front, h)) (head_addr-entries back)),
    entries-append front back,
    removed-IsChain front back node c,
  )

  -- The entry's node with new data.
  module _ (dual : Bool) (front back : List (BoxNode D)) (node : BoxNode D)
      (c : IsChain dual (front ++ node ∷ back)) (d : D) where
    rewritten :
        set_item node.addr d (front ++ node ∷ back) ≡ front ++ record node { item = d } ∷ back
    rewritten = set_item-append front back node d (Fresh-front front back node c.distinct)

    pub with_ref-node :
        (f : D → D)
        → f node.item ≡ d
        → (ns : List (BoxNode D)) × (with_ref (front ++ node ∷ back) node.addr f ≡ some ns)
          × (entries ns ≡ entries front ++ (node.addr, d) ∷ entries back)
          × IsChain dual ns
    with_ref-node f e = (
      front ++ record node { item = d } ∷ back,
      with_ref-found _ node node.addr f (find-node dual front back node c)
          ∙ ap (λ x. some (set_item node.addr x (front ++ node ∷ back))) e
          ∙ ap some rewritten,
      entries-append front _,
      replaced-IsChain dual front back node d c,
    )

    -- An update of any node of a well-formed chain that reports no change of its priority writes
    -- the data in place.
    pub update-false :
        (f : D → D × Bool)
        → f node.item ≡ (d, false)
        → (ns : List (BoxNode D)) × (update_node p dual (front ++ node ∷ back) node.addr f
            ≡ some ns)
          × (entries ns ≡ entries front ++ (node.addr, d) ∷ entries back)
          × IsChain dual ns
    update-false f e = (
      front ++ record node { item = d } ∷ back,
      update_node-found dual _ node node.addr f d false (find-node dual front back node c) e
          ∙ ap some rewritten,
      entries-append front _,
      replaced-IsChain dual front back node d c,
    )

    -- An update of any node of a well-formed chain that reports a change, with a lawful priority
    -- and the other entries sorted, ends with the entry behind no lower and before no higher one,
    -- the others in their order, and the chain well formed.
    pub update-true :
        (f : D → D × Bool)
        → f node.item ≡ (d, true)
        → IsLawful p
        → IsSorted p (entries front ++ entries back)
        → (ns : List (BoxNode D)) × (update_node p dual (front ++ node ∷ back) node.addr f
            ≡ some ns)
          × Moved p node.addr d (entries front ++ entries back) (entries ns)
          × IsChain dual ns
    update-true f e law s =
        let (ns, r, w, c') =
          update_moved-Settled law dual front back (record node { item = d })
            (replaced-IsChain dual front back node d c) s in
        (
          ns,
          update_node-found dual _ node node.addr f d true (find-node dual front back node c) e
              ∙ ap (λ l. update_moved p dual l node.addr) rewritten
              ∙ r,
          w,
          c',
        )
