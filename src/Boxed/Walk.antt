-- ===== src/Boxed/Walk.antt =====
-- `update_node` of the single linked queue, which walks from the head to the node.
use async_priority_lock_rs.Base.{
  ◌≡◌, ◌≢◌, refl, sym, ap, ◌∙◌, subst, inl, inr, Bool, true, false, ◌&&◌, Option, none, some, List,
  [], ◌∷◌, ◌++◌, arith, All, Bool-cases, head?, last?, is_none_or, if◌then◌else◌,
}
use async_priority_lock_rs.Priority.{Priority, is_ge, is_le, is_gt}
use async_priority_lock_rs.Priority.Laws.{IsLawful}
use async_priority_lock_rs.Queue.Order.{IsSorted, Moved}
use async_priority_lock_rs.Boxed.{BoxNode, update_walk, update_single, reinsert, insert}
use async_priority_lock_rs.Boxed.Chain.{entry, entries, entries-append, Fresh}
use async_priority_lock_rs.Boxed.Insert.{IsChain, insert-IsChain}
use async_priority_lock_rs.Boxed.Unlink.{Fresh-front}
use async_priority_lock_rs.Boxed.Single.{removed-IsChain}
use async_priority_lock_rs.Boxed.Update.{Between, Settled, stay, reinserted, apart, head_entries}

module _ {D : Type 0} (p : Priority D) where
  last_of : BoxNode D → List (BoxNode D) → BoxNode D
  last_of n [] = n
  last_of n (m ∷ ms) = last_of m ms

  -- The test of the walk at the node behind `n ∷ ms`.
  good : BoxNode D → (ms back : List (BoxNode D)) → BoxNode D → Bool
  good n ms back node =
      is_le (p.compare_to node.item (last_of n ms).item)
      && is_none_or (head? back) (λ nxt. is_ge (p.compare_to node.item nxt.item))

  last_of-entries :
      (n : BoxNode D) (ms : List (BoxNode D))
      → last? (entries (n ∷ ms)) ≡ some (entry (last_of n ms))
  unfolding last_of
  last_of-entries n [] = refl
  last_of-entries n (m ∷ ms) = last_of-entries m ms

  good-Between :
      (n : BoxNode D) (ms back : List (BoxNode D)) (node : BoxNode D)
      → good n ms back node ≡ true
      → Between p node.item (entries (n ∷ ms)) (entries back)
  unfolding good
  good-Between n ms back node h = (
    ap (λ o. is_none_or o (λ e. is_le (p.compare_to node.item e.1))) (last_of-entries n ms)
        ∙ ground arith,
    head_entries p node.item back (ground arith),
  )

  update_walk-good :
      (ms back : List (BoxNode D)) (n node : BoxNode D)
      → Fresh node.addr ms
      → good n ms back node ≡ true
      → update_walk p false node.addr n (ms ++ node ∷ back) ≡ some (n ∷ ms ++ node ∷ back, none)
  unfolding update_walk good last_of
  update_walk-good [] back n node f g = ground arith
  update_walk-good (m ∷ ms) back n node f g = ground (arith, update_walk-good ms back m node f.1)

  update_walk-bad :
      (ms back : List (BoxNode D)) (n node : BoxNode D)
      → Fresh node.addr ms
      → good n ms back node ≡ false
      → update_walk p false node.addr n (ms ++ node ∷ back) ≡ some (n ∷ ms ++ back, some node)
  unfolding update_walk good last_of
  update_walk-bad [] back n node f g = ground arith
  update_walk-bad (m ∷ ms) back n node f g = ground (arith, update_walk-bad ms back m node f.1)

  update_single-behind :
      (rest : List (BoxNode D)) (n node : BoxNode D) (r : List (BoxNode D) × Option (BoxNode D))
      → n.addr ≢ node.addr
      → update_walk p false node.addr n rest ≡ some r
      → update_single p false (n ∷ rest) node.addr ≡ some (reinsert p false r)
  unfolding update_single
  update_single-behind rest n node r f e = ground arith

  head_good : List (BoxNode D) → BoxNode D → Bool
  head_good back node = is_none_or (head? back) (λ nxt. is_gt (p.compare_to node.item nxt.item))

  head_good-Between :
      (back : List (BoxNode D)) (node : BoxNode D)
      → head_good back node ≡ true
      → Between p node.item [] (entries back)
  unfolding head_good
  head_good-Between [] node h = (refl, refl)
  head_good-Between (b ∷ bs) node h = (refl, ground arith)

  update_single-head :
      (back : List (BoxNode D)) (node : BoxNode D)
      → update_single p false (node ∷ back) node.addr
        ≡ (if head_good back node then some (node ∷ back) else some (insert p false back node))
  unfolding update_single head_good
  update_single-head back node = ground arith

  module _ (law : IsLawful p) where
    Moved-out :
        (front back : List (BoxNode D)) (node : BoxNode D)
        → IsChain false (front ++ node ∷ back)
        → IsSorted p (entries front ++ entries back)
        → Moved p node.addr node.item
            (entries front ++ entries back)
            (entries (insert p false (front ++ back) node))
          × IsChain false (insert p false (front ++ back) node)
    Moved-out front back node c s =
        let seen = entries-append front back in
        (
          reinserted p law false (entries front) (entries back) (front ++ back) node s seen,
          insert-IsChain p false (front ++ back) node (removed-IsChain front back node c) tt
              (subst (All (λ e. node.addr ≢ e.0)) (sym seen) (apart p law false front back node c)),
        )

    pub update_single-Settled :
        (front back : List (BoxNode D)) (node : BoxNode D)
        → IsChain false (front ++ node ∷ back)
        → IsSorted p (entries front ++ entries back)
        → Settled p false
            (entries front)
            (entries back)
            node
            (update_single p false (front ++ node ∷ back) node.addr)
    update_single-Settled [] back node c s = elim (Bool-cases (head_good back node)) [
      | inl t ↦ (
        node ∷ back,
        update_single-head back node ∙ rw t,
        stay p law false [] back node s (head_good-Between back node t),
        c,
      )
      | inr f ↦
          let (w, c') = Moved-out [] back node c s in
          (insert p false back node, update_single-head back node ∙ rw f, w, c')
    ]
    update_single-Settled (n ∷ ms) back node c s =
        let fresh = Fresh-front (n ∷ ms) back node c.distinct in
        elim (Bool-cases (good n ms back node)) [
          | inl t ↦ (
            n ∷ ms ++ node ∷ back,
            update_single-behind _ n node _ fresh.0 (update_walk-good ms back n node fresh.1 t),
            stay p law false (n ∷ ms) back node s (good-Between n ms back node t),
            c,
          )
          | inr f ↦
              let (w, c') = Moved-out (n ∷ ms) back node c s in
              (
                insert p false (n ∷ ms ++ back) node,
                update_single-behind _ n node _ fresh.0 (update_walk-bad ms back n node fresh.1 f),
                w,
                c',
              )
        ]
