-- ===== src/Boxed/Update.antt =====
-- `update_node` of both kinds of queue: the entry stays between fitting neighbours, or is taken out
-- and inserted anew.
use async_priority_lock_rs.Base.{
  ℕ, ◌≡◌, ◌≢◌, refl, sym, ap, ◌∙◌, subst, inl, inr, Bool, true, false, ◌&&◌, Option, none, some,
  List, [], ◌∷◌, ◌++◌, arith, All, Bool-cases, head?, last?, is_none_or,
}
use async_priority_lock_rs.Priority.{Priority, is_ge, is_le}
use async_priority_lock_rs.Priority.Laws.{IsLawful}
use async_priority_lock_rs.Queue.Order.{
  Entry, Distinct, Moved, IsSorted, Moved-stay, FirstFit-Moved,
}
use async_priority_lock_rs.Queue.Handles.{Distinct-apart}
use async_priority_lock_rs.Boxed.{
  BoxNode, find, set_prev, unlink, fits_before, stays_dual, update_dual, insert,
}
use async_priority_lock_rs.Boxed.Chain.{entry, entries, entries-append}
use async_priority_lock_rs.Boxed.Insert.{IsChain, insert-FirstFit, insert-IsChain}
use async_priority_lock_rs.Boxed.Unlink.{
  last-view, after, unlinked, entries-unlinked, unlink-unlinked, unlinked-IsChain, back_to,
  find-back, prev-after, find-node, rest, last?-snoc,
}

module _ {D : Type 0} (p : Priority D) where
  -- Both neighbours fit an entry with the data `d`.
  abbrev pub Between : D → (xs ys : List (Entry D)) → Type 0
  Between d xs ys =
      (is_none_or (last? xs) (λ e. is_le (p.compare_to d e.1)) ≡ true)
      × (is_none_or (head? ys) (λ e. is_ge (p.compare_to d e.1)) ≡ true)

  stays_dual-first :
      (ns : List (BoxNode D)) (node : BoxNode D)
      → node.prev ≡ none
      → stays_dual p true ns node ≡ some (fits_before p true ns node)
  unfolding stays_dual
  stays_dual-first ns node e = ground arith

  stays_dual-behind :
      (ns : List (BoxNode D)) (node l : BoxNode D) (q : ℕ)
      → node.prev ≡ some q
      → find q ns ≡ some l
      → stays_dual p true ns node
        ≡ some (is_le (p.compare_to node.item l.item) && fits_before p true ns node)
  unfolding stays_dual
  stays_dual-behind ns node l q e f = ground arith

  pub head_entries :
      (d : D) (ns : List (BoxNode D))
      → is_none_or (head? ns) (λ n. is_ge (p.compare_to d n.item)) ≡ true
      → is_none_or (head? (entries ns)) (λ e. is_ge (p.compare_to d e.1)) ≡ true
  head_entries d [] h = refl
  head_entries d (n ∷ ns) h = h

  last_entries :
      (d : D) (front init : List (BoxNode D)) (l : BoxNode D)
      → front ≡ init ++ l ∷ []
      → is_le (p.compare_to d l.item) ≡ true
      → is_none_or (last? (entries front)) (λ e. is_le (p.compare_to d e.1)) ≡ true
  last_entries d front init l e h =
      ap (λ f. is_none_or (last? (entries f)) (λ e. is_le (p.compare_to d e.1))) e
      ∙ ap (λ es. is_none_or (last? es) (λ e. is_le (p.compare_to d e.1)))
          (entries-append init (l ∷ []))
      ∙ ap (λ o. is_none_or o (λ e. is_le (p.compare_to d e.1)))
          (last?-snoc (entries init) (entry l))
      ∙ h

  module _ (front back : List (BoxNode D)) (node : BoxNode D)
      (c : IsChain true (front ++ node ∷ back)) where
    fits_before-head :
        fits_before p true (front ++ node ∷ back) node ≡ true
        → is_none_or (head? (entries back)) (λ e. is_ge (p.compare_to node.item e.1)) ≡ true
    unfolding fits_before
    fits_before-head h = head_entries node.item back (
        sym (
          ap (λ r. is_none_or (head? r) (λ n. is_ge (p.compare_to node.item n.item)))
            (rest p front back node c))
        ∙ h)

    -- The test of the dual linked queue finishes, and passes only between fitting neighbours.
    pub stays_dual_lem :
        (good : Bool) × (stays_dual p true (front ++ node ∷ back) node ≡ some good)
        × (good ≡ true → Between node.item (entries front) (entries back))
    stays_dual_lem = elim (last-view front) [
      | inl e ↦ (
        fits_before p true (front ++ node ∷ back) node,
        stays_dual-first _ node (prev-after p front back node c ∙ ap (after none) e),
        λ h. (
          ap (λ f. is_none_or (last? (entries f)) (λ e. is_le (p.compare_to node.item e.1))) e,
          fits_before-head h,
        ),
      )
      | inr (init, l, e) ↦ (
        is_le (p.compare_to node.item l.item) && fits_before p true (front ++ node ∷ back) node,
        stays_dual-behind _ node l l.addr (back_to p front back node c init l e)
            (find-back p front back node c init l e),
        λ h.
            (last_entries node.item front init l e (ground arith), fits_before-head (ground arith)),
      )
    ]

  -- What an update has to leave behind: a well-formed chain in which the entry is where it belongs.
  abbrev pub Settled :
      Bool → (xs ys : List (Entry D)) → BoxNode D → Option (List (BoxNode D)) → Type 0
  Settled dual xs ys node r =
      (ns : List (BoxNode D)) × (r ≡ some ns)
      × Moved p node.addr node.item (xs ++ ys) (entries ns)
      × IsChain dual ns

  module _ (law : IsLawful p) where
    pub stay :
        (dual : Bool) (front back : List (BoxNode D)) (node : BoxNode D)
        → IsSorted p (entries front ++ entries back)
        → Between node.item (entries front) (entries back)
        → Moved p node.addr node.item
            (entries front ++ entries back)
            (entries (front ++ node ∷ back))
    stay dual front back node s b =
        subst (Moved p node.addr node.item (entries front ++ entries back))
          (sym (entries-append front (node ∷ back)))
          (Moved-stay law node.addr node.item (entries front) (entries back) s b.0 b.1)

    pub reinserted :
        (dual : Bool) (xs ys : List (Entry D)) (ms : List (BoxNode D)) (node : BoxNode D)
        → IsSorted p (xs ++ ys)
        → entries ms ≡ xs ++ ys
        → Moved p node.addr node.item (xs ++ ys) (entries (insert p dual ms node))
    reinserted dual xs ys ms node s e =
        subst (λ es. Moved p node.addr node.item es (entries (insert p dual ms node))) e
          (FirstFit-Moved law (insert-FirstFit p dual ms node) (subst (IsSorted p) (sym e) s))

    pub apart :
        (dual : Bool) (front back : List (BoxNode D)) (node : BoxNode D)
        → IsChain dual (front ++ node ∷ back)
        → All (λ e. node.addr ≢ e.0) (entries front ++ entries back)
    apart dual front back node c =
        Distinct-apart (entries front) (entries back) (entry node)
          (subst Distinct (entries-append front (node ∷ back)) c.distinct)

    update_dual-good :
        (ns : List (BoxNode D)) (node : BoxNode D)
        → find node.addr ns ≡ some node
        → stays_dual p true ns node ≡ some true
        → update_dual p true ns node.addr ≡ some ns
    unfolding update_dual
    update_dual-good ns node f e = ground arith

    update_dual-bad :
        (ns : List (BoxNode D)) (node : BoxNode D)
        → find node.addr ns ≡ some node
        → stays_dual p true ns node ≡ some false
        → update_dual p true ns node.addr
          ≡ some (insert p true (unlink p true ns node) (set_prev p true none node))
    unfolding update_dual
    update_dual-bad ns node f e = ground arith

    pub update_dual-Settled :
        (front back : List (BoxNode D)) (node : BoxNode D)
        → IsChain true (front ++ node ∷ back)
        → IsSorted p (entries front ++ entries back)
        → Settled true
            (entries front)
            (entries back)
            node
            (update_dual p true (front ++ node ∷ back) node.addr)
    unfolding set_prev
    update_dual-Settled front back node c s =
        let (good, e, h) = stays_dual_lem front back node c in
        elim (Bool-cases good) [
          | inl t ↦ (
            front ++ node ∷ back,
            update_dual-good _ node (find-node p front back node c) (e ∙ ap some t),
            stay true front back node s (h t),
            c,
          )
          | inr f ↦
              let out = unlinked-IsChain p front back node c in
              let seen = entries-unlinked p front back node true in
              (
                insert p true (unlinked p front back node true) (set_prev p true none node),
                update_dual-bad _ node (find-node p front back node c) (e ∙ ap some f)
                    ∙ ap (λ u. some (insert p true u (set_prev p true none node)))
                        (unlink-unlinked p front back node c),
                reinserted true (entries front) (entries back) _ (set_prev p true none node) s seen,
                insert-IsChain p true _ _ out refl
                    (subst (All (λ e. node.addr ≢ e.0)) (sym seen) (apart true front back node c)),
              )
        ]
