-- ===== src/Boxed/Visit.antt =====
-- Loops over the references of a chain change data only.
use async_priority_lock_rs.Base.{
  ℕ, ◌≡◌, refl, sym, ap, ◌∙◌, subst, Bool, true, false, Option, none, some, List, [], ◌∷◌, ◌++◌,
  arith, All, ◌≢◌, inl, inr, Bool-cases,
}
use async_priority_lock_rs.Queue.Order.{Entry, Distinct, visit}
use async_priority_lock_rs.Boxed.{BoxNode, find, visit_nodes, from, for_each}
use async_priority_lock_rs.Boxed.Chain.{entries, entries-append, Fresh, find-append}
use async_priority_lock_rs.Boxed.Insert.{LinkAt, Linked, IsChain}
use async_priority_lock_rs.Boxed.Unlink.{Fresh-front, Linked-at, Linked-join}

module _ {D : Type 0} (f : D → D × Bool) where
  visit_nodes-entries : (ns : List (BoxNode D)) → entries (visit_nodes f ns) ≡ visit f (entries ns)
  unfolding visit_nodes
  visit_nodes-entries [] = refl
  visit_nodes-entries (n ∷ ns) = ground (arith, visit_nodes-entries ns)

  visited_link :
      (dual : Bool) (v : Option ℕ) (n : BoxNode D) (d : D)
      → LinkAt dual v n
      → LinkAt dual v (record n { item = d })
  visited_link true v n d h = h
  visited_link false v n d h = tt

  visit_nodes-Linked :
      (dual : Bool) (v : Option ℕ) (ns : List (BoxNode D))
      → Linked dual v ns
      → Linked dual v (visit_nodes f ns)
  unfolding visit_nodes
  visit_nodes-Linked dual v [] h = tt
  visit_nodes-Linked dual v (n ∷ ns) h = elim (Bool-cases (f n.item).1) [
    | inl on ↦ rw on (visited_link dual v n _ h.0, visit_nodes-Linked dual (some n.addr) ns h.1)
    | inr off ↦ rw off (visited_link dual v n _ h.0, h.1)
  ]

  visit-apart :
      (z : Entry D) (es : List (Entry D))
      → All (λ e. z.0 ≢ e.0) es
      → All (λ e. z.0 ≢ e.0) (visit f es)
  visit-apart z [] a = tt
  visit-apart z ((h, d) ∷ es) a = elim (Bool-cases (f d).1) [
    | inl on ↦ rw on (a.0, visit-apart z es a.1)
    | inr off ↦ rw off (a.0, a.1)
  ]

  visit-apart_behind :
      (z : Entry D) (xs es : List (Entry D))
      → All (λ e. z.0 ≢ e.0) (xs ++ es)
      → All (λ e. z.0 ≢ e.0) (xs ++ visit f es)
  visit-apart_behind z [] es a = visit-apart z es a
  visit-apart_behind z (x ∷ xs) es a = (a.0, visit-apart_behind z xs es a.1)

  visit-Distinct_self : (es : List (Entry D)) → Distinct es → Distinct (visit f es)
  visit-Distinct_self [] d = tt
  visit-Distinct_self ((h, i) ∷ es) d = elim (Bool-cases (f i).1) [
    | inl on ↦ rw on (visit-apart (h, (f i).0) es d.0, visit-Distinct_self es d.1)
    | inr off ↦ rw off (d.0, d.1)
  ]

  visit-Distinct : (xs es : List (Entry D)) → Distinct (xs ++ es) → Distinct (xs ++ visit f es)
  visit-Distinct [] es d = visit-Distinct_self es d
  visit-Distinct (x ∷ xs) es d = (visit-apart_behind x xs es d.0, visit-Distinct xs es d.1)

  from-append :
      (front back : List (BoxNode D)) (node : BoxNode D)
      → Fresh node.addr front
      → from node.addr (visit_nodes f) (front ++ node ∷ back) ≡ front ++ visit_nodes f (node ∷ back)
  unfolding from
  from-append [] back node h = ground arith
  from-append (n ∷ ns) back node h = ground (arith, from-append ns back node h.1)

  for_each-found :
      (ns : List (BoxNode D)) (n : BoxNode D) (ptr : ℕ)
      → find ptr ns ≡ some n
      → for_each ns (some ptr) f ≡ some (from ptr (visit_nodes f) ns)
  unfolding for_each
  for_each-found ns n ptr e = ground arith

  pub for_each-head :
      (dual : Bool) (ns : List (BoxNode D))
      → IsChain dual ns
      → (ns' : List (BoxNode D)) × (for_each ns none f ≡ some ns')
        × (entries ns' ≡ visit f (entries ns))
        × IsChain dual ns'
  unfolding for_each
  for_each-head dual ns c = (
    visit_nodes f ns,
    refl,
    visit_nodes-entries ns,
    record {
      linked = visit_nodes-Linked dual none ns c.linked;
      distinct =
          subst Distinct (sym (visit_nodes-entries ns)) (visit-Distinct [] (entries ns) c.distinct);
    },
  )

  pub for_each-node :
      (dual : Bool) (front back : List (BoxNode D)) (node : BoxNode D)
      → IsChain dual (front ++ node ∷ back)
      → (ns : List (BoxNode D)) × (for_each (front ++ node ∷ back) (some node.addr) f ≡ some ns)
        × (entries ns ≡ entries front ++ visit f (entries (node ∷ back)))
        × IsChain dual ns
  for_each-node dual front back node c =
      let fresh = Fresh-front front back node c.distinct in
      let seen =
        entries-append front (visit_nodes f (node ∷ back))
        ∙ ap (λ l. entries front ++ l) (visit_nodes-entries (node ∷ back)) in
      (
        front ++ visit_nodes f (node ∷ back),
        for_each-found _ node node.addr (find-append front back node fresh)
            ∙ ap some (from-append front back node fresh),
        seen,
        record {
          linked = Linked-join dual none front (node ∷ back) _ c.linked (
              visit_nodes-Linked dual _ (node ∷ back)
                (Linked-at dual none front back node c.linked));
          distinct = subst Distinct (sym seen) (
              visit-Distinct (entries front) (entries (node ∷ back))
                (subst Distinct (entries-append front (node ∷ back)) c.distinct));
        },
      )
