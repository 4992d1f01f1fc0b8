-- ===== src/Boxed/Insert.antt =====
-- `insert` links a node in at the first place where it fits.
use async_priority_lock_rs.Base.{
  ℕ, ◌≡◌, ◌≢◌, refl, sym, ap, subst, inl, inr, Bool, true, false, Option, none, some, List, [], ◌∷◌,
  arith, All, Bool-cases,
}
use async_priority_lock_rs.Priority.{Priority, is_ge}
use async_priority_lock_rs.Queue.Order.{Distinct, FirstFit}
use async_priority_lock_rs.Queue.Handles.{Distinct-insert}
use async_priority_lock_rs.Boxed.{
  BoxNode, Allocator, new_node, addrs, set_prev, set_prev_head, place, insert, enqueue,
}
use async_priority_lock_rs.Boxed.Chain.{entry, entries}

module _ {D : Type 0} where
  -- The back link of a dual linked node.
  abbrev pub LinkAt : Bool → Option ℕ → BoxNode D → Type 0
  LinkAt true v n = n.prev ≡ v
  LinkAt false v n = Unit {0}

  abbrev pub Linked : Bool → Option ℕ → List (BoxNode D) → Type 0
  Linked dual v [] = Unit {0}
  Linked dual v (n ∷ ns) = LinkAt dual v n × Linked dual (some n.addr) ns

  pub record IsChain (dual : Bool) (ns : List (BoxNode D)) : Type 0 where
    pub linked : Linked dual none ns
    pub distinct : Distinct (entries ns)

module _ {D : Type 0} (p : Priority D) where
  pub set_prev-LinkAt :
      (dual : Bool) (v : Option ℕ) (n : BoxNode D) → LinkAt dual v (set_prev p dual v n)
  unfolding set_prev
  set_prev-LinkAt true v n = refl
  set_prev-LinkAt false v n = tt

  pub entry-set_prev :
      (dual : Bool) (v : Option ℕ) (n : BoxNode D) → entry (set_prev p dual v n) ≡ entry n
  unfolding set_prev
  entry-set_prev true v n = refl
  entry-set_prev false v n = refl

  pub entries-set_prev_head :
      (dual : Bool) (v : Option ℕ) (ns : List (BoxNode D))
      → entries (set_prev_head p dual v ns) ≡ entries ns
  unfolding set_prev_head
  entries-set_prev_head dual v [] = refl
  entries-set_prev_head dual v (n ∷ ns) = ap (λ e. e ∷ entries ns) (entry-set_prev dual v n)

  pub set_prev-Linked :
      (dual : Bool) (v w : Option ℕ) (n : BoxNode D) (ns : List (BoxNode D))
      → Linked dual w (n ∷ ns)
      → Linked dual v (set_prev p dual v n ∷ ns)
  unfolding set_prev
  set_prev-Linked true v w n ns h = (refl, h.1)
  set_prev-Linked false v w n ns h = (tt, h.1)

  pub set_prev_head-Linked :
      (dual : Bool) (v w : Option ℕ) (ns : List (BoxNode D))
      → Linked dual w ns
      → Linked dual v (set_prev_head p dual v ns)
  unfolding set_prev_head
  set_prev_head-Linked dual v w [] h = tt
  set_prev_head-Linked dual v w (n ∷ ns) h = set_prev-Linked dual v w n ns h

  -- Three nodes in a row, the middle one new.
  between :
      (dual : Bool) (v : Option ℕ) (new next : BoxNode D) (rest : List (BoxNode D))
      → Linked dual v (next ∷ rest)
      → Linked dual v (set_prev p dual v new ∷ set_prev p dual (some new.addr) next ∷ rest)
  unfolding set_prev
  between true v new next rest h = (refl, (refl, h.1))
  between false v new next rest h = (tt, (tt, h.1))

  place-Linked :
      (dual : Bool) (v : Option ℕ) (new curr : BoxNode D) (rest : List (BoxNode D))
      → Linked dual v (curr ∷ rest)
      → Linked dual v (place p dual new curr rest)
  unfolding place
  place-Linked dual v new curr [] h = (h.0, (set_prev-LinkAt dual (some curr.addr) new, tt))
  place-Linked dual v new curr (next ∷ rest) h =
      elim (Bool-cases (is_ge (p.compare_new new.item next.item))) [
        | inl fits ↦ rw fits (h.0, between dual (some curr.addr) new next rest h.1)
        | inr on ↦ rw on (h.0, place-Linked dual (some curr.addr) new next rest h.1)
      ]

  pub insert-Linked :
      (dual : Bool) (ns : List (BoxNode D)) (new : BoxNode D)
      → Linked dual none ns
      → LinkAt dual none new
      → Linked dual none (insert p dual ns new)
  unfolding insert
  insert-Linked dual [] new h l = (l, tt)
  insert-Linked dual (head ∷ rest) new h l =
      elim (Bool-cases (is_ge (p.compare_new new.item head.item))) [
        | inl fits ↦ rw fits (l, set_prev-Linked dual (some new.addr) none head rest h)
        | inr on ↦ rw on (place-Linked dual none new head rest h)
      ]

  abbrev Fits : BoxNode D → List (BoxNode D) → List (BoxNode D) → Type 0
  Fits new ns ms = FirstFit p new.addr new.item (entries ns) (entries ms)

  place-FirstFit :
      (dual : Bool) (new curr : BoxNode D) (rest : List (BoxNode D))
      → is_ge (p.compare_new new.item curr.item) ≡ false
      → Fits new (curr ∷ rest) (place p dual new curr rest)
  unfolding place
  place-FirstFit dual new curr [] e = record {
    before = entry curr ∷ [];
    later = [];
    split = refl;
    result = ap (λ z. entry curr ∷ z ∷ []) (entry-set_prev dual (some curr.addr) new);
    above = (ground arith, tt);
    stops = tt;
  }
  place-FirstFit dual new curr (next ∷ rest) e =
      elim (Bool-cases (is_ge (p.compare_new new.item next.item))) [
        | inl fits ↦ record {
          before = entry curr ∷ [];
          later = entries (next ∷ rest);
          split = refl;
          result =
              rw
                (
                  fits,
                  entry-set_prev dual (some curr.addr) new,
                  entry-set_prev dual (some new.addr) next,
                )
                refl;
          above = (ground arith, tt);
          stops = fits;
        }
        | inr on ↦
            let further = place-FirstFit dual new next rest on in
            record {
              before = entry curr ∷ further.before;
              later = further.later;
              split = ap (λ l. entry curr ∷ l) further.split;
              result = rw on (ap (λ l. entry curr ∷ l) further.result);
              above = (ground arith, further.above);
              stops = further.stops;
            }
      ]

  -- A node is linked in behind every entry to which it compares as `Less`, up to the first other.
  pub insert-FirstFit :
      (dual : Bool) (ns : List (BoxNode D)) (new : BoxNode D) → Fits new ns (insert p dual ns new)
  unfolding insert
  insert-FirstFit dual [] new = record {
    before = [];
    later = [];
    split = refl;
    result = refl;
    above = tt;
    stops = tt;
  }
  insert-FirstFit dual (head ∷ rest) new =
      elim (Bool-cases (is_ge (p.compare_new new.item head.item))) [
        | inl fits ↦ record {
          before = [];
          later = entries (head ∷ rest);
          split = refl;
          result = rw (fits, entry-set_prev dual (some new.addr) head) refl;
          above = tt;
          stops = fits;
        }
        | inr on ↦ rw on (place-FirstFit dual new head rest on)
      ]

  pub insert-IsChain :
      (dual : Bool) (ns : List (BoxNode D)) (new : BoxNode D)
      → IsChain dual ns
      → LinkAt dual none new
      → All (λ e. new.addr ≢ e.0) (entries ns)
      → IsChain dual (insert p dual ns new)
  insert-IsChain dual ns new c l fresh =
      let w = insert-FirstFit dual ns new in
      record {
        linked = insert-Linked dual ns new c.linked l;
        distinct = subst Distinct (sym w.result) (
            Distinct-insert w.before w.later (entry new) (subst Distinct w.split c.distinct)
              (subst (All (λ e. new.addr ≢ e.0)) w.split fresh));
      }

  All-addrs :
      (a : ℕ) (ns : List (BoxNode D))
      → All (λ b. a ≢ b) (addrs ns)
      → All (λ e. a ≢ e.0) (entries ns)
  All-addrs a [] h = tt
  All-addrs a (n ∷ ns) h = (h.0, All-addrs a ns h.1)

  new_node-LinkAt : (dual : Bool) (a : ℕ) (d : D) → LinkAt dual none (new_node a d)
  new_node-LinkAt true a d = refl
  new_node-LinkAt false a d = tt

  -- `enqueue` keeps a chain well formed: all addresses differ, and each dual linked node points
  -- back to the one before it.
  pub enqueue-IsChain :
      (dual : Bool) (a : Allocator) (ns : List (BoxNode D)) (d : D)
      → IsChain dual ns
      → IsChain dual (enqueue p dual a ns d).0
  unfolding enqueue
  enqueue-IsChain dual a ns d c =
      insert-IsChain dual ns (new_node (a.alloc (addrs ns)) d) c (new_node-LinkAt dual _ d)
        (All-addrs _ ns (a.fresh (addrs ns)))

  -- `enqueue` puts the new entry before the first one that it is not `Less` than as a newcomer, behind
  -- all those before that one, and changes no other entry.
  pub enqueue-FirstFit :
      (dual : Bool) (a : Allocator) (ns : List (BoxNode D)) (d : D)
      → FirstFit p (enqueue p dual a ns d).1 d (entries ns) (entries (enqueue p dual a ns d).0)
  unfolding enqueue
  enqueue-FirstFit dual a ns d = insert-FirstFit dual ns (new_node (a.alloc (addrs ns)) d)
