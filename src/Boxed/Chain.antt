-- ===== src/Boxed/Chain.antt =====
-- The nodes of a `BoxQueue` as entries, what a well-formed chain is, and how lookups by address find
-- their way in it.
use mathlib.Core.Path.{transport}
use async_priority_lock_rs.Base.{
  ℕ, ◌≡◌, ◌≢◌, refl, sym, ap, some, List, [], ◌∷◌, ◌++◌, map, arith, All,
}
use async_priority_lock_rs.Queue.Order.{Entry}
use async_priority_lock_rs.Boxed.{BoxNode, find, rest_of, set_next, set_item}

module _ {D : Type 0} where
  abbrev pub entry : BoxNode D → Entry D
  entry n = (n.addr, n.item)

  abbrev pub entries : List (BoxNode D) → List (Entry D)
  entries = map entry

  -- A chain in which the entry `(h, d)` is seen between `xs` and `ys` has a node there.
  pub record At (ns : List (BoxNode D)) (xs ys : List (Entry D)) (h : ℕ) (d : D) : Type 0 where
    pub front : List (BoxNode D)
    pub node : BoxNode D
    pub back : List (BoxNode D)
    pub split : ns ≡ front ++ node ∷ back
    pub front-entries : entries front ≡ xs
    pub back-entries : entries back ≡ ys
    pub node-addr : node.addr ≡ h
    pub node-item : node.item ≡ d

  pub at :
      (ns : List (BoxNode D)) (xs ys : List (Entry D)) (h : ℕ) (d : D)
      → entries ns ≡ xs ++ (h, d) ∷ ys
      → At ns xs ys h d
  at [] [] ys h d e = cc
  at [] (x ∷ xs) ys h d e = cc
  at (n ∷ ns) [] ys h d e = record {
    front = [];
    node = n;
    back = ns;
    split = refl;
    front-entries = refl;
    back-entries = ground arith;
    node-addr = ground arith;
    node-item = ground arith;
  }
  at (n ∷ ns) (x ∷ xs) ys h d e =
      let rest = at ns xs ys h d (ground arith) in
      record {
        front = n ∷ rest.front;
        node = rest.node;
        back = rest.back;
        split = ap (λ l. n ∷ l) rest.split;
        front-entries = ground (arith, rest.front-entries);
        back-entries = rest.back-entries;
        node-addr = rest.node-addr;
        node-item = rest.node-item;
      }

  pub entries-append : (ms ns : List (BoxNode D)) → entries (ms ++ ns) ≡ entries ms ++ entries ns
  entries-append [] ns = refl
  entries-append (m ∷ ms) ns = ap (λ l. entry m ∷ l) (entries-append ms ns)

  -- No node before the one at hand has its address.
  abbrev pub Fresh : ℕ → List (BoxNode D) → Type 0
  Fresh a = All (λ n. n.addr ≢ a)

  pub find-append :
      (ms ns : List (BoxNode D)) (n : BoxNode D)
      → Fresh n.addr ms
      → find n.addr (ms ++ n ∷ ns) ≡ some n
  unfolding find
  find-append [] ns n h = ground arith
  find-append (m ∷ ms) ns n h = ground (arith, find-append ms ns n h.1)

  pub rest_of-append :
      (ms ns : List (BoxNode D)) (n : BoxNode D)
      → Fresh n.addr ms
      → rest_of n.addr (ms ++ n ∷ ns) ≡ ns
  unfolding rest_of
  rest_of-append [] ns n h = ground arith
  rest_of-append (m ∷ ms) ns n h = ground (arith, rest_of-append ms ns n h.1)

  pub set_next-append :
      (ms ns tail : List (BoxNode D)) (n : BoxNode D)
      → Fresh n.addr ms
      → set_next n.addr tail (ms ++ n ∷ ns) ≡ ms ++ n ∷ tail
  unfolding set_next
  set_next-append [] ns tail n h = ground arith
  set_next-append (m ∷ ms) ns tail n h = ground (arith, set_next-append ms ns tail n h.1)

  pub set_item-append :
      (ms ns : List (BoxNode D)) (n : BoxNode D) (d : D)
      → Fresh n.addr ms
      → set_item n.addr d (ms ++ n ∷ ns) ≡ ms ++ record n { item = d } ∷ ns
  unfolding set_item
  set_item-append [] ns n d h = ground arith
  set_item-append (m ∷ ms) ns n d h = ground (arith, set_item-append ms ns n d h.1)

  -- To prove something of an entry, prove it of a node between two stretches of the chain.
  pub by_node :
      (P : List (BoxNode D) → (xs ys : List (Entry D)) → ℕ → D → Type 0)
      → ((front back : List (BoxNode D)) (node : BoxNode D)
          → P (front ++ node ∷ back) (entries front) (entries back) node.addr node.item)
      → (ns : List (BoxNode D)) (xs ys : List (Entry D)) (h : ℕ) (d : D)
      → entries ns ≡ xs ++ (h, d) ∷ ys
      → P ns xs ys h d
  by_node P base ns xs ys h d e =
      let w = at ns xs ys h d e in
      transport
        (λ i.
          P (sym w.split i) (w.front-entries i) (w.back-entries i) (w.node-addr i) (w.node-item i))
        (base w.front w.back w.node)
