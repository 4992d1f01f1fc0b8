-- ===== src/Arena/Cut.antt =====
-- The list in the block of an `ArenaQueue` is cut around a node, and put together with it or
-- without it; and a new node's links, in the orders in which the code writes them.
use async_priority_lock_rs.Base.{
  ℕ, ◌/◌, ◌≡◌, ◌≢◌, refl, sym, ap, ◌∙◌, subst, Bool, true, Option, some, List, [], ◌∷◌, ◌++◌, arith,
  length, if◌then◌else◌,
}
use async_priority_lock_rs.Queue.Order.{Entry}
use async_priority_lock_rs.Arena.{
  ArenaNode, ArenaQueue, sentinel, unallocated, set_slot, cell, set_prev,
}
use async_priority_lock_rs.Arena.Cells.{
  IsSize, flag, flags, cell-slot, flag-taken, set_slot-id, slot-flags, length-flags,
  length-set_slot,
}
use async_priority_lock_rs.Arena.Chain.{
  first, last, Chain, Cell, Chain-append, Chain-left, Chain-right, PrevAt, PrevAt-set,
  next-set_prev, item-set_prev, first-taken,
}
use async_priority_lock_rs.Arena.Pieces.{Apart, Pieces, Stepped, set_prev-first}

module _ {D : Type 0} (dual : Bool) (size : ℕ) where
  pub cut :
      (ns : List (ArenaNode D)) (xs ys : List (Entry D)) (o : ℕ) (n : ArenaNode D)
      → Chain dual size ns sentinel sentinel (xs ++ ys)
      → cell size o ns ≡ some n
      → Pieces dual size (flags ns) xs ys o ns (first sentinel ys) (last sentinel xs) n
  cut ns xs ys o n c e = record {
    left = Chain-left dual size ns sentinel sentinel xs ys c;
    middle = e;
    right = Chain-right dual size ns sentinel sentinel xs ys c;
    marks = λ b. refl;
  }

  -- The node that the list has there.
  pub node_at :
      (ns : List (ArenaNode D)) (xs ys : List (Entry D)) (o : ℕ) (d : D)
      → Chain dual size ns sentinel sentinel (xs ++ (o, d) ∷ ys)
      → Cell dual size ns o (first sentinel ys) (last sentinel xs) d
  node_at ns xs ys o d c = (Chain-right dual size ns sentinel sentinel xs ((o, d) ∷ ys) c).0

  pub cut_at :
      (ns : List (ArenaNode D)) (xs ys : List (Entry D)) (o : ℕ) (d : D)
      (c : Chain dual size ns sentinel sentinel (xs ++ (o, d) ∷ ys))
      → Pieces dual size (flags ns) xs ys o ns o o (node_at ns xs ys o d c).content
  cut_at ns xs ys o d c = record {
    left = Chain-left dual size ns sentinel sentinel xs ((o, d) ∷ ys) c;
    middle = (node_at ns xs ys o d c).here;
    right = (Chain-right dual size ns sentinel sentinel xs ((o, d) ∷ ys) c).1;
    marks = λ b. refl;
  }

  pub join_without :
      (fs : List Bool) (ns : List (ArenaNode D)) (xs ys : List (Entry D)) (o : ℕ) (n : ArenaNode D)
      → Pieces dual size fs xs ys o ns (first sentinel ys) (last sentinel xs) n
      → Chain dual size ns sentinel sentinel (xs ++ ys)
  join_without fs ns xs ys o n w = Chain-append dual size ns sentinel sentinel xs ys w.left w.right

  pub join_with :
      (fs : List Bool) (ns : List (ArenaNode D)) (xs ys : List (Entry D)) (o : ℕ) (d : D)
      (n : ArenaNode D)
      → Pieces dual size fs xs ys o ns o o n
      → n.next ≡ first sentinel ys
      → n.item ≡ some d
      → PrevAt dual (last sentinel xs) n
      → Chain dual size ns sentinel sentinel (xs ++ (o, d) ∷ ys)
  join_with fs ns xs ys o d n w a b c =
      Chain-append dual size ns sentinel sentinel xs ((o, d) ∷ ys) w.left
        (record { content = n; here = w.middle; onward = a; filled = b; back = c }, w.right)

  -- `set_prev` of the first node of a stretch, if there is one.
  abbrev pub prev_first : ArenaQueue D → List (Entry D) → ℕ → Option (ArenaQueue D)
  prev_first q [] v = some q
  prev_first q (y ∷ ys) v = set_prev size dual q y.0 v

  -- What the code makes of the queue `q` by linking the node at `o` in between `xs` and `ys`.
  pub record Inserted (q : ArenaQueue D) (o : ℕ) (d : D) (xs ys : List (Entry D))
      (r : Option (ArenaQueue D)) : Type 0 where
    pub nodes : List (ArenaNode D)
    pub run : r ≡ some (record q { nodes = nodes; head = first o xs })
    pub chain : Chain dual size nodes sentinel sentinel (xs ++ (o, d) ∷ ys)
    pub marks : flags nodes ≡ set_slot (o / size) (λ _. true) (flags q.nodes)

module _ {D : Type 0} (dual : Bool) {size : ℕ} (s : IsSize size) where
  pub marks-done :
      (fs : List Bool) (ns : List (ArenaNode D)) (xs ys : List (Entry D)) (o e v : ℕ)
      (n : ArenaNode D) (b : Bool)
      → Pieces dual size fs xs ys o ns e v n
      → flag n ≡ b
      → flags ns ≡ set_slot (o / size) (λ _. b) fs
  marks-done fs ns xs ys o e v n b w g =
      sym (
        set_slot-id (o / size) (flags ns) b
          (slot-flags (o / size) ns n (cell-slot s o ns n w.middle).1 ∙ ap some g))
      ∙ w.marks b

  -- The number of slots stays.
  pub length-Pieces :
      (ms ns : List (ArenaNode D)) (xs ys : List (Entry D)) (o e v : ℕ) (n : ArenaNode D)
      → Pieces dual size (flags ms) xs ys o ns e v n
      → length ns ≡ length ms
  length-Pieces ms ns xs ys o e v n w =
      sym (length-flags ns)
      ∙ sym (length-set_slot (o / size) (λ _. true) (flags ns))
      ∙ ap length (w.marks true)
      ∙ length-set_slot (o / size) (λ _. true) (flags ms)
      ∙ length-flags ms

  pub prev_first-Stepped :
      (fs : List Bool) (o v' : ℕ) (xs ys : List (Entry D)) (q : ArenaQueue D) (e v : ℕ)
      (n : ArenaNode D)
      → Apart o (xs ++ ys)
      → Pieces dual size fs xs ys o q.nodes e v n
      → Stepped dual size fs xs ys o q (prev_first dual size q ys v') e v' n
  prev_first-Stepped fs o v' xs [] q e v n a w = record {
    nodes = q.nodes;
    run = refl;
    pieces = record { left = w.left; middle = w.middle; right = tt; marks = w.marks };
  }
  prev_first-Stepped fs o v' xs (y ∷ ys) q e v n a w =
      set_prev-first dual s fs o v' xs ys y q e v n a w

  -- The node in the middle has its two links.
  abbrev pub linked_node : (n : ArenaNode D) (nx pv : ℕ) → ArenaNode D
  linked_node n nx pv =
      if dual then record (record n { next = nx }) { prev = pv } else record n { next = nx }

  module _ (q : ArenaQueue D) (o : ℕ) (d : D) (xs ys : List (Entry D)) (n : ArenaNode D)
      (a : Apart o (xs ++ ys)) (c : Chain dual size q.nodes sentinel sentinel (xs ++ ys))
      (e : cell size o q.nodes ≡ some n) (g : n.item ≡ some d) where
    -- With all links written.
    pub all-linked :
        (ns : List (ArenaNode D)) (r : Option (ArenaQueue D))
        → Pieces dual size
            (flags q.nodes)
            xs
            ys
            o
            ns
            o
            o
            (linked_node n (first sentinel ys) (last sentinel xs))
        → r ≡ some (record q { nodes = ns; head = first o xs })
        → Inserted dual size q o d xs ys r
    all-linked ns r w h =
        let m = record n { next = first sentinel ys } in
        let onward = next-set_prev dual (last sentinel xs) m in
        record {
          nodes = ns;
          run = h;
          chain =
              join_with dual size (flags q.nodes) ns xs ys o d _ w onward
                (item-set_prev dual (last sentinel xs) m ∙ g)
                (PrevAt-set dual (last sentinel xs) m);
          marks = marks-done (flags q.nodes) ns xs ys o o o _ true w (
              flag-taken _ (
                subst (λ k. k ≢ unallocated) (sym onward)
                  (first-taken dual s q.nodes (last sentinel xs) sentinel ys
                    (Chain-right dual size q.nodes sentinel sentinel xs ys c) (omega arith))));
        }
