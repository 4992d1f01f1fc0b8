-- ===== src/Arena/Insert.antt =====
-- `insert` of `ArenaQueue` links a node in at the first place where it fits, from the head on or from
-- behind a node.
use mathlib.Core.List.{append_assoc}
use async_priority_lock_rs.Base.{
  ℕ, zero, suc, ◌<◌, ◌≤◌, ◌≡◌, refl, sym, ap, ◌∙◌, subst, inl, inr, Bool, true, Option, none, some,
  List, [], ◌∷◌, ◌++◌, arith, length, ◌>>=◌, bind-some, Bool-cases, All,
}
use async_priority_lock_rs.Priority.{Priority, is_ge, is_lt}
use async_priority_lock_rs.Queue.Order.{Entry, Stops}
use async_priority_lock_rs.Arena.{
  ArenaNode, ArenaQueue, sentinel, node, set_next, set_prev, walk, insert_behind, insert, data_at,
}
use async_priority_lock_rs.Arena.Cells.{IsSize, data_at_lem, offset-even, cell-slot}
use async_priority_lock_rs.Arena.Chain.{
  first, last, last-cell, last-append, Chain, Chain-right, Chain-left,
}
use async_priority_lock_rs.Arena.Pieces.{Apart}
use async_priority_lock_rs.Arena.Cut.{prev_first, Inserted}
use async_priority_lock_rs.Arena.Links.{link-head, link-insert}

module _ {D : Type 0} (p : Priority D) (dual : Bool) {size : ℕ} (s : IsSize size) where
  -- Where the loop has stopped.
  record Walked (q : ArenaQueue D) (d : D) (b : ℕ) (ys : List (Entry D)) (o : ℕ)
      (r : Option (ArenaQueue D × ℕ)) : Type 0 where
    over : List (Entry D)
    rest : List (Entry D)
    split : ys ≡ over ++ rest
    above : All (λ e. is_lt (p.compare_new d e.1) ≡ true) over
    stops : Stops p d rest
    run : r ≡ (prev_first dual size q rest o >>= λ q'. some (q', last b over))

  walk_lem :
      (fuel : ℕ) (q : ArenaQueue D) (d : D) (o b : ℕ) (n : ArenaNode D) (ys : List (Entry D))
      → node size q b ≡ some n
      → n.next ≡ first sentinel ys
      → Chain dual size q.nodes b sentinel ys
      → length ys < fuel
      → Walked q d b ys o (walk p dual size fuel q d o b)
  unfolding walk
  walk_lem zero q d o b n ys e h c l = absurd (omega arith)
  walk_lem (suc fuel) q d o b n [] e h c l = record {
    over = [];
    rest = [];
    split = refl;
    above = tt;
    stops = tt;
    run = ground arith;
  }
  walk_lem (suc fuel) q d o b n (y ∷ ys) e h c l =
      let (ne, _) = offset-even s y.0 (cell-slot s y.0 q.nodes c.0.content c.0.here).0 in
      let dat = data_at_lem s q y.0 c.0.content y.1 c.0.here c.0.filled in
      elim (Bool-cases (is_ge (p.compare_new d y.1))) [
        | inl t ↦ record {
          over = [];
          rest = y ∷ ys;
          split = refl;
          above = tt;
          stops = t;
          run = rw (e, h) (ground (arith, dat));
        }
        | inr f ↦
            let w = walk_lem fuel q d o y.0 c.0.content ys c.0.here c.0.onward c.1 (omega arith) in
            record {
              over = y ∷ w.over;
              rest = w.rest;
              split = ap (λ l. y ∷ l) w.split;
              above = (ground arith, w.above);
              stops = w.stops;
              run = rw (e, h) (ground (arith, dat, w.run));
            }
      ]

  -- The node at `o` is linked in behind `front`, at the first place in `ys` where it fits.
  pub record Placed (q : ArenaQueue D) (o : ℕ) (d : D) (front ys : List (Entry D))
      (r : Option (ArenaQueue D)) : Type 0 where
    pub over : List (Entry D)
    pub rest : List (Entry D)
    pub split : ys ≡ over ++ rest
    pub above : All (λ e. is_lt (p.compare_new d e.1) ≡ true) over
    pub stops : Stops p d rest
    pub inserted : Inserted dual size q o d (front ++ over) rest r

  bind_assoc :
      (m : Option (ArenaQueue D)) (k : ℕ) (f : ArenaQueue D × ℕ → Option (ArenaQueue D))
      → ((m >>= λ q. some (q, k)) >>= f) ≡ (m >>= λ q. f (q, k))
  bind_assoc none k f = refl
  bind_assoc (some q) k f = refl

  module _ (q : ArenaQueue D) (o : ℕ) (d : D) (n : ArenaNode D) (e : node size q o ≡ some n)
      (g : n.item ≡ some d) where
    insert_behind-Placed :
        (x : Entry D) (xs ys : List (Entry D))
        → Apart o (x ∷ xs ++ ys)
        → Chain dual size q.nodes sentinel sentinel (x ∷ xs ++ ys)
        → q.head ≡ x.0
        → length ys < length q.nodes
        → Placed q o d (x ∷ xs) ys (insert_behind p dual size q d o (last x.0 xs))
    unfolding insert_behind
    insert_behind-Placed x xs ys a c h l =
        let left = Chain-left dual size q.nodes sentinel sentinel (x ∷ xs) ys c in
        let right = Chain-right dual size q.nodes sentinel sentinel (x ∷ xs) ys c in
        let b = last-cell dual s q.nodes sentinel (first sentinel ys) x xs left in
        let w = walk_lem (length q.nodes) q d o (last x.0 xs) b.0 ys b.1 b.2 right l in
        let f : ArenaQueue D × ℕ → Option (ArenaQueue D) = λ r. node size r.0 r.1 >>= λ prev.
        set_next size r.0 o prev.next >>= λ q1.
        set_prev size dual q1 o r.1 >>= λ q2. set_next size q2 r.1 o in
        let whole : xs ++ ys ≡ (xs ++ w.over) ++ w.rest =
          ap (λ l. xs ++ l) w.split ∙ sym (append_assoc xs w.over w.rest) in
        let i =
          link-insert dual s q o d n e g x (xs ++ w.over) w.rest
            (subst (λ l. Apart o (x ∷ l)) whole a)
            (subst (λ l. Chain dual size q.nodes sentinel sentinel (x ∷ l)) whole c) h in
        record {
          over = w.over;
          rest = w.rest;
          split = w.split;
          above = w.above;
          stops = w.stops;
          inserted = record {
            nodes = i.nodes;
            run =
                ap (λ r. r >>= f) w.run
                ∙ bind_assoc (prev_first dual size q w.rest o) (last (last x.0 xs) w.over) f
                ∙ ap (λ k. prev_first dual size q w.rest o >>= λ q0. f (q0, k))
                    (sym (last-append x.0 xs w.over))
                ∙ i.run;
            chain = i.chain;
            marks = i.marks;
          };
        }

    insert-data :
        (r : Option (ArenaQueue D)) (f : D → Option (ArenaQueue D)) (xs ys : List (Entry D))
        → f d ≡ r
        → Inserted dual size q o d xs ys r
        → Inserted dual size q o d xs ys (data_at size q o >>= f)
    insert-data r f xs ys h i = record {
      nodes = i.nodes;
      run = bind-some f (data_at_lem s q o n d e g) (h ∙ i.run);
      chain = i.chain;
      marks = i.marks;
    }

    -- From behind a node.
    pub insert-some :
        (x : Entry D) (xs ys : List (Entry D))
        → Apart o (x ∷ xs ++ ys)
        → Chain dual size q.nodes sentinel sentinel (x ∷ xs ++ ys)
        → q.head ≡ x.0
        → length ys < length q.nodes
        → Placed q o d (x ∷ xs) ys (insert p dual size q o (some (last x.0 xs)))
    unfolding insert
    insert-some x xs ys a c h l =
        let w = insert_behind-Placed x xs ys a c h l in
        record {
          over = w.over;
          rest = w.rest;
          split = w.split;
          above = w.above;
          stops = w.stops;
          inserted = insert-data _ _ (x ∷ xs ++ w.over) w.rest refl w.inserted;
        }

    -- From the head on.
    pub insert-none :
        (es : List (Entry D))
        → Apart o es
        → Chain dual size q.nodes sentinel sentinel es
        → q.head ≡ first sentinel es
        → length es ≤ length q.nodes
        → Placed q o d [] es (insert p dual size q o none)
    unfolding insert
    insert-none [] a c h l = record {
      over = [];
      rest = [];
      split = refl;
      above = tt;
      stops = tt;
      inserted = insert-data _ _ [] [] (rw h refl) (link-head dual s q o d n e g [] a c);
    }
    insert-none (y ∷ ys) a c h l =
        let (ne, _) = offset-even s y.0 (cell-slot s y.0 q.nodes c.0.content c.0.here).0 in
        let dat = data_at_lem s q y.0 c.0.content y.1 c.0.here c.0.filled in
        elim (Bool-cases (is_ge (p.compare_new d y.1))) [
          | inl t ↦ record {
            over = [];
            rest = y ∷ ys;
            split = refl;
            above = tt;
            stops = t;
            inserted =
                insert-data _ _ [] (y ∷ ys) (rw h (ground (arith, dat)))
                  (link-head dual s q o d n e g (y ∷ ys) a c);
          }
          | inr f ↦
              let w = insert_behind-Placed y [] ys a c h l in
              record {
                over = y ∷ w.over;
                rest = w.rest;
                split = ap (λ l. y ∷ l) w.split;
                above = (ground arith, w.above);
                stops = w.stops;
                inserted =
                    insert-data _ _ (y ∷ w.over) w.rest (rw h (ground (arith, dat))) w.inserted;
              }
        ]
