-- ===== src/Arena/Reposition.antt =====
-- `reposition` of `ArenaQueue` takes a node out of the list and links it in where its data belong.
use mathlib.Core.Option
use async_priority_lock_rs.Base.{
  ℕ, suc, ◌*◌, ◌/◌, ◌<◌, ◌≡◌, ◌≢◌, refl, sym, ap, ◌∙◌, subst, ◌⊎◌, Bool, true, false, Option, none,
  some, List, [], ◌∷◌, ◌++◌, arith, length, length-insert, head?, bind-some, All, lt,
}
use async_priority_lock_rs.Priority.{Priority}
use async_priority_lock_rs.Queue.Order.{Entry, Distinct, FirstFit}
use async_priority_lock_rs.Queue.Handles.{Distinct-insert}
use async_priority_lock_rs.Arena.{
  ArenaNode, ArenaQueue, sentinel, set_next, set_prev, insert, reposition,
}
use async_priority_lock_rs.Arena.Cells.{IsSize, flags, set_slot-id, offset-even, length-flags}
use async_priority_lock_rs.Arena.Chain.{
  first, last, PrevAt, Chain-single, Cell-aligned, first-append,
}
use async_priority_lock_rs.Arena.Pieces.{Apart, Pieces, Stepped, set_next-last, set_prev-first}
use async_priority_lock_rs.Arena.Owned.{Owned, Owned-map, has-moved, count}
use async_priority_lock_rs.Arena.Cut.{Inserted, cut_at, join_without, length-Pieces}
use async_priority_lock_rs.Arena.Insert.{insert-none, insert-some}
use async_priority_lock_rs.Arena.At.{old_at, Apart-at, onward-taken, mark_at}
use async_priority_lock_rs.Arena.Valid.{Holds, IsSlots, length-Holds}

module _ {D : Type 0} (dual : Bool) {size : ℕ} (s : IsSize size) (q : ArenaQueue D)
    (xs ys : List (Entry D)) (h : ℕ) (d : D) (w : Holds dual size q (xs ++ (h, d) ∷ ys)) where
  -- Linked in elsewhere, the entry still has its slot.
  pub moved-Holds :
      (us ws : List (Entry D)) (q' : ArenaQueue D) (e v : ℕ) (n : ArenaNode D)
      (t : Option (ArenaQueue D))
      → xs ++ ys ≡ us ++ ws
      → Pieces dual size (flags q.nodes) xs ys h q'.nodes e v n
      → q'.used ≡ q.used
      → q'.good ≡ q.good
      → (i : Inserted dual size q' h d us ws t)
      → Holds dual size (record q' { nodes = i.nodes; head = first h us }) (us ++ (h, d) ∷ ws)
  moved-Holds us ws q' e v n t eq k used good i =
      let others = Apart-at dual size q xs ys h d w in
      let same : flags i.nodes ≡ flags q.nodes =
        i.marks
        ∙ k.marks true
        ∙ set_slot-id (h / size) (flags q.nodes) true (mark_at dual s q xs ys h d w) in
      let len : length i.nodes ≡ length q.nodes =
        sym (length-flags i.nodes) ∙ ap length same ∙ length-flags q.nodes in
      record {
        chain = i.chain;
        front = sym (first-append sentinel us ((h, d) ∷ ws));
        distinct =
            Distinct-insert us ws (h, d) (subst Distinct eq others.distinct)
              (subst (All (λ x. h ≢ x.0)) eq others.fresh);
        owned =
            subst (λ fs. Owned size 0 fs (us ++ (h, d) ∷ ws)) (sym same)
              (Owned-map size 0 (flags q.nodes) (xs ++ (h, d) ∷ ys) (us ++ (h, d) ∷ ws)
                (λ k l. has-moved (k * size) xs ys us ws h d d eq) w.owned);
        counted = ap count same ∙ w.counted ∙ sym used;
        enough =
            length-insert us ws (h, d)
            ∙ ap (λ l. suc (length l)) (sym eq)
            ∙ sym (length-insert xs ys (h, d))
            ∙ w.enough
            ∙ sym used;
        good =
            subst (λ g. (length i.nodes ≡ 0) ⊎ (g < length i.nodes)) (sym good)
              (subst (λ l. (l ≡ 0) ⊎ (q.good < l)) (sym len) w.good);
        slots = subst IsSlots (sym len) w.slots;
      }

module _ {D : Type 0} (p : Priority D) {size : ℕ} (s : IsSize size) where
  -- What a repositioning makes of the block.
  pub record Refit (dual : Bool) (es : List (Entry D)) (h : ℕ) (d : D) (r : Option (ArenaQueue D))
      : Type 0 where
    pub queue : ArenaQueue D
    pub new : List (Entry D)
    pub run : r ≡ some queue
    pub holds : Holds dual size queue new
    pub fit : FirstFit p h d es new

  -- The back link of the node behind, if there is one, is written from the old node.
  back-link :
      (dual : Bool) (fs : List Bool) (xs ys : List (Entry D)) (h pv e : ℕ) (q : ArenaQueue D)
      (n : ArenaNode D)
      → Apart h (xs ++ ys)
      → Pieces dual size fs xs ys h q.nodes e h n
      → PrevAt dual (last sentinel xs) n
      → Stepped dual size fs xs ys h q
          (elim (Option.map (λ e. e.0) (head? ys)) [
            | none ↦ some q
            | some nxt ↦ set_prev size dual q nxt n.prev
          ])
          e
          (last sentinel xs)
          n
  back-link dual fs xs [] h pv e q n a k b = record {
    nodes = q.nodes;
    run = refl;
    pieces = record { left = k.left; middle = k.middle; right = tt; marks = k.marks };
  }
  back-link true fs xs (y ∷ ys) h pv e q n a k b =
      let t = set_prev-first true s fs h (last sentinel xs) xs ys y q e h n a k in
      record { nodes = t.nodes; run = ap (set_prev size true q y.0) b ∙ t.run; pieces = t.pieces }
  back-link false fs xs (y ∷ ys) h pv e q n a k b =
      let t = set_prev-first false s fs h n.prev xs ys y q e h n a k in
      record {
        nodes = t.nodes;
        run = t.run;
        pieces = record {
          left = t.pieces.left;
          middle = t.pieces.middle;
          right =
              Chain-single size t.nodes n.prev (last sentinel xs) sentinel (y ∷ ys) t.pieces.right;
          marks = t.pieces.marks;
        };
      }

  -- From behind another node.
  pub reposition-behind :
      (dual : Bool) (q : ArenaQueue D) (x : Entry D) (xs ys : List (Entry D)) (h : ℕ) (d : D)
      → Holds dual size q (x ∷ xs ++ (h, d) ∷ ys)
      → Refit dual
          (x ∷ xs ++ ys)
          h
          d
          (reposition p dual size q h (some (last x.0 xs)) (Option.map (λ e. e.0) (head? ys)))
  unfolding reposition
  reposition-behind dual q x xs ys h d w =
      let fs = flags q.nodes in
      let old = old_at dual size q (x ∷ xs) ys h d w in
      let a = Apart-at dual size q (x ∷ xs) ys h d w in
      let hx = (offset-even s h (Cell-aligned dual s q.nodes h _ _ d old)).1 in
      let t1 =
        set_next-last dual s fs h (first sentinel ys) x xs ys q h h old.content a hx
          (onward-taken dual s q (x ∷ xs) ys h d w)
          (cut_at dual size q.nodes (x ∷ xs) ys h d w.chain) in
      let q1 : ArenaQueue D = record q { nodes = t1.nodes } in
      let t2 =
        back-link dual fs (x ∷ xs) ys h 0 (first sentinel ys) q1 old.content a t1.pieces old.back in
      let q2 : ArenaQueue D = record q { nodes = t2.nodes } in
      let i =
        insert-none p dual s q2 h d old.content t2.pieces.middle old.filled (x ∷ xs ++ ys) a
          (join_without dual size fs t2.nodes (x ∷ xs) ys h old.content t2.pieces) w.front
          (omega (
            arith,
            length-Holds dual s q _ w,
            length-Pieces dual s q.nodes t2.nodes (x ∷ xs) ys h _ _ _ t2.pieces,
            length-insert (x ∷ xs) ys (h, d),
          )) in
      record {
        queue = record q2 { nodes = i.inserted.nodes; head = first h i.over };
        new = i.over ++ (h, d) ∷ i.rest;
        run = bind-some _ old.here (
            bind-some _ (ap (set_next size q (last x.0 xs)) old.onward ∙ t1.run)
              (bind-some _ t2.run i.inserted.run));
        holds =
            moved-Holds dual s q (x ∷ xs) ys h d w i.over i.rest q2 _ _ old.content _ i.split
              t2.pieces refl refl i.inserted;
        fit = record {
          before = i.over;
          later = i.rest;
          split = i.split;
          result = refl;
          above = i.above;
          stops = i.stops;
        };
      }

  -- From the head, to somewhere behind the next node.
  pub reposition-head :
      (dual : Bool) (q : ArenaQueue D) (y : Entry D) (ys : List (Entry D)) (h : ℕ) (d : D)
      → Holds dual size q ((h, d) ∷ y ∷ ys)
      → p.compare_new d y.1 ≡ lt
      → Refit dual (y ∷ ys) h d (reposition p dual size q h none (some y.0))
  unfolding reposition
  reposition-head dual q y ys h d w c =
      let fs = flags q.nodes in
      let old = old_at dual size q [] (y ∷ ys) h d w in
      let a = Apart-at dual size q [] (y ∷ ys) h d w in
      let k = cut_at dual size q.nodes [] (y ∷ ys) h d w.chain in
      let t =
        set_prev-first dual s fs h sentinel [] ys y q y.0 h old.content a
          (record { left = tt; middle = k.middle; right = k.right; marks = k.marks }) in
      let q1 : ArenaQueue D = record q { nodes = t.nodes; head = old.content.next } in
      let i =
        insert-some p dual s q1 h d old.content t.pieces.middle old.filled y [] ys a
          (join_without dual size fs t.nodes [] (y ∷ ys) h old.content t.pieces) old.onward
          (omega (
            arith,
            length-Holds dual s q _ w,
            length-Pieces dual s q.nodes t.nodes [] (y ∷ ys) h _ _ _ t.pieces,
          )) in
      record {
        queue = record q1 { nodes = i.inserted.nodes; head = y.0 };
        new = y ∷ i.over ++ (h, d) ∷ i.rest;
        run = bind-some _ old.here (
            bind-some _ t.run
              (ap (λ k. insert p dual size q1 h (some k)) old.onward ∙ i.inserted.run));
        holds =
            moved-Holds dual s q [] (y ∷ ys) h d w (y ∷ i.over) i.rest q1 _ _ old.content _
              (ap (λ l. y ∷ l) i.split) t.pieces refl refl i.inserted;
        fit = record {
          before = y ∷ i.over;
          later = i.rest;
          split = ap (λ l. y ∷ l) i.split;
          result = refl;
          above = (rw c refl, i.above);
          stops = i.stops;
        };
      }
