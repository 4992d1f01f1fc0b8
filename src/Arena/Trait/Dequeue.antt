-- ===== src/Arena/Trait/Dequeue.antt =====
-- `dequeue` of `ArenaQueue` takes one entry out of the list and gives its slot back.
use mathlib.Core.Option
use native.Mathlib.Nat.{div-add-mod'}
use async_priority_lock_rs.Base.{
  ℕ, ◌+◌, ◌-◌, ◌*◌, ◌/◌, ◌<◌, ◌≡◌, ◌≢◌, refl, sym, ap, ◌∙◌, subst, inr, Bool, true, false, not,
  ◌&&◌, Option, none, some, List, [], ◌∷◌, ◌++◌, arith, if◌then◌else◌, ◌==◌, length, length-insert,
  head?, last?, All, All-append_right,
}
use async_priority_lock_rs.Queue.Order.{Entry}
use async_priority_lock_rs.Queue.Handles.{Distinct-remove, Distinct-apart}
use async_priority_lock_rs.Arena.{
  ArenaNode, ArenaQueue, sentinel, unallocated, set_slot, set_prev, pointing_to, prev_for,
}
use async_priority_lock_rs.Arena.Cells.{
  IsSize, flags, flag-free, cell-slot, slot-bound, length-flags, length-set_slot, offset-even,
}
use async_priority_lock_rs.Arena.Chain.{first, last, Chain-single, PrevAt, not_sentinel}
use async_priority_lock_rs.Arena.Pieces.{Apart, Pieces, set_prev-first}
use async_priority_lock_rs.Arena.Owned.{Owned, Owned-give, count, count-give}
use async_priority_lock_rs.Arena.Cut.{node_at, join_without, marks-done}
use async_priority_lock_rs.Arena.Prev.{pointing_to-put, prev_for_lem}
use async_priority_lock_rs.Arena.At.{mark_at}
use async_priority_lock_rs.Arena.Valid.{Holds, IsSlots}

module _ {D : Type 0} where
  first-ne :
      (h : ℕ) (ys : List (Entry D)) → h ≢ sentinel → All (λ y. h ≢ y.0) ys → first sentinel ys ≢ h
  first-ne h [] n a e = n (sym e)
  first-ne h (y ∷ ys) n a e = a.0 (sym e)

  -- What `dequeue` writes into the node.
  abbrev pub emptied : ArenaNode D → ArenaNode D
  emptied n = record n { next = unallocated; item = none }

module _ {D : Type 0} {size : ℕ} (s : IsSize size) where
  -- The node behind is told of the one before; nothing is written in a single linked queue.
  pub record Bypassed (dual : Bool) (fs : List Bool) (xs ys : List (Entry D)) (h : ℕ)
      (q : ArenaQueue D) (r : Option (ArenaQueue D)) (n : ArenaNode D) : Type 0 where
    pub nodes : List (ArenaNode D)
    pub run : r ≡ some (record q { nodes = nodes })
    pub pieces : Pieces dual size fs xs ys h nodes h (last sentinel xs) n
    pub single : dual ≡ false → nodes ≡ q.nodes

  pub bypass :
      (dual : Bool) (fs : List Bool) (xs ys : List (Entry D)) (h nx : ℕ) (q : ArenaQueue D)
      (n old : ArenaNode D)
      → Apart h (xs ++ ys)
      → Pieces dual size fs xs ys h q.nodes h h n
      → nx ≡ first sentinel ys
      → PrevAt dual (last sentinel xs) old
      → Bypassed dual fs xs ys h q
          (if dual && not (nx == sentinel) then set_prev size dual q nx old.prev else some q)
          n
  bypass true fs xs [] h nx q n old a w e b = record {
    nodes = q.nodes;
    run = rw e refl;
    pieces = record { left = w.left; middle = w.middle; right = tt; marks = w.marks };
    single = λ e. cc;
  }
  bypass true fs xs (y ∷ ys) h nx q n old a w e b =
      let k = set_prev-first true s fs h (last sentinel xs) xs ys y q h h n a w in
      record {
        nodes = k.nodes;
        run = rw (e, not_sentinel true s q.nodes h sentinel y ys w.right, b) k.run;
        pieces = k.pieces;
        single = λ e. cc;
      }
  bypass false fs xs ys h nx q n old a w e b = record {
    nodes = q.nodes;
    run = refl;
    pieces = record {
      left = w.left;
      middle = w.middle;
      right = Chain-single size q.nodes h (last sentinel xs) sentinel ys w.right;
      marks = w.marks;
    };
    single = λ e. refl;
  }

  -- The node before is still found when the node itself is emptied.
  pub prev_for-emptied :
      (dual : Bool) (q q2 : ArenaQueue D) (x : Entry D) (xs ys : List (Entry D)) (h : ℕ) (d : D)
      (w : Holds dual size q (x ∷ xs ++ (h, d) ∷ ys))
      → (dual ≡ false → q2.nodes ≡ set_slot (h / size) emptied q.nodes)
      → prev_for size dual q2 (node_at dual size q.nodes (x ∷ xs) ys h d w.chain).content h
        ≡ some (last x.0 xs)
  unfolding prev_for
  prev_for-emptied true q q2 x xs ys h d w same =
      ap some (node_at true size q.nodes (x ∷ xs) ys h d w.chain).back
  prev_for-emptied false q q2 x xs ys h d w same =
      let old = node_at false size q.nodes (x ∷ xs) ys h d w.chain in
      let (al, here) = cell-slot s h q.nodes old.content old.here in
      let (ns, nu) = offset-even s h al in
      let apart = Distinct-apart (x ∷ xs) ys (h, d) w.distinct in
      let f = Option.map (λ i. i * size) in
      ap (λ ns. f (pointing_to h 0 ns)) (same refl)
      ∙ ap f (
          pointing_to-put h 0 (h / size) emptied q.nodes old.content here
            (λ e. first-ne h ys ns (All-append_right _ (x ∷ xs) ys apart) (sym old.onward ∙ e))
            (λ e. nu (sym e)))
      ∙ prev_for_lem s false q old.content x xs ys h d w.chain w.distinct w.owned tt

  -- What `dequeue` does to a block that holds the entry.
  pub record Taken (dual : Bool) (xs ys : List (Entry D))
      (r : Option (ArenaQueue D × Option D × Option ℕ)) : Type 0 where
    pub queue : ArenaQueue D
    pub run : r ≡ some (queue, Option.map (λ e. e.1) (last? xs), Option.map (λ e. e.0) (head? ys))
    pub holds : Holds dual size queue (xs ++ ys)

  module _ (dual : Bool) (q : ArenaQueue D) (xs ys : List (Entry D)) (h : ℕ) (d : D)
      (w : Holds dual size q (xs ++ (h, d) ∷ ys)) where
    -- The slot is free and the rest is linked up.
    pub given-Holds :
        (q' : ArenaQueue D) (n : ArenaNode D)
        → Pieces dual size (flags q.nodes) xs ys h q'.nodes (first sentinel ys) (last sentinel xs) n
        → n.next ≡ unallocated
        → q'.head ≡ first sentinel (xs ++ ys)
        → q'.used ≡ q.used - 1
        → q'.good ≡ h / size
        → Holds dual size q' (xs ++ ys)
    given-Holds q' n k free front used good =
        let old = node_at dual size q.nodes xs ys h d w.chain in
        let (al, here) = cell-slot s h q.nodes old.content old.here in
        let back : (0 + h / size) * size ≡ h =
          subst (λ k. k * size ≡ h) {x = h / size} (omega arith)
            (omega (arith, al, div-add-mod' h size)) in
        let mark = mark_at dual s q xs ys h d w in
        let gone =
          marks-done dual s (flags q.nodes) q'.nodes xs ys h _ _ n false k (flag-free n free) in
        let len : length q'.nodes ≡ length q.nodes =
          sym (length-flags q'.nodes)
          ∙ ap length gone
          ∙ length-set_slot (h / size) (λ _. false) (flags q.nodes)
          ∙ length-flags q.nodes in
        record {
          chain = join_without dual size (flags q.nodes) q'.nodes xs ys h n k;
          front = front;
          distinct = Distinct-remove xs ys (h, d) w.distinct;
          owned =
              subst (λ fs. Owned size 0 fs (xs ++ ys)) (sym gone)
                (Owned-give s 0 (h / size) (flags q.nodes) xs ys (h, d) (sym back) w.owned);
          counted =
              omega
                (arith, ap count gone, count-give (h / size) (flags q.nodes) mark, w.counted, used);
          enough = omega (arith, length-insert xs ys (h, d), w.enough, used);
          good = inr (
              subst (λ k. k < length q'.nodes) (sym good)
                (subst (λ l. h / size < l) (sym len)
                  (slot-bound (h / size) q.nodes old.content here)));
          slots = subst IsSlots (sym len) w.slots;
        }
