-- ===== src/Arena/Trait/Taken.antt =====
-- `dequeue` of `ArenaQueue` at the head and behind it.
use mathlib.Core.Option
use async_priority_lock_rs.Base.{
  ℕ, ◌-◌, ◌/◌, ◌≡◌, refl, sym, ap, ◌∙◌, Bool, true, false, not, ◌&&◌, none, some, List, [], ◌∷◌,
  ◌++◌, arith, if◌then◌else◌, ◌==◌, head?, All-append_right, bind-some,
}
use async_priority_lock_rs.Queue.Order.{Entry}
use async_priority_lock_rs.Arena.{ArenaQueue, sentinel, set_slot, set_next, set_prev}
use async_priority_lock_rs.Arena.Cells.{IsSize, flags, write_lem, offset-even}
use async_priority_lock_rs.Arena.Chain.{first, last, Chain-right, Cell, Cell-aligned, first-taken}
use async_priority_lock_rs.Arena.Pieces.{put_middle, set_next-last}
use async_priority_lock_rs.Arena.Cut.{cut_at}
use async_priority_lock_rs.Arena.At.{old_at, Apart-at}
use async_priority_lock_rs.Arena.Valid.{Holds}
use async_priority_lock_rs.Arena.Trait.{maybe_new, dequeue}
use async_priority_lock_rs.Arena.Trait.Read.{maybe_new-first, last-data}
use async_priority_lock_rs.Arena.Trait.Dequeue.{
  emptied, Bypassed, bypass, prev_for-emptied, Taken, given-Holds,
}

module _ {D : Type 0} (dual : Bool) {size : ℕ} (s : IsSize size) (q : ArenaQueue D) where
  -- The node of the entry, and the queue with that node emptied.
  module _ (xs ys : List (Entry D)) (h : ℕ) (d : D)
      (w : Holds dual size q (xs ++ (h, d) ∷ ys)) where
    emptied_queue : ArenaQueue D
    emptied_queue = record q {
      nodes = set_slot (h / size) emptied q.nodes;
      good = h / size;
      used = q.used - 1;
    }

    old : Cell dual size q.nodes h (first sentinel ys) (last sentinel xs) d
    old = old_at dual size q xs ys h d w

    -- Up to the node before.
    bypassed :
        Bypassed s dual
          (flags q.nodes)
          xs
          ys
          h
          emptied_queue
          (if dual && not (old.content.next == sentinel)
            then set_prev size dual emptied_queue old.content.next old.content.prev
            else some emptied_queue)
          (emptied old.content)
    unfolding emptied_queue old
    bypassed =
        bypass s dual (flags q.nodes) xs ys h old.content.next emptied_queue (emptied old.content)
          old.content (Apart-at dual size q xs ys h d w)
          (put_middle dual s (flags q.nodes) h xs ys emptied q.nodes h h old.content
            (Apart-at dual size q xs ys h d w) (cut_at dual size q.nodes xs ys h d w.chain))
          old.onward old.back

    handle-after : maybe_new old.content.next ≡ Option.map (λ e. e.0) (head? ys)
    unfolding old
    handle-after =
        ap maybe_new old.onward
        ∙ maybe_new-first dual s q.nodes h ys
            (Chain-right dual size q.nodes sentinel sentinel xs ((h, d) ∷ ys) w.chain).1

  dequeue-head :
      (ys : List (Entry D)) (h : ℕ) (d : D)
      → Holds dual size q ((h, d) ∷ ys)
      → Taken s dual [] ys (dequeue dual size q h)
  unfolding dequeue emptied_queue old
  dequeue-head ys h d w =
      let old = old_at dual size q [] ys h d w in
      let b = bypassed [] ys h d w in
      let k = b.pieces in
      let q2 : ArenaQueue D = record (emptied_queue [] ys h d w) { nodes = b.nodes } in
      let at_head : (h == q.head) ≡ true = ground (arith, w.front) in
      record {
        queue = record q2 { head = old.content.next };
        run = bind-some _ old.here (
            bind-some _ (write_lem s _ h emptied old.content old.here) (
              bind-some _ b.run (
                rw at_head (
                  ap (λ a. some (record q2 { head = old.content.next }, none, a))
                    (handle-after [] ys h d w)))));
        holds =
            given-Holds s dual q [] ys h d w _ (emptied old.content)
              (record { left = tt; middle = k.middle; right = k.right; marks = k.marks }) refl
              old.onward refl refl;
      }

  dequeue-behind :
      (x : Entry D) (xs ys : List (Entry D)) (h : ℕ) (d : D)
      → Holds dual size q (x ∷ xs ++ (h, d) ∷ ys)
      → Taken s dual (x ∷ xs) ys (dequeue dual size q h)
  unfolding dequeue emptied_queue old
  dequeue-behind x xs ys h d w =
      let old = old_at dual size q (x ∷ xs) ys h d w in
      let b = bypassed (x ∷ xs) ys h d w in
      let q2 : ArenaQueue D = record (emptied_queue (x ∷ xs) ys h d w) { nodes = b.nodes } in
      let differ = (All-append_right _ xs ((h, d) ∷ ys) w.distinct.0).0 in
      let not_head : (h == q.head) ≡ false = ground (arith, w.front, differ) in
      let nx =
        first-taken dual s q.nodes h sentinel ys
          (Chain-right dual size q.nodes sentinel sentinel (x ∷ xs) ((h, d) ∷ ys) w.chain).1
          (omega arith) in
      let hx = (offset-even s h (Cell-aligned dual s q.nodes h _ _ d old)).1 in
      let k =
        set_next-last dual s (flags q.nodes) h (first sentinel ys) x xs ys q2 h _ _
          (Apart-at dual size q (x ∷ xs) ys h d w) hx nx b.pieces in
      let q3 : ArenaQueue D = record q2 { nodes = k.nodes } in
      let t = last-data dual s q3 sentinel _ x xs k.pieces.left in
      record {
        queue = q3;
        run = bind-some _ old.here (
            bind-some _ (write_lem s _ h emptied old.content old.here) (
              bind-some _ b.run (
                rw not_head (
                  bind-some _ (prev_for-emptied s dual q q2 x xs ys h d w b.single) (
                    bind-some _ (ap (set_next size q2 (last x.0 xs)) old.onward ∙ k.run) (
                      bind-some _ t.1
                        (λ i. some (q3, sym t.2 i, handle-after (x ∷ xs) ys h d w i))))))));
        holds =
            given-Holds s dual q (x ∷ xs) ys h d w q3 (emptied old.content) k.pieces refl w.front
              refl refl;
      }

  -- `dequeue` of any entry.
  pub dequeue-Taken :
      (xs ys : List (Entry D)) (h : ℕ) (d : D)
      → Holds dual size q (xs ++ (h, d) ∷ ys)
      → Taken s dual xs ys (dequeue dual size q h)
  dequeue-Taken [] ys h d w = dequeue-head ys h d w
  dequeue-Taken (x ∷ xs) ys h d w = dequeue-behind x xs ys h d w
