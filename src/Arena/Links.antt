-- ===== src/Arena/Links.antt =====
-- A new node's links in an `ArenaQueue`, in the orders in which `insert` and `enqueue` write them.
use async_priority_lock_rs.Base.{
  ℕ, ◌≡◌, ◌≢◌, refl, ap, ◌∙◌, Bool, Option, some, List, [], ◌∷◌, ◌++◌, arith, ◌>>=◌, bind-some,
}
use async_priority_lock_rs.Queue.Order.{Entry}
use async_priority_lock_rs.Arena.{
  ArenaNode, ArenaQueue, sentinel, unallocated, cell, node, set_next, set_prev,
}
use async_priority_lock_rs.Arena.Cells.{IsSize, flags, offset-even, cell-slot}
use async_priority_lock_rs.Arena.Chain.{first, last, last-cell, Chain, Chain-right, first-taken}
use async_priority_lock_rs.Arena.Pieces.{Apart, set_next-middle, set_prev-middle, set_next-last}
use async_priority_lock_rs.Arena.Cut.{cut, prev_first, prev_first-Stepped, Inserted, all-linked}

module _ {D : Type 0} (dual : Bool) {size : ℕ} (s : IsSize size) (q : ArenaQueue D) (o : ℕ) (d : D)
    (n : ArenaNode D) (e : cell size o q.nodes ≡ some n) (g : n.item ≡ some d) where
  -- At the head.
  pub link-head :
      (ys : List (Entry D))
      → Apart o ys
      → Chain dual size q.nodes sentinel sentinel ys
      → Inserted dual size q o d [] ys (
          set_next size q o (first sentinel ys) >>= λ q1. set_prev size dual q1 o sentinel >>= λ q2.
          prev_first dual size q2 ys o >>= λ q3. some (record q3 { head = o }))
  link-head ys a c =
      let fs = flags q.nodes in
      let t1 =
        set_next-middle dual s fs o (first sentinel ys) [] ys q (first sentinel ys) sentinel n a
          (cut dual size q.nodes [] ys o n c e) in
      let q1 : ArenaQueue D = record q { nodes = t1.nodes } in
      let t2 = set_prev-middle dual s fs o sentinel [] ys q1 _ _ _ a t1.pieces in
      let q2 : ArenaQueue D = record q { nodes = t2.nodes } in
      let t3 = prev_first-Stepped dual s fs o o [] ys q2 _ _ _ a t2.pieces in
      all-linked dual s q o d [] ys n a c e g t3.nodes _
        (record {
          left = tt;
          middle = t3.pieces.middle;
          right = t3.pieces.right;
          marks = t3.pieces.marks;
        })
        (bind-some _ t1.run (bind-some _ t2.run (bind-some _ t3.run refl)))

  module _ (x : Entry D) (xs ys : List (Entry D)) (a : Apart o (x ∷ xs ++ ys))
      (c : Chain dual size q.nodes sentinel sentinel (x ∷ xs ++ ys)) (h : q.head ≡ x.0) where
    nx-taken : first sentinel ys ≢ unallocated
    nx-taken =
        first-taken dual s q.nodes (last sentinel (x ∷ xs)) sentinel ys
          (Chain-right dual size q.nodes sentinel sentinel (x ∷ xs) ys c) (omega arith)

    o-taken : o ≢ unallocated
    o-taken = (offset-even s o (cell-slot s o q.nodes n e).0).1

    same-head :
        (ns : List (ArenaNode D)) → record q { nodes = ns } ≡ record q { nodes = ns; head = x.0 }
    same-head ns = ap (λ k. record q { nodes = ns; head = k }) h

    -- As `insert` links behind the node that its loop has found.
    pub link-insert : Inserted dual size q o d (x ∷ xs) ys (
        prev_first dual size q ys o >>= λ q0. node size q0 (last x.0 xs) >>= λ prev.
        set_next size q0 o prev.next >>= λ q1.
        set_prev size dual q1 o (last x.0 xs) >>= λ q2. set_next size q2 (last x.0 xs) o)
    link-insert =
        let fs = flags q.nodes in
        let t1 =
          prev_first-Stepped dual s fs o o (x ∷ xs) ys q _ _ n a
            (cut dual size q.nodes (x ∷ xs) ys o n c e) in
        let q1 : ArenaQueue D = record q { nodes = t1.nodes } in
        let l = last-cell dual s t1.nodes sentinel _ x xs t1.pieces.left in
        let t2 = set_next-middle dual s fs o (first sentinel ys) (x ∷ xs) ys q1 _ _ _ a t1.pieces in
        let q2 : ArenaQueue D = record q { nodes = t2.nodes } in
        let t3 = set_prev-middle dual s fs o (last x.0 xs) (x ∷ xs) ys q2 _ _ _ a t2.pieces in
        let q3 : ArenaQueue D = record q { nodes = t3.nodes } in
        let t4 = set_next-last dual s fs o o x xs ys q3 _ _ _ a nx-taken o-taken t3.pieces in
        let onward : ArenaQueue D → Option (ArenaQueue D) =
          λ q. set_prev size dual q o (last x.0 xs) >>= λ q2. set_next size q2 (last x.0 xs) o in
        all-linked dual s q o d (x ∷ xs) ys n a c e g t4.nodes _ t4.pieces (
          bind-some _ t1.run (
            bind-some _ l.1 (
              ap (λ k. set_next size q1 o k >>= onward) l.2
              ∙ bind-some onward t2.run (
                  bind-some (λ q2. set_next size q2 (last x.0 xs) o) t3.run
                    (t4.run ∙ ap some (same-head t4.nodes))))))

    -- As `enqueue` links behind the node that the search has found.
    pub link-enqueue : Inserted dual size q o d (x ∷ xs) ys (
        set_next size q o (first sentinel ys) >>= λ q1. set_next size q1 (last x.0 xs) o >>= λ q2.
        prev_first dual size q2 ys o >>= λ q3. set_prev size dual q3 o (last x.0 xs))
    link-enqueue =
        let fs = flags q.nodes in
        let t1 =
          set_next-middle dual s fs o (first sentinel ys) (x ∷ xs) ys q _ _ n a
            (cut dual size q.nodes (x ∷ xs) ys o n c e) in
        let q1 : ArenaQueue D = record q { nodes = t1.nodes } in
        let t2 = set_next-last dual s fs o o x xs ys q1 _ _ _ a nx-taken o-taken t1.pieces in
        let q2 : ArenaQueue D = record q { nodes = t2.nodes } in
        let t3 = prev_first-Stepped dual s fs o o (x ∷ xs) ys q2 _ _ _ a t2.pieces in
        let q3 : ArenaQueue D = record q { nodes = t3.nodes } in
        let t4 = set_prev-middle dual s fs o (last x.0 xs) (x ∷ xs) ys q3 _ _ _ a t3.pieces in
        all-linked dual s q o d (x ∷ xs) ys n a c e g t4.nodes _ t4.pieces (
          bind-some _ t1.run
            (bind-some _ t2.run (bind-some _ t3.run (t4.run ∙ ap some (same-head t4.nodes)))))
