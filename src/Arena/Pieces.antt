-- ===== src/Arena/Pieces.antt =====
-- A node of an `ArenaQueue` between the two stretches of the list around it, while the links there
-- are written one after another.
use async_priority_lock_rs.Base.{
  ℕ, ◌/◌, ◌%◌, ◌≡◌, ◌≢◌, refl, sym, ap, ◌∙◌, subst, Bool, Option, some, List, ◌∷◌, ◌++◌,
  if◌then◌else◌, All, All-mono, All-append_left, All-append_right,
}
use async_priority_lock_rs.Queue.Order.{Entry, Distinct}
use async_priority_lock_rs.Arena.{
  ArenaNode, ArenaQueue, sentinel, unallocated, set_slot, cell, set_next, set_prev,
}
use async_priority_lock_rs.Arena.Cells.{
  IsSize, flag, flags, cell-slot, cell-put_same, cell-put_other, flags-put, flags-same, flag-next,
  flag-taken, write_lem, set_slot-twice,
}
use async_priority_lock_rs.Arena.Chain.{
  last, last-All, last-cell, Distinct-cross, Distinct-left, Distinct-right, Chain, next-set_prev,
  Chain-frame, Chain-aligned, Chain-set_last, Chain-set_first,
}

module _ {D : Type 0} where
  -- The node at `o` is none of those around it, which differ.
  pub record Apart (o : ℕ) (es : List (Entry D)) : Type 0 where
    pub distinct : Distinct es
    pub fresh : All (λ x. o ≢ x.0) es

  -- `fs` are the marks of the block before the changes, whatever the one of `o` was.
  pub record Pieces (dual : Bool) (size : ℕ) (fs : List Bool) (xs ys : List (Entry D)) (o : ℕ)
      (ns : List (ArenaNode D)) (e v : ℕ) (n : ArenaNode D) : Type 0 where
    pub left : Chain dual size ns sentinel e xs
    pub middle : cell size o ns ≡ some n
    pub right : Chain dual size ns v sentinel ys
    pub marks :
        (b : Bool) → set_slot (o / size) (λ _. b) (flags ns) ≡ set_slot (o / size) (λ _. b) fs

  -- The access `r` of the queue leaves its nodes in pieces.
  pub record Stepped (dual : Bool) (size : ℕ) (fs : List Bool) (xs ys : List (Entry D)) (o : ℕ)
      (q : ArenaQueue D) (r : Option (ArenaQueue D)) (e v : ℕ) (n : ArenaNode D) : Type 0 where
    pub nodes : List (ArenaNode D)
    pub run : r ≡ some (record q { nodes = nodes })
    pub pieces : Pieces dual size fs xs ys o nodes e v n

module _ {D : Type 0} (dual : Bool) {size : ℕ} (s : IsSize size) (fs : List Bool) (o : ℕ) where
  -- Any write of the node in the middle.
  pub put_middle :
      (xs ys : List (Entry D)) (f : ArenaNode D → ArenaNode D) (ns : List (ArenaNode D)) (e v : ℕ)
      (n : ArenaNode D)
      → Apart o (xs ++ ys)
      → Pieces dual size fs xs ys o ns e v n
      → Pieces dual size fs xs ys o (set_slot (o / size) f ns) e v (f n)
  put_middle xs ys f ns e v n a w =
      let aligned = (cell-slot s o ns n w.middle).0 in
      let around = All-mono (λ x. o ≢ x.0) (λ x. x.0 ≢ o) (λ x h e. h (sym e)) (xs ++ ys) a.fresh in
      record {
        left =
            Chain-frame dual s o f ns sentinel e xs aligned (All-append_left _ xs ys around) w.left;
        middle = cell-put_same s o f ns n w.middle;
        right =
            Chain-frame dual s o f ns v sentinel ys aligned (All-append_right _ xs ys around)
              w.right;
        marks = λ b.
            ap (set_slot (o / size) (λ _. b)) (flags-put s o f ns n (flag (f n)) w.middle refl)
            ∙ set_slot-twice (o / size) (flag (f n)) b (flags ns)
            ∙ w.marks b;
      }

  pub set_next-middle :
      (nx : ℕ) (xs ys : List (Entry D)) (q : ArenaQueue D) (e v : ℕ) (n : ArenaNode D)
      → Apart o (xs ++ ys)
      → Pieces dual size fs xs ys o q.nodes e v n
      → Stepped dual size fs xs ys o q (set_next size q o nx) e v (record n { next = nx })
  unfolding set_next
  set_next-middle nx xs ys q e v n a w = record {
    nodes = _;
    run = write_lem s q o _ n w.middle;
    pieces = put_middle xs ys (λ n. record n { next = nx }) q.nodes e v n a w;
  }

  pub set_prev-middle :
      (pv : ℕ) (xs ys : List (Entry D)) (q : ArenaQueue D) (e v : ℕ) (n : ArenaNode D)
      → Apart o (xs ++ ys)
      → Pieces dual size fs xs ys o q.nodes e v n
      → Stepped dual size fs xs ys o q
          (set_prev size dual q o pv)
          e
          v
          (if dual then record n { prev = pv } else n)
  unfolding set_prev
  set_prev-middle pv xs ys q e v n a w = record {
    nodes = _;
    run = write_lem s q o _ n w.middle;
    pieces = put_middle xs ys (λ n. if dual then record n { prev = pv } else n) q.nodes e v n a w;
  }

  pub set_next-last :
      (e' : ℕ) (x : Entry D) (xs ys : List (Entry D)) (q : ArenaQueue D) (e v : ℕ) (n : ArenaNode D)
      → Apart o (x ∷ xs ++ ys)
      → e ≢ unallocated
      → e' ≢ unallocated
      → Pieces dual size fs (x ∷ xs) ys o q.nodes e v n
      → Stepped dual size fs (x ∷ xs) ys o q (set_next size q (last x.0 xs) e') e' v n
  unfolding set_next
  set_next-last e' x xs ys q e v n a h h' w =
      let l = last-cell dual s q.nodes sentinel e x xs w.left in
      let aligned =
        last-All (λ o. o % size ≡ 0) x xs
          (Chain-aligned dual s q.nodes sentinel e (x ∷ xs) w.left) in
      let f : ArenaNode D → ArenaNode D = λ n. record n { next = e' } in
      record {
        nodes = set_slot (last x.0 xs / size) f q.nodes;
        run = write_lem s q (last x.0 xs) f l.0 l.1;
        pieces = record {
          left =
              Chain-set_last dual s e' q.nodes sentinel e x xs
                (Distinct-left (x ∷ xs) ys a.distinct) w.left;
          middle =
              cell-put_other s o (last x.0 xs) f q.nodes aligned
                (last-All (λ h. o ≢ h) x xs (All-append_left _ (x ∷ xs) ys a.fresh))
              ∙ w.middle;
          right =
              Chain-frame dual s (last x.0 xs) f q.nodes v sentinel ys aligned
                (last-All (λ h. All (λ y. y.0 ≢ h) ys) x xs
                  (All-mono _ _ (λ x. All-mono _ _ (λ y n e. n (sym e)) ys) (x ∷ xs)
                    (Distinct-cross (x ∷ xs) ys a.distinct)))
                w.right;
          marks = λ b.
              ap (set_slot (o / size) (λ _. b)) (
                flags-same s (last x.0 xs) f q.nodes l.0 l.1 (
                  flag-taken _ h'
                  ∙ sym (flag-taken l.0 (subst (λ k. k ≢ unallocated) (sym l.2) h))))
              ∙ w.marks b;
        };
      }

  pub set_prev-first :
      (v' : ℕ) (xs ys : List (Entry D)) (y : Entry D) (q : ArenaQueue D) (e v : ℕ) (n : ArenaNode D)
      → Apart o (xs ++ y ∷ ys)
      → Pieces dual size fs xs (y ∷ ys) o q.nodes e v n
      → Stepped dual size fs xs (y ∷ ys) o q (set_prev size dual q y.0 v') e v' n
  unfolding set_prev
  set_prev-first v' xs ys y q e v n a w =
      let c = w.right.0 in
      let aligned = (cell-slot s y.0 q.nodes c.content c.here).0 in
      let f : ArenaNode D → ArenaNode D = λ n. if dual then record n { prev = v' } else n in
      record {
        nodes = set_slot (y.0 / size) f q.nodes;
        run = write_lem s q y.0 f c.content c.here;
        pieces = record {
          left =
              Chain-frame dual s y.0 f q.nodes sentinel e xs aligned
                (All-mono _ _ (λ x a. a.0) xs (Distinct-cross xs (y ∷ ys) a.distinct)) w.left;
          middle =
              cell-put_other s o y.0 f q.nodes aligned (All-append_right _ xs (y ∷ ys) a.fresh).0
              ∙ w.middle;
          right =
              Chain-set_first dual s v' q.nodes v sentinel y ys
                (Distinct-right xs (y ∷ ys) a.distinct) w.right;
          marks = λ b.
              ap (set_slot (o / size) (λ _. b)) (
                flags-same s y.0 f q.nodes c.content c.here
                  (flag-next _ _ (next-set_prev dual v' c.content)))
              ∙ w.marks b;
        };
      }
