-- ===== src/Arena/Prev.antt =====
-- `prev_for` of `ArenaQueue` finds the node before one that is not the head, by its back link or by
-- going through the block.
use mathlib.Core.Option
use native.Mathlib.Nat.{mul-div_cancel, div-add-mod'}
use async_priority_lock_rs.Base.{
  ℕ, zero, suc, ◌+◌, ◌*◌, ◌/◌, ◌≡◌, ◌≢◌, refl, sym, ap, ◌∙◌, subst, inl, inr, Bool, true, false,
  some, List, [], ◌∷◌, ◌++◌, arith, ◌==◌, Bool-cases, All, All-append_right,
}
use async_priority_lock_rs.Queue.Order.{Entry, Distinct}
use async_priority_lock_rs.Arena.{
  ArenaNode, ArenaQueue, sentinel, unallocated, slot, set_slot, cell, pointing_to, prev_for,
}
use async_priority_lock_rs.Arena.Cells.{
  IsSize, flags, flag-taken, slot-flags, cell-slot, cell-offset, offset-even,
}
use async_priority_lock_rs.Arena.Chain.{
  last, last-cell, Chain, Chain-left, Cell, Cell-aligned, PrevAt, not_sentinel,
}
use async_priority_lock_rs.Arena.Cut.{node_at}
use async_priority_lock_rs.Arena.Owned.{Owned, Owned-has, has}

module _ {D : Type 0} (dual : Bool) {size : ℕ} (s : IsSize size) (ns : List (ArenaNode D)) where
  same-next :
      (o nx pv : ℕ) (d : D) (n : ArenaNode D)
      → Cell dual size ns o nx pv d
      → cell size o ns ≡ some n
      → n.next ≡ nx
  same-next o nx pv d n c k = ground (arith, c.here, c.onward)

  -- No entry of a stretch points to its first, unless it goes round.
  next-inside :
      (v e : ℕ) (x : Entry D) (es : List (Entry D)) (o : ℕ) (n : ArenaNode D) (h : ℕ)
      → Chain dual size ns v e (x ∷ es)
      → has o (x ∷ es) ≡ true
      → cell size o ns ≡ some n
      → n.next ≡ h
      → h ≢ e
      → All (λ y. h ≢ y.0) es
      → ⊥
  next-inside v e x [] o n h c b k g ne a =
      let z : o ≡ x.0 = ground arith in
      ne (sym g ∙ same-next x.0 e v x.1 n c.0 (subst (λ o. cell size o ns ≡ some n) z k))
  next-inside v e x (y ∷ es) o n h c b k g ne a = elim (Bool-cases (x.0 == o)) [
    | inl t ↦
        let z : o ≡ x.0 = ground arith in
        a.0 (sym g ∙ same-next x.0 y.0 v x.1 n c.0 (subst (λ o. cell size o ns ≡ some n) z k))
    | inr f ↦ next-inside x.0 e y es o n h c.1 (ground arith) k g ne a.1
  ]

  -- Only the entry before that at `h` points there.
  next_unique :
      (v : ℕ) (xs ys : List (Entry D)) (h : ℕ) (d : D) (o : ℕ) (n : ArenaNode D)
      → Chain dual size ns v sentinel (xs ++ (h, d) ∷ ys)
      → Distinct (xs ++ (h, d) ∷ ys)
      → has o (xs ++ (h, d) ∷ ys) ≡ true
      → cell size o ns ≡ some n
      → n.next ≡ h
      → o ≡ last v xs
  next_unique v [] ys h d o n c a b k g =
      let ne = not_sentinel dual s ns v sentinel (h, d) ys c in
      absurd (next-inside v sentinel (h, d) ys o n h c b k g (ground arith) a.0)
  next_unique v (x ∷ []) ys h d o n c a b k g = elim (Bool-cases (x.0 == o)) [
    | inl t ↦ ground arith
    | inr f ↦
        let ne = not_sentinel dual s ns x.0 sentinel (h, d) ys c.1 in
        absurd
          (next-inside x.0 sentinel (h, d) ys o n h c.1 (ground arith) k g (ground arith) a.1.0)
  ]
  next_unique v (x ∷ y ∷ xs) ys h d o n c a b k g = elim (Bool-cases (x.0 == o)) [
    | inl t ↦
        let z : o ≡ x.0 = ground arith in
        absurd (
          (All-append_right _ xs ((h, d) ∷ ys) a.1.0).0
            (sym (same-next x.0 y.0 v x.1 n c.0 (subst (λ o. cell size o ns ≡ some n) z k)) ∙ g))
    | inr f ↦ next_unique x.0 (y ∷ xs) ys h d o n c.1 a.1 (ground arith) k g
  ]

module _ {D : Type 0} where
  -- The first slot that points to `h`, if it is the only one.
  pointing_to-only :
      (h i j : ℕ) (ns : List (ArenaNode D)) (n : ArenaNode D)
      → slot j ns ≡ some n
      → n.next ≡ h
      → ((k : ℕ) (m : ArenaNode D) → slot k ns ≡ some m → m.next ≡ h → k ≡ j)
      → pointing_to h i ns ≡ some (i + j)
  unfolding slot pointing_to
  pointing_to-only h i j [] n e g u = cc
  pointing_to-only h i zero (m ∷ ns) n e g u = ground arith
  pointing_to-only h i (suc j) (m ∷ ns) n e g u =
      let ne : m.next ≢ h = λ z. ground (arith, u 0 m refl z) in
      ground
        (arith, pointing_to-only h (suc i) j ns n e g (λ k m e z. omega (arith, u (suc k) m e z)))

  -- A write of a node that did not point to `h` and does not point there then.
  pub pointing_to-put :
      (h i j : ℕ) (f : ArenaNode D → ArenaNode D) (ns : List (ArenaNode D)) (n : ArenaNode D)
      → slot j ns ≡ some n
      → n.next ≢ h
      → (f n).next ≢ h
      → pointing_to h i (set_slot j f ns) ≡ pointing_to h i ns
  unfolding slot set_slot pointing_to
  pointing_to-put h i j f [] n e g k = refl
  pointing_to-put h i zero f (m ∷ ns) n e g k = ground arith
  pointing_to-put h i (suc j) f (m ∷ ns) n e g k =
      ground (arith, pointing_to-put h (suc i) j f ns n e g k)

module _ {D : Type 0} (dual : Bool) {size : ℕ} (s : IsSize size) where
  pub pointing_to-last :
      (ns : List (ArenaNode D)) (x : Entry D) (xs ys : List (Entry D)) (h : ℕ) (d : D)
      → Chain dual size ns sentinel sentinel (x ∷ xs ++ (h, d) ∷ ys)
      → Distinct (x ∷ xs ++ (h, d) ∷ ys)
      → Owned size 0 (flags ns) (x ∷ xs ++ (h, d) ∷ ys)
      → Option.map (λ i. i * size) (pointing_to h 0 ns) ≡ some (last x.0 xs)
  pointing_to-last ns x xs ys h d c a o =
      let l =
        last-cell dual s ns sentinel h x xs
          (Chain-left dual size ns sentinel sentinel (x ∷ xs) ((h, d) ∷ ys) c) in
      let (al, here) = cell-slot s (last x.0 xs) ns l.0 l.1 in
      let taken =
        (offset-even s h
          (Cell-aligned dual s ns h _ _ d (node_at dual size ns (x ∷ xs) ys h d c))).1 in
      let found = pointing_to-only h 0 (last x.0 xs / size) ns l.0 here l.2 (λ k m e g.
        let mark =
          slot-flags k ns m e
          ∙ ap some (flag-taken m (subst (λ z. z ≢ unallocated) (sym g) taken)) in
        let end =
          next_unique dual s ns sentinel (x ∷ xs) ys h d (k * size) m c a
            (Owned-has size k (flags ns) _ o mark) (cell-offset s k ns ∙ e) g in
        sym (mul-div_cancel k s.positive) ∙ ap (λ z. z / size) end) in
      let back : (0 + last x.0 xs / size) * size ≡ last x.0 xs =
        subst (λ k. k * size ≡ last x.0 xs) {x = last x.0 xs / size} (omega arith)
          (omega (arith, al, div-add-mod' (last x.0 xs) size)) in
      ap (Option.map (λ i. i * size)) found ∙ ap some back

module _ {D : Type 0} {size : ℕ} (s : IsSize size) where
  pub prev_for_lem :
      (dual : Bool) (q : ArenaQueue D) (n : ArenaNode D) (x : Entry D) (xs ys : List (Entry D))
      (h : ℕ) (d : D)
      → Chain dual size q.nodes sentinel sentinel (x ∷ xs ++ (h, d) ∷ ys)
      → Distinct (x ∷ xs ++ (h, d) ∷ ys)
      → Owned size 0 (flags q.nodes) (x ∷ xs ++ (h, d) ∷ ys)
      → PrevAt dual (last x.0 xs) n
      → prev_for size dual q n h ≡ some (last x.0 xs)
  unfolding prev_for
  prev_for_lem true q n x xs ys h d c a o e = ap some e
  prev_for_lem false q n x xs ys h d c a o e = pointing_to-last false s q.nodes x xs ys h d c a o
