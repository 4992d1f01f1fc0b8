-- ===== src/Arena/Cells.antt =====
-- The block of an `ArenaQueue` as memory: what a write does to the node at an offset, to the others,
-- and to the marks of the slots that are taken.
use native.Mathlib.Nat.{mul-div_cancel, mul-mod_left, div-add-mod', mul_assoc}
use async_priority_lock_rs.Base.{
  ℕ, zero, suc, ◌*◌, ◌/◌, ◌%◌, ◌<◌, ◌≡◌, ◌≢◌, refl, ap, ◌∙◌, Bool, true, false, not, some, List, [],
  ◌∷◌, map, arith, ◌==◌, length,
}
use async_priority_lock_rs.Arena.{
  ArenaNode, ArenaQueue, sentinel, unallocated, slot, set_slot, cell, node, write, data_at,
}

-- What a node occupies: not nothing, and an even number of bytes, since nodes are `align(2)`.
pub record IsSize (size : ℕ) : Type 0 where
  pub positive : 0 < size
  pub even : size % 2 ≡ 0

-- Offsets are even, the two marks are not.
pub offset-even :
    {size : ℕ} (s : IsSize size) (o : ℕ) → o % size ≡ 0 → (o ≢ sentinel) × (o ≢ unallocated)
offset-even {size} s o e =
    let twice : o / size * (size / 2) * 2 ≡ o / size * size =
      mul_assoc (o / size) (size / 2) 2
      ∙ ap (λ k. o / size * k) (omega (arith, div-add-mod' size 2, s.even)) in
    let h : o ≡ o / size * (size / 2) * 2 = omega (arith, div-add-mod' o size, twice) in
    (omega (arith, h), omega (arith, h))

module _ {A : Type 0} where
  pub slot-bound : (i : ℕ) (xs : List A) (x : A) → slot i xs ≡ some x → i < length xs
  unfolding slot
  slot-bound i [] x e = cc
  slot-bound zero (y ∷ xs) x e = omega arith
  slot-bound (suc i) (y ∷ xs) x e = omega (arith, slot-bound i xs x e)

  pub slot-set_same :
      (i : ℕ) (f : A → A) (xs : List A) (x : A)
      → slot i xs ≡ some x
      → slot i (set_slot i f xs) ≡ some (f x)
  unfolding slot set_slot
  slot-set_same i f [] x e = ground arith
  slot-set_same zero f (y ∷ xs) x e = ground arith
  slot-set_same (suc i) f (y ∷ xs) x e = slot-set_same i f xs x e

  pub slot-set_other :
      (i j : ℕ) (f : A → A) (xs : List A) → i ≢ j → slot i (set_slot j f xs) ≡ slot i xs
  unfolding slot set_slot
  slot-set_other i j f [] n = refl
  slot-set_other zero zero f (y ∷ xs) n = absurd (n refl)
  slot-set_other zero (suc j) f (y ∷ xs) n = refl
  slot-set_other (suc i) zero f (y ∷ xs) n = refl
  slot-set_other (suc i) (suc j) f (y ∷ xs) n = slot-set_other i j f xs (λ e. n (ap suc e))

  pub set_slot-id : (i : ℕ) (xs : List A) (x : A) → slot i xs ≡ some x → set_slot i (λ _. x) xs ≡ xs
  unfolding slot set_slot
  set_slot-id i [] x e = refl
  set_slot-id zero (y ∷ xs) x e = ground arith
  set_slot-id (suc i) (y ∷ xs) x e = ap (λ l. y ∷ l) (set_slot-id i xs x e)

  pub set_slot-twice :
      (i : ℕ) (x y : A) (xs : List A)
      → set_slot i (λ _. y) (set_slot i (λ _. x) xs) ≡ set_slot i (λ _. y) xs
  unfolding set_slot
  set_slot-twice i x y [] = refl
  set_slot-twice zero x y (z ∷ xs) = refl
  set_slot-twice (suc i) x y (z ∷ xs) = ap (λ l. z ∷ l) (set_slot-twice i x y xs)

  pub length-set_slot : (i : ℕ) (f : A → A) (xs : List A) → length (set_slot i f xs) ≡ length xs
  unfolding set_slot
  length-set_slot i f [] = refl
  length-set_slot zero f (y ∷ xs) = refl
  length-set_slot (suc i) f (y ∷ xs) = ap suc (length-set_slot i f xs)

module _ {D : Type 0} where
  -- Whether a slot is taken.
  unfoldable pub flag : ArenaNode D → Bool
  flag n = not (n.next == unallocated)

  pub flag-next : (m n : ArenaNode D) → m.next ≡ n.next → flag m ≡ flag n
  unfolding flag
  flag-next m n e = rw e refl

  pub flag-taken : (n : ArenaNode D) → n.next ≢ unallocated → flag n ≡ true
  unfolding flag
  flag-taken n h = ground arith

  pub flag-free : (n : ArenaNode D) → n.next ≡ unallocated → flag n ≡ false
  unfolding flag
  flag-free n h = ground arith

  abbrev pub flags : List (ArenaNode D) → List Bool
  flags = map flag

  pub length-flags : (ns : List (ArenaNode D)) → length (flags ns) ≡ length ns
  length-flags [] = refl
  length-flags (n ∷ ns) = ap suc (length-flags ns)

  pub slot-flags :
      (i : ℕ) (ns : List (ArenaNode D)) (n : ArenaNode D)
      → slot i ns ≡ some n
      → slot i (flags ns) ≡ some (flag n)
  unfolding slot
  slot-flags i [] n e = cc
  slot-flags zero (m ∷ ns) n e = ground arith
  slot-flags (suc i) (m ∷ ns) n e = slot-flags i ns n e

  flags-set_slot :
      (i : ℕ) (f : ArenaNode D → ArenaNode D) (ns : List (ArenaNode D)) (n : ArenaNode D) (b : Bool)
      → slot i ns ≡ some n
      → flag (f n) ≡ b
      → flags (set_slot i f ns) ≡ set_slot i (λ _. b) (flags ns)
  unfolding slot set_slot
  flags-set_slot i f [] n b e g = refl
  flags-set_slot zero f (m ∷ ns) n b e g = ground arith
  flags-set_slot (suc i) f (m ∷ ns) n b e g = ap (λ l. flag m ∷ l) (flags-set_slot i f ns n b e g)

  module _ {size : ℕ} (s : IsSize size) where
    pub cell-slot :
        (o : ℕ) (ns : List (ArenaNode D)) (n : ArenaNode D)
        → cell size o ns ≡ some n
        → (o % size ≡ 0) × (slot (o / size) ns ≡ some n)
    unfolding cell
    cell-slot o ns n e = ground arith

    -- The offset of a slot.
    pub cell-offset : (i : ℕ) (ns : List (ArenaNode D)) → cell size (i * size) ns ≡ slot i ns
    unfolding cell
    cell-offset i ns = ground (arith, mul-div_cancel i s.positive, mul-mod_left i size)

    pub cell-put_same :
        (o : ℕ) (f : ArenaNode D → ArenaNode D) (ns : List (ArenaNode D)) (n : ArenaNode D)
        → cell size o ns ≡ some n
        → cell size o (set_slot (o / size) f ns) ≡ some (f n)
    unfolding cell
    cell-put_same o f ns n e = ground (arith, slot-set_same (o / size) f ns n)

    pub cell-put_other :
        (o a : ℕ) (f : ArenaNode D → ArenaNode D) (ns : List (ArenaNode D))
        → a % size ≡ 0
        → o ≢ a
        → cell size o (set_slot (a / size) f ns) ≡ cell size o ns
    unfolding cell
    cell-put_other o a f ns h n =
        ground (
          arith,
          slot-set_other (o / size) (a / size) f ns,
          div-add-mod' o size,
          div-add-mod' a size,
        )

    -- What the accesses of the queue do at a node.
    pub write_lem :
        (q : ArenaQueue D) (o : ℕ) (f : ArenaNode D → ArenaNode D) (n : ArenaNode D)
        → node size q o ≡ some n
        → write size q o f ≡ some (record q { nodes = set_slot (o / size) f q.nodes })
    unfolding write
    write_lem q o f n e = rw e refl

    pub data_at_lem :
        (q : ArenaQueue D) (o : ℕ) (n : ArenaNode D) (d : D)
        → node size q o ≡ some n
        → n.item ≡ some d
        → data_at size q o ≡ some d
    unfolding data_at
    data_at_lem q o n d e h = rw e h

    pub flags-put :
        (o : ℕ) (f : ArenaNode D → ArenaNode D) (ns : List (ArenaNode D)) (n : ArenaNode D)
        (b : Bool)
        → cell size o ns ≡ some n
        → flag (f n) ≡ b
        → flags (set_slot (o / size) f ns) ≡ set_slot (o / size) (λ _. b) (flags ns)
    flags-put o f ns n b e g = flags-set_slot (o / size) f ns n b (cell-slot o ns n e).1 g

    -- A write that keeps the mark of the node keeps the marks.
    pub flags-same :
        (o : ℕ) (f : ArenaNode D → ArenaNode D) (ns : List (ArenaNode D)) (n : ArenaNode D)
        → cell size o ns ≡ some n
        → flag (f n) ≡ flag n
        → flags (set_slot (o / size) f ns) ≡ flags ns
    flags-same o f ns n e g =
        flags-put o f ns n (flag n) e g
        ∙ set_slot-id (o / size) (flags ns) (flag n)
            (slot-flags (o / size) ns n (cell-slot o ns n e).1)
