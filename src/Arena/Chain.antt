-- ===== src/Arena/Chain.antt =====
-- The linked list in the block of an `ArenaQueue`, as a list of entries, and how one write changes it
-- where it is cut in two.
use async_priority_lock_rs.Base.{
  ℕ, ◌/◌, ◌%◌, ◌≡◌, ◌≢◌, refl, sym, ◌∙◌, subst, Bool, true, false, some, List, [], ◌∷◌, ◌++◌, arith,
  if◌then◌else◌, ◌==◌, All, All-mono, All-append_left, All-append_right,
}
use async_priority_lock_rs.Queue.Order.{Entry, Distinct}
use async_priority_lock_rs.Arena.{ArenaNode, sentinel, unallocated, set_slot, cell}
use async_priority_lock_rs.Arena.Cells.{
  IsSize, cell-slot, cell-put_same, cell-put_other, offset-even,
}

module _ {D : Type 0} where
  -- The handle at the front of a stretch, and at its end.
  abbrev pub first : ℕ → List (Entry D) → ℕ
  first e [] = e
  first e (x ∷ xs) = x.0

  abbrev pub last : ℕ → List (Entry D) → ℕ
  last v [] = v
  last v (x ∷ xs) = last x.0 xs

  pub first-append : (e : ℕ) (xs ys : List (Entry D)) → first e (xs ++ ys) ≡ first (first e ys) xs
  first-append e [] ys = refl
  first-append e (x ∷ xs) ys = refl

  pub last-append : (v : ℕ) (xs ys : List (Entry D)) → last v (xs ++ ys) ≡ last (last v xs) ys
  last-append v [] ys = refl
  last-append v (x ∷ xs) ys = last-append x.0 xs ys

  pub last-All :
      (P : ℕ → Type 0) (x : Entry D) (xs : List (Entry D))
      → All (λ y. P y.0) (x ∷ xs)
      → P (last x.0 xs)
  last-All P x [] a = a.0
  last-All P x (y ∷ ys) a = last-All P y ys a.1

  pub Distinct-cross :
      (xs ys : List (Entry D)) → Distinct (xs ++ ys) → All (λ x. All (λ y. x.0 ≢ y.0) ys) xs
  Distinct-cross [] ys d = tt
  Distinct-cross (x ∷ xs) ys d = (All-append_right _ xs ys d.0, Distinct-cross xs ys d.1)

  pub Distinct-left : (xs ys : List (Entry D)) → Distinct (xs ++ ys) → Distinct xs
  Distinct-left [] ys d = tt
  Distinct-left (x ∷ xs) ys d = (All-append_left _ xs ys d.0, Distinct-left xs ys d.1)

  pub Distinct-right : (xs ys : List (Entry D)) → Distinct (xs ++ ys) → Distinct ys
  Distinct-right [] ys d = d
  Distinct-right (x ∷ xs) ys d = Distinct-right xs ys d.1

module _ {D : Type 0} where
  -- The back link of a dual linked node.
  abbrev pub PrevAt : Bool → ℕ → ArenaNode D → Type 0
  PrevAt true v n = n.prev ≡ v
  PrevAt false v n = Unit {0}

  pub PrevAt-kept :
      (dual : Bool) (v : ℕ) (n m : ArenaNode D)
      → m.prev ≡ n.prev
      → PrevAt dual v n
      → PrevAt dual v m
  PrevAt-kept true v n m e h = e ∙ h
  PrevAt-kept false v n m e h = tt

  pub PrevAt-set :
      (dual : Bool) (v : ℕ) (n : ArenaNode D)
      → PrevAt dual v (if dual then record n { prev = v } else n)
  PrevAt-set true v n = refl
  PrevAt-set false v n = tt

  pub next-set_prev :
      (dual : Bool) (v : ℕ) (n : ArenaNode D)
      → (if dual then record n { prev = v } else n).next ≡ n.next
  next-set_prev true v n = refl
  next-set_prev false v n = refl

  pub item-set_prev :
      (dual : Bool) (v : ℕ) (n : ArenaNode D)
      → (if dual then record n { prev = v } else n).item ≡ n.item
  item-set_prev true v n = refl
  item-set_prev false v n = refl

module _ {D : Type 0} (dual : Bool) (size : ℕ) where
  -- The node at `o` holds `d` and points to `nx` and, if it is dual linked, back to `pv`.
  pub record Cell (ns : List (ArenaNode D)) (o nx pv : ℕ) (d : D) : Type 0 where
    pub content : ArenaNode D
    pub here : cell size o ns ≡ some content
    pub onward : content.next ≡ nx
    pub filled : content.item ≡ some d
    pub back : PrevAt dual pv content

  -- A stretch of the list, between `v` and `e`.
  abbrev pub Chain : List (ArenaNode D) → ℕ → ℕ → List (Entry D) → Type 0
  Chain ns v e [] = Unit {0}
  Chain ns v e (x ∷ xs) = Cell ns x.0 (first e xs) v x.1 × Chain ns x.0 e xs

  pub Chain-append :
      (ns : List (ArenaNode D)) (v e : ℕ) (xs ys : List (Entry D))
      → Chain ns v (first e ys) xs
      → Chain ns (last v xs) e ys
      → Chain ns v e (xs ++ ys)
  Chain-append ns v e [] ys c k = k
  Chain-append ns v e (x ∷ xs) ys c k = (
    subst (λ h. Cell ns x.0 h v x.1) (sym (first-append e xs ys)) c.0,
    Chain-append ns x.0 e xs ys c.1 k,
  )

  pub Chain-left :
      (ns : List (ArenaNode D)) (v e : ℕ) (xs ys : List (Entry D))
      → Chain ns v e (xs ++ ys)
      → Chain ns v (first e ys) xs
  Chain-left ns v e [] ys c = tt
  Chain-left ns v e (x ∷ xs) ys c =
      (subst (λ h. Cell ns x.0 h v x.1) (first-append e xs ys) c.0, Chain-left ns x.0 e xs ys c.1)

  pub Chain-right :
      (ns : List (ArenaNode D)) (v e : ℕ) (xs ys : List (Entry D))
      → Chain ns v e (xs ++ ys)
      → Chain ns (last v xs) e ys
  Chain-right ns v e [] ys c = c
  Chain-right ns v e (x ∷ xs) ys c = Chain-right ns x.0 e xs ys c.1

module _ {D : Type 0} where
  -- Single linked nodes do not know what is before them.
  pub Chain-single :
      (size : ℕ) (ns : List (ArenaNode D)) (v w e : ℕ) (es : List (Entry D))
      → Chain false size ns v e es
      → Chain false size ns w e es
  Chain-single size ns v w e [] c = tt
  Chain-single size ns v w e (x ∷ es) c = (
    record {
      content = c.0.content;
      here = c.0.here;
      onward = c.0.onward;
      filled = c.0.filled;
      back = tt;
    },
    c.1,
  )

module _ {D : Type 0} (dual : Bool) {size : ℕ} (s : IsSize size) where
  Cell-frame :
      (a : ℕ) (f : ArenaNode D → ArenaNode D) (ns : List (ArenaNode D)) (o nx pv : ℕ) (d : D)
      → a % size ≡ 0
      → o ≢ a
      → Cell dual size ns o nx pv d
      → Cell dual size (set_slot (a / size) f ns) o nx pv d
  Cell-frame a f ns o nx pv d h n c = record {
    content = c.content;
    here = cell-put_other s o a f ns h n ∙ c.here;
    onward = c.onward;
    filled = c.filled;
    back = c.back;
  }

  -- A write outside of a stretch.
  pub Chain-frame :
      (a : ℕ) (f : ArenaNode D → ArenaNode D) (ns : List (ArenaNode D)) (v e : ℕ)
      (xs : List (Entry D))
      → a % size ≡ 0
      → All (λ x. x.0 ≢ a) xs
      → Chain dual size ns v e xs
      → Chain dual size (set_slot (a / size) f ns) v e xs
  Chain-frame a f ns v e [] h n c = tt
  Chain-frame a f ns v e (x ∷ xs) h n c =
      (Cell-frame a f ns x.0 _ v x.1 h n.0 c.0, Chain-frame a f ns x.0 e xs h n.1 c.1)

  pub Cell-aligned :
      (ns : List (ArenaNode D)) (o nx pv : ℕ) (d : D) → Cell dual size ns o nx pv d → o % size ≡ 0
  Cell-aligned ns o nx pv d c = (cell-slot s o ns c.content c.here).0

  pub Chain-aligned :
      (ns : List (ArenaNode D)) (v e : ℕ) (xs : List (Entry D))
      → Chain dual size ns v e xs
      → All (λ x. x.0 % size ≡ 0) xs
  Chain-aligned ns v e [] c = tt
  Chain-aligned ns v e (x ∷ xs) c = (Cell-aligned ns x.0 _ v x.1 c.0, Chain-aligned ns x.0 e xs c.1)

  pub first-taken :
      (ns : List (ArenaNode D)) (v e : ℕ) (xs : List (Entry D))
      → Chain dual size ns v e xs
      → e ≢ unallocated
      → first e xs ≢ unallocated
  first-taken ns v e [] c h = h
  first-taken ns v e (x ∷ xs) c h = (offset-even s x.0 (Cell-aligned ns x.0 _ v x.1 c.0)).1

  pub not_sentinel :
      (ns : List (ArenaNode D)) (v e : ℕ) (x : Entry D) (xs : List (Entry D))
      → Chain dual size ns v e (x ∷ xs)
      → (x.0 == sentinel) ≡ false
  not_sentinel ns v e x xs c =
      let (ne, _) = offset-even s x.0 (Cell-aligned ns x.0 _ v x.1 c.0) in ground arith

  -- The last node of a stretch.
  pub last-cell :
      (ns : List (ArenaNode D)) (v e : ℕ) (x : Entry D) (xs : List (Entry D))
      → Chain dual size ns v e (x ∷ xs)
      → (n : ArenaNode D) × (cell size (last x.0 xs) ns ≡ some n) × (n.next ≡ e)
  last-cell ns v e x [] c = (c.0.content, c.0.here, c.0.onward)
  last-cell ns v e x (y ∷ ys) c = last-cell ns x.0 e y ys c.1

  -- The last node of a stretch points elsewhere.
  pub Chain-set_last :
      (e' : ℕ) (ns : List (ArenaNode D)) (v e : ℕ) (x : Entry D) (xs : List (Entry D))
      → Distinct (x ∷ xs)
      → Chain dual size ns v e (x ∷ xs)
      → Chain dual size
          (set_slot (last x.0 xs / size) (λ n. record n { next = e' }) ns)
          v
          e'
          (x ∷ xs)
  Chain-set_last e' ns v e x [] d c = (
    record {
      content = record c.0.content { next = e' };
      here = cell-put_same s x.0 _ ns c.0.content c.0.here;
      onward = refl;
      filled = c.0.filled;
      back = PrevAt-kept dual v c.0.content _ refl c.0.back;
    },
    tt,
  )
  Chain-set_last e' ns v e x (y ∷ ys) d c = (
    Cell-frame (last y.0 ys) _ ns x.0 _ v x.1
        (last-All (λ o. o % size ≡ 0) y ys (Chain-aligned ns x.0 e (y ∷ ys) c.1))
        (last-All (λ o. x.0 ≢ o) y ys d.0) c.0,
    Chain-set_last e' ns x.0 e y ys d.1 c.1,
  )

  -- The first node of a stretch points back elsewhere.
  pub Chain-set_first :
      (v' : ℕ) (ns : List (ArenaNode D)) (v e : ℕ) (x : Entry D) (xs : List (Entry D))
      → Distinct (x ∷ xs)
      → Chain dual size ns v e (x ∷ xs)
      → Chain dual size
          (set_slot (x.0 / size) (λ n. if dual then record n { prev = v' } else n) ns)
          v'
          e
          (x ∷ xs)
  Chain-set_first v' ns v e x xs d c = (
    record {
      content = if dual then record c.0.content { prev = v' } else c.0.content;
      here = cell-put_same s x.0 _ ns c.0.content c.0.here;
      onward = next-set_prev dual v' c.0.content ∙ c.0.onward;
      filled = item-set_prev dual v' c.0.content ∙ c.0.filled;
      back = PrevAt-set dual v' c.0.content;
    },
    Chain-frame x.0 _ ns x.0 e xs (Cell-aligned ns x.0 _ v x.1 c.0)
        (All-mono _ _ (λ y n e. n (sym e)) xs d.0) c.1,
  )
