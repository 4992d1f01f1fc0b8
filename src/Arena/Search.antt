-- ===== src/Arena/Search.antt =====
-- The search of `emplace` finds a free slot, and an entry to put the new one behind.
use native.Mathlib.Nat.{mod-eq_of_lt, mod_self}
use async_priority_lock_rs.Base.{
  ℕ, zero, suc, ◌+◌, ◌-◌, ◌*◌, ◌%◌, ◌<◌, ◌≡◌, ◌≢◌, Ordering, lt, eq, gt, refl, sym, ap, ◌∙◌, subst,
  inl, inr, ◌⊎◌, Bool, true, false, Option, none, some, List, [], ◌∷◌, ◌++◌, arith, if◌then◌else◌,
  ◌==◌, leb, length, Bool-cases,
}
use async_priority_lock_rs.Priority.{Priority, is_gt}
use async_priority_lock_rs.Queue.Order.{Entry}
use async_priority_lock_rs.Arena.{
  ArenaNode, ArenaQueue, sentinel, unallocated, slot, data_at, better, search,
}
use async_priority_lock_rs.Arena.Cells.{
  IsSize, flags, flag-taken, slot-flags, data_at_lem, cell-offset,
}
use async_priority_lock_rs.Arena.Chain.{Chain}
use async_priority_lock_rs.Arena.Cut.{node_at}
use async_priority_lock_rs.Arena.Owned.{Owned, Owned-has, has-split}

Ordering-cases : (o : Ordering) → (o ≡ lt) ⊎ (o ≡ eq) ⊎ (o ≡ gt)
Ordering-cases lt = inl refl
Ordering-cases eq = inr (inl refl)
Ordering-cases gt = inr (inr refl)

-- How many steps of the round from `i` on lead to `j`.
abbrev steps : ℕ → ℕ → ℕ → ℕ
steps i j n = if leb i j then j - i else j + n - i

next-steps :
    (i j n : ℕ)
    → i < n
    → j < n
    → i ≢ j
    → ((i + 1) % n < n) × (suc (steps ((i + 1) % n) j n) ≡ steps i j n)
next-steps i j n h k d = elim (Bool-cases (i + 1 == n)) [
  | inl t ↦
      let e : (i + 1) % n ≡ 0 = ap (λ m. m % n) (ground arith) ∙ mod_self n in
      (omega (arith, e), ground (arith, e))
  | inr f ↦
      let e : (i + 1) % n ≡ i + 1 = mod-eq_of_lt (ground arith) in
      (ground (arith, e), ground (arith, e))
]

steps_bound : (i j n : ℕ) → i < n → j < n → steps i j n < n
steps_bound i j n h k = ground arith

slot_of_lt : {A : Type 0} (i : ℕ) (xs : List A) → i < length xs → (x : A) × (slot i xs ≡ some x)
unfolding slot
slot_of_lt i [] h = absurd (omega arith)
slot_of_lt zero (x ∷ xs) h = (x, refl)
slot_of_lt (suc i) (x ∷ xs) h = slot_of_lt i xs (omega arith)

module _ {D : Type 0} (p : Priority D) where
  -- An entry of the list against which the new one compares as `o`.
  pub record Hinted (d : D) (es : List (Entry D)) (b : ℕ) (o : Ordering) : Type 0 where
    pub before : List (Entry D)
    pub item : D
    pub later : List (Entry D)
    pub split : es ≡ before ++ (b, item) ∷ later
    pub compares : p.compare_new d item ≡ o

  -- What the search has found so far, if anything: with `found`, an entry that compares as `Equal`,
  -- otherwise one to which the new one is `Less`.
  abbrev pub Hint : D → List (Entry D) → Option ℕ → Bool → Type 0
  Hint d es none false = Unit {0}
  Hint d es none true = ⊥
  Hint d es (some b) true = Hinted d es b eq
  Hint d es (some b) false = Hinted d es b lt

  module _ (dual : Bool) {size : ℕ} (s : IsSize size) (q : ArenaQueue D) (es : List (Entry D))
      (c : Chain dual size q.nodes sentinel sentinel es) where
    item_at :
        (before later : List (Entry D)) (h : ℕ) (d : D)
        → es ≡ before ++ (h, d) ∷ later
        → data_at size q h ≡ some d
    item_at before later h d e =
        let n =
          node_at dual size q.nodes before later h d
            (subst (Chain dual size q.nodes sentinel sentinel) e c) in
        data_at_lem s q h n.content d n.here n.filled

    better-lt :
        (d x : D) (h : ℕ) (best : Option ℕ)
        → p.compare_new d x ≡ lt
        → Hinted d es h lt
        → Hint d es best false
        → (b : ℕ) × (better p size d q h x best ≡ some (some b, false)) × Hinted d es b lt
    unfolding better
    better-lt d x h none l w g = (h, rw (better, l) refl, w)
    better-lt d x h (some b) l w g =
        let dat = item_at g.before g.later b g.item g.split in
        elim (Bool-cases (is_gt (p.compare_to x g.item))) [
          | inl t ↦ (h, rw (better, l, dat, t) refl, w)
          | inr f ↦ (b, rw (better, l, dat, f) refl, g)
        ]

    better-Hint :
        (d x : D) (before later : List (Entry D)) (h : ℕ) (best : Option ℕ)
        → es ≡ before ++ (h, x) ∷ later
        → Hint d es best false
        → (r : Option ℕ × Bool) × (better p size d q h x best ≡ some r) × Hint d es r.0 r.1
    unfolding better
    better-Hint d x before later h best e g = elim (Ordering-cases (p.compare_new d x)) [
      | inl l ↦
          let hinted : Hinted d es h lt = record {
            before = before;
            item = x;
            later = later;
            split = e;
            compares = l;
          } in
          let (b, r, w) = better-lt d x h best l hinted g in ((some b, false), r, w)
      | inr (inl v) ↦ (
        (some h, true),
        rw (better, v) refl,
        record { before = before; item = x; later = later; split = e; compares = v },
      )
      | inr (inr v) ↦ ((best, false), rw (better, v) refl, g)
    ]

    -- What the search returns.
    pub record Found (d : D) (r : Option (ℕ × Option ℕ × Bool)) : Type 0 where
      pub index : ℕ
      pub best : Option ℕ
      pub equal : Bool
      pub run : r ≡ some (index, best, equal)
      pub bound : index < length q.nodes
      pub vacant : ArenaNode D
      pub here : slot index q.nodes ≡ some vacant
      pub free : vacant.next ≡ unallocated
      pub hint : Hint d es best equal

    module _ (o : Owned size 0 (flags q.nodes) es) (j : ℕ) (l : j < length q.nodes)
        (f : slot j (flags q.nodes) ≡ some false) where
      taken-entry :
          (i : ℕ) (n : ArenaNode D)
          → slot i q.nodes ≡ some n
          → n.next ≢ unallocated
          → (x : D) × (before : List (Entry D)) × (later : List (Entry D)) × (es
              ≡ before ++ (i * size, x) ∷ later)
            × (n.item ≡ some x)
            × (i ≢ j)
      taken-entry i n e h =
          let mark = slot-flags i q.nodes n e ∙ ap some (flag-taken n h) in
          let owner = Owned-has size i (flags q.nodes) es o mark in
          let (before, x, later, split) = has-split (i * size) es owner in
          let m =
            node_at dual size q.nodes before later (i * size) x
              (subst (Chain dual size q.nodes sentinel sentinel) split c) in
          let same : some n ≡ some m.content = sym e ∙ sym (cell-offset s i q.nodes) ∙ m.here in
          (
            x,
            before,
            later,
            split,
            ground (arith, same, m.filled),
            λ z. ground (arith, f, subst (λ k. slot k (flags q.nodes) ≡ some true) z mark),
          )

      replace_run : (d : D) (r r' : Option (ℕ × Option ℕ × Bool)) → r' ≡ r → Found d r → Found d r'
      replace_run d r r' e w = subst (Found d) (sym e) w

      -- Past a slot that is taken.
      search-past :
          (fuel : ℕ) (d : D) (i : ℕ) (best : Option ℕ) (found : Bool) (n : ArenaNode D)
          → slot i q.nodes ≡ some n
          → n.next ≢ unallocated
          → Hint d es best found
          → ((best : Option ℕ) (found : Bool)
              → Hint d es best found
              → Found d (search p size fuel d q ((i + 1) % length q.nodes) best found))
          → Found d (search p size (suc fuel) d q i best found)
      unfolding search
      search-past fuel d i best true n e h g rest =
          let nb : (n.next == unallocated) ≡ false = ground arith in
          replace_run d _ _ (rw (search, e, nb) refl) (rest best true g)
      search-past fuel d i best false n e h g rest =
          let nb : (n.next == unallocated) ≡ false = ground arith in
          let (x, before, later, split, dat, _) = taken-entry i n e h in
          let (r, b, w) = better-Hint d x before later (i * size) best split g in
          replace_run d _ _ (rw (search, e, nb, dat, b) refl) (rest r.0 r.1 w)

      search-Found :
          (fuel : ℕ) (d : D) (i : ℕ) (best : Option ℕ) (found : Bool)
          → i < length q.nodes
          → steps i j (length q.nodes) < fuel
          → Hint d es best found
          → Found d (search p size fuel d q i best found)
      unfolding search
      search-Found zero d i best found k m g = absurd (omega arith)
      search-Found (suc fuel) d i best found k m g =
          let (n, e) = slot_of_lt i q.nodes k in
          elim (Bool-cases (n.next == unallocated)) [
            | inl t ↦ record {
              index = i;
              best = best;
              equal = found;
              run = rw (search, e, t) refl;
              bound = k;
              vacant = n;
              here = e;
              free = ground arith;
              hint = g;
            }
            | inr t ↦
                let h : n.next ≢ unallocated = ground arith in
                let (_, _, _, _, _, ne) = taken-entry i n e h in
                let (k', m') = next-steps i j (length q.nodes) k l ne in
                search-past fuel d i best found n e h g (λ best found g.
                  search-Found fuel d ((i + 1) % length q.nodes) best found k' (omega arith) g)
          ]

      -- With a free slot, the search comes to one.
      pub search-free :
          (d : D) (i : ℕ)
          → i < length q.nodes
          → Found d (search p size (length q.nodes) d q i none false)
      search-free d i k =
          search-Found (length q.nodes) d i none false k (steps_bound i j (length q.nodes) k l) tt
