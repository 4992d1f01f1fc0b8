-- ===== src/Arena/Valid.antt =====
-- When the block of an `ArenaQueue` is well formed, the entries that it holds, and its growth.
use async_priority_lock_rs.Base.{
  ℕ, zero, suc, ◌+◌, ◌<◌, ◌≤◌, ◌≡◌, refl, sym, ap, ◌∙◌, subst, inl, ◌⊎◌, Bool, false, none, some,
  List, [], ◌∷◌, arith, if◌then◌else◌, ◌==◌, length,
}
use async_priority_lock_rs.Queue.Order.{Entry, Distinct}
use async_priority_lock_rs.Arena.{ArenaNode, ArenaQueue, default, sentinel, cell}
use async_priority_lock_rs.Arena.Cells.{IsSize, flags, length-flags, cell-slot, offset-even}
use async_priority_lock_rs.Arena.Chain.{first, Chain}
use async_priority_lock_rs.Arena.Owned.{Owned, count, count-length}

-- How many slots there can be: none, or four doubled some times.
abbrev pub grown : ℕ → ℕ
grown zero = 4
grown (suc k) = grown k + grown k

abbrev pub IsSlots : ℕ → Type 0
IsSlots n = (n ≡ 0) ⊎ ((k : ℕ) × (n ≡ grown k))

module _ {D : Type 0} (dual : Bool) (size : ℕ) where
  -- The block holds the entries `es`: they are linked up in this order from the head on, no other
  -- slot is taken, and `used` counts them.
  pub record Holds (q : ArenaQueue D) (es : List (Entry D)) : Type 0 where
    pub chain : Chain dual size q.nodes sentinel sentinel es
    pub front : q.head ≡ first sentinel es
    pub distinct : Distinct es
    pub owned : Owned size 0 (flags q.nodes) es
    pub counted : count (flags q.nodes) ≡ q.used
    pub enough : length es ≡ q.used
    pub good : (length q.nodes ≡ 0) ⊎ (q.good < length q.nodes)
    pub slots : IsSlots (length q.nodes)

module _ {D : Type 0} (size : ℕ) where
  -- The entries from an offset on.
  pub collect : ℕ → List (ArenaNode D) → ℕ → List (Entry D)
  collect zero ns h = []
  collect (suc fuel) ns h =
      let rest = λ (n : ArenaNode D) (d : D). (h, d) ∷ collect fuel ns n.next in
      if h == sentinel then [] else elim (cell size h ns) [
        | none ↦ []
        | some n ↦ elim n.item [ none ↦ [] | some d ↦ rest n d ]
      ]

  abbrev pub entries : ArenaQueue D → List (Entry D)
  entries q = collect (length q.nodes) q.nodes q.head

module _ {D : Type 0} (dual : Bool) (size : ℕ) where
  -- The block holds the entries that are seen in it.
  abbrev pub IsValid : ArenaQueue D → Type 0
  IsValid q = Holds dual size q (entries size q)

module _ {D : Type 0} (dual : Bool) {size : ℕ} (s : IsSize size) where
  collect-Chain :
      (fuel : ℕ) (ns : List (ArenaNode D)) (v : ℕ) (es : List (Entry D))
      → Chain dual size ns v sentinel es
      → length es ≤ fuel
      → collect size fuel ns (first sentinel es) ≡ es
  unfolding collect
  collect-Chain zero ns v [] c l = refl
  collect-Chain zero ns v (x ∷ es) c l = absurd (omega arith)
  collect-Chain (suc fuel) ns v [] c l = refl
  collect-Chain (suc fuel) ns v (x ∷ es) c l =
      let (ne, _) = offset-even s x.0 (cell-slot s x.0 ns c.0.content c.0.here).0 in
      let nb : (x.0 == sentinel) ≡ false = ground arith in
      rw (nb, c.0.here, c.0.filled, c.0.onward)
        (ap (λ l. x ∷ l) (collect-Chain fuel ns x.0 es c.1 (omega arith)))

  pub length-Holds :
      (q : ArenaQueue D) (es : List (Entry D)) → Holds dual size q es → length es ≤ length q.nodes
  length-Holds q es w =
      omega (arith, w.enough, w.counted, count-length (flags q.nodes), length-flags q.nodes)

  pub Holds-entries :
      (q : ArenaQueue D) (es : List (Entry D)) → Holds dual size q es → entries size q ≡ es
  Holds-entries q es w =
      ap (collect size (length q.nodes) q.nodes) w.front
      ∙ collect-Chain (length q.nodes) q.nodes sentinel es w.chain (length-Holds q es w)

  pub default-Holds : Holds {D = D} dual size default []
  default-Holds = record {
    chain = tt;
    front = refl;
    distinct = tt;
    owned = tt;
    counted = refl;
    enough = refl;
    good = inl refl;
    slots = inl refl;
  }

  pub Holds-IsValid :
      (q : ArenaQueue D) (es : List (Entry D)) → Holds dual size q es → IsValid dual size q
  Holds-IsValid q es w = subst (Holds dual size q) (sym (Holds-entries q es w)) w

  pub IsValid-Holds :
      (q : ArenaQueue D) (es : List (Entry D))
      → IsValid dual size q
      → entries size q ≡ es
      → Holds dual size q es
  IsValid-Holds q es w e = subst (Holds dual size q) e w
