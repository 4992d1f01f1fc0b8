-- ===== src/Arena/Growth.antt =====
-- `expand` of `ArenaQueue`: more slots, none of them taken, and the same entries.
use async_priority_lock_rs.Base.{
  ℕ, zero, suc, ◌+◌, ◌/◌, ◌<◌, ◌≡◌, refl, sym, ap, ◌∙◌, subst, inl, inr, Bool, none, some, List, [],
  ◌∷◌, ◌++◌, arith, if◌then◌else◌, ◌==◌, length, length-append,
}
use async_priority_lock_rs.Queue.Order.{Entry}
use async_priority_lock_rs.Arena.{
  ArenaNode, ArenaQueue, sentinel, unallocated, slot, cell, fresh_nodes, expand,
}
use async_priority_lock_rs.Arena.Cells.{flags, flag-free}
use async_priority_lock_rs.Arena.Chain.{Chain}
use async_priority_lock_rs.Arena.Owned.{Owned, count}
use async_priority_lock_rs.Arena.Valid.{Holds, IsSlots, grown}

grown-positive : (k : ℕ) → 0 < grown k
grown-positive zero = omega arith
grown-positive (suc k) = omega (arith, grown-positive k)

IsSlots-grown : (n : ℕ) → IsSlots n → IsSlots (n + (if n == 0 then 4 else n))
IsSlots-grown n (inl e) = inr (0, rw e refl)
IsSlots-grown n (inr (k, e)) = inr (suc k, ground (arith, grown-positive k))

length-fresh_nodes : (D : Type 0) (k : ℕ) → length (fresh_nodes {D = D} k) ≡ k
unfolding fresh_nodes
length-fresh_nodes D zero = refl
length-fresh_nodes D (suc k) = ap suc (length-fresh_nodes D k)

module _ {D : Type 0} where
  slot-append :
      (i : ℕ) (ns ms : List (ArenaNode D)) (n : ArenaNode D)
      → slot i ns ≡ some n
      → slot i (ns ++ ms) ≡ some n
  unfolding slot
  slot-append i [] ms n e = cc
  slot-append zero (m ∷ ns) ms n e = e
  slot-append (suc i) (m ∷ ns) ms n e = slot-append i ns ms n e

  cell-append :
      (size o : ℕ) (ns ms : List (ArenaNode D)) (n : ArenaNode D)
      → cell size o ns ≡ some n
      → cell size o (ns ++ ms) ≡ some n
  unfolding cell
  cell-append size o ns ms n e = ground (arith, slot-append (o / size) ns ms n)

  Chain-grown :
      (dual : Bool) (size : ℕ) (ns ms : List (ArenaNode D)) (v e : ℕ) (es : List (Entry D))
      → Chain dual size ns v e es
      → Chain dual size (ns ++ ms) v e es
  Chain-grown dual size ns ms v e [] c = tt
  Chain-grown dual size ns ms v e (x ∷ es) c = (
    record {
      content = c.0.content;
      here = cell-append size x.0 ns ms c.0.content c.0.here;
      onward = c.0.onward;
      filled = c.0.filled;
      back = c.0.back;
    },
    Chain-grown dual size ns ms x.0 e es c.1,
  )

  -- No fresh slot is taken.
  count-fresh :
      (ns : List (ArenaNode D)) (k : ℕ) → count (flags (ns ++ fresh_nodes k)) ≡ count (flags ns)
  unfolding fresh_nodes
  count-fresh [] zero = refl
  count-fresh [] (suc k) =
      rw (flag-free {D = D} (record { next = unallocated; prev = 0; item = none }) refl)
        (count-fresh [] k)
  count-fresh (n ∷ ns) k = ground (arith, count-fresh ns k)

  Owned-fresh :
      (size i : ℕ) (ns : List (ArenaNode D)) (k : ℕ) (es : List (Entry D))
      → Owned size i (flags ns) es
      → Owned size i (flags (ns ++ fresh_nodes k)) es
  unfolding fresh_nodes
  Owned-fresh size i [] zero es a = tt
  Owned-fresh size i [] (suc k) es a = (
    rw (flag-free {D = D} (record { next = unallocated; prev = 0; item = none }) refl) tt,
    Owned-fresh size (suc i) [] k es tt,
  )
  Owned-fresh size i (n ∷ ns) k es a = (a.0, Owned-fresh size (suc i) ns k es a.1)

  -- Growth of a full block leaves its entries alone, and a slot free.
  pub expand-Holds :
      (dual : Bool) (size : ℕ) (q : ArenaQueue D) (es : List (Entry D))
      → Holds dual size q es
      → Holds dual size (expand q) es
        × (length q.nodes < length (expand q).nodes)
        × ((expand q).used ≡ q.used)
  unfolding expand
  expand-Holds dual size q es w =
      let k = if length q.nodes == 0 then 4 else length q.nodes in
      let len : length (q.nodes ++ fresh_nodes k) ≡ length q.nodes + k =
        length-append q.nodes (fresh_nodes k)
        ∙ ap (λ l. length q.nodes + l) (length-fresh_nodes D k) in
      let more : length q.nodes < length (q.nodes ++ fresh_nodes k) = ground (arith, len) in
      (
        record {
          chain = Chain-grown dual size q.nodes (fresh_nodes k) sentinel sentinel es w.chain;
          front = w.front;
          distinct = w.distinct;
          owned = Owned-fresh size 0 q.nodes k es w.owned;
          counted = count-fresh q.nodes k ∙ w.counted;
          enough = w.enough;
          good = inr more;
          slots = subst IsSlots (sym len) (IsSlots-grown (length q.nodes) w.slots);
        },
        more,
        refl,
      )
