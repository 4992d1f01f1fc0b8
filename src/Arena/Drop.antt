-- ===== src/Arena/Drop.antt =====
-- src/queue/arena.rs: `impl Drop for ArenaQueue`. `checked` is `cfg(debug_assertions)`; a drop that does
-- not panic gives the data it drops, in order, and whether it frees the block. `none` is the drop of
-- data that is not there.
use native.Mathlib.Nat.{div-add-mod'}
use mathlib.Core.List.{Perm}
use mathlib.Core.List.Perm
use async_priority_lock_rs.Base.{
  ℕ, zero, suc, ◌*◌, ◌/◌, ◌≡◌, ◌≢◌, refl, sym, ap, ◌∙◌, subst, Bool, true, false, not, ◌&&◌, Option,
  none, some, List, [], ◌∷◌, arith, if◌then◌else◌, ◌==◌, length, All-mono, ◌>>=◌, bind-some,
  Bool-cases, Option-cases, inl, inr,
}
use async_priority_lock_rs.Queue.Order.{Entry, Distinct, items}
use async_priority_lock_rs.Arena.{ArenaNode, ArenaQueue, sentinel, unallocated, slot, set_slot}
use async_priority_lock_rs.Arena.Cells.{IsSize, flag, flags, cell-slot, flags-put, flag-free}
use async_priority_lock_rs.Arena.Chain.{Chain, first-taken, Chain-frame}
use async_priority_lock_rs.Arena.Owned.{Owner, Owned, Owned-give}
use async_priority_lock_rs.Arena.Valid.{entries, IsValid}

pub data Dropped (D : Type 0) : Type 0 where
  panics : Dropped D
  released : List D → Bool → Dropped D

module _ {D : Type 0} where
  -- The data of the nodes that are taken, in the order of the slots.
  pub live : List (ArenaNode D) → Option (List D)
  live [] = some []
  live (n ∷ ns) =
      live ns >>= λ ds. (if n.next == unallocated then some ds else (n.item >>= λ d. some (d ∷ ds)))

  pub drop_queue : Bool → ArenaQueue D → Option (Dropped D)
  drop_queue checked q =
      if q.used == 0
      then some (released [] (not (length q.nodes == 0)))
      else (if checked
          then some panics
          else (live q.nodes >>= λ ds. some (released ds (not (length q.nodes == 0)))))

  -- What is dropped: these, in any order.
  pub record Drops (ns : List (ArenaNode D)) (ds : List D) : Type 0 where
    pub order : List D
    pub run : live ns ≡ some order
    pub same : Perm order ds

  free-first :
      (n : ArenaNode D) (o : ℕ)
      → Owner {D = D} (flag n) o []
      → (if n.next == unallocated then some [] else (n.item >>= λ d. some (d ∷ []))) ≡ some []
  unfolding flag
  free-first n o a = elim (Bool-cases (n.next == unallocated)) [
    | inl t ↦ rw t refl
    | inr f ↦ cc (subst (λ b. Owner {D = D} (not b) o []) f a)
  ]

  -- No slot is taken.
  live-free :
      (size i : ℕ) (ns : List (ArenaNode D))
      → Owned {D = D} size i (flags ns) []
      → live ns ≡ some []
  unfolding live
  live-free size i [] a = refl
  live-free size i (n ∷ ns) a =
      bind-some _ (live-free size (suc i) ns a.1) (free-first n (i * size) a.0)

  -- What comes of the rest of the block, if something does.
  rest_of :
      (n : ArenaNode D) (r : Option (List D)) (ds : List D)
      → (r >>= λ es. (if n.next == unallocated then some es else (n.item >>= λ d. some (d ∷ es))))
        ≡ some ds
      → (es : List D) × (r ≡ some es)
        × ((if n.next == unallocated then some es else (n.item >>= λ d. some (d ∷ es))) ≡ some ds)
  rest_of n none ds e = absurd cc
  rest_of n (some es) ds e = (es, refl, e)

  -- The node at the front keeps its place.
  keeps :
      (m : ArenaNode D) (ns : List (ArenaNode D)) (d : D) (es ds : List D)
      → (if m.next == unallocated then some es else (m.item >>= λ k. some (k ∷ es))) ≡ some ds
      → Drops ns (d ∷ es)
      → Drops (m ∷ ns) (d ∷ ds)
  unfolding live
  keeps m ns d es ds e t = elim (Bool-cases (m.next == unallocated)) [
    | inl f ↦ record {
      order = t.order;
      run = bind-some _ t.run (rw f refl);
      same = subst (λ l. Perm t.order (d ∷ l)) (ground (arith, f)) t.same;
    }
    | inr f ↦ elim (Option-cases m.item) [
      | inl g ↦ absurd (ground (arith, f, g))
      | inr (k, g) ↦ record {
        order = k ∷ t.order;
        run = bind-some _ t.run (rw (f, g) refl);
        same =
            subst (λ l. Perm (k ∷ t.order) (d ∷ l)) (ground (arith, f, g))
              (Perm.trans (Perm.cons k t.same) (Perm.swap d k es));
      }
    ]
  ]

  -- One taken slot is given back.
  live-slot :
      (j : ℕ) (f : ArenaNode D → ArenaNode D) (ns : List (ArenaNode D)) (n : ArenaNode D) (d : D)
      (ds : List D)
      → slot j ns ≡ some n
      → n.next ≢ unallocated
      → n.item ≡ some d
      → (f n).next ≡ unallocated
      → live (set_slot j f ns) ≡ some ds
      → Drops ns (d ∷ ds)
  unfolding live slot set_slot
  live-slot j f [] n d ds e t i g l = absurd cc
  live-slot zero f (m ∷ ns) n d ds e t i g l =
      let (es, r, h) = rest_of (f m) (live ns) ds l in
      let is : n ≡ m = cc in
      let free : ((f m).next == unallocated) ≡ true = ground (arith, ap (λ k. (f k).next) is) in
      let taken : (m.next == unallocated) ≡ false = ground (arith, ap (λ k. k.next) is) in
      let item : m.item ≡ some d = cc in
      let now : es ≡ ds = ground (arith, free, h) in
      record {
        order = d ∷ es;
        run = bind-some _ r (rw (taken, item) refl);
        same = subst (λ l. Perm (d ∷ es) (d ∷ l)) now Perm.rfl;
      }
  live-slot (suc j) f (m ∷ ns) n d ds e t i g l =
      let (es, r, h) = rest_of m (live (set_slot j f ns)) ds l in
      keeps m ns d es ds h (live-slot j f ns n d es e t i g r)

module _ {D : Type 0} (dual : Bool) {size : ℕ} (s : IsSize size) where
  live-Chain :
      (ns : List (ArenaNode D)) (v : ℕ) (es : List (Entry D))
      → Chain dual size ns v sentinel es
      → Distinct es
      → Owned size 0 (flags ns) es
      → Drops ns (items es)
  live-Chain ns v [] c d o = record { order = []; run = live-free size 0 ns o; same = Perm.rfl }
  live-Chain ns v (x ∷ es) c d o =
      let (h, at) = cell-slot s x.0 ns c.0.content c.0.here in
      let gone : ArenaNode D → ArenaNode D = λ n. record n { next = unallocated; item = none } in
      let t =
        live-Chain (set_slot (x.0 / size) gone ns) x.0 es
          (Chain-frame dual s x.0 gone ns x.0 sentinel es h
            (All-mono _ _ (λ y n e. n (sym e)) es d.0) c.1)
          d.1
          (subst (λ fs. Owned size 0 fs es)
            (sym (flags-put s x.0 gone ns c.0.content false c.0.here (flag-free _ refl)))
            (Owned-give s 0 (x.0 / size) (flags ns) [] es x
              (omega (arith, div-add-mod' x.0 size, h)) o)) in
      let u =
        live-slot (x.0 / size) gone ns c.0.content x.1 t.order at
          (λ e. first-taken dual s ns x.0 sentinel es c.1 (λ e. cc) (sym c.0.onward ∙ e)) c.0.filled
          refl t.run in
      record { order = u.order; run = u.run; same = Perm.trans u.same (Perm.cons x.1 t.same) }

module _ {D : Type 0} where
  released_lem :
      (checked : Bool) (q : ArenaQueue D) (es : List (Entry D))
      → Drops q.nodes (items es)
      → length es ≡ q.used
      → (ds : List D) × (drop_queue checked q
          ≡ some (
              if checked && not (length es == 0)
              then panics
              else released ds (not (length q.nodes == 0))))
        × Perm ds (items es)
  unfolding drop_queue
  released_lem true q [] t l = ([], rw (sym l) refl, Perm.nil)
  released_lem false q [] t l = ([], rw (sym l) refl, Perm.nil)
  released_lem true q (x ∷ es) t l =
      let left : (suc (length es) == 0) ≡ false = ground arith in
      (t.order, rw (sym l, left) refl, t.same)
  released_lem false q (x ∷ es) t l =
      let left : (suc (length es) == 0) ≡ false = ground arith in
      (t.order, rw (sym l, left) (bind-some _ t.run refl), t.same)

module _ {D : Type 0} (dual : Bool) {size : ℕ} (s : IsSize size) (q : ArenaQueue D)
    (v : IsValid dual size q) where
  -- The drop of a well-formed block panics if debug assertions are on and an entry is left. Else it
  -- drops the data of every entry, each once and no other, and frees the block if there is one.
  pub drop_queue-entries :
      (checked : Bool)
      → (ds : List D) × (Perm ds (items (entries size q)))
        × (drop_queue checked q
            ≡ some (
                if checked && not (length (entries size q) == 0)
                then panics
                else released ds (not (length q.nodes == 0))))
  drop_queue-entries checked =
      let t = live-Chain dual s q.nodes sentinel (entries size q) v.chain v.distinct v.owned in
      let (ds, run, same) = released_lem checked q (entries size q) t v.enough in (ds, same, run)
