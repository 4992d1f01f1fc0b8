-- ===== src/Arena/Trait/Update.antt =====
-- `update_node` of `ArenaQueue`: new data in a node, which then goes to where they belong.
use mathlib.Core.Option
use async_priority_lock_rs.Base.{
  ℕ, ◌≡◌, refl, ap, ◌∙◌, inl, inr, Bool, true, false, Option, none, some, List, [], ◌∷◌, ◌++◌,
  arith, if◌then◌else◌, ◌==◌, head?, last?, is_none_or, Bool-cases, bind-some, ◌>>=◌,
  All-append_right,
}
use async_priority_lock_rs.Priority.{Priority, is_gt, is_lt, is_le, is_ge}
use async_priority_lock_rs.Priority.Laws.{IsLawful}
use async_priority_lock_rs.Queue.Order.{Entry, IsSorted, Moved, Moved-stay, FirstFit-Moved}
use async_priority_lock_rs.Arena.{ArenaQueue, sentinel, data_at, prev_for, reposition}
use async_priority_lock_rs.Arena.Cells.{IsSize, data_at_lem}
use async_priority_lock_rs.Arena.Chain.{first, last, Chain, Chain-left, Chain-right, not_sentinel}
use async_priority_lock_rs.Arena.Prev.{prev_for_lem}
use async_priority_lock_rs.Arena.At.{old_at}
use async_priority_lock_rs.Arena.Valid.{Holds}
use async_priority_lock_rs.Arena.Reposition.{Refit, reposition-behind, reposition-head}
use async_priority_lock_rs.Arena.Trait.{maybe_new, settle}
use async_priority_lock_rs.Arena.Trait.Read.{maybe_new-first, last-data}

module _ {D : Type 0} (p : Priority D) where
  -- Whether the entry before is lower, and whether the one behind is higher.
  abbrev lower_before : D → Option (Entry D) → Bool
  lower_before d none = false
  lower_before d (some e) = is_gt (p.compare_to d e.1)

  abbrev higher_behind : D → Option (Entry D) → Bool
  higher_behind d none = false
  higher_behind d (some e) = is_lt (p.compare_to d e.1)

  lower-mapped :
      (d : D) (o : Option (Entry D)) (z : D)
      → Option.map (λ e. e.1) o ≡ some z
      → is_gt (p.compare_to d z) ≡ lower_before d o
  lower-mapped d none z e = cc
  lower-mapped d (some x) z e = ground arith

  behind-first :
      (d : D) (ys : List (Entry D))
      → higher_behind d (head? ys) ≡ true
      → some (first sentinel ys) ≡ Option.map (λ e. e.0) (head? ys)
  behind-first d [] b = cc
  behind-first d (y ∷ ys) b = refl

  not_lower :
      (d : D) (o : Option (Entry D))
      → lower_before d o ≡ false
      → is_none_or o (λ e. is_le (p.compare_to d e.1)) ≡ true
  not_lower d none b = refl
  not_lower d (some e) b = ground arith

  not_higher :
      (d : D) (o : Option (Entry D))
      → higher_behind d o ≡ false
      → is_none_or o (λ e. is_ge (p.compare_to d e.1)) ≡ true
  not_higher d none b = refl
  not_higher d (some e) b = ground arith

abbrev prev_of : {D : Type 0} → List (Entry D) → Option ℕ
prev_of [] = none
prev_of (x ∷ xs) = some (last x.0 xs)

module _ {D : Type 0} (p : Priority D) (dual : Bool) {size : ℕ} (s : IsSize size) (q : ArenaQueue D)
    (h : ℕ) (d : D) where
  prev-found :
      (xs ys : List (Entry D)) (w : Holds dual size q (xs ++ (h, d) ∷ ys))
      → (if h == q.head
          then some none
          else Option.map some (prev_for size dual q (old_at dual size q xs ys h d w).content h))
        ≡ some (prev_of xs)
  prev-found [] ys w =
      let at_head : (h == q.head) ≡ true = ground (arith, w.front) in rw at_head refl
  prev-found (x ∷ xs) ys w =
      let differ = (All-append_right _ xs ((h, d) ∷ ys) w.distinct.0).0 in
      let not_head : (h == q.head) ≡ false = ground (arith, w.front, differ) in
      rw not_head (
        ap (Option.map some) (
          prev_for_lem s dual q _ x xs ys h d w.chain w.distinct w.owned
            (old_at dual size q (x ∷ xs) ys h d w).back))

  above-found :
      (xs ys : List (Entry D))
      → Holds dual size q (xs ++ (h, d) ∷ ys)
      → elim (prev_of xs) [
        | none ↦ some false
        | some prev ↦ (data_at size q prev >>= λ e. some (is_gt (p.compare_to d e)))
      ]
        ≡ some (lower_before p d (last? xs))
  above-found [] ys w = refl
  above-found (x ∷ xs) ys w =
      let t =
        last-data dual s q sentinel h x xs
          (Chain-left dual size q.nodes sentinel sentinel (x ∷ xs) ((h, d) ∷ ys) w.chain) in
      bind-some _ t.1 (ap some (lower-mapped p d (last? (x ∷ xs)) t.0 t.2))

  below-found :
      (ys : List (Entry D)) (v nx : ℕ)
      → Chain dual size q.nodes v sentinel ys
      → nx ≡ first sentinel ys
      → (if nx == sentinel
          then some false
          else (data_at size q nx >>= λ e. some (is_lt (p.compare_to d e))))
        ≡ some (higher_behind p d (head? ys))
  below-found [] v nx c e = rw e refl
  below-found (y ∷ ys) v nx c e =
      rw (e, not_sentinel dual s q.nodes v sentinel y ys c)
        (bind-some _ (data_at_lem s q y.0 c.0.content y.1 c.0.here c.0.filled) refl)

  -- `settle` is a repositioning, unless the data belong where they are.
  settle_lem :
      (xs ys : List (Entry D)) (w : Holds dual size q (xs ++ (h, d) ∷ ys))
      → let n = (old_at dual size q xs ys h d w).content in
        settle p dual size q h d ≡ (
          if lower_before p d (last? xs)
          then reposition p dual size q h (prev_of xs) (maybe_new n.next)
          else (if higher_behind p d (head? ys)
              then reposition p dual size q h (prev_of xs) (some n.next)
              else some q))
  unfolding settle
  settle_lem xs ys w =
      let old = old_at dual size q xs ys h d w in
      bind-some _ old.here (
        bind-some _ (prev-found xs ys w) (
          bind-some _ (above-found xs ys w) (
            bind-some _
              (below-found ys h old.content.next
                (Chain-right dual size q.nodes sentinel sentinel xs ((h, d) ∷ ys) w.chain).1
                old.onward)
              refl)))

-- What an update makes of the block.
pub record Updated {D : Type 0} (p : Priority D) (dual : Bool) (size : ℕ) (es : List (Entry D))
    (h : ℕ) (d : D) (r : Option (ArenaQueue D)) : Type 0 where
  pub queue : ArenaQueue D
  pub new : List (Entry D)
  pub run : r ≡ some queue
  pub holds : Holds dual size queue new
  pub moved : Moved p h d es new

module _ {D : Type 0} (p : Priority D) (law : IsLawful p) (dual : Bool) {size : ℕ} (s : IsSize size)
    (q : ArenaQueue D) (h : ℕ) (d : D) where
  refitted :
      (es : List (Entry D)) (r t : Option (ArenaQueue D))
      → IsSorted p es
      → t ≡ r
      → Refit p s dual es h d r
      → Updated p dual size es h d t
  refitted es r t a e f = record {
    queue = f.queue;
    new = f.new;
    run = e ∙ f.run;
    holds = f.holds;
    moved = FirstFit-Moved law f.fit a;
  }

  -- The data belong where they are.
  stays :
      (xs ys : List (Entry D))
      → Holds dual size q (xs ++ (h, d) ∷ ys)
      → IsSorted p (xs ++ ys)
      → lower_before p d (last? xs) ≡ false
      → higher_behind p d (head? ys) ≡ false
      → Updated p dual size (xs ++ ys) h d (settle p dual size q h d)
  stays xs ys w a b c = record {
    queue = q;
    new = xs ++ (h, d) ∷ ys;
    run = settle_lem p dual s q h d xs ys w ∙ rw (b, c) refl;
    holds = w;
    moved = Moved-stay law h d xs ys a (not_lower p d (last? xs) b) (not_higher p d (head? ys) c);
  }

  settle-head :
      (ys : List (Entry D))
      → Holds dual size q ((h, d) ∷ ys)
      → IsSorted p ys
      → Updated p dual size ys h d (settle p dual size q h d)
  settle-head [] w a = stays [] [] w a refl refl
  settle-head (y ∷ ys) w a = elim (Bool-cases (higher_behind p d (some y))) [
    | inl t ↦
        refitted (y ∷ ys) _ _ a
          (settle_lem p dual s q h d [] (y ∷ ys) w
            ∙ rw t (
                ap (λ k. reposition p dual size q h none (some k))
                  (old_at dual size q [] (y ∷ ys) h d w).onward))
          (reposition-head p s dual q y ys h d w (ground (arith, law.agrees d y.1)))
    | inr f ↦ stays [] (y ∷ ys) w a refl f
  ]

  settle-behind :
      (x : Entry D) (xs ys : List (Entry D))
      → Holds dual size q (x ∷ xs ++ (h, d) ∷ ys)
      → IsSorted p (x ∷ xs ++ ys)
      → Updated p dual size (x ∷ xs ++ ys) h d (settle p dual size q h d)
  settle-behind x xs ys w a =
      let old = old_at dual size q (x ∷ xs) ys h d w in
      let right = Chain-right dual size q.nodes sentinel sentinel (x ∷ xs) ((h, d) ∷ ys) w.chain in
      let behind = ap maybe_new old.onward ∙ maybe_new-first dual s q.nodes h ys right.1 in
      let moves : (nxt : Option ℕ)
          → nxt ≡ Option.map (λ e. e.0) (head? ys)
          → settle p dual size q h d ≡ reposition p dual size q h (some (last x.0 xs)) nxt
          → Updated p dual size (x ∷ xs ++ ys) h d (settle p dual size q h d) =
        λ nxt e r.
          refitted (x ∷ xs ++ ys) _ _ a (r ∙ ap (reposition p dual size q h (some (last x.0 xs))) e)
            (reposition-behind p s dual q x xs ys h d w) in
      elim (Bool-cases (lower_before p d (last? (x ∷ xs)))) [
        | inl t ↦ moves _ behind (settle_lem p dual s q h d (x ∷ xs) ys w ∙ rw t refl)
        | inr f ↦ elim (Bool-cases (higher_behind p d (head? ys))) [
          | inl t ↦
              moves (some old.content.next) (ap some old.onward ∙ behind-first p d ys t)
                (settle_lem p dual s q h d (x ∷ xs) ys w ∙ rw (f, t) refl)
          | inr g ↦ stays (x ∷ xs) ys w a f g
        ]
      ]

  -- `settle` of any entry.
  pub settle-Updated :
      (xs ys : List (Entry D))
      → Holds dual size q (xs ++ (h, d) ∷ ys)
      → IsSorted p (xs ++ ys)
      → Updated p dual size (xs ++ ys) h d (settle p dual size q h d)
  settle-Updated [] ys w a = settle-head ys w a
  settle-Updated (x ∷ xs) ys w a = settle-behind x xs ys w a
