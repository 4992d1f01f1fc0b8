-- ===== src/Queue/Order.antt =====
-- The order of the entries of a queue, and where a new entry belongs in it.
use async_priority_lock_rs.Base.{
  ap, ◌∙◌, All-const, Bool, if◌then◌else◌, ℕ, ◌≡◌, ◌≢◌, sym, subst, lt, eq, true, List, [], ◌∷◌,
  ◌++◌, map, arith, All, All-append, All-append_left, All-append_right, All-mono, refl, is_none_or,
  last?, head?,
}
use async_priority_lock_rs.Priority.{Priority, is_ge, is_le, is_lt}
use async_priority_lock_rs.Priority.Laws.{IsPreorder, IsLawful, ge_of_le}

abbrev pub Entry : Type 0 → Type 0
Entry D = ℕ × D

abbrev pub items : {D : Type 0} → List (Entry D) → List D
items = map (λ e. e.1)

-- What a loop over references does: each entry's atomics change as `f` says, until `f` says to stop.
abbrev pub visit : {D : Type 0} → (D → D × Bool) → List (Entry D) → List (Entry D)
visit f [] = []
visit f ((h, d) ∷ es) = (h, (f d).0) ∷ (if (f d).1 then visit f es else es)

module _ {D : Type 0} where
  -- Higher priorities come first.
  abbrev pub IsSorted : Priority D → List (Entry D) → Type 0
  IsSorted p [] = Unit {0}
  IsSorted p (x ∷ xs) = All (λ y. is_ge (p.compare_to x.1 y.1) ≡ true) xs × IsSorted p xs

  abbrev pub Distinct : List (Entry D) → Type 0
  Distinct [] = Unit {0}
  Distinct (x ∷ xs) = All (λ y. x.0 ≢ y.0) xs × Distinct xs

  -- `new` is `old` with one more entry, behind no lower and before no higher one.
  pub record Moved (p : Priority D) (h : ℕ) (d : D) (old new : List (Entry D)) : Type 0 where
    pub before : List (Entry D)
    pub later : List (Entry D)
    pub split : old ≡ before ++ later
    pub result : new ≡ before ++ (h, d) ∷ later
    pub above : All (λ e. is_le (p.compare_to d e.1) ≡ true) before
    pub below : All (λ e. is_ge (p.compare_to d e.1) ≡ true) later

  -- A queue into which `d` can be put: a pinned part, to all of which `d` is `Less`, and a sorted
  -- part, on which `compare_new` keeps to `compare` wherever that is not `Equal`.
  pub record Accepts (p : Priority D) (d : D) (pinned free : List (Entry D)) : Type 0 where
    pub order : IsPreorder p.compare_to
    pub behind : All (λ e. p.compare_new d e.1 ≡ lt) pinned
    pub agrees : All (λ e. p.compare_to d e.1 ≢ eq → p.compare_new d e.1 ≡ p.compare_to d e.1) free
    pub sorted : IsSorted p free

  -- `d` has gone behind the pinned part, to where it belongs in the rest.
  pub record Enqueued (p : Priority D) (h : ℕ) (d : D) (pinned free new : List (Entry D))
      : Type 0 where
    pub before : List (Entry D)
    pub later : List (Entry D)
    pub split : free ≡ before ++ later
    pub result : new ≡ pinned ++ before ++ (h, d) ∷ later
    pub above : All (λ e. is_le (p.compare_to d e.1) ≡ true) before
    pub below : All (λ e. is_ge (p.compare_to d e.1) ≡ true) later

  -- At the head of the rest stands no higher entry.
  abbrev pub Stops : Priority D → D → List (Entry D) → Type 0
  Stops p d [] = Unit {0}
  Stops p d (y ∷ ys) = is_ge (p.compare_new d y.1) ≡ true

  -- The first place where the new entry fits: every entry before it is higher.
  pub record FirstFit (p : Priority D) (h : ℕ) (d : D) (old new : List (Entry D)) : Type 0 where
    pub before : List (Entry D)
    pub later : List (Entry D)
    pub split : old ≡ before ++ later
    pub result : new ≡ before ++ (h, d) ∷ later
    pub above : All (λ e. is_lt (p.compare_new d e.1) ≡ true) before
    pub stops : Stops p d later

  pub IsSorted-right :
      (p : Priority D) (xs ys : List (Entry D)) → IsSorted p (xs ++ ys) → IsSorted p ys
  IsSorted-right p [] ys s = s
  IsSorted-right p (x ∷ xs) ys s = IsSorted-right p xs ys s.1

module _ {D : Type 0} (p : Priority D) (d : D) where
  -- The part of the first fit that lies behind the pinned entries.
  record Behind (pinned free before later : List (Entry D)) : Type 0 where
    mid : List (Entry D)
    front : before ≡ pinned ++ mid
    rest : free ≡ mid ++ later

  behind :
      (pinned free before later : List (Entry D))
      → All (λ e. p.compare_new d e.1 ≡ lt) pinned
      → pinned ++ free ≡ before ++ later
      → Stops p d later
      → Behind pinned free before later
  behind [] free before later a e s = record { mid = before; front = refl; rest = e }
  behind (x ∷ xs) free [] [] a e s = cc
  behind (x ∷ xs) free [] (y ∷ ys) a e s = absurd (ground (arith, a.0))
  behind (x ∷ xs) free (y ∷ ys) later a e s =
      let r = behind xs free ys later a.1 (ground arith) s in
      record { mid = r.mid; front = ground (arith, r.front); rest = r.rest }

module _ {D : Type 0} {p : Priority D} {d : D} {pinned free : List (Entry D)}
    (acc : Accepts p d pinned free) where
  pub above_fit :
      (xs : List (Entry D))
      → All (λ e. p.compare_to d e.1 ≢ eq → p.compare_new d e.1 ≡ p.compare_to d e.1) xs
      → All (λ e. is_lt (p.compare_new d e.1) ≡ true) xs
      → All (λ e. is_le (p.compare_to d e.1) ≡ true) xs
  above_fit [] a b = tt
  above_fit (x ∷ xs) a b = (ground (arith, a.0), above_fit xs a.1 b.1)

  pub below_fit :
      (xs : List (Entry D))
      → All (λ e. p.compare_to d e.1 ≢ eq → p.compare_new d e.1 ≡ p.compare_to d e.1) xs
      → IsSorted p xs
      → Stops p d xs
      → All (λ e. is_ge (p.compare_to d e.1) ≡ true) xs
  below_fit [] a s t = tt
  below_fit (x ∷ xs) a s t =
      let first : is_ge (p.compare_to d x.1) ≡ true = ground (arith, a.0) in
      (first, All-mono _ _ (λ e. acc.order.trans d x.1 e.1 first) xs s.0)

  -- The first fit is a place where the entry belongs.
  pub FirstFit-Enqueued :
      {h : ℕ} {new : List (Entry D)}
      → FirstFit p h d (pinned ++ free) new
      → Enqueued p h d pinned free new
  FirstFit-Enqueued {h} w =
      let r = behind p d pinned free w.before w.later acc.behind w.split w.stops in
      record {
        before = r.mid;
        later = w.later;
        split = r.rest;
        result = w.result ∙ ap (λ l. l ++ (h, d) ∷ w.later) r.front;
        above =
            above_fit r.mid (All-append_left _ r.mid w.later (subst (All _) r.rest acc.agrees))
              (All-append_right _ pinned r.mid (subst (All _) r.front w.above));
        below =
            below_fit w.later (All-append_right _ r.mid w.later (subst (All _) r.rest acc.agrees))
              (IsSorted-right p r.mid w.later (subst (IsSorted p) r.rest acc.sorted)) w.stops;
      }

module _ {D : Type 0} {p : Priority D} (law : IsLawful p) where
  -- A lawful priority needs no pinned part.
  pub lawful-Accepts : (d : D) (xs : List (Entry D)) → IsSorted p xs → Accepts p d [] xs
  lawful-Accepts d xs s = record {
    order = law.order;
    behind = tt;
    agrees = All-const _ (λ e. law.agrees d e.1) xs;
    sorted = s;
  }

  pub Enqueued-Moved :
      {h : ℕ} {d : D} {old new : List (Entry D)} → Enqueued p h d [] old new → Moved p h d old new
  Enqueued-Moved w = record {
    before = w.before;
    later = w.later;
    split = w.split;
    result = w.result;
    above = w.above;
    below = w.below;
  }

  pub FirstFit-Moved :
      {h : ℕ} {d : D} {old new : List (Entry D)}
      → FirstFit p h d old new
      → IsSorted p old
      → Moved p h d old new
  FirstFit-Moved {d} {old} w s = Enqueued-Moved (FirstFit-Enqueued (lawful-Accepts d old s) w)

module _ {D : Type 0} (p : Priority D) where
  pub IsSorted-insert :
      (xs ys : List (Entry D)) (z : Entry D)
      → IsSorted p (xs ++ ys)
      → All (λ e. is_ge (p.compare_to e.1 z.1) ≡ true) xs
      → All (λ e. is_ge (p.compare_to z.1 e.1) ≡ true) ys
      → IsSorted p (xs ++ z ∷ ys)
  IsSorted-insert [] ys z s above below = (below, s)
  IsSorted-insert (x ∷ xs) ys z s above below = (
    All-append _ xs (z ∷ ys) (All-append_left _ xs ys s.0) (above.0, All-append_right _ xs ys s.0),
    IsSorted-insert xs ys z s.1 above.1 below,
  )

  pub IsSorted-remove :
      (xs ys : List (Entry D)) (z : Entry D) → IsSorted p (xs ++ z ∷ ys) → IsSorted p (xs ++ ys)
  IsSorted-remove [] ys z s = s.1
  IsSorted-remove (x ∷ xs) ys z s = (
    All-append _ xs ys (All-append_left _ xs (z ∷ ys) s.0) (All-append_right _ xs (z ∷ ys) s.0).1,
    IsSorted-remove xs ys z s.1,
  )

module _ {D : Type 0} {p : Priority D} (law : IsLawful p) where
  le_below :
      (d a b : D)
      → is_ge (p.compare_to a b) ≡ true
      → is_le (p.compare_to d b) ≡ true
      → is_le (p.compare_to d a) ≡ true
  le_below d a b h k = ground (arith, law.trans a b d h (ge_of_le law.order d b k), law.swap a d)

  head_below :
      (d : D) (ys : List (Entry D))
      → IsSorted p ys
      → is_none_or (head? ys) (λ e. is_ge (p.compare_to d e.1)) ≡ true
      → All (λ e. is_ge (p.compare_to d e.1) ≡ true) ys
  head_below d [] s h = tt
  head_below d (y ∷ ys) s h = (h, All-mono _ _ (λ e. law.trans d y.1 e.1 h) ys s.0)

  -- A queue that takes an entry in where it belongs stays sorted.
  pub Moved-IsSorted :
      {h : ℕ} {d : D} {old new : List (Entry D)}
      → Moved p h d old new
      → IsSorted p old
      → IsSorted p new
  Moved-IsSorted {h} {d} w s = subst (IsSorted p) (sym w.result) (
      IsSorted-insert p w.before w.later (h, d) (subst (IsSorted p) w.split s)
        (All-mono _ _ (λ e. ge_of_le law.order d e.1) w.before w.above) w.below)

module _ {D : Type 0} {p : Priority D} (law : IsLawful p) where
  last_above :
      (d : D) (xs ys : List (Entry D))
      → IsSorted p (xs ++ ys)
      → is_none_or (last? xs) (λ e. is_le (p.compare_to d e.1)) ≡ true
      → All (λ e. is_le (p.compare_to d e.1) ≡ true) xs
  last_above d [] ys s l = tt
  last_above d (x ∷ []) ys s l = (l, tt)
  last_above d (x ∷ y ∷ xs) ys s l =
      let rest = last_above d (y ∷ xs) ys s.1 l in (le_below law d x.1 y.1 s.0.0 rest.0, rest)

  -- An entry between a last one that is not lower and a first one that is not higher belongs there.
  pub Moved-stay :
      (h : ℕ) (d : D) (xs ys : List (Entry D))
      → IsSorted p (xs ++ ys)
      → is_none_or (last? xs) (λ e. is_le (p.compare_to d e.1)) ≡ true
      → is_none_or (head? ys) (λ e. is_ge (p.compare_to d e.1)) ≡ true
      → Moved p h d (xs ++ ys) (xs ++ (h, d) ∷ ys)
  Moved-stay h d xs ys s l n = record {
    before = xs;
    later = ys;
    split = refl;
    result = refl;
    above = last_above d xs ys s l;
    below = head_below law d ys (IsSorted-right p xs ys s) n;
  }

module _ {D : Type 0} where
  nil-split : (xs ys : List (Entry D)) → [] ≡ xs ++ ys → (xs ≡ []) × (ys ≡ [])
  nil-split [] ys e = (refl, sym e)
  nil-split (x ∷ xs) ys e = cc

  -- An entry put into an empty queue is alone.
  pub Enqueued-nil :
      {p : Priority D} {h : ℕ} {d : D} {new : List (Entry D)}
      → Enqueued p h d [] [] new
      → new ≡ (h, d) ∷ []
  Enqueued-nil {h} {d} w =
      let (b, l) = nil-split w.before w.later w.split in
      w.result ∙ ap (λ xs. xs ++ (h, d) ∷ w.later) b ∙ ap (λ ys. (h, d) ∷ ys) l
