-- ===== src/Queue/Hints.antt =====
-- A new entry that is put in behind an entry that it is not higher than, instead of from the head on.
use mathlib.Core.List.{append_assoc}
use async_priority_lock_rs.Base.{
  ℕ, ◌≡◌, refl, sym, ap, ◌∙◌, subst, ◌⊎◌, inl, inr, lt, eq, true, List, [], ◌∷◌, ◌++◌, arith, All,
  All-append, All-append_left, All-append_right, All-mono,
}
use async_priority_lock_rs.Priority.{Priority, is_ge, is_le, is_lt}
use async_priority_lock_rs.Priority.Laws.{ge_of_le}
use async_priority_lock_rs.Queue.Order.{
  Entry, IsSorted, IsSorted-right, Accepts, Enqueued, Stops, FirstFit-Enqueued, above_fit,
  below_fit,
}

module _ {D : Type 0} where
  -- An entry of a list in two parts is in the first or in the second.
  split-cases :
      (pinned free before later : List (Entry D)) (z : Entry D)
      → pinned ++ free ≡ before ++ z ∷ later
      → ((mid : List (Entry D)) × (pinned ≡ before ++ z ∷ mid))
        ⊎ ((mid : List (Entry D)) × (before ≡ pinned ++ mid) × (free ≡ mid ++ z ∷ later))
  split-cases [] free before later z e = inr (before, refl, e)
  split-cases (x ∷ xs) free [] later z e = inl (xs, ap (λ k. k ∷ xs) (ground arith))
  split-cases (x ∷ xs) free (y ∷ ys) later z e =
      elim (split-cases xs free ys later z (ground arith)) [
        | inl (mid, h) ↦ inl (mid, ground (arith, h))
        | inr (mid, h, k) ↦ inr (mid, ground (arith, h), k)
      ]

  cons-append :
      (xs ys zs : List (Entry D)) (b : Entry D) → xs ++ b ∷ (ys ++ zs) ≡ xs ++ b ∷ ys ++ zs
  cons-append xs ys zs b = sym (append_assoc xs (b ∷ ys) zs)

  pub IsSorted-before :
      (p : Priority D) (xs ys : List (Entry D)) (z : Entry D)
      → IsSorted p (xs ++ z ∷ ys)
      → All (λ e. is_ge (p.compare_to e.1 z.1) ≡ true) xs
  IsSorted-before p [] ys z s = tt
  IsSorted-before p (x ∷ xs) ys z s =
      ((All-append_right _ xs (z ∷ ys) s.0).0, IsSorted-before p xs ys z s.1)

module _ {D : Type 0} {p : Priority D} {d : D} {pinned free : List (Entry D)}
    (acc : Accepts p d pinned free) where
  above_hint :
      (b : Entry D) (mid later : List (Entry D))
      → free ≡ mid ++ b ∷ later
      → is_le (p.compare_to d b.1) ≡ true
      → All (λ e. is_le (p.compare_to d e.1) ≡ true) (mid ++ b ∷ [])
  above_hint b mid later e h =
      All-append _ mid (b ∷ [])
        (All-mono _ _
          (λ x g.
            ground (
              arith,
              acc.order.trans x.1 b.1 d g (ge_of_le acc.order d b.1 h),
              acc.order.swap x.1 d,
            ))
          mid (IsSorted-before p mid later b (subst (IsSorted p) e acc.sorted)))
        (h, tt)

  module _ (h : ℕ) (before later : List (Entry D)) (b : Entry D)
      (e : pinned ++ free ≡ before ++ b ∷ later) where
    at_pinned :
        (mid xs ys : List (Entry D))
        → before ≡ pinned ++ mid
        → before ++ b ∷ xs ++ ys ≡ pinned ++ (mid ++ b ∷ xs) ++ ys
    at_pinned mid xs ys f =
        ap (λ k. k ++ b ∷ xs ++ ys) f ∙ ap (λ k. k ++ ys) (append_assoc pinned mid (b ∷ xs))

    at_later :
        (xs over rest : List (Entry D))
        → later ≡ over ++ rest
        → xs ++ b ∷ later ≡ xs ++ b ∷ over ++ rest
    at_later xs over rest l = ap (λ k. xs ++ b ∷ k) l ∙ cons-append xs over rest b

    -- Behind an entry to which it is `Less`, at the first place where it fits.
    pub hint-Enqueued :
        (over rest new : List (Entry D))
        → p.compare_new d b.1 ≡ lt
        → later ≡ over ++ rest
        → All (λ e. is_lt (p.compare_new d e.1) ≡ true) over
        → Stops p d rest
        → new ≡ before ++ b ∷ over ++ (h, d) ∷ rest
        → Enqueued p h d pinned free new
    hint-Enqueued over rest new c l a s r = elim (split-cases pinned free before later b e) [
      | inl (mid, f) ↦
          let front = All-append_left _ before (b ∷ mid) (subst (All _) f acc.behind) in
          FirstFit-Enqueued acc (record {
            before = before ++ b ∷ over;
            later = rest;
            split = e ∙ at_later before over rest l;
            result = r;
            above =
                All-append _ before (b ∷ over) (All-mono _ _ (λ x z. rw z refl) before front)
                  (rw c refl, a);
            stops = s;
          })
      | inr (mid, f, g) ↦
          let agrees = All-append_right _ mid (b ∷ later) (subst (All _) g acc.agrees) in
          let agrees_later = subst (All _) l agrees.1 in
          let le : is_le (p.compare_to d b.1) ≡ true = ground (arith, agrees.0) in
          let front = above_hint b mid later g le in
          record {
            before = mid ++ b ∷ over;
            later = rest;
            split = g ∙ at_later mid over rest l;
            result = r ∙ at_pinned mid over ((h, d) ∷ rest) f;
            above =
                All-append _ mid (b ∷ over) (All-append_left _ mid (b ∷ []) front)
                  (le, above_fit acc over (All-append_left _ over rest agrees_later) a);
            below =
                below_fit acc rest (All-append_right _ over rest agrees_later)
                  (IsSorted-right p over rest (
                    subst (IsSorted p) l
                      (IsSorted-right p mid (b ∷ later) (subst (IsSorted p) g acc.sorted)).1))
                  s;
          }
    ]

    -- Right behind an entry with which it compares as `Equal`.
    pub equal-Enqueued :
        (new : List (Entry D))
        → p.compare_new d b.1 ≡ eq
        → new ≡ before ++ b ∷ [] ++ (h, d) ∷ later
        → Enqueued p h d pinned free new
    equal-Enqueued new c r = elim (split-cases pinned free before later b e) [
      | inl (mid, f) ↦ absurd (
          let same = (All-append_right _ before (b ∷ mid) (subst (All _) f acc.behind)).0 in
          ground arith)
      | inr (mid, f, g) ↦
          let agrees = All-append_right _ mid (b ∷ later) (subst (All _) g acc.agrees) in
          let same : p.compare_to d b.1 ≡ eq = ground (arith, agrees.0) in
          let sorted = IsSorted-right p mid (b ∷ later) (subst (IsSorted p) g acc.sorted) in
          record {
            before = mid ++ b ∷ [];
            later = later;
            split = g ∙ at_later mid [] later refl;
            result = r ∙ at_pinned mid [] ((h, d) ∷ later) f;
            above = above_hint b mid later g (rw same refl);
            below = All-mono _ _ (λ x. acc.order.trans d b.1 x.1 (rw same refl)) later sorted.0;
          }
    ]

module _ {D : Type 0} where
  -- Where a search from the head, or from a hint, puts a new entry: behind `us`, before `ws`.
  pub data Fits (p : Priority D) (d : D) (us ws : List (Entry D)) : Type 0 where
    first : All (λ e. is_lt (p.compare_new d e.1) ≡ true) us → Stops p d ws → Fits p d us ws
    behind :
        (before over : List (Entry D)) (b : Entry D)
        → us ≡ before ++ b ∷ over
        → p.compare_new d b.1 ≡ lt
        → All (λ e. is_lt (p.compare_new d e.1) ≡ true) over
        → Stops p d ws
        → Fits p d us ws
    equal :
        (before : List (Entry D)) (b : Entry D)
        → us ≡ before ++ b ∷ []
        → p.compare_new d b.1 ≡ eq
        → Fits p d us ws

  -- All of these are places where the entry belongs.
  pub Fits-Enqueued :
      {p : Priority D} {d : D} {pinned free : List (Entry D)} (h : ℕ) (us ws : List (Entry D))
      → Accepts p d pinned free
      → pinned ++ free ≡ us ++ ws
      → Fits p d us ws
      → Enqueued p h d pinned free (us ++ (h, d) ∷ ws)
  Fits-Enqueued h us ws acc e (Fits.first a s) =
      FirstFit-Enqueued acc
        (record { before = us; later = ws; split = e; result = refl; above = a; stops = s })
  Fits-Enqueued {d} h us ws acc e (Fits.behind before over b f c a s) =
      hint-Enqueued acc h before (over ++ ws) b
        (e ∙ ap (λ k. k ++ ws) f ∙ append_assoc before (b ∷ over) ws) over ws _ c refl a s
        (ap (λ k. k ++ (h, d) ∷ ws) f)
  Fits-Enqueued {d} h us ws acc e (Fits.equal before b f c) =
      equal-Enqueued acc h before ws b (e ∙ ap (λ k. k ++ ws) f ∙ append_assoc before (b ∷ []) ws) _
        c (ap (λ k. k ++ (h, d) ∷ ws) f)
