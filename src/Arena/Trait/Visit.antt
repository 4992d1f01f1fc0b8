-- ===== src/Arena/Trait/Visit.antt =====
-- What an `ArenaQueue` makes of changes of its data through references.
use mathlib.Core.List.{append_assoc}
use async_priority_lock_rs.Base.{
  ℕ, zero, suc, ◌≤◌, ◌≡◌, refl, sym, ap, ◌∙◌, subst, inl, inr, Bool, Option, none, some, List, [],
  ◌∷◌, ◌++◌, arith, if◌then◌else◌, length, length-append, bind-some, Bool-cases,
}
use async_priority_lock_rs.Queue.Order.{Entry, visit}
use async_priority_lock_rs.Arena.{ArenaQueue, sentinel}
use async_priority_lock_rs.Arena.Cells.{IsSize}
use async_priority_lock_rs.Arena.Chain.{first, last, Chain-right, not_sentinel}
use async_priority_lock_rs.Arena.At.{old_at}
use async_priority_lock_rs.Arena.Valid.{Holds, length-Holds}
use async_priority_lock_rs.Arena.Replace.{with_item, write-item, read-item, replaced-Holds}
use async_priority_lock_rs.Arena.Trait.{with_ref, visit_from, for_each}

module _ {D : Type 0} (dual : Bool) {size : ℕ} (s : IsSize size) where
  -- What a loop leaves behind.
  pub record Visited (es : List (Entry D)) (r : Option (ArenaQueue D)) : Type 0 where
    pub queue : ArenaQueue D
    pub run : r ≡ some queue
    pub holds : Holds dual size queue es

  pub with_ref-Visited :
      (q : ArenaQueue D) (xs ys : List (Entry D)) (h : ℕ) (d : D) (f : D → D)
      → Holds dual size q (xs ++ (h, d) ∷ ys)
      → Visited (xs ++ (h, f d) ∷ ys) (with_ref size q h f)
  unfolding with_ref
  with_ref-Visited q xs ys h d f w = record {
    queue = with_item size q h (f d);
    run = bind-some _ (read-item dual s q xs ys h d d w) (write-item dual s q xs ys h d (f d) w);
    holds = replaced-Holds dual s q xs ys h d (f d) w;
  }

  visit_from-Visited :
      (fuel : ℕ) (q : ArenaQueue D) (xs es : List (Entry D)) (f : D → D × Bool)
      → Holds dual size q (xs ++ es)
      → length es ≤ fuel
      → Visited (xs ++ visit f es) (visit_from size fuel q (first sentinel es) f)
  unfolding visit_from
  visit_from-Visited zero q xs [] f w l = record { queue = q; run = refl; holds = w }
  visit_from-Visited zero q xs (x ∷ es) f w l = absurd (omega arith)
  visit_from-Visited (suc fuel) q xs [] f w l = record { queue = q; run = refl; holds = w }
  visit_from-Visited (suc fuel) q xs ((h, d) ∷ es) f w l =
      let n = old_at dual size q xs es h d w in
      let e = (f d).0 in
      let c = Chain-right dual size q.nodes sentinel sentinel xs ((h, d) ∷ es) w.chain in
      let nb = not_sentinel dual s q.nodes (last sentinel xs) sentinel (h, d) es c in
      let q1 = with_item size q h e in
      let w1 = replaced-Holds dual s q xs es h d e w in
      elim (Bool-cases (f d).1) [
        | inl t ↦
            let r =
              visit_from-Visited fuel q1 (xs ++ (h, e) ∷ []) es f
                (subst (Holds dual size q1) (sym (append_assoc xs ((h, e) ∷ []) es)) w1)
                (omega arith) in
            record {
              queue = r.queue;
              run = rw nb (
                  bind-some _ n.here (
                    bind-some _ n.filled (
                      bind-some _ (write-item dual s q xs es h d e w)
                        (rw t (ap (λ k. visit_from size fuel q1 k f) n.onward ∙ r.run)))));
              holds =
                  subst (Holds dual size r.queue)
                    (append_assoc xs ((h, e) ∷ []) (visit f es)
                      ∙ ap (λ b. xs ++ (h, e) ∷ (if b then visit f es else es)) (sym t))
                    r.holds;
            }
        | inr t ↦ record {
          queue = q1;
          run = rw nb (
              bind-some _ n.here (
                bind-some _ n.filled
                  (bind-some _ (write-item dual s q xs es h d e w) (rw t refl))));
          holds =
              subst (Holds dual size q1)
                (ap (λ b. xs ++ (h, e) ∷ (if b then visit f es else es)) (sym t)) w1;
        }
      ]

  module _ (q : ArenaQueue D) (f : D → D × Bool) where
    pub for_each-none :
        (es : List (Entry D)) → Holds dual size q es → Visited (visit f es) (for_each size q none f)
    unfolding for_each
    for_each-none es w =
        let r =
          visit_from-Visited (suc (length q.nodes)) q [] es f w
            (omega (arith, length-Holds dual s q es w)) in
        record {
          queue = r.queue;
          run = ap (λ k. visit_from size (suc (length q.nodes)) q k f) w.front ∙ r.run;
          holds = r.holds;
        }

    pub for_each-some :
        (xs ys : List (Entry D)) (h : ℕ) (d : D)
        → Holds dual size q (xs ++ (h, d) ∷ ys)
        → Visited (xs ++ visit f ((h, d) ∷ ys)) (for_each size q (some h) f)
    unfolding for_each
    for_each-some xs ys h d w =
        visit_from-Visited (suc (length q.nodes)) q xs ((h, d) ∷ ys) f w
          (omega (arith, length-Holds dual s q _ w, length-append xs ((h, d) ∷ ys)))
