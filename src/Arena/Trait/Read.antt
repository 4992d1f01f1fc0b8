-- ===== src/Arena/Trait/Read.antt =====
-- The methods of `ArenaQueue` that only read, on a block that holds entries.
use mathlib.Core.Option
use async_priority_lock_rs.Base.{
  ℕ, zero, suc, ◌≤◌, ◌≡◌, refl, ap, ◌∙◌, Bool, none, some, List, [], ◌∷◌, ◌++◌, arith, length,
  length-append, head?, last?, bind-some,
}
use async_priority_lock_rs.Queue.Order.{Entry, items}
use async_priority_lock_rs.Arena.{ArenaNode, ArenaQueue, sentinel, data_at}
use async_priority_lock_rs.Arena.Cells.{IsSize, data_at_lem}
use async_priority_lock_rs.Arena.Chain.{first, last, Chain, Chain-right, not_sentinel}
use async_priority_lock_rs.Arena.Cut.{node_at}
use async_priority_lock_rs.Arena.Valid.{Holds, length-Holds}
use async_priority_lock_rs.Arena.Trait.{
  maybe_new, get_by_handle, head_handle, get_next_handle, iterate, iter_at,
}

module _ {D : Type 0} (dual : Bool) {size : ℕ} (s : IsSize size) where
  pub maybe_new-first :
      (ns : List (ArenaNode D)) (v : ℕ) (es : List (Entry D))
      → Chain dual size ns v sentinel es
      → maybe_new (first sentinel es) ≡ Option.map (λ e. e.0) (head? es)
  unfolding maybe_new
  maybe_new-first ns v [] c = refl
  maybe_new-first ns v (x ∷ es) c = rw (not_sentinel dual s ns v sentinel x es c) refl

  -- The data at the end of a stretch.
  pub last-data :
      (q : ArenaQueue D) (v e : ℕ) (x : Entry D) (xs : List (Entry D))
      → Chain dual size q.nodes v e (x ∷ xs)
      → (d : D) × (data_at size q (last x.0 xs) ≡ some d)
        × (Option.map (λ e. e.1) (last? (x ∷ xs)) ≡ some d)
  last-data q v e x [] c = (x.1, data_at_lem s q x.0 c.0.content x.1 c.0.here c.0.filled, refl)
  last-data q v e x (y ∷ ys) c = last-data q x.0 e y ys c.1

  pub iterate_lem :
      (fuel : ℕ) (q : ArenaQueue D) (v : ℕ) (es : List (Entry D))
      → Chain dual size q.nodes v sentinel es
      → length es ≤ fuel
      → iterate size fuel q (first sentinel es) ≡ some (items es)
  unfolding iterate
  iterate_lem zero q v [] c l = refl
  iterate_lem zero q v (x ∷ es) c l = absurd (omega arith)
  iterate_lem (suc fuel) q v [] c l = refl
  iterate_lem (suc fuel) q v (x ∷ es) c l = rw (not_sentinel dual s q.nodes v sentinel x es c) (
      bind-some _ c.0.here (
        bind-some _ c.0.filled (
          bind-some _
            (ap (iterate size fuel q) c.0.onward ∙ iterate_lem fuel q x.0 es c.1 (omega arith))
            refl)))

  module _ (q : ArenaQueue D) (es : List (Entry D)) (w : Holds dual size q es) where
    pub head_handle_lem : head_handle q ≡ Option.map (λ e. e.0) (head? es)
    unfolding head_handle
    head_handle_lem = ap maybe_new w.front ∙ maybe_new-first q.nodes sentinel es w.chain

    pub iter_at-none : iter_at size q none ≡ some (items es)
    unfolding iter_at
    iter_at-none =
        ap (iterate size (suc (length q.nodes)) q) w.front
        ∙ iterate_lem (suc (length q.nodes)) q sentinel es w.chain
            (omega (arith, length-Holds dual s q es w))

  module _ (q : ArenaQueue D) (xs ys : List (Entry D)) (h : ℕ) (d : D)
      (w : Holds dual size q (xs ++ (h, d) ∷ ys)) where
    pub get_by_handle_lem : get_by_handle size q h ≡ some d
    unfolding get_by_handle
    get_by_handle_lem =
        let n = node_at dual size q.nodes xs ys h d w.chain in
        data_at_lem s q h n.content d n.here n.filled

    pub get_next_handle_lem : get_next_handle size q h ≡ some (Option.map (λ e. e.0) (head? ys))
    unfolding get_next_handle
    get_next_handle_lem =
        let n = node_at dual size q.nodes xs ys h d w.chain in
        let r = Chain-right dual size q.nodes sentinel sentinel xs ((h, d) ∷ ys) w.chain in
        ap (Option.map (λ n. maybe_new n.next)) n.here
        ∙ ap (λ k. some (maybe_new k)) n.onward
        ∙ ap some (maybe_new-first q.nodes h ys r.1)

    pub iter_at-some : iter_at size q (some h) ≡ some (items ((h, d) ∷ ys))
    unfolding iter_at
    iter_at-some =
        let r = Chain-right dual size q.nodes sentinel sentinel xs ((h, d) ∷ ys) w.chain in
        iterate_lem (suc (length q.nodes)) q (last sentinel xs) ((h, d) ∷ ys) r
          (omega (arith, length-Holds dual s q _ w, length-append xs ((h, d) ∷ ys)))
