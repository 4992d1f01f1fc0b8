-- ===== src/Arena/Trait/Refines.antt =====
-- The methods of `ArenaQueue`, single or dual linked, keep the contract of `PriorityQueue`.
use mathlib.Core.Option
use async_priority_lock_rs.Base.{
  ℕ, ◌≡◌, refl, sym, ◌∙◌, subst, Bool, true, false, Option, some, List, ◌∷◌, ◌++◌, head?, last?,
  bind-some, if◌then◌else◌,
}
use async_priority_lock_rs.Priority.{Priority}
use async_priority_lock_rs.Priority.Laws.{IsLawful}
use async_priority_lock_rs.Queue.Order.{Entry, IsSorted, Accepts, Enqueued, Moved}
use async_priority_lock_rs.Queue.Hints.{Fits-Enqueued}
use async_priority_lock_rs.Arena.{ArenaQueue}
use async_priority_lock_rs.Arena.Cells.{IsSize}
use async_priority_lock_rs.Arena.Valid.{
  entries, IsValid, Holds-entries, Holds-IsValid, IsValid-Holds,
}
use async_priority_lock_rs.Arena.Replace.{with_item, write-item, read-item, replaced-Holds}
use async_priority_lock_rs.Arena.Trait.{enqueue, dequeue, update_node, settle}
use async_priority_lock_rs.Arena.Trait.Enqueue.{enqueue-Put}
use async_priority_lock_rs.Arena.Trait.Taken.{dequeue-Taken}
use async_priority_lock_rs.Arena.Trait.Update.{settle-Updated}

module _ {D : Type 0} (p : Priority D) (dual : Bool) {size : ℕ} (s : IsSize size) (q : ArenaQueue D)
    (v : IsValid dual size q) where
  -- `enqueue` on a well-formed block, in which the new entry is less than a first part of the
  -- entries and the rest is sorted and compared with as `compare` says, never faults and puts the new
  -- entry behind that part, behind no lower and before no higher entry of the rest, with the others
  -- as they were and the block well formed.
  pub enqueue-arena :
      (d : D) (pinned free : List (Entry D))
      → entries size q ≡ pinned ++ free
      → Accepts p d pinned free
      → (q' : ArenaQueue D) × (h : ℕ) × (enqueue p dual size q d ≡ some (q', h))
        × Enqueued p h d pinned free (entries size q')
        × IsValid dual size q'
  enqueue-arena d pinned free e acc =
      let t = enqueue-Put p dual s q (pinned ++ free) d (IsValid-Holds dual s q _ v e) in
      (
        t.queue,
        t.handle,
        t.run,
        subst (Enqueued p t.handle d pinned free) (sym (Holds-entries dual s t.queue _ t.holds))
            (Fits-Enqueued t.handle t.before t.later acc t.split t.fits),
        Holds-IsValid dual s t.queue _ t.holds,
      )

  -- `dequeue` of any entry of a well-formed block takes out that entry alone, returns the data
  -- before it and the handle of the entry behind it, and leaves a well-formed block.
  pub dequeue-arena :
      (xs ys : List (Entry D)) (h : ℕ) (d : D)
      → entries size q ≡ xs ++ (h, d) ∷ ys
      → (q' : ArenaQueue D) × (dequeue dual size q h
          ≡ some (q', Option.map (λ e. e.1) (last? xs), Option.map (λ e. e.0) (head? ys)))
        × (entries size q' ≡ xs ++ ys)
        × IsValid dual size q'
  dequeue-arena xs ys h d e =
      let t = dequeue-Taken dual s q xs ys h d (IsValid-Holds dual s q _ v e) in
      (
        t.queue,
        t.run,
        Holds-entries dual s t.queue _ t.holds,
        Holds-IsValid dual s t.queue _ t.holds,
      )

  -- What is enqueued into a well-formed block, with any priority, is dequeued by its handle again:
  -- the entries are those from before, and the block is well formed.
  pub enqueue-dequeue :
      (d : D)
      → (q1 : ArenaQueue D) × (h : ℕ) × (q2 : ArenaQueue D) × (before : Option D) × (next : Option
          ℕ)
        × (enqueue p dual size q d ≡ some (q1, h))
        × (dequeue dual size q1 h ≡ some (q2, before, next))
        × (entries size q2 ≡ entries size q)
        × IsValid dual size q2
  enqueue-dequeue d =
      let t = enqueue-Put p dual s q (entries size q) d v in
      let u = dequeue-Taken dual s t.queue t.before t.later t.handle d t.holds in
      (
        t.queue,
        t.handle,
        u.queue,
        Option.map (λ e. e.1) (last? t.before),
        Option.map (λ e. e.0) (head? t.later),
        t.run,
        u.run,
        Holds-entries dual s u.queue _ u.holds ∙ sym t.split,
        Holds-IsValid dual s u.queue _ u.holds,
      )

  module _ (xs ys : List (Entry D)) (h : ℕ) (d e : D) (f : D → D × Bool)
      (a : entries size q ≡ xs ++ (h, d) ∷ ys) where
    updated-run :
        (b : Bool)
        → f d ≡ (e, b)
        → update_node p dual size q h f ≡ (
            if b
            then settle p dual size (with_item size q h e) h e
            else some (with_item size q h e))
    unfolding update_node
    updated-run b g =
        let w = IsValid-Holds dual s q _ v a in
        bind-some _ (read-item dual s q xs ys h d e w)
          (rw g (bind-some _ (write-item dual s q xs ys h d e w) refl))

    pub update_node-in_place :
        f d ≡ (e, false)
        → (q' : ArenaQueue D) × (update_node p dual size q h f ≡ some q')
          × (entries size q' ≡ xs ++ (h, e) ∷ ys)
          × IsValid dual size q'
    update_node-in_place g =
        let w = replaced-Holds dual s q xs ys h d e (IsValid-Holds dual s q _ v a) in
        (
          with_item size q h e,
          updated-run false g,
          Holds-entries dual s _ _ w,
          Holds-IsValid dual s _ _ w,
        )

    -- An update of any entry of a well-formed block that reports a change, with a lawful priority
    -- and the other entries sorted, ends with the entry behind no lower and before no higher one,
    -- the others in their order, and the block well formed.
    pub update_node-arena :
        f d ≡ (e, true)
        → IsLawful p
        → IsSorted p (xs ++ ys)
        → (q' : ArenaQueue D) × (update_node p dual size q h f ≡ some q')
          × Moved p h e (xs ++ ys) (entries size q')
          × IsValid dual size q'
    update_node-arena g law o =
        let w = replaced-Holds dual s q xs ys h d e (IsValid-Holds dual s q _ v a) in
        let u = settle-Updated p law dual s (with_item size q h e) h e xs ys w o in
        (
          u.queue,
          updated-run true g ∙ u.run,
          subst (Moved p h e (xs ++ ys)) (sym (Holds-entries dual s u.queue _ u.holds)) u.moved,
          Holds-IsValid dual s u.queue _ u.holds,
        )
