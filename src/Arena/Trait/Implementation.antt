-- ===== src/Arena/Trait/Implementation.antt =====
-- `ArenaQueue`, single or dual linked, is a `PriorityQueue`.
use async_priority_lock_rs.Base.{ℕ, ◌≡◌, sym, ap, subst, Bool, Option, none, some, List, [], ◌++◌}
use async_priority_lock_rs.Priority.{Priority}
use async_priority_lock_rs.Queue.{PriorityQueue}
use async_priority_lock_rs.Queue.Order.{Entry, Accepts, Enqueued}
use async_priority_lock_rs.Arena.{ArenaQueue, default}
use async_priority_lock_rs.Arena.Cells.{IsSize}
use async_priority_lock_rs.Arena.Valid.{
  entries, IsValid, Holds-entries, Holds-IsValid, IsValid-Holds, default-Holds,
}
use async_priority_lock_rs.Arena.Trait.{
  enqueue, dequeue, get_by_handle, iter_at, update_node, head_handle, get_next_handle, with_ref,
  for_each,
}
use async_priority_lock_rs.Arena.Trait.Read.{
  head_handle_lem, iter_at-none, iter_at-some, get_by_handle_lem, get_next_handle_lem,
}
use async_priority_lock_rs.Arena.Trait.Enqueue.{enqueue-Put}
use async_priority_lock_rs.Arena.Trait.Visit.{
  Visited, with_ref-Visited, for_each-none, for_each-some,
}
use async_priority_lock_rs.Arena.Trait.Refines.{
  enqueue-arena, dequeue-arena, update_node-in_place, update_node-arena,
}

-- `enqueue` without the fault, which a well-formed block does not come to.
abbrev or_same : {Q : Type 0} → Q → Option (Q × ℕ) → Q × ℕ
or_same q none = (q, 0)
or_same q (some r) = r

module _ {D : Type 0} (p : Priority D) (dual : Bool) {size : ℕ} (s : IsSize size) where
  pub put : ArenaQueue D → D → ArenaQueue D × ℕ
  put q d = or_same q (enqueue p dual size q d)

  -- It is the `enqueue` of the code wherever that does not fault.
  pub put-run :
      (q : ArenaQueue D) (d : D) (r : ArenaQueue D × ℕ)
      → enqueue p dual size q d ≡ some r
      → put q d ≡ r
  unfolding put
  put-run q d r e = ap (or_same q) e

  pub put-IsValid : (q : ArenaQueue D) (d : D) → IsValid dual size q → IsValid dual size (put q d).0
  put-IsValid q d v =
      let t = enqueue-Put p dual s q (entries size q) d v in
      subst (λ r. IsValid dual size r.0) (sym (put-run q d (t.queue, t.handle) t.run))
        (Holds-IsValid dual s t.queue _ t.holds)

  pub put-Enqueued :
      (q : ArenaQueue D) (d : D) (pinned free : List (Entry D))
      → IsValid dual size q
      → entries size q ≡ pinned ++ free
      → Accepts p d pinned free
      → Enqueued p (put q d).1 d pinned free (entries size (put q d).0)
  put-Enqueued q d pinned free v e acc =
      let (q', h, r, w, v') = enqueue-arena p dual s q v d pinned free e acc in
      subst (λ r. Enqueued p r.1 d pinned free (entries size r.0)) (sym (put-run q d (q', h) r)) w

  pub visited :
      (es : List (Entry D)) (r : Option (ArenaQueue D))
      → Visited dual s es r
      → (q' : ArenaQueue D) × (r ≡ some q') × (entries size q' ≡ es) × IsValid dual size q'
  visited es r t = (
    t.queue,
    t.run,
    Holds-entries dual s t.queue es t.holds,
    Holds-IsValid dual s t.queue es t.holds,
  )

  -- `ArenaQueue<N>` is a `PriorityQueue`.
  abbrev pub arena_queue : PriorityQueue p
  arena_queue = record {
    Queue = ArenaQueue D;
    default = default;
    enqueue = put;
    dequeue = dequeue dual size;
    get_by_handle = get_by_handle size;
    iter_at = iter_at size;
    update_node = update_node p dual size;
    head_handle = head_handle;
    get_next_handle = get_next_handle size;
    with_ref = with_ref size;
    for_each = for_each size;
    entries = entries size;
    IsValid = IsValid dual size;
    default-IsValid = Holds-IsValid dual s default [] (default-Holds dual s);
    entries-default = Holds-entries dual s default [] (default-Holds dual s);
    distinct = λ q v. v.distinct;
    enqueue-IsValid = put-IsValid;
    enqueue_lem = put-Enqueued;
    head_handle_lem = λ q v. head_handle_lem dual s q (entries size q) v;
    iter_at-none = λ q v. iter_at-none dual s q (entries size q) v;
    dequeue_lem = λ q xs ys h d v e. dequeue-arena p dual s q v xs ys h d e;
    get_by_handle_lem =
        λ q xs ys h d v e. get_by_handle_lem dual s q xs ys h d (IsValid-Holds dual s q _ v e);
    get_next_handle_lem =
        λ q xs ys h d v e. get_next_handle_lem dual s q xs ys h d (IsValid-Holds dual s q _ v e);
    iter_at-some =
        λ q xs ys h d v e. iter_at-some dual s q xs ys h d (IsValid-Holds dual s q _ v e);
    with_ref_lem = λ q xs ys h d f v e.
        visited _ _ (with_ref-Visited dual s q xs ys h d f (IsValid-Holds dual s q _ v e));
    for_each-none = λ q f v. visited _ _ (for_each-none dual s q f (entries size q) v);
    for_each-some = λ q xs ys h d f v e.
        visited _ _ (for_each-some dual s q f xs ys h d (IsValid-Holds dual s q _ v e));
    update_node-false =
        λ q xs ys h d e f v a g. update_node-in_place p dual s q v xs ys h d e f a g;
    update_node-true =
        λ q xs ys h d e f v a g law o. update_node-arena p dual s q v xs ys h d e f a g law o;
  }
