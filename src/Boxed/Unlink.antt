-- ===== src/Boxed/Unlink.antt =====
-- `dequeue` of both kinds of queue takes one node out and relinks its neighbours.
use mathlib.Core.List.{append_assoc}
use mathlib.Core.Option
use async_priority_lock_rs.Base.{
  ℕ, ◌≡◌, ◌≢◌, ◌⊎◌, refl, sym, ap, ◌∙◌, subst, inl, inr, Bool, true, Option, none, some, List, [],
  ◌∷◌, ◌++◌, arith, All, head?, last?,
}
use async_priority_lock_rs.Priority.{Priority}
use async_priority_lock_rs.Queue.Order.{Distinct}
use async_priority_lock_rs.Queue.Handles.{Distinct-remove}
use async_priority_lock_rs.Boxed.{
  BoxNode, find, rest_of, set_next, set_prev_head, unlink, dequeue_dual, head_addr,
}
use async_priority_lock_rs.Boxed.Chain.{
  entry, entries, entries-append, Fresh, find-append, rest_of-append, set_next-append,
}
use async_priority_lock_rs.Boxed.Insert.{
  LinkAt, Linked, IsChain, set_prev_head-Linked, entries-set_prev_head,
}

pub last?-snoc {ℓ} : {A : Type ℓ} (init : List A) (l : A) → last? (init ++ l ∷ []) ≡ some l
last?-snoc [] l = refl
last?-snoc (x ∷ []) l = refl
last?-snoc (x ∷ y ∷ xs) l = last?-snoc (y ∷ xs) l

unlink-none :
    {D : Type 0} (p : Priority D) (ns : List (BoxNode D)) (node : BoxNode D)
    → node.prev ≡ none
    → unlink p true ns node ≡ set_prev_head p true node.prev (rest_of node.addr ns)
unfolding unlink
unlink-none p ns node e = ground arith

unlink-some :
    {D : Type 0} (p : Priority D) (ns : List (BoxNode D)) (node : BoxNode D) (q : ℕ)
    → node.prev ≡ some q
    → unlink p true ns node ≡ set_next q (set_prev_head p true node.prev (rest_of node.addr ns)) ns
unfolding unlink
unlink-some p ns node q e = ground arith

dequeue_dual-first :
    {D : Type 0} (p : Priority D) (ns : List (BoxNode D)) (node : BoxNode D) (ptr : ℕ)
    → find ptr ns ≡ some node
    → node.prev ≡ none
    → dequeue_dual p true ns ptr ≡ some (unlink p true ns node, none, head_addr (rest_of ptr ns))
unfolding dequeue_dual
dequeue_dual-first p ns node ptr f e = ground arith

dequeue_dual-behind :
    {D : Type 0} (p : Priority D) (ns : List (BoxNode D)) (node l : BoxNode D) (ptr q : ℕ)
    → find ptr ns ≡ some node
    → node.prev ≡ some q
    → find q ns ≡ some l
    → dequeue_dual p true ns ptr
      ≡ some (unlink p true ns node, some l.item, head_addr (rest_of ptr ns))
unfolding dequeue_dual
dequeue_dual-behind p ns node l ptr q f e g = ground arith

module _ {D : Type 0} where
  -- The address that a node behind `ns` has to link back to.
  abbrev pub after : Option ℕ → List (BoxNode D) → Option ℕ
  after v [] = v
  after v (n ∷ ns) = after (some n.addr) ns

  pub Linked-at :
      (dual : Bool) (v : Option ℕ) (front back : List (BoxNode D)) (node : BoxNode D)
      → Linked dual v (front ++ node ∷ back)
      → LinkAt dual (after v front) node × Linked dual (some node.addr) back
  Linked-at dual v [] back node h = h
  Linked-at dual v (n ∷ ns) back node h = Linked-at dual (some n.addr) ns back node h.1

  pub Linked-join :
      (dual : Bool) (v : Option ℕ) (front old new : List (BoxNode D))
      → Linked dual v (front ++ old)
      → Linked dual (after v front) new
      → Linked dual v (front ++ new)
  Linked-join dual v [] old new h k = k
  Linked-join dual v (n ∷ ns) old new h k = (h.0, Linked-join dual (some n.addr) ns old new h.1 k)

  pub Fresh-front :
      (front back : List (BoxNode D)) (node : BoxNode D)
      → Distinct (entries (front ++ node ∷ back))
      → Fresh node.addr front
  Fresh-front [] back node d = tt
  Fresh-front (n ∷ ns) back node d = (λ e. first n ns d.0 e, Fresh-front ns back node d.1)
    where
      first :
          (n : BoxNode D) (ms : List (BoxNode D))
          → All (λ y. n.addr ≢ y.0) (entries (ms ++ node ∷ back))
          → n.addr ≢ node.addr
      first n [] a = a.0
      first n (m ∷ ms) a = first n ms a.1

  pub last-view :
      (ns : List (BoxNode D))
      → (ns ≡ []) ⊎ ((init : List (BoxNode D)) × (l : BoxNode D) × (ns ≡ init ++ l ∷ []))
  last-view [] = inl refl
  last-view (n ∷ ns) = elim (last-view ns) [
    | inl e ↦ inr ([], n, rw e)
    | inr (init, l, e) ↦ inr (n ∷ init, l, rw e)
  ]

  pub after-snoc :
      (v : Option ℕ) (init : List (BoxNode D)) (l : BoxNode D)
      → after v (init ++ l ∷ []) ≡ some l.addr
  after-snoc v [] l = refl
  after-snoc v (n ∷ ns) l = after-snoc (some n.addr) ns l

  -- The data of the node before the one at hand.
  abbrev pub last_item : List (BoxNode D) → Option D
  last_item front = Option.map (λ e. e.1) (last? (entries front))

  pub last_item-snoc :
      (init : List (BoxNode D)) (l : BoxNode D) → last_item (init ++ l ∷ []) ≡ some l.item
  last_item-snoc init l =
      ap (λ es. Option.map (λ e. e.1) (last? es)) (entries-append init (l ∷ []))
      ∙ ap (Option.map (λ e. e.1)) (last?-snoc (entries init) (entry l))

  pub head_addr-entries :
      (ns : List (BoxNode D)) → head_addr ns ≡ Option.map (λ e. e.0) (head? (entries ns))
  head_addr-entries [] = refl
  head_addr-entries (n ∷ ns) = refl

triple :
    {A B C : Type 0} {a a' : A} {b b' : B} {c c' : C}
    → a ≡ a'
    → b ≡ b'
    → c ≡ c'
    → ◌≡◌ {A = A × B × C} (a, b, c) (a', b', c')
triple p q r = λ i. (p i, q i, r i)

module _ {D : Type 0} (p : Priority D) (front back : List (BoxNode D)) (node : BoxNode D) where
  abbrev chain : List (BoxNode D)
  chain = front ++ node ∷ back

  -- The chain without the node.
  abbrev pub unlinked : Bool → List (BoxNode D)
  unlinked dual = front ++ set_prev_head p dual node.prev back

  pub entries-unlinked : (dual : Bool) → entries (unlinked dual) ≡ entries front ++ entries back
  entries-unlinked dual =
      entries-append front _
      ∙ ap (λ l. entries front ++ l) (entries-set_prev_head p dual node.prev back)

  module _ (c : IsChain true chain) where
    pub prev-after : node.prev ≡ after none front
    prev-after = (Linked-at true none front back node c.linked).0

    pub rest : rest_of node.addr chain ≡ back
    rest = rest_of-append front back node (Fresh-front front back node c.distinct)

    relinked : List (BoxNode D) → List (BoxNode D)
    relinked = set_prev_head p true node.prev

    pub unlink-first : front ≡ [] → unlink p true chain node ≡ unlinked true
    unfolding relinked
    unlink-first e =
        unlink-none p chain node (prev-after ∙ ap (after none) e)
        ∙ ap relinked rest
        ∙ sym (ap (λ f. f ++ relinked back) e)

    module _ (init : List (BoxNode D)) (l : BoxNode D) (e : front ≡ init ++ l ∷ []) where
      whole : chain ≡ init ++ l ∷ node ∷ back
      whole = ap (λ f. f ++ node ∷ back) e ∙ append_assoc init (l ∷ []) (node ∷ back)

      Fresh-init : Fresh l.addr init
      Fresh-init =
          Fresh-front init (node ∷ back) l (subst (λ c. Distinct (entries c)) whole c.distinct)

      pub back_to : node.prev ≡ some l.addr
      back_to = prev-after ∙ ap (after none) e ∙ after-snoc none init l

      pub find-back : find l.addr chain ≡ some l
      find-back = ap (find l.addr) whole ∙ find-append init (node ∷ back) l Fresh-init

      pub unlink-behind : unlink p true chain node ≡ unlinked true
      unfolding relinked
      unlink-behind =
          unlink-some p chain node l.addr back_to
          ∙ ap (λ r. set_next l.addr (relinked r) chain) rest
          ∙ ap (set_next l.addr (relinked back)) whole
          ∙ set_next-append init (node ∷ back) (relinked back) l Fresh-init
          ∙ sym (append_assoc init (l ∷ []) (relinked back))
          ∙ sym (ap (λ f. f ++ relinked back) e)

    pub unlink-unlinked : unlink p true chain node ≡ unlinked true
    unlink-unlinked = elim (last-view front) [
      | inl e ↦ unlink-first e
      | inr (init, l, e) ↦ unlink-behind init l e
    ]

    pub unlinked-IsChain : IsChain true (unlinked true)
    unfolding relinked set_prev_head
    unlinked-IsChain = record {
      linked = Linked-join true none front (node ∷ back) _ c.linked (
          subst (λ v. Linked true v (relinked back)) prev-after
            (set_prev_head-Linked p true node.prev (some node.addr) back
              (Linked-at true none front back node c.linked).1));
      distinct = subst Distinct (sym (entries-unlinked true)) (
          Distinct-remove (entries front) (entries back) (entry node)
            (subst Distinct (entries-append front (node ∷ back)) c.distinct));
    }

    pub find-node : find node.addr chain ≡ some node
    find-node = find-append front back node (Fresh-front front back node c.distinct)

    next_handle : head_addr (rest_of node.addr chain) ≡ Option.map (λ e. e.0) (head? (entries back))
    next_handle = ap head_addr rest ∙ head_addr-entries back

    pub dequeue_dual_lem :
        dequeue_dual p true chain node.addr
        ≡ some (unlinked true, last_item front, Option.map (λ e. e.0) (head? (entries back)))
    dequeue_dual_lem = elim (last-view front) [
      | inl e ↦
          dequeue_dual-first p chain node node.addr find-node (prev-after ∙ ap (after none) e)
          ∙ ap some (triple unlink-unlinked (sym (ap last_item e)) next_handle)
      | inr (init, l, e) ↦
          dequeue_dual-behind p chain node l node.addr l.addr find-node (back_to init l e)
            (find-back init l e)
          ∙ ap some
              (triple unlink-unlinked (sym (ap last_item e ∙ last_item-snoc init l)) next_handle)
    ]
