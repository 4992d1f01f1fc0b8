-- ===== src/Queue/Reference.antt =====
-- What src/queue.rs asks of a queue, as a program on lists, and the calls of a client.
use mathlib.Core.List.{append_assoc}
use async_priority_lock_rs.Base.{
  ℕ, zero, suc, ◌≡◌, refl, sym, ap, ◌∙◌, subst, true, Option, none, some, List, [], ◌∷◌, ◌++◌,
  arith, if◌then◌else◌, All, All-append, All-mono, ◌>>=◌, bind-some, Option-cases, inl, inr,
}
use async_priority_lock_rs.Priority.{Priority, is_lt}
use async_priority_lock_rs.Priority.Laws.{IsLawful, IsDecisive}
use async_priority_lock_rs.Queue.{PriorityQueue}
use async_priority_lock_rs.Queue.Order.{
  Entry, items, IsSorted, Stops, lawful-Accepts, Enqueued-Moved, Moved-IsSorted, IsSorted-remove,
}
use async_priority_lock_rs.Queue.Hints.{Fits, IsSorted-before}

module _ {D : Type 0} where
  abbrev pub get_elem? : List D → ℕ → Option D
  get_elem? [] i = none
  get_elem? (x ∷ xs) zero = some x
  get_elem? (x ∷ xs) (suc i) = get_elem? xs i

  abbrev pub remove_at : ℕ → List D → List D
  remove_at i [] = []
  remove_at zero (x ∷ xs) = xs
  remove_at (suc i) (x ∷ xs) = x ∷ remove_at i xs

-- A client puts an entry in, or takes out the one that stands at a place.
pub data Call (D : Type 0) : Type 0 where
  put : D → Call D
  take_out : ℕ → Call D

module _ {D : Type 0} (p : Priority D) where
  abbrev pub place : D → List D → List D
  place d [] = d ∷ []
  place d (x ∷ xs) = if is_lt (p.compare_new d x) then x ∷ place d xs else d ∷ x ∷ xs

  -- The order that a client sees.
  abbrev pub reference : List (Call D) → List D → List D
  reference [] xs = xs
  reference (Call.put d ∷ cs) xs = reference cs (place d xs)
  reference (Call.take_out i ∷ cs) xs = reference cs (remove_at i xs)

  pub place-first :
      (h : ℕ) (d : D) (us ws : List (Entry D))
      → All (λ e. is_lt (p.compare_new d e.1) ≡ true) us
      → Stops p d ws
      → items (us ++ (h, d) ∷ ws) ≡ place d (items (us ++ ws))
  place-first h d [] [] a s = refl
  place-first h d [] (w ∷ ws) a s = ground (arith, s)
  place-first h d (u ∷ us) ws a s = rw (a.0) (ap (λ l. u.1 ∷ l) (place-first h d us ws a.1 s))

  -- Where hints do not matter.
  pub place-Fits :
      (h : ℕ) (d : D) (us ws : List (Entry D))
      → IsDecisive p
      → IsSorted p (us ++ ws)
      → Fits p d us ws
      → items (us ++ (h, d) ∷ ws) ≡ place d (items (us ++ ws))
  place-Fits h d us ws k s (Fits.first a t) = place-first h d us ws a t
  place-Fits h d us ws k s (Fits.behind before over b f c a t) =
      let sorted : IsSorted p (before ++ b ∷ (over ++ ws)) =
        subst (IsSorted p) (ap (λ k. k ++ ws) f ∙ append_assoc before (b ∷ over) ws) s in
      let front : All (λ e. is_lt (p.compare_new d e.1) ≡ true) before =
        All-mono _ _
          (λ (e : Entry D) g. subst (λ o. is_lt o ≡ true) (sym (k.behind e.1 b.1 d c g)) refl)
          before (IsSorted-before p before (over ++ ws) b sorted) in
      place-first h d us ws
        (subst (All _) (sym f) (All-append _ before (b ∷ over) front (rw c refl, a))) t
  place-Fits h d us ws k s (Fits.equal before b f c) = absurd (k.decides d b.1 c)

module _ {D : Type 0} where
  -- The entry at a place, among the others.
  record Found (i : ℕ) (es : List (Entry D)) (e : Entry D) : Type 0 where
    xs : List (Entry D)
    ys : List (Entry D)
    split : es ≡ xs ++ e ∷ ys
    others : items (xs ++ ys) ≡ remove_at i (items es)

  found : (i : ℕ) (es : List (Entry D)) (e : Entry D) → get_elem? es i ≡ some e → Found i es e
  found i [] e h = absurd cc
  found zero (x ∷ es) e h = record { xs = []; ys = es; split = ap (λ k. k ∷ es) cc; others = refl }
  found (suc i) (x ∷ es) e h =
      let r = found i es e h in
      record {
        xs = x ∷ r.xs;
        ys = r.ys;
        split = ap (λ l. x ∷ l) r.split;
        others = ap (λ l. x.1 ∷ l) r.others;
      }

  not_found :
      (i : ℕ) (es : List (Entry D)) → get_elem? es i ≡ none → items es ≡ remove_at i (items es)
  not_found i [] h = refl
  not_found zero (x ∷ es) h = absurd cc
  not_found (suc i) (x ∷ es) h = ap (λ l. x.1 ∷ l) (not_found i es h)

module _ {D : Type 0} {p : Priority D} (Q : PriorityQueue p) where
  open Q use {Queue, enqueue, dequeue, entries, IsValid, enqueue-IsValid, enqueue_lem, dequeue_lem}

  -- What the calls of a client do; it has the handles of the entries.
  pub play : List (Call D) → Queue → Option Queue
  play [] q = some q
  play (Call.put d ∷ cs) q = play cs (enqueue q d).0
  play (Call.take_out i ∷ cs) q = elim (get_elem? (entries q) i) [
    | none ↦ play cs q
    | some e ↦ dequeue q e.0 >>= λ r. play cs r.0
  ]

  -- A new entry of a sorted queue goes to the place that the reference has for it.
  abbrev pub IsOrderly : Type 0
  IsOrderly =
      (q : Queue) (d : D)
      → IsValid q
      → IsSorted p (entries q)
      → items (entries (enqueue q d).0) ≡ place p d (items (entries q))

  pub record Played (r : Option Queue) (ds : List D) : Type 0 where
    pub queue : Queue
    pub run : r ≡ some queue
    pub valid : IsValid queue
    pub shown : items (entries queue) ≡ ds

  module _ (law : IsLawful p) (orderly : IsOrderly) where
    pub play-reference :
        (cs : List (Call D)) (q : Queue) (ds : List D)
        → IsValid q
        → IsSorted p (entries q)
        → items (entries q) ≡ ds
        → Played (play cs q) (reference p cs ds)
    unfolding play
    play-reference [] q ds v s e = record { queue = q; run = refl; valid = v; shown = e }
    play-reference (Call.put d ∷ cs) q ds v s e =
        let w = enqueue_lem q d [] (entries q) v refl (lawful-Accepts law d (entries q) s) in
        play-reference cs (enqueue q d).0 (place p d ds) (enqueue-IsValid q d v)
          (Moved-IsSorted law (Enqueued-Moved law w) s) (orderly q d v s ∙ ap (place p d) e)
    play-reference (Call.take_out i ∷ cs) q ds v s e =
        elim (Option-cases (get_elem? (entries q) i)) [
          | inl g ↦
              let t =
                play-reference cs q (remove_at i ds) v s
                  (not_found i (entries q) g ∙ ap (remove_at i) e) in
              record { queue = t.queue; run = rw (play, g) t.run; valid = t.valid; shown = t.shown }
          | inr (x, g) ↦
              let f = found i (entries q) x g in
              let (q', run, same, v') = dequeue_lem q f.xs f.ys x.0 x.1 v f.split in
              let t =
                play-reference cs q' (remove_at i ds) v'
                  (subst (IsSorted p) (sym same)
                    (IsSorted-remove p f.xs f.ys x (subst (IsSorted p) f.split s)))
                  (ap items same ∙ f.others ∙ ap (remove_at i) e) in
              record {
                queue = t.queue;
                run = rw (play, g) (bind-some _ run t.run);
                valid = t.valid;
                shown = t.shown;
              }
        ]
