-- ===== src/Arena/Trait/Enqueue.antt =====
-- `enqueue` of `ArenaQueue` puts a new entry where it belongs, whatever slot it gets and from wherever
-- its place is looked for.
use mathlib.Core.List.{append_assoc}
use async_priority_lock_rs.Base.{
  ℕ, ◌<◌, ◌≡◌, refl, sym, ap, ◌∙◌, subst, Bool, true, false, Option, none, some, List, [], ◌∷◌,
  ◌++◌, arith, if◌then◌else◌, ◌==◌, length, length-append, bind-some, ◌>>=◌,
}
use async_priority_lock_rs.Priority.{Priority}
use async_priority_lock_rs.Queue.Order.{Entry}
use async_priority_lock_rs.Queue.Hints.{Fits}
use async_priority_lock_rs.Arena.{ArenaNode, ArenaQueue, sentinel, cell, expand, insert}
use async_priority_lock_rs.Arena.Cells.{IsSize, flags, length-flags}
use async_priority_lock_rs.Arena.Chain.{
  first, last, last-cell, Chain, Chain-left, Chain-right, not_sentinel, last-append,
}
use async_priority_lock_rs.Arena.Pieces.{Apart}
use async_priority_lock_rs.Arena.Owned.{count-length}
use async_priority_lock_rs.Arena.Cut.{Inserted}
use async_priority_lock_rs.Arena.Links.{link-enqueue}
use async_priority_lock_rs.Arena.Insert.{insert-some, insert-none}
use async_priority_lock_rs.Arena.Valid.{Holds, length-Holds}
use async_priority_lock_rs.Arena.Growth.{expand-Holds}
use async_priority_lock_rs.Arena.Search.{Hint}
use async_priority_lock_rs.Arena.Trait.{link_behind, place_new, enqueue}
use async_priority_lock_rs.Arena.Trait.Emplace.{Emplaced, emplace_lem, Inserted-Holds}

module _ {D : Type 0} where
  -- A stretch up to an entry has a first one.
  record Front (before : List (Entry D)) (b : Entry D) : Type 0 where
    x : Entry D
    xs : List (Entry D)
    whole : x ∷ xs ≡ before ++ b ∷ []
    end : last x.0 xs ≡ b.0

  Front-of : (before : List (Entry D)) (b : Entry D) → Front before b
  Front-of [] b = record { x = b; xs = []; whole = refl; end = refl }
  Front-of (y ∷ ys) b = record {
    x = y;
    xs = ys ++ b ∷ [];
    whole = refl;
    end = last-append y.0 ys (b ∷ []);
  }

module _ {D : Type 0} (p : Priority D) (dual : Bool) {size : ℕ} (s : IsSize size) where
  -- Right behind the last node of a stretch.
  link_behind-Inserted :
      (q : ArenaQueue D) (o : ℕ) (d : D) (n : ArenaNode D) (x : Entry D) (xs ws : List (Entry D))
      → cell size o q.nodes ≡ some n
      → n.item ≡ some d
      → Apart o (x ∷ xs ++ ws)
      → Chain dual size q.nodes sentinel sentinel (x ∷ xs ++ ws)
      → q.head ≡ x.0
      → Inserted dual size q o d (x ∷ xs) ws (link_behind dual size q o (last x.0 xs))
  unfolding link_behind
  link_behind-Inserted q o d n x xs [] e g a c h =
      let l =
        last-cell dual s q.nodes sentinel sentinel x xs
          (Chain-left dual size q.nodes sentinel sentinel (x ∷ xs) [] c) in
      let i = link-enqueue dual s q o d n e g x xs [] a c h in
      subst (Inserted dual size q o d (x ∷ xs) []) (sym (bind-some _ l.1 (rw (l.2) refl))) i
  link_behind-Inserted q o d n x xs (y ∷ ys) e g a c h =
      let l =
        last-cell dual s q.nodes sentinel y.0 x xs
          (Chain-left dual size q.nodes sentinel sentinel (x ∷ xs) (y ∷ ys) c) in
      let i = link-enqueue dual s q o d n e g x xs (y ∷ ys) a c h in
      let nb =
        not_sentinel dual s q.nodes (last x.0 xs) sentinel y ys
          (Chain-right dual size q.nodes sentinel sentinel (x ∷ xs) (y ∷ ys) c) in
      subst (Inserted dual size q o d (x ∷ xs) (y ∷ ys)) (sym (bind-some _ l.1 (rw (l.2, nb) refl)))
        i

  -- What `enqueue` does to a block that holds `es`.
  pub record Put (es : List (Entry D)) (d : D) (r : Option (ArenaQueue D × ℕ)) : Type 0 where
    pub queue : ArenaQueue D
    pub handle : ℕ
    pub before : List (Entry D)
    pub later : List (Entry D)
    pub split : es ≡ before ++ later
    pub run : r ≡ some (queue, handle)
    pub holds : Holds dual size queue (before ++ (handle, d) ∷ later)
    pub fits : Fits p d before later

  module _ (q : ArenaQueue D) (es : List (Entry D)) (d : D)
      (r : Option (ArenaQueue D × ℕ × Option ℕ × Bool)) (w : Holds dual size q es)
      (e : Emplaced p dual s q es d r) where
    finished :
        (us ws : List (Entry D)) (t : Option (ArenaQueue D))
        → es ≡ us ++ ws
        → Fits p d us ws
        → Inserted dual size e.queue e.offset d us ws t
        → Put es d (t >>= λ q. some (q, e.offset))
    finished us ws t h f i = record {
      queue = record e.queue { nodes = i.nodes; head = first e.offset us };
      handle = e.offset;
      before = us;
      later = ws;
      split = h;
      run = bind-some _ i.run refl;
      holds = Inserted-Holds p dual s q es us ws d r t h w e i;
      fits = f;
    }

    place_new-Put :
        (best : Option ℕ) (equal : Bool)
        → Hint p d es best equal
        → Put es d (place_new p dual size e.queue e.offset best equal)
    unfolding place_new
    place_new-Put none true h = absurd h
    place_new-Put none false h =
        let i =
          insert-none p dual s e.queue e.offset d e.node e.here e.filled es e.apart e.chain
            (e.head-same ∙ w.front) (omega (arith, length-Holds dual s q es w, e.length-same)) in
        finished i.over i.rest _ i.split (Fits.first i.above i.stops) i.inserted
    place_new-Put (some b) true h =
        let f = Front-of h.before (b, h.item) in
        let whole : es ≡ f.x ∷ f.xs ++ h.later =
          h.split
          ∙ sym (append_assoc h.before ((b, h.item) ∷ []) h.later)
          ∙ ap (λ k. k ++ h.later) (sym f.whole) in
        finished (f.x ∷ f.xs) h.later _ whole (Fits.equal h.before (b, h.item) f.whole h.compares) (
          subst
            (λ k.
              Inserted dual size e.queue e.offset d (f.x ∷ f.xs) h.later
                (link_behind dual size e.queue e.offset k))
            f.end
            (link_behind-Inserted e.queue e.offset d e.node f.x f.xs h.later e.here e.filled
              (subst (Apart e.offset) whole e.apart)
              (subst (Chain dual size e.queue.nodes sentinel sentinel) whole e.chain)
              (e.head-same ∙ w.front ∙ ap (first sentinel) whole)))
    place_new-Put (some b) false h =
        let f = Front-of h.before (b, h.item) in
        let whole : es ≡ f.x ∷ f.xs ++ h.later =
          h.split
          ∙ sym (append_assoc h.before ((b, h.item) ∷ []) h.later)
          ∙ ap (λ k. k ++ h.later) (sym f.whole) in
        let i =
          insert-some p dual s e.queue e.offset d e.node e.here e.filled f.x f.xs h.later
            (subst (Apart e.offset) whole e.apart)
            (subst (Chain dual size e.queue.nodes sentinel sentinel) whole e.chain)
            (e.head-same ∙ w.front ∙ ap (first sentinel) whole)
            (omega (
              arith,
              length-Holds dual s q es w,
              e.length-same,
              ap length whole,
              length-append f.xs h.later,
            )) in
        subst
          (λ k. Put es d (insert p dual size e.queue e.offset (some k) >>= λ q. some (q, e.offset)))
          f.end
          (finished (f.x ∷ f.xs ++ i.over) i.rest _
            (whole
              ∙ ap (λ k. f.x ∷ f.xs ++ k) i.split
              ∙ sym (append_assoc (f.x ∷ f.xs) i.over i.rest))
            (Fits.behind h.before i.over (b, h.item)
              (ap (λ k. k ++ i.over) f.whole ∙ append_assoc h.before ((b, h.item) ∷ []) i.over)
              h.compares i.above i.stops)
            i.inserted)

  room_if :
      (q : ArenaQueue D) (es : List (Entry D)) (b : Bool)
      → Holds dual size q es
      → (length q.nodes == q.used) ≡ b
      → let q' = (if b then expand q else q) in Holds dual size q' es × (q'.used < length q'.nodes)
  room_if q es true w t =
      let (w', more, same) = expand-Holds dual size q es w in (w', ground (arith, same, more))
  room_if q es false w t =
      (w, ground (arith, w.counted, count-length (flags q.nodes), length-flags q.nodes))

  -- There is a free slot, if need be in a grown block.
  room :
      (q : ArenaQueue D) (es : List (Entry D))
      → Holds dual size q es
      → let q' = (if length q.nodes == q.used then expand q else q) in
        Holds dual size q' es × (q'.used < length q'.nodes)
  room q es w = room_if q es (length q.nodes == q.used) w refl

  -- `enqueue` succeeds on a block that holds entries.
  pub enqueue-Put :
      (q : ArenaQueue D) (es : List (Entry D)) (d : D)
      → Holds dual size q es
      → Put es d (enqueue p dual size q d)
  unfolding enqueue
  enqueue-Put q es d w =
      let q0 = if length q.nodes == q.used then expand q else q in
      let (w0, l) = room q es w in
      let e = emplace_lem p dual s q0 es d w0 l in
      let t = place_new-Put q0 es d _ w0 e e.best e.equal e.hint in
      record {
        queue = t.queue;
        handle = t.handle;
        before = t.before;
        later = t.later;
        split = t.split;
        run = bind-some _ e.run t.run;
        holds = t.holds;
        fits = t.fits;
      }
