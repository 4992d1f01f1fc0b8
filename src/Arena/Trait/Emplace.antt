-- ===== src/Arena/Trait/Emplace.antt =====
-- `emplace` of `ArenaQueue` writes a new entry into a free slot, where nothing links to it yet.
use native.Mathlib.Nat.{mul-div_cancel, mul-mod_left, mod-lt}
use async_priority_lock_rs.Base.{
  ℕ, suc, ◌+◌, ◌*◌, ◌/◌, ◌%◌, ◌<◌, ◌≡◌, ◌≢◌, refl, sym, ap, ◌∙◌, subst, inl, inr, Bool, true, false,
  Option, some, List, [], ◌∷◌, ◌++◌, arith, length, length-insert, All, bind-some, All-mono,
}
use async_priority_lock_rs.Priority.{Priority}
use async_priority_lock_rs.Queue.Order.{Entry, Distinct}
use async_priority_lock_rs.Queue.Handles.{Distinct-insert}
use async_priority_lock_rs.Arena.{
  ArenaNode, ArenaQueue, sentinel, unallocated, slot, set_slot, cell, emplace,
}
use async_priority_lock_rs.Arena.Cells.{
  IsSize, flags, flag-next, flag-free, slot-flags, length-flags, flags-same, cell-slot, cell-offset,
  cell-put_same, length-set_slot, write_lem,
}
use async_priority_lock_rs.Arena.Chain.{first, Chain, first-append, first-taken, Chain-frame}
use async_priority_lock_rs.Arena.Pieces.{Apart}
use async_priority_lock_rs.Arena.Owned.{Owned, Owned-take, count, count-take, free_slot}
use async_priority_lock_rs.Arena.Cut.{Inserted}
use async_priority_lock_rs.Arena.Valid.{Holds, IsSlots}
use async_priority_lock_rs.Arena.Search.{Hint, search-free}

module _ {D : Type 0} (p : Priority D) (dual : Bool) {size : ℕ} (s : IsSize size) where
  -- A free slot is none of those of the list.
  fresh_slot :
      (ns : List (ArenaNode D)) (v : ℕ) (es : List (Entry D)) (o : ℕ) (n : ArenaNode D)
      → cell size o ns ≡ some n
      → n.next ≡ unallocated
      → Chain dual size ns v sentinel es
      → All (λ x. o ≢ x.0) es
  fresh_slot ns v [] o n e h c = tt
  fresh_slot ns v (x ∷ xs) o n e h c = (
    λ z.
        let same : some n ≡ some c.0.content = sym e ∙ ap (λ k. cell size k ns) z ∙ c.0.here in
        first-taken dual s ns x.0 sentinel xs c.1 (omega arith)
          (sym c.0.onward ∙ ground (arith, same, h)),
    fresh_slot ns x.0 xs o n e h c.1,
  )

  -- What `emplace` makes of the queue.
  pub record Emplaced (q : ArenaQueue D) (es : List (Entry D)) (d : D)
      (r : Option (ArenaQueue D × ℕ × Option ℕ × Bool)) : Type 0 where
    pub queue : ArenaQueue D
    pub offset : ℕ
    pub best : Option ℕ
    pub equal : Bool
    pub run : r ≡ some (queue, offset, best, equal)
    pub head-same : queue.head ≡ q.head
    pub used-more : queue.used ≡ suc q.used
    pub good-bound : queue.good < length queue.nodes
    pub length-same : length queue.nodes ≡ length q.nodes
    pub node : ArenaNode D
    pub here : cell size offset queue.nodes ≡ some node
    pub filled : node.item ≡ some d
    pub aligned : offset ≡ offset / size * size
    pub free : slot (offset / size) (flags queue.nodes) ≡ some false
    pub flags-kept : flags queue.nodes ≡ flags q.nodes
    pub apart : Apart offset es
    pub chain : Chain dual size queue.nodes sentinel sentinel es
    pub hint : Hint p d es best equal

  pub emplace_lem :
      (q : ArenaQueue D) (es : List (Entry D)) (d : D)
      → Holds dual size q es
      → q.used < length q.nodes
      → Emplaced q es d (emplace p size q d)
  unfolding emplace
  emplace_lem q es d w l =
      let (j, f, b) = free_slot (flags q.nodes) (omega (arith, w.counted, length-flags q.nodes)) in
      let g : q.good < length q.nodes = elim w.good [ inl z ↦ absurd (omega arith) | inr g ↦ g ] in
      let r =
        search-free p dual s q es w.chain w.owned j (omega (arith, b, length-flags q.nodes)) f d
          q.good g in
      let i = r.index in
      let o = i * size in
      let here : cell size o q.nodes ≡ some r.vacant = cell-offset s i q.nodes ∙ r.here in
      let put : ArenaNode D → ArenaNode D = λ n. record n { item = some d } in
      let fresh = fresh_slot q.nodes sentinel es o r.vacant here r.free w.chain in
      let same =
        flags-same s o put q.nodes r.vacant here (flag-next (put r.vacant) r.vacant refl) in
      let ns = set_slot (o / size) put q.nodes in
      let len : length ns ≡ length q.nodes = length-set_slot (o / size) put q.nodes in
      record {
        queue = record q { nodes = ns; good = (i + 1) % length q.nodes; used = q.used + 1 };
        offset = o;
        best = r.best;
        equal = r.equal;
        run = bind-some _ r.run (bind-some _ (write_lem s q o put r.vacant here) refl);
        head-same = refl;
        used-more = omega arith;
        good-bound = omega (arith, len, mod-lt (i + 1) {m = length q.nodes} (omega arith));
        length-same = len;
        node = put r.vacant;
        here = cell-put_same s o put q.nodes r.vacant here;
        filled = refl;
        aligned = ap (λ k. k * size) (sym (mul-div_cancel i s.positive));
        free =
            ap (slot (o / size)) same
            ∙ slot-flags (o / size) q.nodes r.vacant (cell-slot s o q.nodes r.vacant here).1
            ∙ ap some (flag-free r.vacant r.free);
        flags-kept = same;
        apart = record { distinct = w.distinct; fresh = fresh };
        chain =
            Chain-frame dual s o put q.nodes sentinel sentinel es (mul-mod_left i size)
              (All-mono _ _ (λ x n e. n (sym e)) es fresh) w.chain;
        hint = r.hint;
      }

  -- With its links written, the new entry is one of those that the block holds.
  pub Inserted-Holds :
      (q : ArenaQueue D) (es us ws : List (Entry D)) (d : D)
      (r : Option (ArenaQueue D × ℕ × Option ℕ × Bool)) (t : Option (ArenaQueue D))
      → es ≡ us ++ ws
      → Holds dual size q es
      → (e : Emplaced q es d r) → (i : Inserted dual size e.queue e.offset d us ws t)
      → Holds dual size
          (record e.queue { nodes = i.nodes; head = first e.offset us })
          (us ++ (e.offset, d) ∷ ws)
  Inserted-Holds q es us ws d r t h w e i =
      let o = e.offset in
      let marks : flags i.nodes ≡ set_slot (o / size) (λ _. true) (flags q.nodes) =
        i.marks ∙ ap (set_slot (o / size) (λ _. true)) e.flags-kept in
      let len : length i.nodes ≡ length e.queue.nodes =
        sym (length-flags i.nodes)
        ∙ ap length i.marks
        ∙ length-set_slot (o / size) (λ _. true) (flags e.queue.nodes)
        ∙ length-flags e.queue.nodes in
      record {
        chain = i.chain;
        front = sym (first-append sentinel us ((o, d) ∷ ws));
        distinct =
            Distinct-insert us ws (o, d) (subst Distinct h w.distinct)
              (subst (All (λ x. o ≢ x.0)) h e.apart.fresh);
        owned =
            subst (λ fs. Owned size 0 fs (us ++ (o, d) ∷ ws)) (sym marks)
              (Owned-take size 0 (o / size) (flags q.nodes) us ws (o, d)
                (e.aligned ∙ ap (λ k. k * size) (omega arith))
                (subst (Owned size 0 (flags q.nodes)) h w.owned));
        counted =
            ap count marks
            ∙ count-take (o / size) (flags q.nodes)
                (ap (slot (o / size)) (sym e.flags-kept) ∙ e.free)
            ∙ ap suc w.counted
            ∙ sym e.used-more;
        enough =
            length-insert us ws (o, d)
            ∙ ap (λ l. suc (length l)) (sym h)
            ∙ ap suc w.enough
            ∙ sym e.used-more;
        good = inr (subst (λ k. e.queue.good < k) (sym len) e.good-bound);
        slots = subst IsSlots (sym (len ∙ e.length-same)) w.slots;
      }
