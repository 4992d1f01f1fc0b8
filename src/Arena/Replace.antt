-- ===== src/Arena/Replace.antt =====
-- New data in the node of an entry that the block of an `ArenaQueue` holds.
use async_priority_lock_rs.Base.{
  ℕ, ◌*◌, ◌/◌, ◌<◌, ◌⊎◌, ◌≡◌, refl, sym, ap, ◌∙◌, subst, Bool, some, List, ◌∷◌, ◌++◌, length-insert,
}
use async_priority_lock_rs.Queue.Order.{Entry}
use async_priority_lock_rs.Queue.Handles.{Distinct-replace}
use async_priority_lock_rs.Arena.{ArenaNode, ArenaQueue, sentinel, set_slot, write, data_at}
use async_priority_lock_rs.Arena.Cells.{
  IsSize, flags, flag-next, flags-same, data_at_lem, write_lem, length-set_slot,
}
use async_priority_lock_rs.Arena.Chain.{PrevAt-kept, first-append}
use async_priority_lock_rs.Arena.Pieces.{put_middle}
use async_priority_lock_rs.Arena.Owned.{Owned, Owned-map, has-moved, count}
use async_priority_lock_rs.Arena.Cut.{join_with, cut_at}
use async_priority_lock_rs.Arena.At.{old_at, Apart-at}
use async_priority_lock_rs.Arena.Valid.{Holds, IsSlots}

abbrev pub with_item : {D : Type 0} → ℕ → ArenaQueue D → ℕ → D → ArenaQueue D
with_item size q h e = record q {
  nodes = set_slot (h / size) (λ n. record n { item = some e }) q.nodes;
}

module _ {D : Type 0} (dual : Bool) {size : ℕ} (s : IsSize size) (q : ArenaQueue D)
    (xs ys : List (Entry D)) (h : ℕ) (d e : D) (w : Holds dual size q (xs ++ (h, d) ∷ ys)) where
  pub write-item : write size q h (λ n. record n { item = some e }) ≡ some (with_item size q h e)
  write-item = let n = old_at dual size q xs ys h d w in write_lem s q h _ n.content n.here

  pub read-item : data_at size q h ≡ some d
  read-item =
      let n = old_at dual size q xs ys h d w in data_at_lem s q h n.content d n.here n.filled

  -- New data in the node of an entry.
  pub replaced-Holds : Holds dual size (with_item size q h e) (xs ++ (h, e) ∷ ys)
  replaced-Holds =
      let old = old_at dual size q xs ys h d w in
      let f : ArenaNode D → ArenaNode D = λ n. record n { item = some e } in
      let ns = set_slot (h / size) f q.nodes in
      let k =
        put_middle dual s (flags q.nodes) h xs ys f q.nodes h h old.content
          (Apart-at dual size q xs ys h d w) (cut_at dual size q.nodes xs ys h d w.chain) in
      let same =
        flags-same s h f q.nodes old.content old.here
          (flag-next (f old.content) old.content refl) in
      let len = length-set_slot (h / size) f q.nodes in
      record {
        chain =
            join_with dual size (flags q.nodes) ns xs ys h e (f old.content) k old.onward refl
              (PrevAt-kept dual _ old.content _ refl old.back);
        front =
            w.front
            ∙ first-append sentinel xs ((h, d) ∷ ys)
            ∙ sym (first-append sentinel xs ((h, e) ∷ ys));
        distinct = Distinct-replace xs ys h d e w.distinct;
        owned =
            subst (λ fs. Owned size 0 fs (xs ++ (h, e) ∷ ys)) (sym same)
              (Owned-map size 0 (flags q.nodes) (xs ++ (h, d) ∷ ys) (xs ++ (h, e) ∷ ys)
                (λ k l. has-moved (k * size) xs ys xs ys h d e refl) w.owned);
        counted = ap count same ∙ w.counted;
        enough = length-insert xs ys (h, e) ∙ sym (length-insert xs ys (h, d)) ∙ w.enough;
        good = subst (λ l. (l ≡ 0) ⊎ (q.good < l)) (sym len) w.good;
        slots = subst IsSlots (sym len) w.slots;
      }
