-- ===== src/Mutex/Data/Guards.antt =====
-- Whose guards are out: only the first entry's of the queue.
use async_priority_lock_rs.Base.{
  ℕ, ◌≡◌, sym, ap, ◌∙◌, inl, inr, Bool, true, false, none, some, List, [], ◌∷◌, All, All-mono,
}
use async_priority_lock_rs.Priority.{Priority}
use async_priority_lock_rs.Priority.Laws.{IsLawful}
use async_priority_lock_rs.Waiter.{ready, lock_flag}
use async_priority_lock_rs.Queue.{PriorityQueue}
use async_priority_lock_rs.Queue.Order.{Entry}
use async_priority_lock_rs.Mutex.{MutexWaiter, mutex_priority}
use async_priority_lock_rs.Mutex.Shape.{Held, Shape}
use async_priority_lock_rs.Mutex.Invariant.{Inv, default-Inv, try_lock_lem, lock_lem}
use async_priority_lock_rs.Mutex.Run.{Step, Step-Inv, the_same}
use async_priority_lock_rs.Mutex.Data.{World, Move, History, Out, new, deref_mut}
use async_priority_lock_rs.Mutex.Data.Front.{
  front, same_handle, All-out, without-All, same_front, none_out, front-poll, front-drop_future,
  front-ready, front-drop_guard,
}

module _ {P : Type 0} (p : Priority P) (Q : PriorityQueue (mutex_priority p)) (T : Type 0) where
  open Q use {Queue, entries}

  pub record Kept (w : World p Q T) : Type 0 where
    pub inv : Inv p Q w.mutex.queue
    pub owned : All (λ g. front (entries w.mutex.queue) ≡ some g) w.guards

  module _ (law : IsLawful p) (evicts : Bool) where
    pub Move-Kept : {w w' : World p Q T} → Move p Q T evicts w w' → Kept w → Kept w'
    unfolding deref_mut
    Move-Kept {w} (Move.tries priority q h e) k =
        elim (try_lock_lem p Q law w.mutex.queue priority k.inv) [
          | inl (e0, q1, h1, f, e1, _) ↦
              let same = the_same p Q e f in
              record {
                inv = Step-Inv p Q law evicts (Step.try_locks priority (some h) e) k.inv;
                owned = (
                  ap (λ t. front (entries t.0)) same ∙ ap front e1 ∙ sym (ap (λ t. t.1) same),
                  none_out p Q w.mutex.queue q w.guards e0 k.owned,
                );
              }
          | inr (_, f) ↦
              absurd (let refused : none ≡ some h = ap (λ t. t.1) (the_same p Q f e) in cc)
        ]
    Move-Kept {w} (Move.locks priority q h e) k =
        elim (lock_lem p Q law evicts w.mutex.queue priority k.inv) [
          | inl (e0, q1, h1, f, e1, _) ↦
              let same = the_same p Q e f in
              record {
                inv = Step-Inv p Q law evicts (Step.locks priority h true e) k.inv;
                owned = (
                  ap (λ t. front (entries t.0)) same ∙ ap front e1 ∙ sym (ap (λ t. some t.1) same),
                  none_out p Q w.mutex.queue q w.guards e0 k.owned,
                );
              }
          | inr (_, _, _, _, _, _, f, _, _) ↦
              absurd (let awaits : false ≡ true = ap (λ t. t.2) (the_same p Q f e) in cc)
        ]
    Move-Kept {w} (Move.waits priority q h e) k =
        elim (lock_lem p Q law evicts w.mutex.queue priority k.inv) [
          | inl (_, _, _, f, _, _) ↦
              absurd (let at_once : true ≡ false = ap (λ t. t.2) (the_same p Q f e) in cc)
          | inr (_, _, _, e0, q1, h1, f, put, _) ↦ record {
            inv = Step-Inv p Q law evicts (Step.locks priority h false e) k.inv;
            owned =
                same_front p Q w.mutex.queue q w.guards
                  (ap (λ t. front (entries t.0)) (the_same p Q e f)
                    ∙ ap front put.result
                    ∙ sym (ap front e0))
                  k.owned;
          }
        ]
    Move-Kept {w} (Move.gets h c q f at e) k =
        let same = front-poll p Q lock_flag w.mutex.queue q h c (ready f) k.inv at e in
        record {
          inv = Step-Inv p Q law evicts (Step.polls lock_flag h c (ready f) at e) k.inv;
          owned = (
            same ∙ front-ready p Q w.mutex.queue q h c f k.inv at e,
            same_front p Q w.mutex.queue q w.guards same k.owned,
          );
        }
    Move-Kept {w} (Move.polls target h c q r at e) k = record {
      inv = Step-Inv p Q law evicts (Step.polls target h c r at e) k.inv;
      owned =
          same_front p Q w.mutex.queue q w.guards
            (front-poll p Q target w.mutex.queue q h c r k.inv at e) k.owned;
    }
    Move-Kept {w} (Move.drops_future h q at e) k = record {
      inv = Step-Inv p Q law evicts (Step.drops_future h at e) k.inv;
      owned =
          same_front p Q w.mutex.queue q w.guards
            (front-drop_future p Q w.mutex.queue q h k.inv at e) k.owned;
    }
    Move-Kept {w} (Move.drops_guard h q at e) k = record {
      inv = Step-Inv p Q law evicts (Step.drops_guard h at e) k.inv;
      owned =
          without-All (λ g. front (entries q) ≡ some g) h w.guards
            (All-mono _ _ (λ g o. front-drop_guard p Q w.mutex.queue q h g k.inv at e o) w.guards
              k.owned);
    }
    Move-Kept {w} (Move.writes h f o) k = record { inv = k.inv; owned = k.owned }

    History-Kept : {val : T} {w : World p Q T} → History p Q T evicts val w → Kept w
    unfolding new
    History-Kept History.created = record { inv = default-Inv p Q; owned = tt }
    History-Kept (History.moved r m) = Move-Kept m (History-Kept r)

    owner-first :
        (es : List (Entry (MutexWaiter P))) (g : ℕ)
        → Shape p es
        → front es ≡ some g
        → (d : MutexWaiter P) × (xs : List (Entry (MutexWaiter P))) × (es ≡ (g, d) ∷ xs)
          × (d.waiter.has_lock ≡ true)
          × All (Held false) xs
    owner-first [] g s e = absurd cc
    owner-first (x ∷ xs) g s e = (x.1, xs, ap (λ h. (h, x.1) ∷ xs) cc, s.0, s.1)

    -- With a lawful priority, after any history of a mutex the owner of a guard that is out, who
    -- reads and writes the data through it, has the one entry with the lock, which is the first of the
    -- queue, and no other guard is out.
    pub guards-exclusive :
        (val : T) (w : World p Q T) (g : ℕ)
        → History p Q T evicts val w
        → Out g w.guards
        → (d : MutexWaiter P) × (xs : List (Entry (MutexWaiter P))) × (entries w.mutex.queue
            ≡ (g, d) ∷ xs)
          × (d.waiter.has_lock ≡ true)
          × All (Held false) xs
          × All (λ h. h ≡ g) w.guards
    guards-exclusive val w g r o =
        let k = History-Kept r in
        let mine = All-out _ g w.guards k.owned o in
        let (d, xs, e, l, others) = owner-first (entries w.mutex.queue) g k.inv.shape mine in
        (d, xs, e, l, others, All-mono _ _ (λ h t. same_handle (sym t ∙ mine)) w.guards k.owned)
