-- ===== src/Mutex/Data/Front.antt =====
-- The first entry of a mutex's queue, which the owner of the guard has.
use mathlib.Core.Option
use async_priority_lock_rs.Base.{
  ℕ, ◌≡◌, ◌≢◌, refl, sym, ap, ◌∙◌, subst, inl, inr, true, false, Option, none, some, List, [], ◌∷◌,
  ◌++◌, arith, All, All-mono, All-append_right, head?, ◌==◌, Bool-cases,
}
use async_priority_lock_rs.Priority.{Priority}
use async_priority_lock_rs.Waiter
use async_priority_lock_rs.Waiter.{Waiter, Flags, Poll, ready, pending, lock_flag, evict_flag}
use async_priority_lock_rs.Queue.{PriorityQueue}
use async_priority_lock_rs.Queue.Order.{Entry}
use async_priority_lock_rs.Mutex.{MutexWaiter, mutex_priority, poll, drop_future, drop_guard}
use async_priority_lock_rs.Mutex.Shape.{Held, Shape}
use async_priority_lock_rs.Mutex.Invariant.{Inv}
use async_priority_lock_rs.Mutex.Release.{drop_guard-waiter, poll_lem, drop_future_lem}
use async_priority_lock_rs.Mutex.Run.{Queued, the_same}
use async_priority_lock_rs.Mutex.Data.{Out, without}

-- A poll for HAS_LOCK that is ready has seen it.
ready_held :
    (k : ℕ) (w : Waiter) (f : Flags)
    → (Waiter.wait_for_flag lock_flag k w).1 ≡ ready f
    → w.has_lock ≡ true
unfolding Waiter.wait_for_flag Waiter.clear_waker
ready_held k w f e = ground arith

module _ {P : Type 0} where
  -- The handle at the head.
  abbrev pub front : List (Entry (MutexWaiter P)) → Option ℕ
  front es = Option.map (λ e. e.0) (head? es)

  pub front-replace :
      (xs ys : List (Entry (MutexWaiter P))) (h : ℕ) (d e : MutexWaiter P)
      → front (xs ++ (h, d) ∷ ys) ≡ front (xs ++ (h, e) ∷ ys)
  front-replace [] ys h d e = refl
  front-replace (x ∷ xs) ys h d e = refl

  -- The entry with the lock is the first.
  pub front-held :
      (p : Priority P) (xs ys : List (Entry (MutexWaiter P))) (h : ℕ) (d : MutexWaiter P)
      → Shape p (xs ++ (h, d) ∷ ys)
      → d.waiter.has_lock ≡ true
      → front (xs ++ (h, d) ∷ ys) ≡ some h
  front-held p [] ys h d s l = refl
  front-held p (x ∷ xs) ys h d s l =
      let held = (All-append_right (Held false) xs ((h, d) ∷ ys) s.1).0 in absurd cc

pub same_handle : {a b : ℕ} → some a ≡ some b → a ≡ b
same_handle e = cc

pub All-out : (P : ℕ → Type 0) (h : ℕ) (gs : List ℕ) → All P gs → Out h gs → P h
All-out P h [] a o = absurd o
All-out P h (g ∷ gs) a (inl e) = subst P e a.0
All-out P h (g ∷ gs) a (inr o) = All-out P h gs a.1 o

-- If all guards are the one that leaves, none is left.
pub without-All :
    (P : ℕ → Type 0) (h : ℕ) (gs : List ℕ) → All (λ g. g ≢ h → P g) gs → All P (without h gs)
without-All P h [] a = tt
without-All P h (g ∷ gs) a = elim (Bool-cases (g == h)) [
  | inl t ↦ rw t (without-All P h gs a.1)
  | inr f ↦ rw f (a.0 (ground arith), without-All P h gs a.1)
]

module _ {P : Type 0} (p : Priority P) (Q : PriorityQueue (mutex_priority p)) where
  open Q use {Queue, entries}

  -- The first entry stays the first.
  pub same_front :
      (q q' : Queue) (gs : List ℕ)
      → front (entries q') ≡ front (entries q)
      → All (λ g. front (entries q) ≡ some g) gs
      → All (λ g. front (entries q') ≡ some g) gs
  same_front q q' gs e a = All-mono _ _ (λ g h. e ∙ h) gs a

  pub none_out :
      (q q' : Queue) (gs : List ℕ)
      → entries q ≡ []
      → All (λ g. front (entries q) ≡ some g) gs
      → All (λ g. front (entries q') ≡ some g) gs
  none_out q q' gs e a =
      All-mono _ _ (λ g h. let none_at : none ≡ some g = sym (ap front e) ∙ h in absurd cc) gs a

  pub front-poll :
      (target : Flags) (q q' : Queue) (h c : ℕ) (r : Poll)
      → Inv p Q q
      → Queued p Q q h
      → poll p Q target q h c ≡ some (q', r)
      → front (entries q') ≡ front (entries q)
  front-poll target q q' h c r v at e =
      let (q1, f, e1, _) = poll_lem p Q target q at.front at.back h c at.item v at.place in
      ap (λ t. front (entries t.0)) (the_same p Q e f)
      ∙ ap front e1
      ∙ front-replace at.front at.back h _ at.item
      ∙ ap front (sym at.place)

  pub front-drop_future :
      (q q' : Queue) (h : ℕ)
      → Inv p Q q
      → Queued p Q q h
      → drop_future p Q q h ≡ some q'
      → front (entries q') ≡ front (entries q)
  front-drop_future q q' h v at e =
      let (q1, f, e1, _) = drop_future_lem p Q q at.front at.back h at.item v at.place in
      ap (λ t. front (entries t)) (the_same p Q e f)
      ∙ ap front e1
      ∙ front-replace at.front at.back h _ at.item
      ∙ ap front (sym at.place)

  -- A `lock` that is polled to its end has the lock.
  pub front-ready :
      (q q' : Queue) (h c : ℕ) (f : Flags)
      → Inv p Q q
      → Queued p Q q h
      → poll p Q lock_flag q h c ≡ some (q', ready f)
      → front (entries q) ≡ some h
  front-ready q q' h c f v at e =
      let (q1, g, _, _) = poll_lem p Q lock_flag q at.front at.back h c at.item v at.place in
      let answer = ap (λ t. t.1) (the_same p Q g e) in
      ap front at.place
      ∙ front-held p at.front at.back h at.item (subst (Shape p) at.place v.shape)
          (ready_held c at.item.waiter f answer)

  -- Another's guard leaves.
  pub front-drop_guard :
      (q q' : Queue) (h g : ℕ)
      → Inv p Q q
      → Queued p Q q h
      → drop_guard p Q q h ≡ some q'
      → front (entries q) ≡ some g
      → g ≢ h
      → front (entries q') ≡ some g
  front-drop_guard q q' h g v at e o n = go at.front at.place
    where
      go :
          (xs : List (Entry (MutexWaiter P)))
          → entries q ≡ xs ++ (h, at.item) ∷ at.back
          → front (entries q') ≡ some g
      go [] e0 = let here : some h ≡ some g = sym (ap front e0) ∙ o in absurd (n cc)
      go (x ∷ xs) e0 =
          let (q1, f, e1, _) = drop_guard-waiter p Q q x xs at.back h at.item v e0 in
          ap (λ t. front (entries t)) (the_same p Q e f) ∙ ap front e1 ∙ sym (ap front e0) ∙ o
