-- ===== src/Semaphore/Entries.antt =====
-- The entries of a semaphore's queue: the permits that are out, the waiters that are pending, and
-- which of those a walk over the queue leaves pending.
use mathlib.Core.Path.{transport}
use async_priority_lock_rs.Base.{
  ℕ, ◌+◌, ◌-◌, ◌≤◌, ◌≡◌, inl, inr, refl, sym, subst, Bool, true, false, ◌&&◌, List, [], ◌∷◌, ◌++◌,
  arith, All, if◌then◌else◌, ltb, Bool-cases,
}
use async_priority_lock_rs.Priority.{Priority, is_ge, is_le}
use async_priority_lock_rs.Priority.Laws.{IsLawful}
use async_priority_lock_rs.Queue.Order.{Entry}
use async_priority_lock_rs.Semaphore.{Features, SemaphoreWaiter, count_of, semaphore_priority}

module _ {P : Type 0} where
  abbrev pub Held : Bool → Entry (SemaphoreWaiter P) → Type 0
  Held b e = e.1.waiter.has_lock ≡ b

module _ {P : Type 0} (features : Features) where
  abbrev pub weight : SemaphoreWaiter P → ℕ
  weight d = if d.waiter.has_lock then count_of features d else 0

  -- The permits that the holders have.
  abbrev pub issued : List (Entry (SemaphoreWaiter P)) → ℕ
  issued [] = 0
  issued (e ∷ es) = weight e.1 + issued es

  abbrev pub pending : List (Entry (SemaphoreWaiter P)) → List (Entry (SemaphoreWaiter P))
  pending [] = []
  pending (e ∷ es) = if e.1.waiter.has_lock then pending es else e ∷ pending es

  -- Evicted before it was served, and so about to leave.
  abbrev pub leaving : SemaphoreWaiter P → Bool
  leaving d = features.semaphore_total && d.waiter.wants_evict

  -- Who stays pending when `a` permits are handed out in order: the first waiter that asks for too
  -- much ends it, unless it is about to leave.
  abbrev pub left : ℕ → List (Entry (SemaphoreWaiter P)) → List (Entry (SemaphoreWaiter P))
  left a [] = []
  left a (e ∷ es) =
      if e.1.waiter.has_lock
      then left a es
      else (if ltb a (count_of features e.1)
          then e ∷ (if leaving e.1 then left a es else pending es)
          else left (a - count_of features e.1) es)

  abbrev pub rest : ℕ → List (Entry (SemaphoreWaiter P)) → ℕ
  rest a [] = a
  rest a (e ∷ es) =
      if e.1.waiter.has_lock
      then rest a es
      else (if ltb a (count_of features e.1)
          then (if leaving e.1 then rest a es else a)
          else rest (a - count_of features e.1) es)

  -- The first waiter that is not about to leave asks for more than there is.
  abbrev pub Blocked : ℕ → List (Entry (SemaphoreWaiter P)) → Type 0
  Blocked a [] = Unit {0}
  Blocked a (e ∷ es) = if leaving e.1 then Blocked a es else (ltb a (count_of features e.1) ≡ true)

  pub issued-append :
      (xs ys : List (Entry (SemaphoreWaiter P))) → issued (xs ++ ys) ≡ issued xs + issued ys
  issued-append [] ys = omega arith
  issued-append (x ∷ xs) ys = omega (arith, issued-append xs ys)

  pub pending-append :
      (xs ys : List (Entry (SemaphoreWaiter P))) → pending (xs ++ ys) ≡ pending xs ++ pending ys
  pending-append [] ys = refl
  pending-append (x ∷ xs) ys = ground (arith, pending-append xs ys)

  pub pending-id : (xs : List (Entry (SemaphoreWaiter P))) → All (Held false) xs → pending xs ≡ xs
  pending-id [] a = refl
  pending-id (x ∷ xs) a = ground (arith, pending-id xs a.1)

  -- A holder among the entries.
  pub pending-insert :
      (xs ys : List (Entry (SemaphoreWaiter P))) (z : Entry (SemaphoreWaiter P))
      → z.1.waiter.has_lock ≡ true
      → pending (xs ++ z ∷ ys) ≡ pending (xs ++ ys)
  pending-insert [] ys z h = ground arith
  pending-insert (x ∷ xs) ys z h = ground (arith, pending-insert xs ys z h)

  pub issued-insert :
      (xs ys : List (Entry (SemaphoreWaiter P))) (z : Entry (SemaphoreWaiter P))
      → issued (xs ++ z ∷ ys) ≡ issued (xs ++ ys) + weight z.1
  issued-insert [] ys z = omega arith
  issued-insert (x ∷ xs) ys z = omega (arith, issued-insert xs ys z)

  rest-le : (a : ℕ) (es : List (Entry (SemaphoreWaiter P))) → rest a es ≤ a
  rest-le a [] = omega arith
  rest-le a (e ∷ es) = ground (arith, rest-le a es, rest-le (a - count_of features e.1) es)

  module _ (a : ℕ) (e : Entry (SemaphoreWaiter P)) (es : List (Entry (SemaphoreWaiter P))) where
    abbrev Outcome : ℕ → List (Entry (SemaphoreWaiter P)) → Type 0
    Outcome n xs = (rest a (e ∷ es) ≡ n) × (left a (e ∷ es) ≡ xs)

    -- The four cases of a walk at its next entry.
    pub walk-held : e.1.waiter.has_lock ≡ true → Outcome (rest a es) (left a es)
    walk-held h = ground arith

    module _ (free : e.1.waiter.has_lock ≡ false) where
      pub walk-leaving :
          ltb a (count_of features e.1) ≡ true
          → leaving e.1 ≡ true
          → Outcome (rest a es) (e ∷ left a es)
      walk-leaving s l = ground arith

      pub walk-stop :
          ltb a (count_of features e.1) ≡ true → leaving e.1 ≡ false → Outcome a (e ∷ pending es)
      walk-stop s l = ground arith

      pub walk-grant :
          ltb a (count_of features e.1) ≡ false
          → Outcome (rest (a - count_of features e.1) es) (left (a - count_of features e.1) es)
      walk-grant s = ground arith

  Blocked-leaving :
      (a : ℕ) (e : Entry (SemaphoreWaiter P)) (es : List (Entry (SemaphoreWaiter P)))
      → leaving e.1 ≡ true
      → Blocked a es
      → Blocked a (e ∷ es)
  Blocked-leaving a e es l b =
      subst (λ c. if c then Blocked a es else (ltb a (count_of features e.1) ≡ true)) (sym l) b

  Blocked-stop :
      (a : ℕ) (e : Entry (SemaphoreWaiter P)) (es : List (Entry (SemaphoreWaiter P)))
      → leaving e.1 ≡ false
      → ltb a (count_of features e.1) ≡ true
      → Blocked a (e ∷ es)
  Blocked-stop a e es l b =
      subst (λ c. if c then Blocked a es else (ltb a (count_of features e.1) ≡ true)) (sym l) b

  Blocked-transport :
      (m n : ℕ) (xs ys : List (Entry (SemaphoreWaiter P)))
      → (m ≡ n) × (xs ≡ ys)
      → Blocked n ys
      → Blocked m xs
  Blocked-transport m n xs ys e b = transport (λ i. Blocked (sym e.0 i) (sym e.1 i)) b

  -- When the permits have been handed out, nobody who could be served is left waiting.
  pub left-Blocked :
      (a : ℕ) (es : List (Entry (SemaphoreWaiter P))) → Blocked (rest a es) (left a es)
  left-Blocked a [] = tt
  left-Blocked a (e ∷ es) = elim (Bool-cases e.1.waiter.has_lock) [
    | inl held ↦ Blocked-transport _ _ _ _ (walk-held a e es held) (left-Blocked a es)
    | inr free ↦ elim (Bool-cases (ltb a (count_of features e.1))) [
      | inl short ↦ elim (Bool-cases (leaving e.1)) [
        | inl goes ↦
            Blocked-transport _ _ _ _ (walk-leaving a e es free short goes)
              (Blocked-leaving (rest a es) e (left a es) goes (left-Blocked a es))
        | inr stays ↦
            Blocked-transport _ _ _ _ (walk-stop a e es free short stays)
              (Blocked-stop a e (pending es) stays short)
      ]
      | inr enough ↦
          Blocked-transport _ _ _ _ (walk-grant a e es free enough)
            (left-Blocked (a - count_of features e.1) es)
    ]
  ]

module _ {P : Type 0} (features : Features) {p : Priority P} (law : IsLawful p) where
  -- The order of a semaphore's entries is lawful if that of the priorities is.
  pub semaphore-IsLawful : IsLawful (semaphore_priority features p)
  unfolding semaphore_priority
  semaphore-IsLawful = record {
    order = record {
      swap = λ a b. ground (arith, law.swap a.priority b.priority);
      trans = λ a b d h k. ground (arith, law.trans a.priority b.priority d.priority);
    };
    agrees = λ a b n. ground (arith, law.agrees a.priority b.priority);
  }

module _ {P : Type 0} (features : Features) (p : Priority P) where
  -- Behind a pending entry all are pending.
  pub pending_behind :
      (e : Entry (SemaphoreWaiter P)) (es : List (Entry (SemaphoreWaiter P)))
      → Held false e
      → All (λ y. is_ge ((semaphore_priority features p).compare_to e.1 y.1) ≡ true) es
      → All (Held false) es
  unfolding semaphore_priority
  pending_behind e [] f a = tt
  pending_behind e (y ∷ es) f a = (ground (arith, a.0), pending_behind e es f a.1)

  -- Before the place of a holder all hold permits.
  pub Held-before :
      (d : SemaphoreWaiter P) (es : List (Entry (SemaphoreWaiter P)))
      → d.waiter.has_lock ≡ true
      → All (λ e. is_le ((semaphore_priority features p).compare_to d e.1) ≡ true) es
      → All (Held true) es
  unfolding semaphore_priority
  Held-before d [] h a = tt
  Held-before d (y ∷ es) h a = (ground (arith, a.0), Held-before d es h a.1)
