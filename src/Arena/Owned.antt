-- ===== src/Arena/Owned.antt =====
-- The slots of an `ArenaQueue` that are taken are those of the entries of its list.
use native.Mathlib.Nat.{mul-div_cancel}
use async_priority_lock_rs.Base.{
  ℕ, zero, suc, ◌+◌, ◌*◌, ◌/◌, ◌<◌, ◌≤◌, ◌≡◌, ◌≢◌, refl, sym, ap, ◌∙◌, subst, inl, inr, Bool, true,
  false, ◌||◌, some, List, [], ◌∷◌, ◌++◌, arith, if◌then◌else◌, ◌==◌, length, All, Bool-cases,
}
use async_priority_lock_rs.Queue.Order.{Entry}
use async_priority_lock_rs.Arena.{slot, set_slot}
use async_priority_lock_rs.Arena.Cells.{IsSize}

-- Offsets of slots differ if the slots do.
same_slot : {size : ℕ} (s : IsSize size) (i j : ℕ) → i * size ≡ j * size → i ≡ j
same_slot {size} s i j e =
    sym (mul-div_cancel i s.positive) ∙ ap (λ k. k / size) e ∙ mul-div_cancel j s.positive

module _ {D : Type 0} where
  abbrev pub has : ℕ → List (Entry D) → Bool
  has o [] = false
  has o (x ∷ xs) = (x.0 == o) || has o xs

  pub has-insert :
      (h : ℕ) (xs ys : List (Entry D)) (z : Entry D)
      → has h (xs ++ ys) ≡ true
      → has h (xs ++ z ∷ ys) ≡ true
  has-insert h [] ys z e = ground arith
  has-insert h (x ∷ xs) ys z e = ground (arith, has-insert h xs ys z)

  pub has-new : (xs ys : List (Entry D)) (z : Entry D) → has z.0 (xs ++ z ∷ ys) ≡ true
  has-new [] ys z = ground arith
  has-new (x ∷ xs) ys z = ground (arith, has-new xs ys z)

  pub has-remove :
      (h : ℕ) (xs ys : List (Entry D)) (z : Entry D)
      → z.0 ≢ h
      → has h (xs ++ z ∷ ys) ≡ true
      → has h (xs ++ ys) ≡ true
  has-remove h [] ys z n e = ground arith
  has-remove h (x ∷ xs) ys z n e = ground (arith, has-remove h xs ys z n)

  pub has-apart : (h : ℕ) (xs : List (Entry D)) → has h xs ≡ true → All (λ x. h ≢ x.0) xs → ⊥
  has-apart h [] e a = cc
  has-apart h (x ∷ xs) e a = ground (arith, has-apart h xs, a.0, a.1)

  pub has-moved :
      (o : ℕ) (xs ys us ws : List (Entry D)) (h : ℕ) (d e : D)
      → xs ++ ys ≡ us ++ ws
      → has o (xs ++ (h, d) ∷ ys) ≡ true
      → has o (us ++ (h, e) ∷ ws) ≡ true
  has-moved o xs ys us ws h d e eq a = elim (Bool-cases (h == o)) [
    | inl t ↦ subst (λ k. has k (us ++ (h, e) ∷ ws) ≡ true) (ground arith) (has-new us ws (h, e))
    | inr f ↦
        has-insert o us ws (h, e)
          (subst (λ l. has o l ≡ true) eq (has-remove o xs ys (h, d) (ground arith) a))
  ]

  -- The entry that has a handle.
  pub has-split :
      (h : ℕ) (xs : List (Entry D))
      → has h xs ≡ true
      → (before : List (Entry D)) × (d : D) × (later : List (Entry D)) × (xs
          ≡ before ++ (h, d) ∷ later)
  has-split h [] e = absurd cc
  has-split h (x ∷ xs) e = elim (Bool-cases (x.0 == h)) [
    | inl t ↦ ([], x.1, xs, ap (λ k. (k, x.1) ∷ xs) (ground arith))
    | inr f ↦
        let (before, d, later, split) = has-split h xs (ground arith) in
        (x ∷ before, d, later, ap (λ l. x ∷ l) split)
  ]

  abbrev pub Owner : Bool → ℕ → List (Entry D) → Type 0
  Owner true o es = has o es ≡ true
  Owner false o es = Unit {0}

  abbrev pub Owned : ℕ → ℕ → List Bool → List (Entry D) → Type 0
  Owned size i [] es = Unit {0}
  Owned size i (b ∷ fs) es = Owner b (i * size) es × Owned size (suc i) fs es

  Owned-slot :
      (size i j : ℕ) (fs : List Bool) (es : List (Entry D))
      → Owned size i fs es
      → slot j fs ≡ some true
      → has ((i + j) * size) es ≡ true
  unfolding slot
  Owned-slot size i j [] es a e = cc
  Owned-slot size i zero (true ∷ fs) es a e =
      subst (λ k. has (k * size) es ≡ true) {x = i} (omega arith) a.0
  Owned-slot size i zero (false ∷ fs) es a e = cc
  Owned-slot size i (suc j) (b ∷ fs) es a e =
      subst (λ k. has (k * size) es ≡ true) {x = suc i + j} (omega arith)
        (Owned-slot size (suc i) j fs es a.1 e)

  pub Owned-has :
      (size j : ℕ) (fs : List Bool) (es : List (Entry D))
      → Owned size 0 fs es
      → slot j fs ≡ some true
      → has (j * size) es ≡ true
  Owned-has size j fs es a e =
      subst (λ k. has (k * size) es ≡ true) {x = 0 + j} (omega arith)
        (Owned-slot size 0 j fs es a e)

  Owner-map :
      (b : Bool) (o : ℕ) (es es' : List (Entry D))
      → (has o es ≡ true → has o es' ≡ true)
      → Owner b o es
      → Owner b o es'
  Owner-map true o es es' f a = f a
  Owner-map false o es es' f a = tt

  pub Owned-map :
      (size i : ℕ) (fs : List Bool) (es es' : List (Entry D))
      → ((k : ℕ) → i ≤ k → has (k * size) es ≡ true → has (k * size) es' ≡ true)
      → Owned size i fs es
      → Owned size i fs es'
  Owned-map size i [] es es' f a = tt
  Owned-map size i (b ∷ fs) es es' f a = (
    Owner-map b (i * size) es es' (f i (omega arith)) a.0,
    Owned-map size (suc i) fs es es' (λ k l. f k (omega arith)) a.1,
  )

  -- A slot is taken for a new entry.
  pub Owned-take :
      (size i j : ℕ) (fs : List Bool) (xs ys : List (Entry D)) (z : Entry D)
      → z.0 ≡ (i + j) * size
      → Owned size i fs (xs ++ ys)
      → Owned size i (set_slot j (λ _. true) fs) (xs ++ z ∷ ys)
  unfolding set_slot
  Owned-take size i j [] xs ys z e a = tt
  Owned-take size i zero (b ∷ fs) xs ys z e a = (
    subst (λ k. has k (xs ++ z ∷ ys) ≡ true) (e ∙ ap (λ k. k * size) (omega arith))
        (has-new xs ys z),
    Owned-map size (suc i) fs (xs ++ ys) (xs ++ z ∷ ys) (λ k l. has-insert (k * size) xs ys z) a.1,
  )
  Owned-take size i (suc j) (b ∷ fs) xs ys z e a = (
    Owner-map b (i * size) (xs ++ ys) (xs ++ z ∷ ys) (has-insert (i * size) xs ys z) a.0,
    Owned-take size (suc i) j fs xs ys z (e ∙ ap (λ k. k * size) (omega arith)) a.1,
  )

  -- The slot of an entry that leaves is given back.
  module _ {size : ℕ} (s : IsSize size) where
    pub Owned-give :
        (i j : ℕ) (fs : List Bool) (xs ys : List (Entry D)) (z : Entry D)
        → z.0 ≡ (i + j) * size
        → Owned size i fs (xs ++ z ∷ ys)
        → Owned size i (set_slot j (λ _. false) fs) (xs ++ ys)
    unfolding set_slot
    Owned-give i j [] xs ys z e a = tt
    Owned-give i zero (b ∷ fs) xs ys z e a = (
      tt,
      Owned-map size (suc i) fs (xs ++ z ∷ ys) (xs ++ ys)
          (λ k l.
            has-remove (k * size) xs ys z (λ h. omega (arith, same_slot s k (i + 0) (sym h ∙ e))))
          a.1,
    )
    Owned-give i (suc j) (b ∷ fs) xs ys z e a = (
      Owner-map b (i * size) (xs ++ z ∷ ys) (xs ++ ys)
          (has-remove (i * size) xs ys z
            (λ h. omega (arith, same_slot s i (i + suc j) (sym h ∙ e))))
          a.0,
      Owned-give (suc i) j fs xs ys z (e ∙ ap (λ k. k * size) (omega arith)) a.1,
    )

-- The number of slots that are taken.
abbrev pub count : List Bool → ℕ
count [] = 0
count (b ∷ fs) = if b then suc (count fs) else count fs

pub count-take :
    (j : ℕ) (fs : List Bool)
    → slot j fs ≡ some false
    → count (set_slot j (λ _. true) fs) ≡ suc (count fs)
unfolding slot set_slot
count-take j [] e = cc
count-take zero (b ∷ fs) e = ground arith
count-take (suc j) (b ∷ fs) e = ground (arith, count-take j fs e)

pub count-give :
    (j : ℕ) (fs : List Bool)
    → slot j fs ≡ some true
    → suc (count (set_slot j (λ _. false) fs)) ≡ count fs
unfolding slot set_slot
count-give j [] e = cc
count-give zero (b ∷ fs) e = ground arith
count-give (suc j) (b ∷ fs) e = ground (arith, count-give j fs e)

pub count-length : (fs : List Bool) → count fs ≤ length fs
count-length [] = omega arith
count-length (b ∷ fs) = ground (arith, count-length fs)

-- A slot is free unless all are taken.
pub free_slot :
    (fs : List Bool) → count fs ≢ length fs → (j : ℕ) × (slot j fs ≡ some false) × (j < length fs)
unfolding slot
free_slot [] n = absurd (n refl)
free_slot (false ∷ fs) n = (0, refl, omega arith)
free_slot (true ∷ fs) n =
    let (j, e, l) = free_slot fs (λ e. n (ap suc e)) in (suc j, e, omega (arith, l))
