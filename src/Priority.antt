-- ===== src/Priority.antt =====
-- src/priority.rs: the trait `Priority`, the bound `Ord`, and the wrappers.
pub mod Laws
pub mod Tests
use async_priority_lock_rs.Base.{ℕ, compare, Ordering, lt, eq, gt, Bool, true, false}

-- `Ordering::reverse`, `then`, `is_ge`, `is_gt`, `is_le`, `is_lt`.
abbrev pub reverse : Ordering → Ordering
reverse lt = gt
reverse eq = eq
reverse gt = lt

abbrev pub then : Ordering → Ordering → Ordering
then eq second = second
then first _ = first

abbrev pub is_ge : Ordering → Bool
is_ge lt = false
is_ge _ = true

abbrev pub is_gt : Ordering → Bool
is_gt gt = true
is_gt _ = false

abbrev pub is_le : Ordering → Bool
is_le gt = false
is_le _ = true

abbrev pub is_lt : Ordering → Bool
is_lt lt = true
is_lt _ = false

-- `Ord::cmp` of the bound `O: Ord`.
pub record Ord {ℓ} (O : Type ℓ) : Type ℓ where
  pub cmp : O → O → Ordering

pub record Priority {ℓ} (P : Type ℓ) : Type ℓ where
  pub compare_to : P → P → Ordering
  pub compare_new : P → P → Ordering

module _ {ℓ} where
  -- An `impl` that keeps the provided `compare_new`, which is `compare`.
  abbrev pub by_compare : {P : Type ℓ} → (P → P → Ordering) → Priority P
  by_compare c = record { compare_to = c; compare_new = c }

  -- `impl<O: Ord> Priority for O`; `HighestFirst<O>` is `O`.
  unfoldable pub highest_first : {O : Type ℓ} → Ord O → Priority O
  highest_first o = by_compare o.cmp

  pub record LowestFirst (O : Type ℓ) : Type ℓ where
    pub inner : O

  unfoldable pub lowest_first : {O : Type ℓ} → Ord O → Priority (LowestFirst O)
  lowest_first o = by_compare (λ self other. o.cmp other.inner self.inner)

  pub record Fifo (P : Type ℓ) : Type ℓ where
    pub inner : P

  unfoldable pub fifo : {P : Type ℓ} → Priority P → Priority (Fifo P)
  fifo p = record {
    compare_to = λ self other. p.compare_to self.inner other.inner;
    compare_new = λ self old. then (p.compare_new self.inner old.inner) lt;
  }

  pub record Lifo (P : Type ℓ) : Type ℓ where
    pub inner : P

  unfoldable pub lifo : {P : Type ℓ} → Priority P → Priority (Lifo P)
  lifo p = record {
    compare_to = λ self other. p.compare_to self.inner other.inner;
    compare_new = λ self old. then (p.compare_new self.inner old.inner) gt;
  }

-- `usize: Ord`.
abbrev pub usize_ord : Ord ℕ
usize_ord = record { cmp = compare }
