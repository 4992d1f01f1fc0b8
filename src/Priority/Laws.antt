-- ===== src/Priority/Laws.antt =====
-- What priority.rs asks of an implementation, and that every wrapper keeps it.
use async_priority_lock_rs.Base.{Ordering, lt, eq, gt, ◌≡◌, ◌≢◌, ◌↔◌, refl, true, arith}
use async_priority_lock_rs.Priority.{
  reverse, is_ge, is_le, Ord, Priority, highest_first, lowest_first, fifo, lifo, usize_ord,
}

-- A total preorder, as `Ord` documents it: swapping the arguments reverses the answer, and
-- "not less" is transitive.
pub record IsPreorder {ℓ} {A : Type ℓ} (c : A → A → Ordering) : Type ℓ where
  pub swap : (a b : A) → c b a ≡ reverse (c a b)
  pub trans : (a b d : A) → is_ge (c a b) ≡ true → is_ge (c b d) ≡ true → is_ge (c a d) ≡ true

pub ge_of_le {ℓ} :
    {A : Type ℓ} {c : A → A → Ordering} (o : IsPreorder c) (a b : A)
    → is_le (c a b) ≡ true
    → is_ge (c b a) ≡ true
ge_of_le o a b h = ground (arith, o.swap a b)

-- The documented contract: `compare` is transitive, and `compare_new` answers as `compare` wherever
-- that is not `Equal`.
pub record IsLawful {ℓ} {P : Type ℓ} (p : Priority P) : Type ℓ where
  pub order : IsPreorder p.compare_to
  pub open order use *
  pub agrees : (a b : P) → p.compare_to a b ≢ eq → p.compare_new a b ≡ p.compare_to a b

pub usize-IsPreorder : IsPreorder usize_ord.cmp
usize-IsPreorder = record { swap = λ a b. ground arith; trans = λ a b d. ground arith }

module _ {ℓ} where
  pub highest_first-IsLawful :
      {O : Type ℓ} (o : Ord O) → IsPreorder o.cmp → IsLawful (highest_first o)
  unfolding highest_first
  highest_first-IsLawful o h = record { order = h; agrees = λ a b n. refl }

  -- `LowestFirst` over a totally preordered type is lawful.
  pub lowest_first-IsLawful :
      {O : Type ℓ} (o : Ord O) → IsPreorder o.cmp → IsLawful (lowest_first o)
  unfolding lowest_first
  lowest_first-IsLawful o h = record {
    order = record {
      swap = λ a b. h.swap b.inner a.inner;
      trans = λ a b d p q. h.trans d.inner b.inner a.inner q p;
    };
    agrees = λ a b n. refl;
  }

module _ {ℓ} {P : Type ℓ} (p : Priority P) (h : IsLawful p) where
  -- `FIFO` over a lawful priority is lawful.
  pub fifo-IsLawful : IsLawful (fifo p)
  unfolding fifo
  fifo-IsLawful = record {
    order = record {
      swap = λ a b. h.swap a.inner b.inner;
      trans = λ a b d. h.trans a.inner b.inner d.inner;
    };
    agrees = λ a b n. ground (arith, h.agrees a.inner b.inner n);
  }

  -- `LIFO` over a lawful priority is lawful.
  pub lifo-IsLawful : IsLawful (lifo p)
  unfolding lifo
  lifo-IsLawful = record {
    order = record {
      swap = λ a b. h.swap a.inner b.inner;
      trans = λ a b d. h.trans a.inner b.inner d.inner;
    };
    agrees = λ a b n. ground (arith, h.agrees a.inner b.inner n);
  }

  -- Against a queued entry of the same priority a new `FIFO` entry is `Less`, a new `LIFO` entry
  -- `Greater`, unless the wrapped priority has decided the other way; neither is ever `Equal`.
  pub fifo-lifo-compare_new :
      (a b : P)
      → (((fifo p).compare_new (record { inner = a }) (record { inner = b }) ≡ lt)
          ↔ (p.compare_new a b ≢ gt))
        × (((lifo p).compare_new (record { inner = a }) (record { inner = b }) ≡ gt)
            ↔ (p.compare_new a b ≢ lt))
        × ((fifo p).compare_new (record { inner = a }) (record { inner = b }) ≢ eq)
        × ((lifo p).compare_new (record { inner = a }) (record { inner = b }) ≢ eq)
  unfolding fifo lifo
  fifo-lifo-compare_new a b = ground arith

-- The wrapper decides between a new entry and every queued one, and a new entry that is put behind a
-- queued one is put behind all that are not lower than that one.
pub record IsDecisive {ℓ} {P : Type ℓ} (p : Priority P) : Type ℓ where
  pub decides : (a b : P) → p.compare_new a b ≢ eq
  pub behind :
      (a b d : P)
      → p.compare_new d b ≡ lt
      → is_ge (p.compare_to a b) ≡ true
      → p.compare_new d a ≡ lt

module _ {ℓ} {O : Type ℓ} (o : Ord O) (h : IsPreorder o.cmp) where
  pub fifo-IsDecisive : IsDecisive (fifo (highest_first o))
  unfolding fifo highest_first
  fifo-IsDecisive = record {
    decides = λ a b. ground arith;
    behind = λ a b d l g.
        ground
          (arith, h.swap d.inner b.inner, h.swap d.inner a.inner, h.trans a.inner b.inner d.inner);
  }

  pub lifo-IsDecisive : IsDecisive (lifo (highest_first o))
  unfolding lifo highest_first
  lifo-IsDecisive = record {
    decides = λ a b. ground arith;
    behind = λ a b d l g. ground (
      arith,
      h.swap d.inner b.inner,
      h.swap d.inner a.inner,
      h.swap a.inner b.inner,
      h.trans d.inner a.inner b.inner,
    );
  }

-- Of the wrappers, `LowestFirst` over a totally preordered type is lawful, and so are `FIFO` and `LIFO`
-- over a lawful priority.
pub wrappers-IsLawful {ℓ} :
    {O : Type ℓ} {P : Type ℓ} (o : Ord O) (p : Priority P)
    → IsPreorder o.cmp
    → IsLawful p
    → IsLawful (lowest_first o) × IsLawful (fifo p) × IsLawful (lifo p)
wrappers-IsLawful o p h l = (lowest_first-IsLawful o h, fifo-IsLawful p l, lifo-IsLawful p l)
