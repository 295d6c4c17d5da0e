-- ===== src/DirOrder/Listing/Order.antt =====
-- `cmp_entry` is a total preorder on entries, and what the C library's `qsort` promises of one.
use mathlib.Core.List.{Perm, Pairwise}
use wirenboard.Common.{◌≡◌, ◌≢◌, ◌⊎◌, ◌↔◌, inl, inr, arith, List, ◌<◌, refl}
use wirenboard.DirOrder.Listing.{Sign, minus, naught, plus, Entry, cmp_entry}

module _ {A : Type 0} where
  abbrev pub NotAfter : (A → A → Sign) → A → A → Type 0
  NotAfter cmp x y = cmp x y ≢ plus

  -- What `qsort` asks of its comparison.
  pub record IsOrder (cmp : A → A → Sign) : Type 0 where
    pub total : (x y : A) → NotAfter cmp x y ⊎ NotAfter cmp y x
    pub trans : (x y z : A) → NotAfter cmp x y → NotAfter cmp y z → NotAfter cmp x z

  -- What `qsort` promises: the same items, in ascending order.
  pub record Sorts (qsort : (A → A → Sign) → List A → List A) : Type 0 where
    pub perm : (cmp : A → A → Sign) (l : List A) → Perm (qsort cmp l) l
    pub ascending :
        (cmp : A → A → Sign) (l : List A) → IsOrder cmp → Pairwise (NotAfter cmp) (qsort cmp l)

Sign-cases : (s : Sign) → (s ≡ plus) ⊎ (s ≢ plus)
Sign-cases minus = inr (cc)
Sign-cases naught = inr (cc)
Sign-cases plus = inl refl

module _ {D : Type 0} where
  -- The keys in which two entries are compared.
  abbrev pub SameKey : Entry D → Entry D → Type 0
  SameKey x y = (x.dot ≡ y.dot) × (x.major ≡ y.major) × (x.minor ≡ y.minor)

  -- The dot entries first, then by the major and then by the minor hash.
  abbrev pub KeyBefore : Entry D → Entry D → Type 0
  KeyBefore x y =
      (y.dot < x.dot)
      ⊎ ((x.dot ≡ y.dot) × ((x.major < y.major) ⊎ ((x.major ≡ y.major) × (x.minor < y.minor))))

  -- The comparison is negative exactly where the key comes before, positive exactly where it comes
  -- after, and zero exactly at one key.
  pub cmp_entry_lem :
      (x y : Entry D)
      → ((cmp_entry x y ≡ minus) ↔ KeyBefore x y)
        × ((cmp_entry x y ≡ naught) ↔ SameKey x y)
        × ((cmp_entry x y ≡ plus) ↔ KeyBefore y x)
  unfolding cmp_entry
  cmp_entry_lem x y = (ground arith, ground arith, ground arith)

  KeyBefore-asymm : (x y : Entry D) → KeyBefore x y → KeyBefore y x → ⊥
  KeyBefore-asymm x y p q = omega arith

  KeyBefore-between : (x y z : Entry D) → ¬ KeyBefore y x → ¬ KeyBefore z y → KeyBefore z x → ⊥
  KeyBefore-between x y z p q r = grind arith

  cmp_entry_total : (x y : Entry D) → NotAfter cmp_entry x y ⊎ NotAfter cmp_entry y x
  cmp_entry_total x y = elim (Sign-cases (cmp_entry x y)) [
    | inl p ↦ inr (λ q. KeyBefore-asymm x y ((cmp_entry_lem y x).2.0 q) ((cmp_entry_lem x y).2.0 p))
    | inr p ↦ inl p
  ]

  cmp_entry_trans :
      (x y z : Entry D) → NotAfter cmp_entry x y → NotAfter cmp_entry y z → NotAfter cmp_entry x z
  cmp_entry_trans x y z p q = λ r.
      KeyBefore-between x y z (λ k. p ((cmp_entry_lem x y).2.1 k))
        (λ k. q ((cmp_entry_lem y z).2.1 k)) ((cmp_entry_lem x z).2.0 r)

  pub cmp_entry-IsOrder : IsOrder (cmp_entry {D = D})
  cmp_entry-IsOrder = record { total = cmp_entry_total; trans = cmp_entry_trans }

  pub cmp_entry_antisymm :
      (x y : Entry D) → NotAfter cmp_entry x y → NotAfter cmp_entry y x → SameKey x y
  unfolding cmp_entry
  cmp_entry_antisymm x y p q = ground arith
