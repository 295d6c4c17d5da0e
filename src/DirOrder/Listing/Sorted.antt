-- ===== src/DirOrder/Listing/Sorted.antt =====
-- The listing of a directory does not depend on the order in which the C library gives the
-- directory.
use mathlib.Core.List.{Perm, Permᴰ, Pairwise, Mem, mem-cons, mem-cons_self}
use mathlib.Core.List.{map-map, map-id, mem-map}
use mathlib.Core.List.Perm
use mathlib.Core.List.Pairwise
use mathlib.Core.Logic.Or
use mathlib.Core.Logic.{∥∥₁_elim}
use native.Mathlib.Nat.{ℕ_set, add_left_comm}
use wirenboard.Common.{
  suc, fun_ext, length-map, ◌+◌, ◌≡◌, ◌∙◌, refl, sym, ap, ap₂, arith, Bool, true, false, List, [],
  ◌∷◌, map, Bytes, length, if◌then◌else◌,
}
use wirenboard.DirOrder.Hash.{dirhash}
use wirenboard.DirOrder.Seed.{Settings}
use wirenboard.DirOrder.Listing.{
  Sign, Entry, cmp_entry, new_entry, record_length, total_length, is_indexed, with_dot, set_dots,
}
use wirenboard.DirOrder.Listing.Order.{
  NotAfter, Sorts, SameKey, cmp_entry-IsOrder, cmp_entry_antisymm,
}

length-permᴰ : {A : Type 0} {l r : List A} → Permᴰ l r → length l ≡ length r
length-permᴰ Permᴰ.nil = refl
length-permᴰ (Permᴰ.cons e d) = ap suc (length-permᴰ d)
length-permᴰ (Permᴰ.swap e e') = refl
length-permᴰ (Permᴰ.trans d d') = length-permᴰ d ∙ length-permᴰ d'

pub length-perm : {A : Type 0} {l r : List A} → Perm l r → length l ≡ length r
length-perm p = ∥∥₁_elim p (ℕ_set _ _) length-permᴰ

-- An ascending list is determined by its items, where the order tells the items apart.
module _ {A : Type 0} (cmp : A → A → Sign) (refl_le : (a : A) → NotAfter cmp a a) where
  NotAfter-prop : (a b : A) → IsProp (NotAfter cmp a b)
  NotAfter-prop a b = hlevel

  NotAfter-head :
      {a b : A} {l : List A} → Pairwise (NotAfter cmp) (a ∷ l) → Mem b (a ∷ l) → NotAfter cmp a b
  NotAfter-head {a} {b} (Pairwise.cons below s) m =
      Or.elim (NotAfter-prop a b) (mem-cons.0 m) (λ e. rw e (refl_le a)) (below b)

  pub ascending_unique :
      (l r : List A)
      → ((a b : A) → Mem a l → Mem b l → NotAfter cmp a b → NotAfter cmp b a → a ≡ b)
      → Pairwise (NotAfter cmp) l
      → Pairwise (NotAfter cmp) r
      → Perm l r
      → l ≡ r
  ascending_unique [] r h sl sr p = Perm.nil-eq p
  ascending_unique (a ∷ l) [] h sl sr p = Perm.eq-nil p
  ascending_unique (a ∷ l) (b ∷ r) h sl sr p =
      let b_in : Mem b (a ∷ l) = (Perm.mem_iff p).1 mem-cons_self in
      let a_in : Mem a (b ∷ r) = (Perm.mem_iff p).0 mem-cons_self in
      let heads = h a b mem-cons_self b_in (NotAfter-head sl b_in) (NotAfter-head sr a_in) in
      let tails = Perm.cons_inv (Perm.trans p (Perm.symm (Perm.cons' heads Perm.rfl))) in
      ap₂ ◌∷◌ heads (
        ascending_unique l r (λ x y mx my. h x y (mem-cons.1 (Or.inr mx)) (mem-cons.1 (Or.inr my)))
          (Pairwise.of_cons sl) (Pairwise.of_cons sr) tails)

Entry-set : {D : Type 0} → IsSet D → IsSet (Entry D)
Entry-set D_set = hlevel D_set

cmp_entry_refl : {D : Type 0} (x : Entry D) → NotAfter cmp_entry x x
unfolding cmp_entry
cmp_entry_refl x = ground arith

module _ {D : Type 0} (d_name : D → Bytes) (st : Settings) where
  total_length-permᴰ :
      {l r : List (Entry D)} → Permᴰ l r → total_length d_name st l ≡ total_length d_name st r
  unfolding total_length
  total_length-permᴰ Permᴰ.nil = refl
  total_length-permᴰ (Permᴰ.cons e d) =
      ap₂ (λ x n. record_length (length (d_name (Entry.u x))) + n) e (total_length-permᴰ d)
  total_length-permᴰ (Permᴰ.swap {l = l} e e') =
      rw (e, e') (add_left_comm _ _ (total_length d_name st l))
  total_length-permᴰ (Permᴰ.trans d d') = total_length-permᴰ d ∙ total_length-permᴰ d'

  total_length-perm :
      {l r : List (Entry D)} → Perm l r → total_length d_name st l ≡ total_length d_name st r
  total_length-perm p = ∥∥₁_elim p (ℕ_set _ _) total_length-permᴰ

  is_indexed-perm :
      {l r : List (Entry D)} → Perm l r → is_indexed d_name st l ≡ is_indexed d_name st r
  unfolding is_indexed
  is_indexed-perm p = rw (total_length-perm p)

  -- An entry as it stands in the listing of a directory that is indexed or not.
  abbrev pub listed : Bool → D → Entry D
  listed indexed d =
      if indexed then with_dot d_name st (new_entry d_name st d) else new_entry d_name st d

  -- What the array holds when `qsort` is called.
  abbrev pub unsorted : List D → List (Entry D)
  unsorted ds = set_dots d_name st (map (new_entry d_name st) ds)

  set_dots-new_entry :
      (b : Bool) (ds : List D)
      → (if b
          then map (with_dot d_name st) (map (new_entry d_name st) ds)
          else map (new_entry d_name st) ds)
        ≡ map (listed b) ds
  set_dots-new_entry true ds = map-map (with_dot d_name st) (new_entry d_name st) ds
  set_dots-new_entry false ds = refl

  unsorted_lem :
      (ds : List D)
      → unsorted ds ≡ map (listed (is_indexed d_name st (map (new_entry d_name st) ds))) ds
  unfolding set_dots
  unsorted_lem ds = set_dots-new_entry (is_indexed d_name st (map (new_entry d_name st) ds)) ds

  unsorted-perm : (ds ds' : List D) → Perm ds ds' → Perm (unsorted ds) (unsorted ds')
  unsorted-perm ds ds' p =
      rw (unsorted_lem ds, unsorted_lem ds', is_indexed-perm (Perm.map (new_entry d_name st) p))
        (Perm.map _ p)

  pub length-unsorted : (ds : List D) → length (unsorted ds) ≡ length ds
  length-unsorted ds = rw (unsorted_lem ds) (length-map ds _)

  u-listed : (b : Bool) (d : D) → (listed b d).u ≡ d
  unfolding new_entry with_dot
  u-listed true d = refl
  u-listed false d = refl

  pub map-u-unsorted : (ds : List D) → map (λ x. x.u) (unsorted ds) ≡ ds
  map-u-unsorted ds =
      rw (unsorted_lem ds)
        (map-map (λ x. x.u) (listed _) ds ∙ ap (λ f. map f ds) (fun_ext (u-listed _)) ∙ map-id ds)

  -- No two entries of a directory have one hash.
  abbrev pub DistinctHashes : List D → Type 0
  DistinctHashes ds =
      (x y : D)
      → Mem x ds
      → Mem y ds
      → dirhash st.seed (d_name x) ≡ dirhash st.seed (d_name y)
      → x ≡ y

  listed-SameKey :
      (b : Bool) (x y : D)
      → SameKey (listed b x) (listed b y)
      → dirhash st.seed (d_name x) ≡ dirhash st.seed (d_name y)
  unfolding new_entry with_dot
  listed-SameKey true x y k = λ i. record { major = k.1 i; minor = k.2 i }
  listed-SameKey false x y k = λ i. record { major = k.1 i; minor = k.2 i }

  listed_apart :
      (D_set : IsSet D) (b : Bool) (ds : List D) (x y : Entry D)
      → DistinctHashes ds
      → Mem x (map (listed b) ds)
      → Mem y (map (listed b) ds)
      → SameKey x y
      → x ≡ y
  listed_apart D_set b ds x y apart mx my k =
      ∥∥₁_elim (mem-map.0 mx) (Entry-set D_set x y) λ (d, md, e).
        ∥∥₁_elim (mem-map.0 my) (Entry-set D_set x y) λ (d', md', e').
          let same : SameKey (listed b d) (listed b d') = rw (e, e') k in
          sym e ∙ ap (listed b) (apart d d' md md' (listed-SameKey b d d' same)) ∙ e'

  -- If the entries of a directory have different hashes, its listing is the same list in whatever
  -- order the C library gives them.
  pub qsort-unsorted_perm :
      (D_set : IsSet D) (qsort : (Entry D → Entry D → Sign) → List (Entry D) → List (Entry D))
      → Sorts qsort
      → (ds ds' : List D) → DistinctHashes ds
      → Perm ds ds'
      → qsort cmp_entry (unsorted ds) ≡ qsort cmp_entry (unsorted ds')
  qsort-unsorted_perm D_set qsort s ds ds' apart p =
      ascending_unique cmp_entry cmp_entry_refl _ _
        (λ a b ma mb ab ba.
          listed_apart D_set _ ds a b apart (rw (unsorted_lem ds) at (from_sorted ma))
            (rw (unsorted_lem ds) at (from_sorted mb)) (cmp_entry_antisymm a b ab ba))
        (s.ascending cmp_entry (unsorted ds) cmp_entry-IsOrder)
        (s.ascending cmp_entry (unsorted ds') cmp_entry-IsOrder)
        (Perm.trans (s.perm cmp_entry (unsorted ds))
          (Perm.trans (unsorted-perm ds ds' p) (Perm.symm (s.perm cmp_entry (unsorted ds')))))
    where
      from_sorted : {x : Entry D} → Mem x (qsort cmp_entry (unsorted ds)) → Mem x (unsorted ds)
      from_sorted m = (Perm.mem_iff (s.perm cmp_entry (unsorted ds))).0 m
