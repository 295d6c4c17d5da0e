-- ===== src/DirOrder/Listing/Tests.antt =====
-- Runs of `readdir` over an insertion sort for `qsort`, and the instances of its theorems.
use mathlib.Core.List.{Perm, Pairwise, Mem, mem-cons, not-mem-nil}
use mathlib.Core.List.Perm
use mathlib.Core.Logic.Or
use mathlib.Core.HLevel.{Π_prop}
use wirenboard.Common.{
  ℕ, ◌≡◌, ◌≢◌, ◌⊎◌, ◌↔◌, refl, sym, ap, arith, true, false, List, [], ◌∷◌, Bytes, Option, map, inl,
  inr,
}
use wirenboard.DirOrder.Seed.{Settings}
use wirenboard.DirOrder.Hash.{dirhash}
use wirenboard.DirOrder.Listing.{
  Sign, minus, naught, plus, Entry, World, enough_memory, cmp_entry, find_listing, readdir,
}
use wirenboard.DirOrder.Listing.Order.{NotAfter, IsOrder, Sorts, SameKey, KeyBefore, cmp_entry_lem}
use wirenboard.DirOrder.Listing.Sorted.{unsorted, DistinctHashes}
use wirenboard.DirOrder.Listing.Serve.{read_all, read_all_listing, read_all_order}

module _ {A : Type 0} (cmp : A → A → Sign) where
  insert : A → List A → List A
  insert x [] = x ∷ []
  insert x (y ∷ l) = let rest = insert x l in elim (cmp x y) [ plus ↦ y ∷ rest | _ ↦ x ∷ y ∷ l ]

  insertion_sort : List A → List A
  unfolding insert
  insertion_sort [] = []
  insertion_sort (x ∷ l) = insert x (insertion_sort l)

  insert-perm : (x : A) (l : List A) → Perm (insert x l) (x ∷ l)
  unfolding insert
  insert-perm x [] = Perm.rfl
  insert-perm x (y ∷ l) =
      split (cmp x y) refl (Perm.trans (Perm.cons y (insert-perm x l)) (Perm.swap x y l))
    where
      split :
          (s : Sign)
          → cmp x y ≡ s
          → Perm (y ∷ insert x l) (x ∷ y ∷ l)
          → Perm (insert x (y ∷ l)) (x ∷ y ∷ l)
      split minus e p = rw (e, insert) Perm.rfl
      split naught e p = rw (e, insert) Perm.rfl
      split plus e p = rw (e, insert) p

  insertion_sort-perm : (l : List A) → Perm (insertion_sort l) l
  insertion_sort-perm [] = unfold insertion_sort in Perm.rfl
  insertion_sort-perm (x ∷ l) = Perm.trans (sort_step x l) (Perm.cons x (insertion_sort-perm l))
    where
      sort_step : (x : A) (l : List A) → Perm (insertion_sort (x ∷ l)) (x ∷ insertion_sort l)
      sort_step x l = unfold insertion_sort in insert-perm x (insertion_sort l)

  module _ (o : IsOrder cmp) where
    NotAfter-below :
        {x y : A} {l : List A}
        → NotAfter cmp x y
        → ((z : A) → Mem z l → NotAfter cmp y z)
        → (z : A) → Mem z (y ∷ l)
        → NotAfter cmp x z
    NotAfter-below {x} {y} h below z m =
        Or.elim (hlevel) (mem-cons.0 m) (λ e. rw e h) (λ m'. o.trans x y z h (below z m'))

    insert-ascending :
        (x : A) (l : List A) → Pairwise (NotAfter cmp) l → Pairwise (NotAfter cmp) (insert x l)
    unfolding insert
    insert-ascending x [] s = Pairwise.cons (λ z m. absurd (not-mem-nil m)) Pairwise.nil
    insert-ascending x (y ∷ l) (Pairwise.cons below s) =
        split (cmp x y) refl (o.total x y) (insert-ascending x l s)
      where
        front : NotAfter cmp x y → Pairwise (NotAfter cmp) (x ∷ y ∷ l)
        front h = Pairwise.cons (NotAfter-below h below) (Pairwise.cons below s)

        split :
            (r : Sign)
            → cmp x y ≡ r
            → NotAfter cmp x y ⊎ NotAfter cmp y x
            → Pairwise (NotAfter cmp) (insert x l)
            → Pairwise (NotAfter cmp) (insert x (y ∷ l))
        split minus e t p = rw (e, insert) (front (rw e (cc)))
        split naught e t p = rw (e, insert) (front (rw e (cc)))
        split plus e (inl h) p = absurd (h e)
        split plus e (inr h) p =
            rw (e, insert)
              (Pairwise.cons (λ z m. NotAfter-in z ((Perm.mem_iff (insert-perm x l)).0 m)) p)
          where
            NotAfter-in : (z : A) → Mem z (x ∷ l) → NotAfter cmp y z
            NotAfter-in z m = Or.elim (hlevel) (mem-cons.0 m) (λ e'. rw e' h) (below z)

    insertion_sort-ascending : (l : List A) → Pairwise (NotAfter cmp) (insertion_sort l)
    insertion_sort-ascending [] = unfold insertion_sort in Pairwise.nil
    insertion_sort-ascending (x ∷ l) = step (insertion_sort-ascending l)
      where
        step :
            Pairwise (NotAfter cmp) (insertion_sort l)
            → Pairwise (NotAfter cmp) (insertion_sort (x ∷ l))
        step s = unfold insertion_sort in insert-ascending x (insertion_sort l) s

insertion_sort-Sorts : {A : Type 0} → Sorts {A = A} insertion_sort
insertion_sort-Sorts = record {
  perm = λ cmp l. insertion_sort-perm cmp l;
  ascending = λ cmp l o. insertion_sort-ascending cmp o l;
}

-- Three source files, named as the bytes of their names.
abbrev files : List Bytes
files = (b'a' ∷ []) ∷ (b'b' ∷ []) ∷ (b'c' ∷ []) ∷ []

abbrev settings : Settings
settings = record {
  have_seed = true;
  seed = record { a = 1; b = 2; c = 3; d = 4 };
  block_size = 4096;
  csum = 1;
}

abbrev world : List Bytes → World Bytes
world ds = record { stream = λ dir. ds; listings = [] }

abbrev read_files : World Bytes → List Bytes
read_files w = read_all (λ d. d) insertion_sort settings 9 enough_memory w 7 false

-- They come in the order of their hashes.
files_run : read_files (world files) ≡ (b'b' ∷ []) ∷ (b'c' ∷ []) ∷ (b'a' ∷ []) ∷ []
unfolding read_all readdir insertion_sort cmp_entry dirhash
files_run = refl

abbrev two_files : List Bytes
two_files = (b'a' ∷ []) ∷ (b'b' ∷ []) ∷ []

abbrev swapped_files : List Bytes
swapped_files = (b'b' ∷ []) ∷ (b'a' ∷ []) ∷ []

Bytes-set : IsSet Bytes
Bytes-set = hlevel

hashes_differ : dirhash settings.seed (b'a' ∷ []) ≢ dirhash settings.seed (b'b' ∷ [])
unfolding dirhash
hashes_differ = λ e. absurd (omega (arith, ap (λ (r : record { major : ℕ; minor : ℕ }). r.major) e))

mem_two_files :
    {P : Bytes → Type 0}
    → ((x : Bytes) → IsProp (P x))
    → P (b'a' ∷ [])
    → P (b'b' ∷ [])
    → (x : Bytes) → Mem x two_files
    → P x
mem_two_files pP pa pb x m =
    Or.elim (pP x) (mem-cons.0 m) (λ e. rw e pa)
      λ m'. Or.elim (pP x) (mem-cons.0 m') (λ e. rw e pb) λ m''. absurd (not-mem-nil m'')

two_files-DistinctHashes : DistinctHashes (λ d. d) settings two_files
two_files-DistinctHashes x y mx my =
    mem_two_files {P = λ x. dirhash settings.seed x ≡ dirhash settings.seed y → x ≡ y}
      (λ x. Π_prop λ h. Bytes-set x y)
      (mem_two_files
        {P = λ y. dirhash settings.seed (b'a' ∷ []) ≡ dirhash settings.seed y → (b'a' ∷ []) ≡ y}
        (λ y. Π_prop λ h. Bytes-set _ y) (λ h. refl) (λ h. absurd (hashes_differ h)) y my)
      (mem_two_files
        {P = λ y. dirhash settings.seed (b'b' ∷ []) ≡ dirhash settings.seed y → (b'b' ∷ []) ≡ y}
        (λ y. Π_prop λ h. Bytes-set _ y) (λ h. absurd (hashes_differ (sym h))) (λ h. refl) y my)
      x mx

read_all_order_example : read_files (world two_files) ≡ read_files (world swapped_files)
read_all_order_example =
    read_all_order (λ d. d) insertion_sort settings Bytes-set insertion_sort-Sorts 9
      (world two_files) (world swapped_files) 7 false refl (unfold find_listing in refl)
      (unfold find_listing in refl) two_files-DistinctHashes (Perm.swap _ _ _) (omega arith)

read_all_listing_example :
    (read_files (world two_files)
      ≡ map (λ x. x.u) (insertion_sort cmp_entry (unsorted (λ d. d) settings two_files)))
    × Pairwise
        (NotAfter cmp_entry)
        (insertion_sort cmp_entry (unsorted (λ d. d) settings two_files))
    × Perm (read_files (world two_files)) two_files
read_all_listing_example =
    read_all_listing (λ d. d) insertion_sort settings insertion_sort-Sorts 9 (world two_files) 7
      false refl (unfold find_listing in refl) (omega arith)

abbrev read_once : World Bytes → ℕ → World Bytes × Option Bytes
read_once w dir = readdir (λ d. d) insertion_sort settings enough_memory w dir false

abbrev one_listing : World Bytes
one_listing = record {
  stream = λ dir. [];
  listings = record { dir = 7; is64 = false; pos = 0; e = [] } ∷ [];
}

abbrev hidden_entry : Entry Bytes
hidden_entry = record { major = 2; minor = 5; dot = 1; u = [] }

abbrev plain_entry : Entry Bytes
plain_entry = record { major = 2; minor = 3; dot = 0; u = [] }

cmp_entry_lem_example :
    ((cmp_entry hidden_entry plain_entry ≡ minus) ↔ KeyBefore hidden_entry plain_entry)
    × ((cmp_entry hidden_entry plain_entry ≡ naught) ↔ SameKey hidden_entry plain_entry)
    × ((cmp_entry hidden_entry plain_entry ≡ plus) ↔ KeyBefore plain_entry hidden_entry)
cmp_entry_lem_example = cmp_entry_lem hidden_entry plain_entry
