-- ===== src/DirOrder/Listing/Serve.antt =====
-- What a program sees that calls `readdir`: the whole listing and then NULL, each directory for
-- itself, and a closed directory forgotten.
use wirenboard.Common.{
  ℕ, zero, suc, ◌+◌, ◌<◌, ◌≡◌, ◌≢◌, ◌∙◌, refl, sym, ap, arith, Bool, true, List, [], ◌∷◌, ◌++◌, map,
  Bytes, length, get_elem?, drop, Option, none, some, Option-cases, inl, inr, update, append-nil,
  append_assoc,
}
use mathlib.Core.List.{Perm, Pairwise}
use mathlib.Core.List.Perm
use native.Mathlib.Numerals.{add-one}
use wirenboard.DirOrder.Seed.{Settings}
use wirenboard.DirOrder.Listing.{
  Sign, Entry, Listing, World, Memory, enough_memory, cmp_entry, new_entry, fill, find_listing,
  advance, new_listing, readdir,
}
use wirenboard.DirOrder.Listing.Order.{Sorts, NotAfter, cmp_entry-IsOrder}
use wirenboard.DirOrder.Listing.Sorted.{
  unsorted, length-perm, length-unsorted, map-u-unsorted, DistinctHashes, qsort-unsorted_perm,
}
use wirenboard.DirOrder.Listing.Apart.{readdir_keeps, readdir_answer}

module _ {D : Type 0} where
  find_listing-advance :
      (dir : ℕ) (ls : List (Listing D)) (l : Listing D)
      → find_listing dir ls ≡ some l
      → find_listing dir (advance dir ls) ≡ some (record l { pos = l.pos + 1 })
  unfolding find_listing advance
  find_listing-advance dir [] l h = ground arith
  find_listing-advance dir (k ∷ ls) l h = ground (arith, find_listing-advance dir ls l)

module _ {D : Type 0} (d_name : D → Bytes)
    (qsort : (Entry D → Entry D → Sign) → List (Entry D) → List (Entry D)) (st : Settings) where
  fill_all :
      (ds : List D) (e : List (Entry D))
      → fill d_name st (λ n. true) ds e
        ≡ record { e = e ++ map (new_entry d_name st) ds; left = [] }
  unfolding fill
  fill_all [] e = rw (append-nil e)
  fill_all (d ∷ ds) e = rw (
    fill_all ds (e ++ new_entry d_name st d ∷ []),
    append_assoc e (new_entry d_name st d ∷ []) (map (new_entry d_name st) ds),
  )

  -- One answer of `readdir`, and what the client goes on to read.
  abbrev deliver : World D × Option D → (World D → List D) → List D
  deliver (w, none) rest = []
  deliver (w, some d) rest = d ∷ rest w

  -- A client that reads a directory to its end: at most `fuel` calls.
  unfoldable pub read_all : ℕ → Memory → World D → ℕ → Bool → List D
  unfolding readdir
  read_all zero mem w dir is64 = []
  read_all (suc fuel) mem w dir is64 =
      deliver (readdir d_name qsort st mem w dir is64) (λ w'. read_all fuel mem w' dir is64)

  readdir_found :
      (mem : Memory) (w : World D) (dir : ℕ) (is64 : Bool) (l : Listing D) (x : Entry D)
      → st.have_seed ≡ true
      → find_listing dir w.listings ≡ some l
      → get_elem? l.e l.pos ≡ some x
      → readdir d_name qsort st mem w dir is64
        ≡ (record w { listings = advance dir w.listings }, some x.u)
  unfolding readdir
  readdir_found mem w dir is64 l x on found got = ground arith

  readdir_ended :
      (mem : Memory) (w : World D) (dir : ℕ) (is64 : Bool) (l : Listing D)
      → st.have_seed ≡ true
      → find_listing dir w.listings ≡ some l
      → get_elem? l.e l.pos ≡ none
      → readdir d_name qsort st mem w dir is64 ≡ (w, none)
  unfolding readdir
  readdir_ended mem w dir is64 l on found ended = ground arith

  -- The world after the first call for a directory has read it whole.
  abbrev opened : World D → ℕ → Bool → World D
  opened w dir is64 = record {
    stream = update w.stream dir [];
    listings =
        new_listing d_name qsort st dir is64 (map (new_entry d_name st) (w.stream dir))
        ∷ w.listings;
  }

  readdir_first :
      (w : World D) (dir : ℕ) (is64 : Bool)
      → st.have_seed ≡ true
      → find_listing dir w.listings ≡ none
      → readdir d_name qsort st enough_memory w dir is64
        ≡ readdir d_name qsort st enough_memory (opened w dir is64) dir is64
  unfolding readdir
  readdir_first w dir is64 on fresh = ground (arith, fill_all (w.stream dir) [])

  read_all-some :
      (fuel : ℕ) (mem : Memory) (w w' : World D) (dir : ℕ) (is64 : Bool) (d : D)
      → readdir d_name qsort st mem w dir is64 ≡ (w', some d)
      → read_all (suc fuel) mem w dir is64 ≡ d ∷ read_all fuel mem w' dir is64
  unfolding read_all
  read_all-some fuel mem w w' dir is64 d e = rw e

  read_all-none :
      (fuel : ℕ) (mem : Memory) (w w' : World D) (dir : ℕ) (is64 : Bool)
      → readdir d_name qsort st mem w dir is64 ≡ (w', none)
      → read_all (suc fuel) mem w dir is64 ≡ []
  unfolding read_all
  read_all-none fuel mem w w' dir is64 e = rw e

  read_all_ext :
      (fuel : ℕ) (mem : Memory) (w w' : World D) (dir : ℕ) (is64 : Bool)
      → readdir d_name qsort st mem w dir is64 ≡ readdir d_name qsort st mem w' dir is64
      → read_all fuel mem w dir is64 ≡ read_all fuel mem w' dir is64
  unfolding read_all
  read_all_ext zero mem w w' dir is64 e = refl
  read_all_ext (suc fuel) mem w w' dir is64 e = rw e

  drop-get_elem? :
      (xs : List (Entry D)) (n : ℕ) (x : Entry D)
      → get_elem? xs n ≡ some x
      → drop n xs ≡ x ∷ drop (n + 1) xs
  drop-get_elem? [] n x h = ground arith
  drop-get_elem? (y ∷ xs) zero x h = ground arith
  drop-get_elem? (y ∷ xs) (suc n) x h =
      rw (add-one (suc n)) (rw (add-one n) at (drop-get_elem? xs n x h))

  drop-get_elem?-none : (xs : List (Entry D)) (n : ℕ) → get_elem? xs n ≡ none → drop n xs ≡ []
  drop-get_elem?-none [] zero h = refl
  drop-get_elem?-none [] (suc n) h = refl
  drop-get_elem?-none (y ∷ xs) zero h = ground arith
  drop-get_elem?-none (y ∷ xs) (suc n) h = drop-get_elem?-none xs n h

  read_all-found :
      (fuel : ℕ) (mem : Memory) (w : World D) (dir : ℕ) (is64 : Bool) (l : Listing D)
      → st.have_seed ≡ true
      → find_listing dir w.listings ≡ some l
      → length (drop l.pos l.e) < fuel
      → read_all fuel mem w dir is64 ≡ map (λ x. x.u) (drop l.pos l.e)
  read_all-found zero mem w dir is64 l on found h = absurd (omega arith)
  read_all-found (suc fuel) mem w dir is64 l on found h =
      elim (Option-cases (get_elem? l.e l.pos)) [
        | inl ended ↦
            rw (drop-get_elem?-none l.e l.pos ended)
              (read_all-none fuel mem w w dir is64 (readdir_ended mem w dir is64 l on found ended))
        | inr (x, got) ↦
            let rest =
              read_all-found fuel mem (record w { listings = advance dir w.listings }) dir is64
                (record l { pos = l.pos + 1 }) on (find_listing-advance dir w.listings l found)
                (omega (arith, ap length (drop-get_elem? l.e l.pos x got))) in
            rw (drop-get_elem? l.e l.pos x got) (
              read_all-some fuel mem w _ dir is64 x.u
                (readdir_found mem w dir is64 l x on found got)
              ∙ ap (◌∷◌ x.u) rest)
      ]

  read_all-opened :
      (fuel : ℕ) (w : World D) (dir : ℕ) (is64 : Bool)
      → st.have_seed ≡ true
      → length (qsort cmp_entry (unsorted d_name st (w.stream dir))) < fuel
      → read_all fuel enough_memory (opened w dir is64) dir is64
        ≡ map (λ x. x.u) (qsort cmp_entry (unsorted d_name st (w.stream dir)))
  unfolding new_listing
  read_all-opened fuel w dir is64 on h =
      read_all-found fuel enough_memory (opened w dir is64) dir is64
        (new_listing d_name qsort st dir is64 (map (new_entry d_name st) (w.stream dir))) on
        (unfold find_listing in ground arith) h

  -- With a seed and enough memory, a directory that is not yet listed is given in the order of its
  -- listing, and then the end; `qsort` sorts, and so each entry of the directory is given once.
  pub read_all_listing :
      (sorts : Sorts qsort) (fuel : ℕ) (w : World D) (dir : ℕ) (is64 : Bool)
      → st.have_seed ≡ true
      → find_listing dir w.listings ≡ none
      → length (w.stream dir) < fuel
      → (read_all fuel enough_memory w dir is64
          ≡ map (λ x. x.u) (qsort cmp_entry (unsorted d_name st (w.stream dir))))
        × Pairwise (NotAfter cmp_entry) (qsort cmp_entry (unsorted d_name st (w.stream dir)))
        × Perm (read_all fuel enough_memory w dir is64) (w.stream dir)
  read_all_listing sorts fuel w dir is64 on fresh h =
      let ds = w.stream dir in
      let sorted_perm = sorts.perm cmp_entry (unsorted d_name st ds) in
      let same =
        read_all_ext fuel enough_memory w (opened w dir is64) dir is64
          (readdir_first w dir is64 on fresh)
        ∙ read_all-opened fuel w dir is64 on
            (omega (arith, length-perm sorted_perm, length-unsorted d_name st ds)) in
      (
        same,
        sorts.ascending cmp_entry (unsorted d_name st ds) cmp_entry-IsOrder,
        rw same (rw (map-u-unsorted d_name st ds) at (Perm.map (λ x. x.u) sorted_perm)),
      )

  -- With a seed and enough memory, two directories not yet listed, in which the C library gives the
  -- same entries in any two orders, are read in the same order, if their entries have different
  -- hashes and `qsort` sorts.
  pub read_all_order :
      (D_set : IsSet D) (sorts : Sorts qsort) (fuel : ℕ) (w w' : World D) (dir : ℕ) (is64 : Bool)
      → st.have_seed ≡ true
      → find_listing dir w.listings ≡ none
      → find_listing dir w'.listings ≡ none
      → DistinctHashes d_name st (w.stream dir)
      → Perm (w.stream dir) (w'.stream dir)
      → length (w.stream dir) < fuel
      → read_all fuel enough_memory w dir is64 ≡ read_all fuel enough_memory w' dir is64
  read_all_order D_set sorts fuel w w' dir is64 on fresh fresh' apart p h =
      (read_all_listing sorts fuel w dir is64 on fresh h).0
      ∙ ap (map (λ x. x.u))
          (qsort-unsorted_perm d_name st D_set qsort sorts (w.stream dir) (w'.stream dir) apart p)
      ∙ sym ((read_all_listing sorts fuel w' dir is64 on fresh' (rw (← length-perm p) h)).0)

  -- A call for one directory leaves another one alone: its listing, its stream and so the answer
  -- of the next call for it.
  pub readdir_other :
      (mem : Memory) (w : World D) (dir other : ℕ) (is64 : Bool)
      → other ≢ dir
      → (find_listing other (readdir d_name qsort st mem w dir is64).0.listings
          ≡ find_listing other w.listings)
        × ((readdir d_name qsort st mem w dir is64).0.stream other ≡ w.stream other)
        × ((readdir d_name qsort st mem (readdir d_name qsort st mem w dir is64).0 other is64).1
            ≡ (readdir d_name qsort st mem w other is64).1)
  readdir_other mem w dir other is64 ne =
      let (listed, stream) = readdir_keeps d_name qsort st mem w dir other is64 ne in
      (listed, stream, readdir_answer d_name qsort st mem _ w other is64 listed stream)
