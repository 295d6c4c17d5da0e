-- ===== src/DirOrder/Listing/Apart.antt =====
-- What a call of `readdir` for one directory leaves alone.
use wirenboard.Common.{ℕ, ◌≡◌, ◌≢◌, refl, arith, Bool, List, [], ◌∷◌, Bytes}
use wirenboard.DirOrder.Seed.{Settings}
use wirenboard.DirOrder.Listing.{
  Sign, Entry, Listing, World, Memory, fill, find_listing, advance, real_readdir, new_listing,
  get_listing, next_entry, readdir,
}

module _ {D : Type 0} where
  find_listing-advance_ne :
      (dir other : ℕ) (ls : List (Listing D))
      → other ≢ dir
      → find_listing other (advance dir ls) ≡ find_listing other ls
  unfolding find_listing advance
  find_listing-advance_ne dir other [] h = refl
  find_listing-advance_ne dir other (k ∷ ls) h =
      ground (arith, find_listing-advance_ne dir other ls h)

module _ {D : Type 0} (d_name : D → Bytes)
    (qsort : (Entry D → Entry D → Sign) → List (Entry D) → List (Entry D)) (st : Settings) where
  find_listing-other :
      (other dir : ℕ) (l : Listing D) (ls : List (Listing D))
      → other ≢ dir
      → l.dir ≡ dir
      → find_listing other (l ∷ ls) ≡ find_listing other ls
  unfolding find_listing
  find_listing-other other dir l ls ne e = ground arith

  get_listing_other :
      (mem : Memory) (w : World D) (dir other : ℕ) (is64 : Bool)
      → other ≢ dir
      → (find_listing other (get_listing d_name qsort st mem w dir is64).0.listings
          ≡ find_listing other w.listings)
        × ((get_listing d_name qsort st mem w dir is64).0.stream other ≡ w.stream other)
  unfolding get_listing
  get_listing_other mem w dir other is64 ne = ground (
    arith,
    find_listing-other other dir
        (new_listing d_name qsort st dir is64 (fill d_name st mem.array (w.stream dir) []).e)
        w.listings ne refl,
  )

  next_entry_other :
      (mem : Memory) (w : World D) (dir other : ℕ) (is64 : Bool)
      → other ≢ dir
      → (find_listing other (next_entry d_name qsort st mem w dir is64).0.listings
          ≡ find_listing other w.listings)
        × ((next_entry d_name qsort st mem w dir is64).0.stream other ≡ w.stream other)
  next_entry_other mem w dir other is64 ne =
      unfold next_entry in
      ground (
        arith,
        get_listing_other mem w dir other is64 ne,
        find_listing-advance_ne dir other (get_listing d_name qsort st mem w dir is64).0.listings
            ne,
      )

  pub readdir_keeps :
      (mem : Memory) (w : World D) (dir other : ℕ) (is64 : Bool)
      → other ≢ dir
      → (find_listing other (readdir d_name qsort st mem w dir is64).0.listings
          ≡ find_listing other w.listings)
        × ((readdir d_name qsort st mem w dir is64).0.stream other ≡ w.stream other)
  unfolding real_readdir
  readdir_keeps mem w dir other is64 ne =
      unfold readdir in ground (arith, next_entry_other mem w dir other is64 ne)

  pub readdir_answer :
      (mem : Memory) (w w' : World D) (dir : ℕ) (is64 : Bool)
      → find_listing dir w.listings ≡ find_listing dir w'.listings
      → w.stream dir ≡ w'.stream dir
      → (readdir d_name qsort st mem w dir is64).1 ≡ (readdir d_name qsort st mem w' dir is64).1
  unfolding readdir
  readdir_answer mem w w' dir is64 e e' = ground arith
