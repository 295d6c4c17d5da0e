-- ===== src/DirOrder/Listing/Close.antt =====
-- At most one listing stands for a directory, so that `closedir` forgets it whole.
use wirenboard.Common.{ℕ, ◌≡◌, ◌≢◌, refl, arith, Bool, List, [], ◌∷◌, Bytes, none}
use wirenboard.DirOrder.Seed.{Settings}
use wirenboard.DirOrder.Listing.{
  Sign, Entry, Listing, World, Memory, find_listing, advance, remove_listing, real_readdir,
  get_listing, next_entry, readdir, closedir,
}

module _ {D : Type 0} where
  -- Each listing is the only one of its directory.
  abbrev pub IsUnique : List (Listing D) → Type 0
  IsUnique [] = Unit
  IsUnique (l ∷ ls) = (find_listing l.dir ls ≡ none) × IsUnique ls

  find_listing-advance-none :
      (dir other : ℕ) (ls : List (Listing D))
      → find_listing other ls ≡ none
      → find_listing other (advance dir ls) ≡ none
  unfolding find_listing advance
  find_listing-advance-none dir other [] h = refl
  find_listing-advance-none dir other (l ∷ ls) h =
      ground (arith, find_listing-advance-none dir other ls)

  advance-IsUnique : (dir : ℕ) (ls : List (Listing D)) → IsUnique ls → IsUnique (advance dir ls)
  unfolding advance
  advance-IsUnique dir [] h = tt
  advance-IsUnique dir (l ∷ ls) h =
      ground (arith, find_listing-advance-none dir l.dir ls h.0, advance-IsUnique dir ls h.1)

  find_listing-remove_listing-none :
      (dir other : ℕ) (ls : List (Listing D))
      → find_listing other ls ≡ none
      → find_listing other (remove_listing dir ls) ≡ none
  unfolding find_listing remove_listing
  find_listing-remove_listing-none dir other [] h = refl
  find_listing-remove_listing-none dir other (l ∷ ls) h =
      ground (arith, find_listing-remove_listing-none dir other ls)

  remove_listing-IsUnique :
      (dir : ℕ) (ls : List (Listing D)) → IsUnique ls → IsUnique (remove_listing dir ls)
  unfolding remove_listing
  remove_listing-IsUnique dir [] h = tt
  remove_listing-IsUnique dir (l ∷ ls) h =
      ground (
        arith,
        find_listing-remove_listing-none dir l.dir ls h.0,
        remove_listing-IsUnique dir ls h.1,
      )

  find_listing-remove_listing_ne :
      (dir other : ℕ) (ls : List (Listing D))
      → other ≢ dir
      → find_listing other (remove_listing dir ls) ≡ find_listing other ls
  unfolding find_listing remove_listing
  find_listing-remove_listing_ne dir other [] ne = refl
  find_listing-remove_listing_ne dir other (l ∷ ls) ne =
      ground (arith, find_listing-remove_listing_ne dir other ls ne)

  find_listing-remove_listing :
      (dir : ℕ) (ls : List (Listing D))
      → IsUnique ls
      → find_listing dir (remove_listing dir ls) ≡ none
  unfolding find_listing remove_listing
  find_listing-remove_listing dir [] h = refl
  find_listing-remove_listing dir (l ∷ ls) h =
      ground (arith, find_listing-remove_listing dir ls h.1)

  -- Where each directory has one listing at most, `closedir` forgets the directory, keeps the
  -- listings unique, and leaves the listing of every other directory as it is.
  pub closedir_forgets :
      (w : World D) (dir : ℕ)
      → IsUnique w.listings
      → (find_listing dir (closedir w dir).listings ≡ none)
        × IsUnique (closedir w dir).listings
        × ((other : ℕ)
            → other ≢ dir
            → find_listing other (closedir w dir).listings ≡ find_listing other w.listings)
  unfolding closedir
  closedir_forgets w dir h = (
    find_listing-remove_listing dir w.listings h,
    remove_listing-IsUnique dir w.listings h,
    λ other. find_listing-remove_listing_ne dir other w.listings,
  )

module _ {D : Type 0} (d_name : D → Bytes)
    (qsort : (Entry D → Entry D → Sign) → List (Entry D) → List (Entry D)) (st : Settings) where
  get_listing-IsUnique :
      (mem : Memory) (w : World D) (dir : ℕ) (is64 : Bool)
      → IsUnique w.listings
      → IsUnique (get_listing d_name qsort st mem w dir is64).0.listings
  unfolding get_listing
  get_listing-IsUnique mem w dir is64 h = ground arith

  next_entry-IsUnique :
      (mem : Memory) (w : World D) (dir : ℕ) (is64 : Bool)
      → IsUnique w.listings
      → IsUnique (next_entry d_name qsort st mem w dir is64).0.listings
  next_entry-IsUnique mem w dir is64 h =
      unfold next_entry in
      ground (
        arith,
        get_listing-IsUnique mem w dir is64 h,
        advance-IsUnique dir (get_listing d_name qsort st mem w dir is64).0.listings,
      )

  -- Each directory has one listing at most after a call of `readdir` too, whatever memory it gets.
  pub readdir-IsUnique :
      (mem : Memory) (w : World D) (dir : ℕ) (is64 : Bool)
      → IsUnique w.listings
      → IsUnique (readdir d_name qsort st mem w dir is64).0.listings
  unfolding real_readdir
  readdir-IsUnique mem w dir is64 h =
      unfold readdir in ground (arith, next_entry-IsUnique mem w dir is64 h)
