-- ===== src/DirOrder/Listing.antt =====
-- `get_listing`, `next_entry`, `readdir`, `readdir64` and `closedir` of
-- fw-toolchain-legacy/ext4_dir_order.c, with the mutex held: one call at a time. A `DIR *` is a
-- number, and a directory entry (`struct dirent` and `struct dirent64` have one layout there) is a
-- value of `D` with a name. What the C library's own `readdir` has not given yet of a directory is
-- its stream.
pub mod Order
pub mod Sorted
pub mod Apart
pub mod Serve
pub mod Close
mod Tests
use wirenboard.Common.{
  ℕ, zero, suc, ◌+◌, ◌-◌, ◌%◌, ◌^◌, bit_and, Bool, true, false, not, ◌&&◌, if◌then◌else◌, ltb, ◌==◌,
  Option, none, some, List, [], ◌∷◌, ◌++◌, map, length, get_elem?, Bytes, str_eq, update,
}
use wirenboard.DirOrder.Hash.{dirhash}
use wirenboard.DirOrder.Seed.{Settings}

-- The sign of an `int` that a comparison returns.
pub data Sign : Type 0 where
  minus naught plus : Sign

-- `struct entry`
pub record Entry (D : Type 0) : Type 0 where
  pub major : ℕ
  pub minor : ℕ
  pub dot : ℕ
  pub u : D

-- `struct listing`; its `n` is the length of `e`.
pub record Listing (D : Type 0) : Type 0 where
  pub dir : ℕ
  pub is64 : Bool
  pub pos : ℕ
  pub e : List (Entry D)

-- The streams of the C library, and the variable `listings`.
pub record World (D : Type 0) : Type 0 where
  pub stream : ℕ → List D
  pub listings : List (Listing D)

-- Which allocations of a call succeed: the listing's, and the array's for each length.
pub record Memory : Type 0 where
  pub listing : Bool
  pub array : ℕ → Bool

abbrev pub enough_memory : Memory
enough_memory = record { listing = true; array = λ n. true }

pub cmp_entry : {D : Type 0} → Entry D → Entry D → Sign
cmp_entry x y =
    if not (x.dot == y.dot)
    then (if ltb y.dot x.dot then minus else plus)
    else if not (x.major == y.major)
    then (if ltb x.major y.major then minus else plus)
    else if not (x.minor == y.minor)
    then (if ltb x.minor y.minor then minus else plus)
    else naught

-- The bytes of an entry of the directory block: `(8 + strlen(name) + 3) & ~3U`.
pub record_length : ℕ → ℕ
record_length n = bit_and (8 + n + 3) (2 ^ 32 - 4)

dot_rank : Bytes → ℕ
dot_rank name =
    if str_eq name (b'.' ∷ []) then 2 else if str_eq name (b'.' ∷ b'.' ∷ []) then 1 else 0

module _ {D : Type 0} (d_name : D → Bytes) (st : Settings) where
  pub new_entry : D → Entry D
  new_entry d =
      let h = dirhash st.seed (d_name d) in
      record { major = h.major; minor = h.minor; dot = 0; u = d }

  -- The loop that reads the directory: the array, and what is left of the stream.
  pub fill : (ℕ → Bool) → List D → List (Entry D) → record { e : List (Entry D); left : List D }
  unfolding new_entry
  fill array [] e = record { e = e; left = [] }
  fill array (d ∷ ds) e = elim (array (length e + 1)) [
    | true ↦ fill array ds (e ++ new_entry d ∷ [])
    | false ↦ record { e = e; left = ds }
  ]

  pub total_length : List (Entry D) → ℕ
  unfolding record_length
  total_length [] = 0
  total_length (x ∷ e) = record_length (length (d_name x.u)) + total_length e

  -- Whether the directory is indexed. The difference is of type `unsigned`.
  pub is_indexed : List (Entry D) → Bool
  unfolding total_length
  is_indexed e =
      ltb ((st.block_size + 2 ^ 32 - (if st.csum == 0 then 0 else 12)) % 2 ^ 32) (total_length e)

  pub with_dot : Entry D → Entry D
  unfolding dot_rank
  with_dot x = record x { dot = dot_rank (d_name x.u) }

  pub set_dots : List (Entry D) → List (Entry D)
  unfolding is_indexed with_dot
  set_dots e = if is_indexed e then map with_dot e else e

-- The search of `get_listing` and `closedir`.
unfoldable pub find_listing : {D : Type 0} → ℕ → List (Listing D) → Option (Listing D)
find_listing dir [] = none
find_listing dir (l ∷ ls) = if l.dir == dir then some l else find_listing dir ls

-- `l->pos++` through the pointer that the search gave.
pub advance : {D : Type 0} → ℕ → List (Listing D) → List (Listing D)
advance dir [] = []
advance dir (l ∷ ls) =
    if l.dir == dir then record l { pos = l.pos + 1 } ∷ ls else l ∷ advance dir ls

pub remove_listing : {D : Type 0} → ℕ → List (Listing D) → List (Listing D)
remove_listing dir [] = []
remove_listing dir (l ∷ ls) = if l.dir == dir then ls else l ∷ remove_listing dir ls

-- The C library's own `readdir`.
pub real_readdir : {D : Type 0} → World D → ℕ → World D × Option D
real_readdir w dir = elim (w.stream dir) [
  | [] ↦ (w, none)
  | d ∷ ds ↦ (record w { stream = update w.stream dir ds }, some d)
]

module _ {D : Type 0} (d_name : D → Bytes)
    (qsort : (Entry D → Entry D → Sign) → List (Entry D) → List (Entry D)) (st : Settings) where
  pub new_listing : ℕ → Bool → List (Entry D) → Listing D
  unfolding set_dots
  new_listing dir is64 e = record {
    dir = dir;
    is64 = is64;
    pos = 0;
    e = qsort cmp_entry (set_dots d_name st e);
  }

  pub get_listing : Memory → World D → ℕ → Bool → World D × Option (Listing D)
  unfolding find_listing new_listing fill
  get_listing mem w dir is64 = elim (find_listing dir w.listings) [
    | some l ↦ (w, some l)
    | none ↦
        if mem.listing
        then (let r = fill d_name st mem.array (w.stream dir) [] in
            let l = new_listing dir is64 r.e in
            (record { stream = update w.stream dir r.left; listings = l ∷ w.listings }, some l))
        else (w, none)
  ]

  pub next_entry : Memory → World D → ℕ → Bool → World D × Option D
  unfolding get_listing advance
  next_entry mem w dir is64 =
      let (w', found) = get_listing mem w dir is64 in
      elim found [
        | none ↦ (w', none)
        | some l ↦ elim (get_elem? l.e l.pos) [
          | none ↦ (w', none)
          | some x ↦ (record w' { listings = advance dir w'.listings }, some x.u)
        ]
      ]

  -- `readdir` with `is64` false, `readdir64` with `is64` true.
  pub readdir : Memory → World D → ℕ → Bool → World D × Option D
  unfolding next_entry real_readdir
  readdir mem w dir is64 = if st.have_seed then next_entry mem w dir is64 else real_readdir w dir

-- `closedir`; the C library then gives the stream up.
pub closedir : {D : Type 0} → World D → ℕ → World D
unfolding remove_listing
closedir w dir = record {
  stream = update w.stream dir [];
  listings = remove_listing dir w.listings;
}
