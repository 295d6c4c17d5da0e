-- ===== src/DirOrder/Hash/Range.antt =====
-- The values that `dirhash` can give, and the rotation that it rests on.
use wirenboard.Common.{ℕ, ◌-◌, ◌%◌, ◌^◌, ◌≤◌, ◌<◌, ◌≡◌, refl, arith, List, length, dec_lt, drop}
use wirenboard.Common.Bits.{bit_and_even, bit_and-le}
use wirenboard.Common.Order.{lt_wf, dite_cases}
use mathlib.Core.WellFounded.{Acc}
use wirenboard.DirOrder.Hash.{
  Words, half_md4_transform, str2hashbuf, sub-lt, hash_loop, start_words, major_of, name_words,
  dirhash,
}

abbrev pub IsWords : Words → Type 0
IsWords w = (w.a < 2 ^ 32) × (w.b < 2 ^ 32) × (w.c < 2 ^ 32) × (w.d < 2 ^ 32)

half_md4_transform-IsWords : (w : Words) (inp : List ℕ) → IsWords (half_md4_transform w inp)
unfolding half_md4_transform
half_md4_transform-IsWords w inp = omega arith

hash_loop-IsWords :
    (p : List ℕ) (len : ℕ) (w : Acc ◌<◌ len) (buf : Words)
    → IsWords buf
    → IsWords (hash_loop p len w buf)
unfolding hash_loop
hash_loop-IsWords p len (Acc.intro _ smaller) buf h =
    dite_cases IsWords (dec_lt 0 len) _ _
      (λ pos.
        hash_loop-IsWords (drop 32 p) (len - 32) (smaller (len - 32) (sub-lt len pos))
          (half_md4_transform buf (str2hashbuf p len 8))
          (half_md4_transform-IsWords buf (str2hashbuf p len 8)))
      (λ _. h)

start_words-IsWords : (seed : Words) → IsWords seed → IsWords (start_words seed)
unfolding start_words
start_words-IsWords seed h = ground arith

major_of_lem : (h : ℕ) → (major_of h % 2 ≡ 0) × (major_of h ≤ 2 ^ 32 - 4)
unfolding major_of
major_of_lem h = ground (arith, bit_and_even h (2 ^ 31 - 1), bit_and-le h (2 ^ 32 - 2))

name_words-IsWords : (seed : Words) (name : List ℕ) → IsWords seed → IsWords (name_words seed name)
unfolding name_words
name_words-IsWords seed name h =
    hash_loop-IsWords name (length name) (lt_wf.apply (length name)) (start_words seed)
      (start_words-IsWords seed h)

dirhash_lem :
    (seed : Words) (name : List ℕ)
    → dirhash seed name
      ≡ record { major = major_of (name_words seed name).b; minor = (name_words seed name).c }
unfolding dirhash
dirhash_lem seed name = refl

-- With a seed of four 32-bit words, the major hash is even and below the reserved value
-- 0xfffffffe, and the minor hash is a 32-bit word.
pub dirhash_range :
    (seed : Words) (name : List ℕ)
    → IsWords seed
    → ((dirhash seed name).major % 2 ≡ 0)
      × ((dirhash seed name).major < 0xfffffffe)
      × ((dirhash seed name).minor < 2 ^ 32)
dirhash_range seed name h =
    rw (dirhash_lem seed name)
      (omega (arith, major_of_lem (name_words seed name).b, name_words-IsWords seed name h))
