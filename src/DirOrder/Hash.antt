-- ===== src/DirOrder/Hash.antt =====
-- `half_md4_transform`, `str2hashbuf` and `dirhash` of fw-toolchain-legacy/ext4_dir_order.c. A
-- `uint32_t` is a number below 2 ^ 32, and a name is the list of its bytes without the final NUL.
pub mod Buffer
pub mod Range
mod Tests
use wirenboard.Common.{
  ℕ, zero, suc, ◌+◌, ◌-◌, ◌*◌, ◌/◌, ◌%◌, ◌^◌, ◌<◌, min, bit_and, bit_or, bit_xor, Bool, ◌&&◌,
  if◌then◌else◌, ltb, ◌==◌, List, [], ◌∷◌, ◌++◌, length, get_or, take, drop, replicate, arith,
  dec_lt,
}
use wirenboard.Common.Order.{lt_wf}
use mathlib.Core.Logic.{dite}
use mathlib.Core.WellFounded.{Acc, WellFounded}

-- `ROL32`
unfoldable pub rol32 : ℕ → ℕ → ℕ
rol32 x s = bit_or (x * 2 ^ s % 2 ^ 32) (x / 2 ^ (32 - s))

-- The mixing functions of the three passes, `F`, `G` and `H`.
mix_f : ℕ → ℕ → ℕ → ℕ
mix_f x y z = bit_xor z (bit_and x (bit_xor y z))

mix_g : ℕ → ℕ → ℕ → ℕ
mix_g x y z = (bit_and x y + bit_and (bit_xor x y) z) % 2 ^ 32

mix_h : ℕ → ℕ → ℕ → ℕ
mix_h x y z = bit_xor (bit_xor x y) z

-- `ROUND`: the new value of its second argument.

round : (ℕ → ℕ → ℕ → ℕ) → ℕ → ℕ → ℕ → ℕ → ℕ → ℕ → ℕ
unfolding rol32
round f a b c d x s = rol32 ((a + f b c d + x) % 2 ^ 32) s

-- Four hash words: `buf`, and the seed.
pub record Words : Type 0 where
  pub a : ℕ
  pub b : ℕ
  pub c : ℕ
  pub d : ℕ

-- Four successive rounds, that write a, d, c and b, with their inputs and rotations.
four_rounds : (ℕ → ℕ → ℕ → ℕ) → Words → ℕ → ℕ → ℕ → ℕ → ℕ → ℕ → ℕ → ℕ → Words
unfolding round
four_rounds f w xa sa xd sd xc sc xb sb =
    let a = round f w.a w.b w.c w.d xa sa in
    let d = round f w.d a w.b w.c xd sd in
    let c = round f w.c d a w.b xc sc in
    let b = round f w.b c d a xb sb in record { a = a; b = b; c = c; d = d }

k2 : ℕ
k2 = 0o13240474631

k3 : ℕ
k3 = 0o15666365641

-- The eight rounds of each pass, over the eight words of `in`.
pass_f : List ℕ → Words → Words
unfolding four_rounds mix_f
pass_f inp w =
    let x = λ (i : ℕ). get_or inp i 0 in
    let w' = four_rounds mix_f w (x 0) 3 (x 1) 7 (x 2) 11 (x 3) 19 in
    four_rounds mix_f w' (x 4) 3 (x 5) 7 (x 6) 11 (x 7) 19

pass_g : List ℕ → Words → Words
unfolding four_rounds mix_g k2
pass_g inp w =
    let x = λ (i : ℕ). (get_or inp i 0 + k2) % 2 ^ 32 in
    let w' = four_rounds mix_g w (x 1) 3 (x 3) 5 (x 5) 9 (x 7) 13 in
    four_rounds mix_g w' (x 0) 3 (x 2) 5 (x 4) 9 (x 6) 13

pass_h : List ℕ → Words → Words
unfolding four_rounds mix_h k3
pass_h inp w =
    let x = λ (i : ℕ). (get_or inp i 0 + k3) % 2 ^ 32 in
    let w' = four_rounds mix_h w (x 3) 3 (x 7) 9 (x 2) 11 (x 6) 15 in
    four_rounds mix_h w' (x 1) 3 (x 5) 9 (x 0) 11 (x 4) 15

add_words : Words → Words → Words
add_words w v = record {
  a = (w.a + v.a) % 2 ^ 32;
  b = (w.b + v.b) % 2 ^ 32;
  c = (w.c + v.c) % 2 ^ 32;
  d = (w.d + v.d) % 2 ^ 32;
}

pub half_md4_transform : Words → List ℕ → Words
unfolding pass_f pass_g pass_h add_words
half_md4_transform buf inp = add_words buf (pass_h inp (pass_g inp (pass_f inp buf)))

-- `(uint32_t)(int)scp[i]`: a byte from 128 on is negative.
pub signed_byte : ℕ → ℕ
signed_byte c = if ltb c 128 then c else c + 2 ^ 32 - 256

-- One turn of the loop's arithmetic.
pub push_byte : ℕ → ℕ → ℕ
unfolding signed_byte
push_byte val c = (signed_byte c + val * 2 ^ 8 % 2 ^ 32) % 2 ^ 32

pub str_pad : ℕ → ℕ
str_pad len =
    let p = bit_or (len % 2 ^ 32) (len % 2 ^ 32 * 2 ^ 8 % 2 ^ 32) in bit_or p (p * 2 ^ 16 % 2 ^ 32)

-- The loop of `str2hashbuf` at index `i`, over the bytes that are left: the words written so far,
-- the word in work and the words still to write.
pub str_loop : ℕ → List ℕ → ℕ → ℕ → ℕ → List ℕ → record { out : List ℕ; val : ℕ; num : ℕ }
str_loop pad [] i val num out = record { out = out; val = val; num = num }
str_loop pad (c ∷ cs) i val num out =
    let val' = push_byte val c in
    let full = i % 4 == 3 in
    str_loop pad cs (i + 1) (if full then pad else val') (if full then num - 1 else num)
      (if full then out ++ val' ∷ [] else out)

-- `if (--num >= 0) ...` and the loop below it.
pub str_fill : ℕ → record { out : List ℕ; val : ℕ; num : ℕ } → List ℕ
str_fill pad r = if ltb 0 r.num then r.out ++ (r.val ∷ replicate (r.num - 1) pad) else r.out

unfoldable pub str2hashbuf : List ℕ → ℕ → ℕ → List ℕ
unfolding str_loop str_fill str_pad push_byte
str2hashbuf msg len num =
    let pad = str_pad len in str_fill pad (str_loop pad (take (min len (num * 4)) msg) 0 pad num [])

pub sub-lt : (len : ℕ) → 0 < len → len - 32 < len
sub-lt len h = omega arith

-- `while (len > 0)`: 32 bytes of the name at a time.
pub hash_loop : List ℕ → (len : ℕ) → Acc ◌<◌ len → Words → Words
hash_loop p len (Acc.intro _ smaller) buf =
    dite (dec_lt 0 len)
      (λ h.
        hash_loop (drop 32 p) (len - 32) (smaller (len - 32) (sub-lt len h))
          (half_md4_transform buf (str2hashbuf p len 8)))
      (λ _. buf)

-- The words that ext4 starts from when the seed is zero.
abbrev pub default_words : Words
default_words = record { a = 0x67452301; b = 0xefcdab89; c = 0x98badcfe; d = 0x10325476 }

pub start_words : Words → Words
start_words seed =
    if seed.a == 0 && seed.b == 0 && seed.c == 0 && seed.d == 0 then default_words else seed

-- The last value of the major hash is reserved, as the end of the directory.
pub major_of : ℕ → ℕ
major_of h =
    let m = bit_and h (2 ^ 32 - 2) in
    if m == 0x7fffffff * 2 % 2 ^ 32 then 0x7ffffffe * 2 % 2 ^ 32 else m

-- `buf` at the end of the loop.
pub name_words : Words → List ℕ → Words
unfolding hash_loop half_md4_transform str2hashbuf start_words lt_wf dec_lt
name_words seed name = hash_loop name (length name) (lt_wf.apply (length name)) (start_words seed)

unfoldable pub dirhash : Words → List ℕ → record { major : ℕ; minor : ℕ }
unfolding name_words major_of
dirhash seed name =
    let buf = name_words seed name in record { major = major_of buf.b; minor = buf.c }
