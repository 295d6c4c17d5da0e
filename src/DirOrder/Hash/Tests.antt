-- ===== src/DirOrder/Hash/Tests.antt =====
-- Runs of the directory hash, and the instances of its theorems.
use wirenboard.Common.{ℕ, ◌*◌, min, take, ◌%◌, ◌^◌, ◌<◌, ◌≡◌, refl, arith, List, [], ◌∷◌}
use wirenboard.DirOrder.Hash.{Words, dirhash, str2hashbuf, str_pad}
use wirenboard.DirOrder.Hash.Buffer.{words, str2hashbuf-words}
use wirenboard.DirOrder.Hash.Range.{dirhash_range}

abbrev some_seed : Words
some_seed = record { a = 1; b = 2; c = 3; d = 4 }

abbrev make_name : List ℕ
make_name = b'm' ∷ b'a' ∷ b'i' ∷ b'n' ∷ b'.' ∷ b'c' ∷ []

hash_run : dirhash some_seed make_name ≡ record { major = 2942903322; minor = 540459831 }
unfolding dirhash
hash_run = refl

dirhash_range_example :
    ((dirhash some_seed make_name).major % 2 ≡ 0)
    × ((dirhash some_seed make_name).major < 0xfffffffe)
    × ((dirhash some_seed make_name).minor < 2 ^ 32)
dirhash_range_example = dirhash_range some_seed make_name (omega arith)

-- A name of six bytes: two words over the padding 0x06060606, and the rest padding.
str2hashbuf_run : str2hashbuf make_name 6 3 ≡ 0x6d61696e ∷ 0x06062e63 ∷ 0x06060606 ∷ []
unfolding str2hashbuf
str2hashbuf_run = refl

str2hashbuf-words_example :
    str2hashbuf make_name 6 8 ≡ words (str_pad 6) 8 (take (min 6 (8 * 4)) make_name)
str2hashbuf-words_example = str2hashbuf-words make_name 6 8
