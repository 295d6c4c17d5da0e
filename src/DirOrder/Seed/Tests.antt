-- ===== src/DirOrder/Seed/Tests.antt =====
-- Runs of `load_seed`, and the instances of its theorems, with a `%2x` that reads digits.
use wirenboard.Common.{
  ℕ, ◌+◌, ◌-◌, ◌*◌, ◌≡◌, ◌<◌, refl, arith, true, if◌then◌else◌, leb, ◌&&◌, Option, none, some, List,
  [], ◌∷◌, Bytes, replicate,
}
use wirenboard.DirOrder.Seed.{Environment, default_settings, load_seed, override}
use wirenboard.DirOrder.Seed.Roundtrip.{
  hex_digit, seed_digits, ReadsHexPairs, word_of, load_seed-seed_digits, load_seed_overrun,
}

abbrev digit_value : ℕ → Option ℕ
digit_value c =
    if leb b'0' c && leb c b'9'
    then some (c - b'0')
    else if leb b'a' c && leb c b'f'
    then some (c - b'a' + 10)
    else none

abbrev two_digits : Option ℕ → Option ℕ → Option ℕ
two_digits none l = none
two_digits (some h) none = some h
two_digits (some h) (some l) = some (h * 16 + l)

abbrev scan_digits : Bytes → Option ℕ
scan_digits [] = none
scan_digits (h ∷ []) = digit_value h
scan_digits (h ∷ l ∷ s) = two_digits (digit_value h) (digit_value l)

digit_value-hex_digit : (d : ℕ) → d < 16 → digit_value (hex_digit d) ≡ some d
digit_value-hex_digit d h = ground arith

scan_digits-ReadsHexPairs : ReadsHexPairs scan_digits
scan_digits-ReadsHexPairs h l s hh hl = rw (digit_value-hex_digit h hh, digit_value-hex_digit l hl)

abbrev no_number : Bytes → ℕ
no_number s = 0

abbrev sixteen : List (ℕ × ℕ)
sixteen = (0, 0x12) ∷ (0, 0xab) ∷ (1, 3) ∷ replicate 13 (0, 255)

abbrev environment : Bytes → Environment
environment s = record { hash_seed = some s; dir_block_size = none; dir_csum = some (b'0' ∷ []) }

load_seed-seed_digits_example :
    load_seed scan_digits no_number (environment (seed_digits sixteen [])) default_settings
    ≡ some (record {
      have_seed = true;
      seed = record {
        a = word_of sixteen 0;
        b = word_of sixteen 1;
        c = word_of sixteen 2;
        d = word_of sixteen 3;
      };
      block_size = override no_number none 4096;
      csum = override no_number (some (b'0' ∷ [])) 1;
    })
load_seed-seed_digits_example =
    load_seed-seed_digits scan_digits no_number scan_digits-ReadsHexPairs
      (environment (seed_digits sixteen [])) default_settings sixteen (omega arith) (omega arith)
      refl

load_seed_overrun_example :
    load_seed scan_digits no_number
      (environment (seed_digits ((0, 18) ∷ []) (b'7' ∷ [])))
      default_settings
    ≡ none
load_seed_overrun_example =
    load_seed_overrun scan_digits no_number scan_digits-ReadsHexPairs
      (environment (seed_digits ((0, 18) ∷ []) (b'7' ∷ []))) default_settings ((0, 18) ∷ []) b'7' 7
      (omega arith) (omega arith) (omega arith) refl refl
