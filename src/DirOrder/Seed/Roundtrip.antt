-- ===== src/DirOrder/Seed/Roundtrip.antt =====
-- A seed written as a UUID is read back, and a seed with a digit too many is not.
use wirenboard.Common.{
  ℕ, zero, suc, ◌+◌, ◌-◌, ◌*◌, ◌/◌, ◌%◌, ◌^◌, ◌≤◌, ◌<◌, ◌≡◌, ◌∙◌, refl, ◌≢◌, arith, true,
  if◌then◌else◌, ltb, Option, none, some, List, [], ◌∷◌, ◌++◌, length, get_or, Bytes, All, map,
  append-nil, append_assoc, ap, length-map,
}
use native.Mathlib.Nat.{add-zero}
use wirenboard.Common.Bits.{bytes-add}
use wirenboard.DirOrder.Seed.{
  Settings, Environment, scanned, word_at, scan_bytes, override, apply_scan, load_seed,
}

-- A lower-case hexadecimal digit.
abbrev pub hex_digit : ℕ → ℕ
hex_digit d = if ltb d 10 then b'0' + d else b'a' + d - 10

abbrev pub dashes : ℕ → Bytes → Bytes
dashes zero s = s
dashes (suc k) s = b'-' ∷ dashes k s

-- The text of a seed, each byte as two digits with any number of dashes in front of it, and what
-- follows it.
abbrev pub seed_digits : List (ℕ × ℕ) → Bytes → Bytes
seed_digits [] rest = rest
seed_digits ((k, v) ∷ items) rest =
    dashes k (hex_digit (v / 16) ∷ hex_digit (v % 16) ∷ seed_digits items rest)

-- What the C library promises of `%2x` at two digits.
abbrev pub ReadsHexPairs : (Bytes → Option ℕ) → Type 0
ReadsHexPairs scan =
    (h l : ℕ) (s : Bytes)
    → h < 16
    → l < 16
    → scan (hex_digit h ∷ hex_digit l ∷ s) ≡ some (h * 16 + l)

module _ (scan_hex2 : Bytes → Option ℕ) (reads : ReadsHexPairs scan_hex2) where
  scan_bytes-dashes :
      (k h n : ℕ) (s b : Bytes)
      → n < 16
      → scan_bytes scan_hex2 (dashes k (h ∷ s)) n b ≡ scan_bytes scan_hex2 (h ∷ s) n b
  unfolding scan_bytes
  scan_bytes-dashes zero h n s b lt = refl
  scan_bytes-dashes (suc zero) h n s b lt = ground arith
  scan_bytes-dashes (suc (suc k)) h n s b lt = ground (arith, scan_bytes-dashes (suc k) h n s b lt)

  scan_bytes-pair :
      (v n : ℕ) (s b : Bytes)
      → v < 256
      → n < 16
      → scan_bytes scan_hex2 (hex_digit (v / 16) ∷ hex_digit (v % 16) ∷ s) n b
        ≡ scan_bytes scan_hex2 s (n + 1) (b ++ v ∷ [])
  unfolding scan_bytes
  scan_bytes-pair v n s b small lt =
      ground (arith, reads (v / 16) (v % 16) s (omega arith) (omega arith))

  scan_bytes-seed_digits :
      (items : List (ℕ × ℕ)) (rest : Bytes) (n : ℕ) (b : Bytes)
      → All (λ p. p.1 < 256) items
      → n + length items ≤ 16
      → scan_bytes scan_hex2 (seed_digits items rest) n b
        ≡ scan_bytes scan_hex2 rest (n + length items) (b ++ map (λ p. p.1) items)
  scan_bytes-seed_digits [] rest n b small e = rw (append-nil b, add-zero n)
  scan_bytes-seed_digits ((k, v) ∷ items) rest n b small e =
      let more : n + 1 + length items ≡ n + suc (length items) = omega arith in
      rw (
        scan_bytes-dashes k (hex_digit (v / 16)) n (hex_digit (v % 16) ∷ seed_digits items rest) b
            (omega arith),
        scan_bytes-pair v n (seed_digits items rest) b small.0 (omega arith),
        scan_bytes-seed_digits items rest (n + 1) (b ++ v ∷ []) small.1 (omega arith),
        append_assoc b (v ∷ []) (map (λ p. p.1) items),
        more,
      )

-- The seed's bytes, the first one lowest in its word.
abbrev pub word_of : List (ℕ × ℕ) → ℕ → ℕ
word_of items i =
    let b = λ (k : ℕ). get_or (map (λ (p : ℕ × ℕ). p.1) items) (4 * i + k) 0 in
    b 0 + b 1 * 2 ^ 8 + b 2 * 2 ^ 16 + b 3 * 2 ^ 24

get_or-lt :
    (items : List (ℕ × ℕ)) (i : ℕ)
    → All (λ p. p.1 < 256) items
    → get_or (map (λ (p : ℕ × ℕ). p.1) items) i 0 < 256
get_or-lt [] i h = omega arith
get_or-lt (p ∷ items) zero h = h.0
get_or-lt (p ∷ items) (suc i) h = get_or-lt items i h.1

word_at-word_of :
    (items : List (ℕ × ℕ)) (i : ℕ)
    → All (λ p. p.1 < 256) items
    → word_at (map (λ (p : ℕ × ℕ). p.1) items) i ≡ word_of items i
unfolding word_at
word_at-word_of items i h =
    bytes-add _ _ _ _ (get_or-lt items (4 * i + 0) h) (get_or-lt items (4 * i + 1) h)
      (get_or-lt items (4 * i + 2) h)

length-dashes : (k : ℕ) (s : Bytes) → length (dashes k s) ≡ k + length s
length-dashes zero s = omega arith
length-dashes (suc k) s = omega (arith, length-dashes k s)

length-seed_digits :
    (items : List (ℕ × ℕ)) (rest : Bytes)
    → length items + length rest ≤ length (seed_digits items rest)
length-seed_digits [] rest = omega arith
length-seed_digits ((k, v) ∷ items) rest = omega (
  arith,
  length-dashes k (hex_digit (v / 16) ∷ hex_digit (v % 16) ∷ seed_digits items rest),
  length-seed_digits items rest,
)

load_seed-some :
    (scan_hex2 : Bytes → Option ℕ) (atoi : Bytes → ℕ) (env : Environment) (st : Settings)
    (s : Bytes)
    → env.hash_seed ≡ some s
    → 0 < length s
    → load_seed scan_hex2 atoi env st ≡ apply_scan atoi env st (scan_bytes scan_hex2 s 0 [])
load_seed-some scan_hex2 atoi env st [] e pos = absurd (omega arith)
load_seed-some scan_hex2 atoi env st (c ∷ s) e pos = unfold load_seed in ground arith

apply_scan_full :
    (atoi : Bytes → ℕ) (env : Environment) (st : Settings) (items : List (ℕ × ℕ))
    → All (λ p. p.1 < 256) items
    → length items ≡ 16
    → apply_scan atoi env st (scanned (map (λ (p : ℕ × ℕ). p.1) items))
      ≡ some (record {
        have_seed = true;
        seed = record {
          a = word_of items 0;
          b = word_of items 1;
          c = word_of items 2;
          d = word_of items 3;
        };
        block_size = override atoi env.dir_block_size st.block_size;
        csum = override atoi env.dir_csum st.csum;
      })
apply_scan_full atoi env st items small e =
    rw
      (
        ← word_at-word_of items 0 small,
        ← word_at-word_of items 1 small,
        ← word_at-word_of items 2 small,
        ← word_at-word_of items 3 small,
      )
      (unfold apply_scan in ground (arith, length-map items (λ (p : ℕ × ℕ). p.1)))

module _ (scan_hex2 : Bytes → Option ℕ) (atoi : Bytes → ℕ) (reads : ReadsHexPairs scan_hex2) where
  -- A seed of sixteen bytes in hexadecimal, with dashes in front of any of them, is read as those
  -- bytes, four little-endian words, and turns the substitute on; the block size and the checksum
  -- flag are then taken from the environment where it has them.
  pub load_seed-seed_digits :
      (env : Environment) (st : Settings) (items : List (ℕ × ℕ))
      → All (λ p. p.1 < 256) items
      → length items ≡ 16
      → env.hash_seed ≡ some (seed_digits items [])
      → load_seed scan_hex2 atoi env st
        ≡ some (record {
          have_seed = true;
          seed = record {
            a = word_of items 0;
            b = word_of items 1;
            c = word_of items 2;
            d = word_of items 3;
          };
          block_size = override atoi env.dir_block_size st.block_size;
          csum = override atoi env.dir_csum st.csum;
        })
  unfolding scan_bytes
  load_seed-seed_digits env st items small e h =
      load_seed-some scan_hex2 atoi env st (seed_digits items []) h
        (omega (arith, length-seed_digits items []))
      ∙ ap (apply_scan atoi env st)
          (scan_bytes-seed_digits scan_hex2 reads items [] 0 [] small (omega arith))
      ∙ apply_scan_full atoi env st items small e

  -- A seed of fewer than sixteen bytes and one digit more makes the loop read past the end of the
  -- string, wherever the C library converts the lone digit.
  pub load_seed_overrun :
      (env : Environment) (st : Settings) (items : List (ℕ × ℕ)) (c v : ℕ)
      → All (λ p. p.1 < 256) items
      → length items < 16
      → c ≢ b'-'
      → scan_hex2 (c ∷ []) ≡ some v
      → env.hash_seed ≡ some (seed_digits items (c ∷ []))
      → load_seed scan_hex2 atoi env st ≡ none
  load_seed_overrun env st items c v small short digit conv h =
      load_seed-some scan_hex2 atoi env st (seed_digits items (c ∷ [])) h
        (omega (arith, length-seed_digits items (c ∷ [])))
      ∙ ap (apply_scan atoi env st)
          (scan_bytes-seed_digits scan_hex2 reads items (c ∷ []) 0 [] small (omega arith))
      ∙ (unfold scan_bytes apply_scan in ground arith)
