-- ===== src/DirOrder/Seed.antt =====
-- `load_seed` of fw-toolchain-legacy/ext4_dir_order.c: the settings of the substitute, and how they
-- are read from the environment. `sscanf(s, "%2x", &v)` and `atoi` belong to the C library, and
-- are arguments; `none` is a conversion that `sscanf` did not make.
pub mod Roundtrip
mod Tests
use wirenboard.Common.{
  ℕ, zero, suc, ◌+◌, ◌*◌, ◌%◌, ◌^◌, bit_or, Bool, true, false, if◌then◌else◌, ltb, ◌==◌, Option,
  none, some, List, [], ◌∷◌, ◌++◌, length, get_or, Bytes,
}
use wirenboard.DirOrder.Hash.{Words}

-- The file's static variables. A signed or unsigned `int` is its 32-bit pattern.
pub record Settings : Type 0 where
  pub have_seed : Bool
  pub seed : Words
  pub block_size : ℕ
  pub csum : ℕ

abbrev pub default_settings : Settings
default_settings = record {
  have_seed = false;
  seed = record { a = 0; b = 0; c = 0; d = 0 };
  block_size = 4096;
  csum = 1;
}

-- What `getenv` gives for EXT4_DIR_HASH_SEED, EXT4_DIR_BLOCK_SIZE and EXT4_DIR_CSUM.
pub record Environment : Type 0 where
  pub hash_seed : Option Bytes
  pub dir_block_size : Option Bytes
  pub dir_csum : Option Bytes

-- The end of the loop: a conversion that failed, a read past the NUL of the string, or the bytes.
pub data Scan : Type 0 where
  refused : Scan
  overrun : Scan
  scanned : Bytes → Scan

-- `b[4 * i] | b[4 * i + 1] << 8 | b[4 * i + 2] << 16 | b[4 * i + 3] << 24`
pub word_at : Bytes → ℕ → ℕ
word_at b i =
    let x = λ (k : ℕ). get_or b (4 * i + k) 0 in
    bit_or (bit_or (bit_or (x 0) (x 1 * 2 ^ 8)) (x 2 * 2 ^ 16)) (x 3 * 2 ^ 24)

module _ (scan_hex2 : Bytes → Option ℕ) where
  -- `for (; *s && n < 16; s++)`. A conversion moves `s` on by two, whatever it read: where one
  -- byte was left, the test of the next round is past the end.
  pub scan_bytes : Bytes → ℕ → Bytes → Scan
  scan_bytes [] n b = scanned b
  scan_bytes (c ∷ []) n b =
      if ltb n 16
      then (if c == b'-'
          then scanned b
          else elim (scan_hex2 (c ∷ [])) [ none ↦ refused | some v ↦ overrun ])
      else scanned b
  scan_bytes (c ∷ d ∷ s) n b = elim (ltb n 16) [
    | false ↦ scanned b
    | true ↦ elim (c == b'-') [
      | true ↦ scan_bytes (d ∷ s) n b
      | false ↦ elim (scan_hex2 (c ∷ d ∷ s)) [
        | none ↦ refused
        | some v ↦ scan_bytes s (n + 1) (b ++ v % 2 ^ 8 ∷ [])
      ]
    ]
  ]

module _ (atoi : Bytes → ℕ) where
  -- `if (s && *s) x = atoi(s);`
  pub override : Option Bytes → ℕ → ℕ
  override none x = x
  override (some []) x = x
  override (some (c ∷ s)) x = atoi (c ∷ s)

  pub apply_scan : Environment → Settings → Scan → Option Settings
  unfolding word_at override
  apply_scan env st refused = some st
  apply_scan env st overrun = none
  apply_scan env st (scanned b) =
      if length b == 16
      then some (record {
        have_seed = true;
        seed = record { a = word_at b 0; b = word_at b 1; c = word_at b 2; d = word_at b 3 };
        block_size = override env.dir_block_size st.block_size;
        csum = override env.dir_csum st.csum;
      })
      else some st

pub seed_text : Option Bytes → Bytes
seed_text none = []
seed_text (some s) = s

-- `none` is the read past the end, which C leaves undefined.
pub load_seed : (Bytes → Option ℕ) → (Bytes → ℕ) → Environment → Settings → Option Settings
unfolding scan_bytes apply_scan seed_text
load_seed scan_hex2 atoi env st = elim (seed_text env.hash_seed) [
  | [] ↦ some st
  | c ∷ s ↦ apply_scan atoi env st (scan_bytes scan_hex2 (c ∷ s) 0 [])
]
