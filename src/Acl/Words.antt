-- ===== src/Acl/Words.antt =====
-- The words of a password file of mosquitto-1.4.2, as the string functions take them apart.
use wirenboard.Common.{
  ℕ, ◌-◌, ◌<◌, ◌≡◌, refl, ap, ◌∙◌, arith, Bool, true, false, not, ◌&&◌, ◌==◌, some, List, [], ◌∷◌,
  ◌++◌, append_assoc, Bytes, length, All,
}
use wirenboard.Persist.Input.{c_string}
use wirenboard.Acl.PasswordFile.{
  fgets_lines, before_colon, after_colon, strtok, is_eol, is_blank, strip,
}

-- A text without a colon, a line end or a byte 0, that is not empty.
abbrev pub is_plain_char : ℕ → Bool
is_plain_char c = not (c == b':') && (not (is_eol c) && not (c == 0))

abbrev pub IsWord : Bytes → Type 0
IsWord s = All (λ c. is_plain_char c ≡ true) s × (is_blank s ≡ false)

-- A line of the file for a user
abbrev pub line_of : Bytes × Bytes → Bytes
line_of (name, secret) = name ++ (b':' ∷ (secret ++ 10 ∷ []))

abbrev pub file_of : List (Bytes × Bytes) → Bytes
file_of [] = []
file_of (u ∷ us) = line_of u ++ file_of us

pub fgets_lines-line :
    (room : ℕ) (line l rest : Bytes)
    → All (λ c. (c == 10) ≡ false) l
    → length l < room
    → fgets_lines room line (l ++ (10 ∷ rest)) ≡ (line ++ (l ++ 10 ∷ [])) ∷ fgets_lines 255 [] rest
unfolding fgets_lines
fgets_lines-line room line [] rest h k = refl
fgets_lines-line room line (c ∷ l) rest h k =
    let one : (room == 1) ≡ false = ground arith in
    rw (fgets_lines, h.0, one)
      (fgets_lines-line (room - 1) (line ++ c ∷ []) l rest h.1 (omega arith)
        ∙ ap (λ x. x ∷ fgets_lines 255 [] rest) (append_assoc line (c ∷ []) (l ++ 10 ∷ [])))

-- The conditions of a plain character
pub plain_char :
    (c : ℕ)
    → is_plain_char c ≡ true
    → ((c == b':') ≡ false) × (is_eol c ≡ false) × ((c == 0) ≡ false) × ((c == 10) ≡ false)
plain_char c h = (ground arith, ground arith, ground arith, ground arith)

abbrev pub Plain : Bytes → Type 0
Plain s = All (λ c. is_plain_char c ≡ true) s

pub before_colon-colon : (s r : Bytes) → Plain s → before_colon (s ++ (b':' ∷ r)) ≡ s
before_colon-colon [] r h = refl
before_colon-colon (c ∷ s) r h = rw ((plain_char c h.0).0, before_colon-colon s r h.1) refl

pub after_colon-colon : (s r : Bytes) → Plain s → after_colon (s ++ (b':' ∷ r)) ≡ r
after_colon-colon [] r h = refl
after_colon-colon (c ∷ s) r h = rw (plain_char c h.0).0 (after_colon-colon s r h.1)

pub before_colon_end : (s : Bytes) → Plain s → before_colon (s ++ 10 ∷ []) ≡ s ++ 10 ∷ []
before_colon_end [] h = refl
before_colon_end (c ∷ s) h = rw ((plain_char c h.0).0, before_colon_end s h.1) refl

pub strip_end : (s : Bytes) → Plain s → strip (s ++ 10 ∷ []) ≡ s
strip_end [] h = refl
strip_end (c ∷ s) h = rw ((plain_char c h.0).1, strip_end s h.1) refl

pub strip-word : (s : Bytes) → Plain s → strip s ≡ s
strip-word [] h = refl
strip-word (c ∷ s) h = rw ((plain_char c h.0).1, strip-word s h.1) refl

pub c_string-append : (s r : Bytes) → Plain s → c_string (s ++ r) ≡ s ++ c_string r
c_string-append [] r h = refl
c_string-append (c ∷ s) r h = rw ((plain_char c h.0).2, c_string-append s r h.1) refl

pub strtok-name : (s r : Bytes) → IsWord s → strtok (s ++ (b':' ∷ r)) ≡ some (s, r)
unfolding strtok
strtok-name [] r h = cc
strtok-name (c ∷ s) r h =
    let no_colon = (plain_char c h.0.0).0 in
    rw (strtok, no_colon, no_colon, before_colon-colon s r h.0.1, after_colon-colon s r h.0.1) refl

pub strtok-secret :
    (s : Bytes) → IsWord s → (r : Bytes) × (strtok (s ++ 10 ∷ []) ≡ some (s ++ 10 ∷ [], r))
unfolding strtok
strtok-secret [] h = cc
strtok-secret (c ∷ s) h =
    let no_colon = (plain_char c h.0.0).0 in
    (
      after_colon (c ∷ (s ++ 10 ∷ [])),
      rw (strtok, no_colon, no_colon, before_colon_end s h.0.1) refl,
    )
