-- ===== src/Acl/PasswordFile.antt =====
-- `_pwfile_parse` of src/security_default.c of mosquitto-1.4.2, on the bytes of the file. The entries
-- are in the order of the hash table; their passwords are not decoded yet.
use wirenboard.Common.{
  ℕ, suc, ◌-◌, Bool, true, false, not, ◌&&◌, ◌||◌, if◌then◌else◌, ◌==◌, Option, none, some, List,
  [], ◌∷◌, ◌++◌, Bytes,
}
use wirenboard.Acl.Passwords.{Unpwd}
use wirenboard.Persist.Input.{c_string}

-- Which allocations for a line succeed.
pub record LineMemory : Type 0 where
  pub entry : Bool
  pub name : Bool
  pub secret : Bool

-- The entries and the return code, or a read in front of the text of a name.
pub data Parsed : Type 0 where
  parsed : List Unpwd → ℕ → Parsed
  underrun : Parsed

-- What the calls of `fgets` with 256 bytes return, with `room` bytes left for the line so far.
unfoldable pub fgets_lines : (room : ℕ) → (line : Bytes) → Bytes → List Bytes
fgets_lines room [] [] = []
fgets_lines room (c ∷ line) [] = (c ∷ line) ∷ []
fgets_lines room line (c ∷ s) =
    let more = fgets_lines (room - 1) (line ++ c ∷ []) s in
    let next = fgets_lines 255 [] s in
    if c == 10 || room == 1 then (line ++ c ∷ []) ∷ next else more

abbrev pub skip_colons : Bytes → Bytes
skip_colons [] = []
skip_colons (c ∷ s) = let rest = skip_colons s in if c == b':' then rest else c ∷ s

abbrev pub before_colon : Bytes → Bytes
before_colon [] = []
before_colon (c ∷ s) = let rest = before_colon s in if c == b':' then [] else c ∷ rest

abbrev pub after_colon : Bytes → Bytes
after_colon [] = []
after_colon (c ∷ s) = let rest = after_colon s in if c == b':' then s else rest

-- `strtok_r` with ":": the token and what is left.
unfoldable pub strtok : Bytes → Option (Bytes × Bytes)
strtok s = elim (skip_colons s) [
  | [] ↦ none
  | c ∷ t ↦ some (before_colon (c ∷ t), after_colon (c ∷ t))
]

abbrev pub is_eol : ℕ → Bool
is_eol c = c == 10 || c == 13

abbrev pub is_blank : Bytes → Bool
is_blank [] = true
is_blank (c ∷ s) = false

-- The text without the line ends behind it.
abbrev pub strip : Bytes → Bytes
strip [] = []
strip (c ∷ s) = let rest = strip s in if is_eol c && is_blank rest then [] else c ∷ rest

-- The rest of a line, from the password on, for a name.
unfoldable pub password_entry : LineMemory → (name : Bytes) → (rest : Bytes) → Option Unpwd
password_entry mem name rest = elim (strtok rest) [
  | none ↦ some (record { username = name; password = none; salt = [] })
  | some (p, _) ↦
      if mem.secret
      then some (record { username = name; password = some (strip p); salt = [] })
      else none
]

-- The loop over the lines. A name of line ends only is shortened to nothing, and then the byte in
-- front of it is read.
unfoldable pub pwfile_loop : (ℕ → LineMemory) → (i : ℕ) → List Unpwd → List Bytes → Parsed
pwfile_loop mem i us [] = parsed us 0
pwfile_loop mem i us (l ∷ ls) = elim (strtok (c_string l)) [
  | none ↦ pwfile_loop mem (suc i) us ls
  | some (token, rest) ↦
      if not ((mem i).entry && (mem i).name) then parsed us 1 else (elim (is_blank (strip token)) [
        | true ↦ underrun
        | false ↦ (elim (password_entry (mem i) (strip token) rest) [
          | none ↦ parsed us 1
          | some u ↦ pwfile_loop mem (suc i) (us ++ u ∷ []) ls
        ])
      ])
]

-- `_pwfile_parse`, where the file opens.
unfoldable pub pwfile_parse : (ℕ → LineMemory) → List Unpwd → (file : Bytes) → Parsed
pwfile_parse mem us file = pwfile_loop mem 0 us (fgets_lines 255 [] file)
