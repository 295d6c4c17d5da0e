-- ===== src/Acl/Users.antt =====
-- Password files of mosquitto-1.4.2 as they are written: a line with a name, a colon and a password for
-- each user. What `_pwfile_parse` makes of them.
use wirenboard.Common.{
  ℕ, suc, ◌+◌, ◌<◌, ◌≡◌, refl, sym, ap, ◌∙◌, arith, true, false, ◌==◌, some, List, [], ◌∷◌, ◌++◌,
  append_assoc, append-nil, Bytes, length, length-append, map, All, All-append,
}
use wirenboard.Acl.Passwords.{Unpwd}
use wirenboard.Persist.Input.{c_string}
use wirenboard.Acl.PasswordFile.{
  LineMemory, parsed, underrun, fgets_lines, strtok, password_entry, pwfile_loop, pwfile_parse,
}
use wirenboard.Acl.Words.{
  IsWord, line_of, file_of, fgets_lines-line, plain_char, Plain, strip_end, strip-word,
  c_string-append, strtok-name, strtok-secret,
}

-- The entry of a user
abbrev pub entry_of : Bytes × Bytes → Unpwd
entry_of (name, secret) = record { username = name; password = some secret; salt = [] }

abbrev pub IsSupplied : LineMemory → Type 0
IsSupplied m = (m.entry ≡ true) × (m.name ≡ true) × (m.secret ≡ true)

c_string-line_of : (n p : Bytes) → IsWord n → IsWord p → c_string (line_of (n, p)) ≡ line_of (n, p)
c_string-line_of n p hn hp =
    rw (c_string-append n (b':' ∷ (p ++ 10 ∷ [])) hn.0, c_string-append p (10 ∷ []) hp.0) refl

password_entry-secret :
    (m : LineMemory) (n p : Bytes)
    → m.secret ≡ true
    → IsWord p
    → password_entry m n (p ++ 10 ∷ []) ≡ some (entry_of (n, p))
unfolding password_entry
password_entry-secret m n p e hp =
    rw (password_entry, (strtok-secret p hp).1, e, strip_end p hp.0) refl

pwfile_loop-line_of :
    (mem : ℕ → LineMemory) (i : ℕ) (us : List Unpwd) (n p : Bytes) (ls : List Bytes)
    → IsSupplied (mem i)
    → IsWord n
    → IsWord p
    → pwfile_loop mem i us (line_of (n, p) ∷ ls)
      ≡ pwfile_loop mem (suc i) (us ++ entry_of (n, p) ∷ []) ls
unfolding pwfile_loop
pwfile_loop-line_of mem i us n p ls m hn hp =
    rw
      (
        pwfile_loop,
        c_string-line_of n p hn hp,
        strtok-name n (p ++ 10 ∷ []) hn,
        m.0,
        m.1,
        strip-word n hn.0,
        hn.1,
        strip-word n hn.0,
        password_entry-secret (mem i) n p m.2 hp,
      )
      refl

-- The texts are words, and the line fits the buffer.
abbrev pub IsUser : Bytes × Bytes → Type 0
IsUser (name, secret) = IsWord name × IsWord secret × (length name + length secret < 254)

no_newline : (s : Bytes) → Plain s → All (λ c. (c == 10) ≡ false) s
no_newline [] h = tt
no_newline (c ∷ s) h = ((plain_char c h.0).3, no_newline s h.1)

fgets_lines-line_of :
    (n p rest : Bytes)
    → IsUser (n, p)
    → fgets_lines 255 [] (line_of (n, p) ++ rest) ≡ line_of (n, p) ∷ fgets_lines 255 [] rest
fgets_lines-line_of n p rest h =
    let l = n ++ (b':' ∷ p) in
    let bytes : line_of (n, p) ≡ l ++ 10 ∷ [] = sym (append_assoc n (b':' ∷ p) (10 ∷ [])) in
    let plain =
      All-append (λ c. (c == 10) ≡ false) n (b':' ∷ p) (no_newline n h.0.0)
        (refl, no_newline p h.1.0) in
    rw (bytes, append_assoc l (10 ∷ []) rest)
      (fgets_lines-line 255 [] l rest plain (omega (arith, h.2, length-append n (b':' ∷ p))))

-- The lines of the users in front of others
pwfile_loop-file_of :
    (mem : ℕ → LineMemory) (i : ℕ) (acc : List Unpwd) (users : List (Bytes × Bytes)) (rest : Bytes)
    → ((j : ℕ) → IsSupplied (mem j))
    → All IsUser users
    → (j : ℕ) × (pwfile_loop mem i acc (fgets_lines 255 [] (file_of users ++ rest))
        ≡ pwfile_loop mem j (acc ++ map entry_of users) (fgets_lines 255 [] rest))
pwfile_loop-file_of mem i acc [] rest m h = (i, rw (append-nil acc) refl)
pwfile_loop-file_of mem i acc ((n, p) ∷ users) rest m h =
    let lines = fgets_lines 255 [] (file_of users ++ rest) in
    let (j, e) = pwfile_loop-file_of mem (suc i) (acc ++ entry_of (n, p) ∷ []) users rest m h.1 in
    let behind = fgets_lines 255 [] rest in
    (
      j,
      rw
          (
            append_assoc (line_of (n, p)) (file_of users) rest,
            fgets_lines-line_of n p (file_of users ++ rest) h.0,
          )
          (pwfile_loop-line_of mem i acc n p lines (m i) h.0.0 h.0.1
            ∙ e
            ∙ ap (λ (l : List Unpwd). pwfile_loop mem j l behind)
                (append_assoc acc (entry_of (n, p) ∷ []) (map entry_of users))),
    )

-- A password file of lines that fit the buffer, with words for name and password, is read as its
-- users in their order, where the allocations succeed.
pub pwfile_parse-file_of :
    (mem : ℕ → LineMemory) (users : List (Bytes × Bytes))
    → ((j : ℕ) → IsSupplied (mem j))
    → All IsUser users
    → pwfile_parse mem [] (file_of users) ≡ parsed (map entry_of users) 0
unfolding pwfile_parse pwfile_loop fgets_lines
pwfile_parse-file_of mem users m h =
    let (j, e) = pwfile_loop-file_of mem 0 [] users [] m h in rw (← append-nil (file_of users)) e

-- Behind such lines an empty line makes the loop read in front of the text of a name, whatever
-- stands behind it.
pub pwfile_parse_underrun :
    (mem : ℕ → LineMemory) (users : List (Bytes × Bytes)) (rest : Bytes)
    → ((j : ℕ) → IsSupplied (mem j))
    → All IsUser users
    → pwfile_parse mem [] (file_of users ++ (10 ∷ rest)) ≡ underrun
unfolding pwfile_parse pwfile_loop strtok fgets_lines
pwfile_parse_underrun mem users rest m h =
    let (j, e) = pwfile_loop-file_of mem 0 [] users (10 ∷ rest) m h in
    e ∙ blank_line j (map entry_of users) (fgets_lines 255 [] rest) (m j)
  where
    blank_line :
        (j : ℕ) (us : List Unpwd) (ls : List Bytes)
        → IsSupplied (mem j)
        → pwfile_loop mem j us ((10 ∷ []) ∷ ls) ≡ underrun
    blank_line j us ls m' = rw (pwfile_loop, strtok, m'.0, m'.1) refl
