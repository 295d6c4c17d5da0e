-- ===== src/Persist/Filters.antt =====
-- The text under which src/persist.c of mosquitto-1.4.2 saves a subscription: `thistopic` at the
-- node where the filter's leaf stands, which repeats the first level below the root.
use wirenboard.Common.{
  ℕ, ◌≡◌, refl, sym, ap, ◌∙◌, arith, false, if◌then◌else◌, ◌==◌, ==_iff, List, [], ◌∷◌, ◌++◌,
  append_assoc, append-nil, Bytes, Bool-cases, inl, inr,
}
use wirenboard.Topic.Levels.{levels, onto_first}
use wirenboard.Subs.Tokens.{is_dollar, path_of}
use wirenboard.Persist.Write.{this_topic}

-- The text at the end of a path below a node with a text.
abbrev pub text_of : Bytes → List Bytes → Bytes
text_of topic [] = topic
text_of topic (t ∷ ts) = text_of (this_topic topic t) ts

abbrev head_of : List Bytes → Bytes
head_of [] = []
head_of (t ∷ ts) = t

abbrev pub first_token : Bytes → Bytes
first_token s = head_of (path_of s)

abbrev pub drop_slashes : Bytes → Bytes
drop_slashes [] = []
drop_slashes (c ∷ s) = let rest = drop_slashes s in if c == b'/' then rest else c ∷ s

-- What is saved of a filter: slashes at its start are lost, and a first level with a dollar sign
-- stands there twice.
abbrev pub saved_filter : Bytes → Bytes
saved_filter s = if is_dollar s then first_token s ++ (b'/' ∷ s) else drop_slashes s

abbrev slashed : List Bytes → Bytes
slashed [] = []
slashed (l ∷ ls) = b'/' ∷ (l ++ slashed ls)

slashed-onto_first :
    (c : ℕ) (ls : List Bytes) (s : Bytes)
    → slashed ls ≡ b'/' ∷ s
    → slashed (onto_first c ls) ≡ b'/' ∷ (c ∷ s)
slashed-onto_first c [] s h = cc
slashed-onto_first c (l ∷ ls) s h = cc

slashed-levels : (s : Bytes) → slashed (levels s) ≡ b'/' ∷ s
slashed-levels [] = refl
slashed-levels (c ∷ s) = elim (Bool-cases (c == b'/')) [
  | inl slash ↦ rw slash (
      ap (λ r. b'/' ∷ r) (slashed-levels s)
      ∙ ap (λ r. b'/' ∷ (r ∷ s)) (sym ((==_iff c b'/').0 slash)))
  | inr other ↦ rw other (slashed-onto_first c (levels s) s (slashed-levels s))
]

text_of-slashed : (c : ℕ) (t : Bytes) (ls : List Bytes) → text_of (c ∷ t) ls ≡ (c ∷ t) ++ slashed ls
text_of-slashed c t [] = rw (append-nil t) refl
text_of-slashed c t (l ∷ ls) =
    text_of-slashed c (t ++ (b'/' ∷ l)) ls
    ∙ ap (λ r. c ∷ r) (append_assoc t (b'/' ∷ l) (slashed ls))

text_of-onto_first :
    (c : ℕ) (ls : List Bytes) (s : Bytes)
    → slashed ls ≡ b'/' ∷ s
    → text_of [] (onto_first c ls) ≡ c ∷ s
text_of-onto_first c [] s h = cc
text_of-onto_first c (l ∷ ls) s h = text_of-slashed c l ls ∙ cc

text_of-levels : (s : Bytes) → text_of [] (levels s) ≡ drop_slashes s
text_of-levels [] = refl
text_of-levels (c ∷ s) = elim (Bool-cases (c == b'/')) [
  | inl slash ↦ rw slash (text_of-levels s)
  | inr other ↦ rw other (text_of-onto_first c (levels s) s (slashed-levels s))
]

-- Below a first level that is not empty
text_of_head :
    (c : ℕ) (ls : List Bytes) (s : Bytes)
    → slashed (onto_first c ls) ≡ b'/' ∷ s
    → text_of (head_of (onto_first c ls)) (onto_first c ls)
      ≡ head_of (onto_first c ls) ++ (b'/' ∷ s)
text_of_head c [] s h = text_of-slashed c [] (onto_first c []) ∙ ap (λ r. c ∷ r) h
text_of_head c (l ∷ ls) s h = text_of-slashed c l (onto_first c (l ∷ ls)) ∙ ap (λ r. (c ∷ l) ++ r) h

-- The text of the filter's node, from the root of its first token.
pub text_of-path_of : (s : Bytes) → text_of (first_token s) (path_of s) ≡ saved_filter s
unfolding is_dollar
text_of-path_of [] = refl
text_of-path_of (c ∷ s) = elim (Bool-cases (c == b'$')) [
  | inl dollar ↦
      (let no_slash : (c == b'/') ≡ false = ground arith in
        rw (dollar, no_slash)
          (text_of_head c (levels s) (c ∷ s)
            (slashed-onto_first c (levels s) s (slashed-levels s))))
  | inr other ↦ rw other (text_of-levels (c ∷ s))
]
