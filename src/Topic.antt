-- ===== src/Topic.antt =====
-- Topics and subscription filters, of lib/util_mosq.c of mosquitto-1.4.2. A C string is the list
-- of its bytes without the final NUL.
pub mod Levels
pub mod Check
pub mod Loop
pub mod Match
pub mod Below
pub mod Written
mod Tests
use wirenboard.Common.{
  ℕ, suc, ◌+◌, Bool, true, false, not, ◌&&◌, ◌||◌, if◌then◌else◌, ltb, ◌==◌, Option, none, some,
  List, [], ◌∷◌, Bytes,
}

-- The two answers of the topic checks, MOSQ_ERR_SUCCESS and MOSQ_ERR_INVAL.
pub data Validity : Type 0 where
  valid invalid : Validity

-- `mosquitto_pub_topic_check`, its loop at a length.
pub pub_check_loop : Bytes → ℕ → Validity
pub_check_loop [] len = if ltb 65535 len then invalid else valid
pub_check_loop (c ∷ s) len =
    let rest = pub_check_loop s (len + 1) in if c == b'+' || c == b'#' then invalid else rest

unfoldable pub pub_topic_check : Bytes → Validity
unfolding pub_check_loop
pub_topic_check s = pub_check_loop s 0

-- `str[1]`, which is the NUL at the end.
abbrev pub next_char : Bytes → ℕ
next_char [] = 0
next_char (c ∷ s) = c

-- `mosquitto_sub_topic_check`, its loop behind the character `c`, which is NUL at the start.
pub sub_check_loop : ℕ → Bytes → ℕ → Validity
sub_check_loop c [] len = if ltb 65535 len then invalid else valid
sub_check_loop c (x ∷ s) len =
    let rest = sub_check_loop x s (len + 1) in
    let behind = not (c == 0) && not (c == b'/') in
    let ahead = not (next_char s == 0) in
    if x == b'+'
    then (if behind || ahead && not (next_char s == b'/') then invalid else rest)
    else if x == b'#'
    then (if behind || ahead then invalid else rest)
    else rest

unfoldable pub sub_topic_check : Bytes → Validity
unfolding sub_check_loop
sub_topic_check s = sub_check_loop 0 s 0

-- `while(tpos < tlen && topic[tpos] != '/') tpos++;`
pub skip_level : Bytes → Bytes
skip_level [] = []
skip_level (t ∷ ts) = let rest = skip_level ts in if t == b'/' then t ∷ ts else rest

-- The tests that look ahead when two characters are equal: `foo` against `foo/#`, both at the end,
-- and a last level that is empty against `+`. `ss` and `ts` are what follows the characters.
pub ends_here : Bytes → Bytes → Bool
ends_here [] [] = true
ends_here (x ∷ []) [] = x == b'+'
ends_here (x ∷ y ∷ []) [] = x == b'/' && y == b'#'
ends_here _ _ = false

pub is_empty : Bytes → Bool
is_empty [] = true
is_empty (c ∷ s) = false

-- The loop of `mosquitto_topic_matches_sub`, over what is left of the filter and of the topic. Each
-- round takes one character of the filter. `none` is a return that did not write `*result`.
pub match_loop : Bytes → Bytes → Option Bool
match_loop [] [] = none
match_loop [] (t ∷ ts) = some false
match_loop (s ∷ ss) [] = some false
match_loop (s ∷ ss) (t ∷ ts) = elim (s == t) [
  | true ↦ elim (ends_here ss ts) [ true ↦ some true | false ↦ match_loop ss ts ]
  | false ↦ elim (s == b'+') [
    | true ↦ elim (is_empty ss && is_empty (skip_level (t ∷ ts))) [
      | true ↦ some true
      | false ↦ match_loop ss (skip_level (t ∷ ts))
    ]
    | false ↦ if s == b'#' then some (is_empty ss) else some false
  ]
]

-- Neither or both are for the topics that begin with a dollar sign.
pub same_tree : Bytes → Bytes → Bool
same_tree (s ∷ ss) (t ∷ ts) = not ((s == b'$' && not (t == b'$')) || (t == b'$' && not (s == b'$')))
same_tree _ _ = true

unfoldable pub topic_matches_sub : Bytes → Bytes → Option Bool
unfolding same_tree match_loop ends_here is_empty skip_level
topic_matches_sub sub topic = if same_tree sub topic then match_loop sub topic else some false
