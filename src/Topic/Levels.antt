-- ===== src/Topic/Levels.antt =====
-- What the broker's documentation says of topics: levels between slashes, `+` for one level, `#`
-- for all that is left, the level above included.
use wirenboard.Common.{
  ℕ, Bool, true, false, not, ◌&&◌, ◌||◌, if◌then◌else◌, ◌==◌, List, [], ◌∷◌, Bytes, str_eq,
}

abbrev pub onto_first : ℕ → List Bytes → List Bytes
onto_first c [] = (c ∷ []) ∷ []
onto_first c (l ∷ ls) = (c ∷ l) ∷ ls

-- The levels of a topic: one more than it has slashes.
abbrev pub levels : Bytes → List Bytes
levels [] = [] ∷ []
levels (c ∷ s) = if c == b'/' then [] ∷ levels s else onto_first c (levels s)

abbrev pub is_nil : List Bytes → Bool
is_nil [] = true
is_nil (l ∷ ls) = false

abbrev pub hash : Bytes
hash = b'#' ∷ []

abbrev pub plus : Bytes
plus = b'+' ∷ []

abbrev pub level_match : List Bytes → List Bytes → Bool
level_match [] [] = true
level_match [] (t ∷ ts) = false
level_match (f ∷ fs) [] = str_eq f hash && is_nil fs
level_match (f ∷ fs) (t ∷ ts) =
    (str_eq f hash && is_nil fs) || ((str_eq f plus || str_eq f t) && level_match fs ts)

-- No wildcard in a level.
abbrev pub is_plain : Bytes → Bool
is_plain [] = true
is_plain (c ∷ l) = not (c == b'+') && (not (c == b'#') && is_plain l)

-- The levels of a valid filter: each without wildcards or a `+`, the last one maybe a `#`.
abbrev pub is_filter : List Bytes → Bool
is_filter [] = true
is_filter (l ∷ ls) = (is_plain l || (str_eq l plus || (str_eq l hash && is_nil ls))) && is_filter ls
