-- ===== src/Topic/Match.antt =====
-- `mosquitto_topic_matches_sub` against the levels of the filter and of the topic.
use wirenboard.Common.{
  ◌≡◌, ◌≢◌, ◌∙◌, refl, ap, arith, Bool, true, false, ◌&&◌, ◌==◌, some, List, [], ◌∷◌, ◌++◌, Bytes,
  ℕ_discrete,
}
use wirenboard.Topic.{skip_level, ends_here, match_loop, same_tree, topic_matches_sub}
use wirenboard.Topic.Levels.{levels, level_match, is_plain, is_filter}
use wirenboard.Topic.Check.{levels-cons}
use wirenboard.Topic.Loop.{
  is_without_hash, fits, ends_here-cons, match_loop-onward, level_match-literal, match_loop-nil,
  is_plain-skip_level, match_loop-equal, match_loop-other,
}

-- The loop decides the match of the levels.
match_loop_lem :
    (start : Bool) (s t : Bytes)
    → t ≢ []
    → fits start s ≡ true
    → is_without_hash s ≡ true
    → is_plain t ≡ true
    → match_loop s t ≡ some (level_match (levels s) (levels t))
match_loop_lem start s [] ne fit no_hash plain = absurd (ne refl)
match_loop_lem start [] (t ∷ ts) ne fit no_hash plain = match_loop-nil t ts
match_loop_lem start (c ∷ ss) (t ∷ ts) ne fit no_hash plain =
    let rest : is_without_hash ss ≡ true = ground arith in
    let tail : is_plain ts ≡ true = ground arith in
    elim (ℕ_discrete c t) [
      | yes e ↦
          match_loop-equal start c t ss ts e fit no_hash plain
            (λ u f. match_loop_lem (c == b'/') ss ts u f rest tail)
      | no d ↦ match_loop-other start c t ss ts d fit no_hash (λ u f.
          match_loop_lem false ss (skip_level (t ∷ ts)) u f rest
            (is_plain-skip_level (t ∷ ts) plain))
    ]

and-false : (b : Bool) → b && false ≡ false
and-false true = refl
and-false false = refl

pub topic_matches_sub_lem :
    (sub topic : Bytes) (b : Bool)
    → match_loop sub topic ≡ some b
    → topic_matches_sub sub topic ≡ some (same_tree sub topic && b)
topic_matches_sub_lem sub topic b e = unfold topic_matches_sub in ground (arith, e)

-- For a valid filter without `#` and a topic that is not empty and has no wildcards,
-- `mosquitto_topic_matches_sub` writes its result, and the result is whether both or neither
-- begin with a dollar sign and the filter's levels match the topic's.
pub topic_matches_sub-level_match :
    (sub topic : Bytes)
    → topic ≢ []
    → is_filter (levels sub) ≡ true
    → is_without_hash sub ≡ true
    → is_plain topic ≡ true
    → topic_matches_sub sub topic
      ≡ some (same_tree sub topic && level_match (levels sub) (levels topic))
topic_matches_sub-level_match sub topic ne fit no_hash plain =
    topic_matches_sub_lem sub topic (level_match (levels sub) (levels topic))
      (match_loop_lem true sub topic ne fit no_hash plain)

match_loop-hash_slash :
    (p : Bytes)
    → is_plain p ≡ true
    → match_loop (p ++ b'/' ∷ b'#' ∷ []) (p ++ b'/' ∷ []) ≡ some false
match_loop-hash_slash [] h = unfold match_loop ends_here in refl
match_loop-hash_slash (c ∷ []) h = unfold match_loop ends_here in ground arith
match_loop-hash_slash (c ∷ x ∷ p) h =
    match_loop-onward c (x ∷ p ++ b'/' ∷ b'#' ∷ []) (x ∷ p ++ b'/' ∷ [])
      (ends_here-cons (x ∷ p ++ b'/' ∷ b'#' ∷ []) x (p ++ b'/' ∷ []))
    ∙ match_loop-hash_slash (x ∷ p) (ground arith)

pub first_level-plain :
    (p r l : Bytes) (ls : List Bytes)
    → is_plain p ≡ true
    → levels (p ++ b'/' ∷ r) ≡ l ∷ ls
    → is_plain l ≡ true
first_level-plain [] r l ls h e = ground arith
first_level-plain (c ∷ p) r l ls h e =
    let (m, ms, em) = levels-cons (p ++ b'/' ∷ r) in
    ground (arith, em, first_level-plain p r m ms (ground arith) em)

level_match-hash_slash :
    (p : Bytes)
    → is_plain p ≡ true
    → level_match (levels (p ++ b'/' ∷ b'#' ∷ [])) (levels (p ++ b'/' ∷ [])) ≡ true
level_match-hash_slash [] h = refl
level_match-hash_slash (c ∷ p) h =
    let (l, ls, e) = levels-cons (p ++ b'/' ∷ b'#' ∷ []) in
    let (l', ls', e') = levels-cons (p ++ b'/' ∷ []) in
    let plain : is_plain p ≡ true = ground arith in
    let ih = level_match-hash_slash p plain in
    let lp : is_plain l ≡ true = first_level-plain p (b'#' ∷ []) l ls plain e in
    ground (arith, e, e', ih, lp, level_match-literal c l l' ls ls')

-- For a text without wildcards and the filter that ends it by `/#`, the function says that the
-- topic that ends it by a slash does not match, though the levels match.
pub topic_matches_sub_hash_slash :
    (p : Bytes)
    → is_plain p ≡ true
    → (topic_matches_sub (p ++ b'/' ∷ b'#' ∷ []) (p ++ b'/' ∷ []) ≡ some false)
      × (level_match (levels (p ++ b'/' ∷ b'#' ∷ [])) (levels (p ++ b'/' ∷ [])) ≡ true)
topic_matches_sub_hash_slash p h = (
  topic_matches_sub_lem _ _ false (match_loop-hash_slash p h) ∙ ap some (and-false _),
  level_match-hash_slash p h,
)
