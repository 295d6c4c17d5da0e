-- ===== src/Topic/Below.antt =====
-- Filters that end in `/#`, and `mosquitto_topic_matches_sub` of lib/util_mosq.c of mosquitto-1.4.2.
use wirenboard.Common.{
  ℕ, ◌≡◌, ◌≢◌, ◌∙◌, refl, sym, ap, arith, Bool, true, not, ◌&&◌, some, [], ◌∷◌, ◌++◌, Bytes, str_eq,
  ℕ_discrete,
}
use wirenboard.Topic.{ends_here, is_empty, match_loop, same_tree, topic_matches_sub}
use wirenboard.Topic.Levels.{levels, level_match, is_plain}
use wirenboard.Topic.Check.{levels-cons}
use wirenboard.Topic.Loop.{match_loop-onward, ends_here-cons, level_match-literal}
use wirenboard.Topic.Match.{first_level-plain, topic_matches_sub_lem}

-- The filter for `p` and all topics below it
abbrev pub all_below : Bytes → Bytes
all_below p = p ++ b'/' ∷ b'#' ∷ []

-- What the function should say of `all_below p`, and what it says.
abbrev answer : Bytes → Bytes → Bool
answer p topic =
    level_match (levels (all_below p)) (levels topic) && not (str_eq topic (p ++ b'/' ∷ []))

slash_hash :
    (t : ℕ) (ts : Bytes)
    → is_plain (t ∷ ts) ≡ true
    → match_loop (all_below []) (t ∷ ts) ≡ some (answer [] (t ∷ ts))
unfolding match_loop ends_here is_empty
slash_hash t [] h = ground arith
slash_hash t (u ∷ us) h =
    let (l, ls, e) = levels-cons us in
    elim (ℕ_discrete b'/' t) [
      | yes slash ↦ rw (← slash) (ground (arith, e))
      | no other ↦ ground (arith, e)
    ]

last_char :
    (c : ℕ) (p : Bytes)
    → is_plain (c ∷ p) ≡ true
    → match_loop (all_below (c ∷ p)) (c ∷ []) ≡ some (answer (c ∷ p) (c ∷ []))
unfolding match_loop ends_here
last_char c [] h = ground arith
last_char c (x ∷ []) h = ground arith
last_char c (x ∷ y ∷ p) h =
    let (l, ls, e) = levels-cons (all_below (y ∷ p)) in
    let lp : is_plain l ≡ true = first_level-plain (y ∷ p) (b'#' ∷ []) l ls (ground arith) e in
    ground (arith, e, lp)

differs :
    (c t : ℕ) (p ts : Bytes)
    → c ≢ t
    → is_plain (c ∷ p) ≡ true
    → match_loop (all_below (c ∷ p)) (t ∷ ts) ≡ some (answer (c ∷ p) (t ∷ ts))
unfolding match_loop
differs c t p ts ne h =
    let (l, ls, e) = levels-cons (all_below p) in
    let (l', ls', e') = levels-cons ts in ground (arith, e, e')

onward : (c : ℕ) (p ts : Bytes) → is_plain (c ∷ p) ≡ true → answer (c ∷ p) (c ∷ ts) ≡ answer p ts
onward c p ts h =
    let (l, ls, e) = levels-cons (all_below p) in
    let (l', ls', e') = levels-cons ts in
    let lp : is_plain l ≡ true = first_level-plain p (b'#' ∷ []) l ls (ground arith) e in
    ground (arith, e, e', lp, level_match-literal c l l' ls ls')

match_loop-all_below :
    (p topic : Bytes)
    → topic ≢ []
    → is_plain p ≡ true
    → is_plain topic ≡ true
    → match_loop (all_below p) topic ≡ some (answer p topic)
match_loop-all_below p [] ne hp ht = absurd (ne refl)
match_loop-all_below [] (t ∷ ts) ne hp ht = slash_hash t ts ht
match_loop-all_below (c ∷ p) (t ∷ []) ne hp ht = elim (ℕ_discrete c t) [
  | yes e ↦ rw (← e) (last_char c p hp)
  | no d ↦ differs c t p [] d hp
]
match_loop-all_below (c ∷ p) (t ∷ u ∷ us) ne hp ht = elim (ℕ_discrete c t) [
  | yes e ↦ rw (← e) (
      match_loop-onward c (all_below p) (u ∷ us) (ends_here-cons (all_below p) u us)
      ∙ match_loop-all_below p (u ∷ us) (λ q. cc) (ground arith) (ground arith)
      ∙ ap some (sym (onward c p (u ∷ us) hp)))
  | no d ↦ differs c t p (u ∷ us) d hp
]

-- For a text `p` without wildcards, the filter that ends it by `/#`, and a topic without wildcards
-- that is not empty, `mosquitto_topic_matches_sub` writes its result, and the result is whether both
-- or neither begin with a dollar sign and the levels match, except that it is false for the topic
-- that ends `p` by a slash.
pub topic_matches_sub-all_below :
    (p topic : Bytes)
    → topic ≢ []
    → is_plain p ≡ true
    → is_plain topic ≡ true
    → topic_matches_sub (all_below p) topic
      ≡ some (
          same_tree (all_below p) topic
          && (level_match (levels (all_below p)) (levels topic)
              && not (str_eq topic (p ++ b'/' ∷ []))))
topic_matches_sub-all_below p topic ne hp ht =
    topic_matches_sub_lem (all_below p) topic (answer p topic)
      (match_loop-all_below p topic ne hp ht)
