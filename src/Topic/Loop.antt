-- ===== src/Topic/Loop.antt =====
-- The rounds of `mosquitto_topic_matches_sub`, by what the filter has at the position: an equal
-- character, a `+`, or another one.
use wirenboard.Common.{
  ℕ, ◌≡◌, ◌≢◌, ◌∙◌, refl, sym, ap, arith, Bool, true, false, not, ◌&&◌, if◌then◌else◌, ◌==◌, some,
  List, [], ◌∷◌, Bytes, Bool-cases, inl, inr, ℕ_discrete, str_eq,
}
use wirenboard.Topic.{skip_level, ends_here, is_empty, match_loop}
use wirenboard.Topic.Levels.{levels, level_match, is_plain, is_filter, hash, is_nil}
use wirenboard.Topic.Check.{is_rest, levels-cons}

-- No `#` in a text.
abbrev pub is_without_hash : Bytes → Bool
is_without_hash [] = true
is_without_hash (c ∷ s) = not (c == b'#') && is_without_hash s

-- A filter, or what is left of one in the middle of a level.
abbrev pub fits : Bool → Bytes → Bool
fits start s = if start then is_filter (levels s) else is_rest (levels s)

pub ends_here-cons : (ss : Bytes) (t : ℕ) (ts : Bytes) → ends_here ss (t ∷ ts) ≡ false
unfolding ends_here
ends_here-cons [] t ts = refl
ends_here-cons (x ∷ []) t ts = refl
ends_here-cons (x ∷ y ∷ []) t ts = refl
ends_here-cons (x ∷ y ∷ z ∷ ss) t ts = refl

pub match_loop-onward :
    (c : ℕ) (ss ts : Bytes)
    → ends_here ss ts ≡ false
    → match_loop (c ∷ ss) (c ∷ ts) ≡ match_loop ss ts
unfolding match_loop
match_loop-onward c ss ts e = ground arith

-- One character more on both sides, within a level that has no wildcard or as a slash.
pub level_match-literal :
    (c : ℕ) (l l' : Bytes) (ls ls' : List Bytes)
    → is_plain (c ∷ l) ≡ true
    → level_match ((c ∷ l) ∷ ls) ((c ∷ l') ∷ ls') ≡ level_match (l ∷ ls) (l' ∷ ls')
level_match-literal c [] [] ls ls' h = ground arith
level_match-literal c [] (y ∷ l') ls ls' h = ground arith
level_match-literal c (x ∷ l) [] ls ls' h = ground arith
level_match-literal c (x ∷ l) (y ∷ l') ls ls' h = ground arith

level_match-equal :
    (start : Bool) (c : ℕ) (ss ts : Bytes)
    → fits start (c ∷ ss) ≡ true
    → is_without_hash (c ∷ ss) ≡ true
    → c ≢ b'+'
    → level_match (levels (c ∷ ss)) (levels (c ∷ ts)) ≡ level_match (levels ss) (levels ts)
level_match-equal start c ss ts fit no_hash lit =
    let (l, ls, e) = levels-cons ss in
    let (l', ls', e') = levels-cons ts in
    rw (e, e') (ground (arith, e, e', level_match-literal c l l' ls ls'))

first_level-hash :
    (s l : Bytes) (ls : List Bytes)
    → levels s ≡ l ∷ ls
    → is_without_hash s ≡ true
    → str_eq l hash ≡ false
first_level-hash [] l ls e h = ground arith
first_level-hash (c ∷ s) l ls e h = let (m, ms, e') = levels-cons s in ground (arith, e')

-- Two characters more than the topic's last slash do not match an empty level.
level_match-empty :
    (start : Bool) (x y : ℕ) (ss : Bytes)
    → fits start (x ∷ y ∷ ss) ≡ true
    → is_without_hash (x ∷ y ∷ ss) ≡ true
    → level_match (levels (x ∷ y ∷ ss)) ([] ∷ []) ≡ false
level_match-empty start x y ss fit no_hash =
    let (l, ls, e) = levels-cons ss in ground (arith, e, first_level-hash ss l ls e)

-- Different characters, the filter's no wildcard.
match_loop-differ :
    (start : Bool) (c t : ℕ) (ss ts : Bytes)
    → fits start (c ∷ ss) ≡ true
    → is_without_hash (c ∷ ss) ≡ true
    → c ≢ t
    → c ≢ b'+'
    → match_loop (c ∷ ss) (t ∷ ts) ≡ some (level_match (levels (c ∷ ss)) (levels (t ∷ ts)))
unfolding match_loop
match_loop-differ start c t ss ts fit no_hash ne lit =
    let (l, ls, e) = levels-cons ss in let (l', ls', e') = levels-cons ts in ground (arith, e, e')

ends_here-two :
    (x y : ℕ) (ss : Bytes) → is_without_hash (x ∷ y ∷ ss) ≡ true → ends_here (x ∷ y ∷ ss) [] ≡ false
unfolding ends_here
ends_here-two x y [] h = ground arith
ends_here-two x y (z ∷ ss) h = refl

-- What is left of a filter behind a character of it.
fits-next :
    (start : Bool) (c : ℕ) (ss : Bytes)
    → fits start (c ∷ ss) ≡ true
    → c ≢ b'+'
    → c ≢ b'#'
    → fits (c == b'/') ss ≡ true
fits-next start c ss fit lit nh = let (l, ls, e) = levels-cons ss in ground (arith, e)

-- Equal characters at the end of the topic.
match_loop-last :
    (start : Bool) (c : ℕ) (ss : Bytes)
    → fits start (c ∷ ss) ≡ true
    → is_without_hash (c ∷ ss) ≡ true
    → c ≢ b'+'
    → match_loop (c ∷ ss) (c ∷ []) ≡ some (level_match (levels (c ∷ ss)) (levels (c ∷ [])))
match_loop-last start c [] fit no_hash lit = unfold match_loop ends_here in ground arith
match_loop-last start c (x ∷ []) fit no_hash lit = unfold match_loop ends_here in ground arith
match_loop-last start c (x ∷ y ∷ ss) fit no_hash lit =
    match_loop-onward c (x ∷ y ∷ ss) [] (ends_here-two x y ss (ground arith))
    ∙ (unfold match_loop in
        ap some (
          sym (
            level_match-equal start c (x ∷ y ∷ ss) [] fit no_hash lit
            ∙ level_match-empty (c == b'/') x y ss
                (fits-next start c (x ∷ y ∷ ss) fit lit (ground arith)) (ground arith))))

-- What `+` leaves of a topic: its level ends there.
skip_level_lem :
    (t : Bytes)
    → (l : Bytes) × (ls : List Bytes) × (levels t ≡ l ∷ ls)
      × (levels (skip_level t) ≡ [] ∷ ls)
      × (is_empty (skip_level t) ≡ is_nil ls)
unfolding skip_level is_empty
skip_level_lem [] = ([], [], refl, refl, refl)
skip_level_lem (c ∷ t) =
    let (l, ls, e, e', n) = skip_level_lem t in
    let (m, ms, em) = levels-cons t in
    elim (Bool-cases (c == b'/')) [
      | inl slash ↦ ([], levels t, rw slash, rw slash (rw slash), rw slash (rw em))
      | inr other ↦ (c ∷ l, ls, rw (other, e), rw other e', rw other n)
    ]

match_loop-plus :
    (c t : ℕ) (ss ts : Bytes)
    → c ≢ t
    → c ≡ b'+'
    → is_empty ss && is_empty (skip_level (t ∷ ts)) ≡ false
    → match_loop (c ∷ ss) (t ∷ ts) ≡ match_loop ss (skip_level (t ∷ ts))
unfolding match_loop
match_loop-plus c t ss ts ne e h = ground arith

-- Behind a `+` a valid filter ends or goes on with a slash.
plus-slash : (start : Bool) (y : ℕ) (r : Bytes) → fits start (b'+' ∷ y ∷ r) ≡ true → y ≡ b'/'
plus-slash start y r fit = let (l, ls, e) = levels-cons r in ground (arith, e)

-- A `+` in a filter takes one level of the topic.
level_match-plus :
    (start : Bool) (ss t : Bytes)
    → fits start (b'+' ∷ ss) ≡ true
    → level_match (levels (b'+' ∷ ss)) (levels t) ≡ level_match (levels ss) (levels (skip_level t))
level_match-plus start [] t fit =
    let (l, ls, e, e', n) = skip_level_lem t in rw (e, e') (ground arith)
level_match-plus start (y ∷ r) t fit =
    let (l, ls, e, e', n) = skip_level_lem t in
    let (m, ms, em) = levels-cons r in rw (plus-slash start y r fit, e, e', em) (ground arith)

-- The filter goes on where the topic has ended.
level_match-slash_end :
    (y : ℕ) (r : Bytes)
    → y ≡ b'/'
    → is_without_hash (y ∷ r) ≡ true
    → level_match (levels (y ∷ r)) ([] ∷ []) ≡ false
level_match-slash_end y r e no_hash =
    let (m, ms, em) = levels-cons r in rw (e, em) (ground (arith, first_level-hash r m ms em))

plus_fits_rest : (start : Bool) (ss : Bytes) → fits start (b'+' ∷ ss) ≡ true → fits false ss ≡ true
plus_fits_rest start [] fit = refl
plus_fits_rest start (y ∷ r) fit =
    let (m, ms, em) = levels-cons r in
    let slash : y ≡ b'/' = plus-slash start y r fit in ground (arith, em, slash)

-- The loop behind a `+`, given what it does at the rest of the filter.
match_loop-plus_lem :
    (start : Bool) (c t : ℕ) (ss ts u : Bytes)
    → c ≡ b'+'
    → c ≢ t
    → fits start (c ∷ ss) ≡ true
    → is_without_hash (c ∷ ss) ≡ true
    → skip_level (t ∷ ts) ≡ u
    → (u ≢ [] → match_loop ss u ≡ some (level_match (levels ss) (levels u)))
    → match_loop (c ∷ ss) (t ∷ ts) ≡ some (level_match (levels ss) (levels u))
match_loop-plus_lem start c t [] ts [] e ne fit no_hash skip ih =
    unfold match_loop is_empty in ground arith
match_loop-plus_lem start c t (y ∷ r) ts [] e ne fit no_hash skip ih =
    match_loop-plus c t (y ∷ r) ts ne e (unfold is_empty in refl)
    ∙ (rw skip (
        unfold match_loop in
        ap some
          (sym (level_match-slash_end y r (plus-slash start y r (rw e at fit)) (ground arith)))))
match_loop-plus_lem start c t ss ts (v ∷ us) e ne fit no_hash skip ih =
    match_loop-plus c t ss ts ne e (rw skip (unfold is_empty in ground arith)) ∙ rw skip (ih (cc))

pub match_loop-nil :
    (t : ℕ) (ts : Bytes) → match_loop [] (t ∷ ts) ≡ some (level_match (levels []) (levels (t ∷ ts)))
unfolding match_loop
match_loop-nil t ts = let (l, ls, e) = levels-cons ts in rw e (ground (arith, e))

pub is_plain-skip_level : (t : Bytes) → is_plain t ≡ true → is_plain (skip_level t) ≡ true
unfolding skip_level
is_plain-skip_level [] h = refl
is_plain-skip_level (c ∷ t) h = ground (arith, is_plain-skip_level t)

pub match_loop-equal :
    (start : Bool) (c t : ℕ) (ss ts : Bytes)
    → c ≡ t
    → fits start (c ∷ ss) ≡ true
    → is_without_hash (c ∷ ss) ≡ true
    → is_plain (t ∷ ts) ≡ true
    → (ts ≢ []
        → fits (c == b'/') ss ≡ true
        → match_loop ss ts ≡ some (level_match (levels ss) (levels ts)))
    → match_loop (c ∷ ss) (t ∷ ts) ≡ some (level_match (levels (c ∷ ss)) (levels (t ∷ ts)))
match_loop-equal start c t ss [] e fit no_hash plain ih =
    rw (← e) (match_loop-last start c ss fit no_hash (ground arith))
match_loop-equal start c t ss (u ∷ us) e fit no_hash plain ih =
    let lit : c ≢ b'+' = ground arith in
    let nh : c ≢ b'#' = ground arith in
    rw (← e) (
      match_loop-onward c ss (u ∷ us) (ends_here-cons ss u us)
      ∙ ih (cc) (fits-next start c ss fit lit nh)
      ∙ ap some (sym (level_match-equal start c ss (u ∷ us) fit no_hash lit)))

pub match_loop-other :
    (start : Bool) (c t : ℕ) (ss ts : Bytes)
    → c ≢ t
    → fits start (c ∷ ss) ≡ true
    → is_without_hash (c ∷ ss) ≡ true
    → (skip_level (t ∷ ts) ≢ []
        → fits false ss ≡ true
        → match_loop ss (skip_level (t ∷ ts))
          ≡ some (level_match (levels ss) (levels (skip_level (t ∷ ts)))))
    → match_loop (c ∷ ss) (t ∷ ts) ≡ some (level_match (levels (c ∷ ss)) (levels (t ∷ ts)))
match_loop-other start c t ss ts ne fit no_hash ih = elim (ℕ_discrete c b'+') [
  | yes e ↦
      let fit' : fits start (b'+' ∷ ss) ≡ true = rw e at fit in
      match_loop-plus_lem start c t ss ts (skip_level (t ∷ ts)) e ne fit no_hash refl
        (λ u. ih u (plus_fits_rest start ss fit'))
      ∙ ap some (sym (level_match-plus start ss (t ∷ ts) fit'))
      ∙ ap (λ z. some (level_match (levels (z ∷ ss)) (levels (t ∷ ts)))) (sym e)
  | no lit ↦ match_loop-differ start c t ss ts fit no_hash ne lit
]
