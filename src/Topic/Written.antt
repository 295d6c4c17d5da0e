-- ===== src/Topic/Written.antt =====
-- When `mosquitto_topic_matches_sub` writes its result.
use wirenboard.Common.{
  ℕ, ◌≡◌, refl, Bool, true, false, ◌&&◌, ◌==◌, some, [], ◌∷◌, Bytes, Bool-cases, inl, inr,
}
use wirenboard.Topic.{match_loop, skip_level, is_empty, ends_here, same_tree, topic_matches_sub}

-- The rests of the filter and the topic do not end at the same time.
abbrev Uneven : Bytes → Bytes → Type 0
Uneven [] [] = ⊥
Uneven [] (t ∷ ts) = Unit
Uneven (s ∷ ss) ts = Unit

Uneven-ends : (ss ts : Bytes) → ends_here ss ts ≡ false → Uneven ss ts
unfolding ends_here
Uneven-ends [] [] e = cc e
Uneven-ends [] (t ∷ ts) e = tt
Uneven-ends (s ∷ ss) ts e = tt

Uneven-empty : (ss ts : Bytes) → (is_empty ss && is_empty ts) ≡ false → Uneven ss ts
unfolding is_empty
Uneven-empty [] [] e = cc e
Uneven-empty [] (t ∷ ts) e = tt
Uneven-empty (s ∷ ss) ts e = tt

match_loop-some : (s t : Bytes) → Uneven s t → (b : Bool) × (match_loop s t ≡ some b)
unfolding match_loop
match_loop-some [] [] u = absurd u
match_loop-some [] (t ∷ ts) u = (false, refl)
match_loop-some (s ∷ ss) [] u = (false, refl)
match_loop-some (s ∷ ss) (t ∷ ts) u = elim (Bool-cases (s == t)) [
  | inl same ↦ (elim (Bool-cases (ends_here ss ts)) [
    | inl ends ↦ (true, rw (same, ends, match_loop) refl)
    | inr goes ↦
        (let (b, e) = match_loop-some ss ts (Uneven-ends ss ts goes) in
          (b, rw (same, goes, match_loop) e))
  ])
  | inr differ ↦ (elim (Bool-cases (s == b'+')) [
    | inl plus ↦ (elim (Bool-cases (is_empty ss && is_empty (skip_level (t ∷ ts)))) [
      | inl ends ↦ (true, rw (differ, plus, ends, match_loop) refl)
      | inr goes ↦
          (let (b, e) =
              match_loop-some ss (skip_level (t ∷ ts))
                (Uneven-empty ss (skip_level (t ∷ ts)) goes) in
            (b, rw (differ, plus, goes, match_loop) e))
    ])
    | inr other ↦ (elim (Bool-cases (s == b'#')) [
      | inl hash ↦ (is_empty ss, rw (differ, other, hash, match_loop) refl)
      | inr none_of ↦ (false, rw (differ, other, none_of, match_loop) refl)
    ])
  ])
]

-- A topic that is not empty: the result is written.
pub topic_matches_sub-some :
    (filter : Bytes) (t : ℕ) (ts : Bytes)
    → (b : Bool) × (topic_matches_sub filter (t ∷ ts) ≡ some b)
unfolding topic_matches_sub
topic_matches_sub-some filter t ts = elim (Bool-cases (same_tree filter (t ∷ ts))) [
  | inl same ↦
      (let (b, e) = match_loop-some filter (t ∷ ts) (uneven filter) in
        (b, rw (same, topic_matches_sub) e))
  | inr differ ↦ (false, rw (differ, topic_matches_sub) refl)
]
  where
    uneven : (s : Bytes) → Uneven s (t ∷ ts)
    uneven [] = tt
    uneven (x ∷ s) = tt
