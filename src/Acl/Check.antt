-- ===== src/Acl/Check.antt =====
-- The check of access control lists against what the lists say.
use wirenboard.Common.{
  ℕ, suc, zero, ◌≡◌, ◌≢◌, ◌⊎◌, refl, arith, Bool, true, false, not, ◌&&◌, ◌||◌, if◌then◌else◌, ltb,
  Option, none, some, List, [], ◌∷◌, Bytes, length, All, Bool-cases, Option-cases, inl, inr,
}
use wirenboard.Topic.{topic_matches_sub}
use wirenboard.Topic.Written.{topic_matches_sub-some}
use wirenboard.Subs.Tokens.{Heap, is_dollar}
use wirenboard.Subs.Process.{Access, granted, denied, failed}
use wirenboard.Acl.{is_supplied, Acl, AclUser, AclDb, Session}
use wirenboard.Acl.Decision.{
  has_bridge, permits, written, own_loop, expand, is_named, pattern_loop, is_none_left,
  has_patterns, acl_check_default,
}
use wirenboard.Acl.Expand.{IsCounted, local_acl-expand}

-- The filter matches the topic.
abbrev pub is_match : Bytes → Bytes → Bool
is_match filter topic = elim (topic_matches_sub filter topic) [ none ↦ false | some b ↦ b ]

-- Some entry of the user's list allows the access; one that does not begin with a dollar sign says
-- nothing of topics that do.
abbrev pub own_allows : Bytes → ℕ → List Acl → Bool
own_allows topic access [] = false
own_allows topic access (a ∷ more) =
    (not (is_dollar topic && not (is_dollar a.topic))
      && (is_match a.topic topic && permits access a))
    || own_allows topic access more

-- Some pattern allows the access, with the client's names in it; one with `%u` says nothing of
-- clients without a user name.
abbrev pub pattern_allows : Bytes → Option Bytes → Bytes → ℕ → List Acl → Bool
pattern_allows id user topic access [] = false
pattern_allows id user topic access (a ∷ more) =
    (not (ltb 0 a.ucount && not (is_named user))
      && (is_match (expand id user a.topic) topic && permits access a))
    || pattern_allows id user topic access more

abbrev pub listed : Option AclUser → List Acl
listed none = []
listed (some u) = u.acl

-- What the lists say.
abbrev pub is_allowed : AclDb → Session → Bytes → Bytes → ℕ → Bool
is_allowed db c id topic access =
    (is_none_left db || has_bridge c)
    || (own_allows topic access (listed c.acl_list)
        || pattern_allows id c.username topic access db.acl_patterns)

written-some :
    (o : Option Bool) (b old : Bool)
    → o ≡ some b
    → written o old ≡ (elim o [ none ↦ false | some x ↦ x ])
unfolding written
written-some none b old e = absurd (cc e)
written-some (some x) b old e = refl

-- What the variable `result` holds behind a match against a topic that is not empty.
written_match :
    (filter : Bytes) (t : ℕ) (ts : Bytes) (old : Bool)
    → written (topic_matches_sub filter (t ∷ ts)) old ≡ is_match filter (t ∷ ts)
written_match filter t ts old =
    let (b, e) = topic_matches_sub-some filter t ts in
    written-some (topic_matches_sub filter (t ∷ ts)) b old e

abbrev answer : Bool → Access
answer b = if b then granted else denied

-- The outcome is the answer of the lists, or an allocation fails.
abbrev Answers : Option Access → Bool → Bool → Type 0
Answers outcome says supplied =
    (outcome ≡ some (answer says)) ⊎ ((outcome ≡ some failed) × (supplied ≡ false))

is_supplied_less :
    (n : ℕ) (heap : Heap) → is_supplied n heap ≡ false → is_supplied (suc n) heap ≡ false
is_supplied_less zero heap e = absurd (cc e)
is_supplied_less (suc n) [] e = refl
is_supplied_less (suc n) (false ∷ heap) e = refl
is_supplied_less (suc n) (true ∷ heap) e = is_supplied_less n heap e

Answers-less :
    (outcome : Option Access) (says : Bool) (n : ℕ) (heap : Heap)
    → Answers outcome says (is_supplied n heap)
    → Answers outcome says (is_supplied (suc n) heap)
Answers-less outcome says n heap (inl e) = inl e
Answers-less outcome says n heap (inr (e, f)) = inr (e, is_supplied_less n heap f)

no_patterns : (db : AclDb) → has_patterns db ≡ false → db.acl_patterns ≡ []
no_patterns db e = ground (arith, e)

module _ (t : ℕ) (ts : Bytes) (access : ℕ) where
  own_loop-own_allows :
      (acls : List Acl) (result : Bool)
      → (own_loop (t ∷ ts) access acls result).found ≡ own_allows (t ∷ ts) access acls
  unfolding own_loop
  own_loop-own_allows [] result = refl
  own_loop-own_allows (a ∷ more) result =
      let m = written_match a.topic t ts result in
      let r = written (topic_matches_sub a.topic (t ∷ ts)) result in
      elim (Bool-cases (is_dollar (t ∷ ts) && not (is_dollar a.topic))) [
        | inl skip ↦ rw (skip, own_loop) (own_loop-own_allows more result)
        | inr on ↦ (elim (Bool-cases (is_match a.topic (t ∷ ts) && permits access a)) [
          | inl allowed ↦ rw (on, m, allowed, own_loop) refl
          | inr refused ↦
              rw (on, m, refused, own_loop) (own_loop-own_allows more (is_match a.topic (t ∷ ts)))
        ])
      ]

  -- A pattern that is tried, with what the others come to.
  tried-Answers :
      (id : Bytes) (user : Option Bytes) (a : Acl) (more : List Acl) (heap : Heap) (result : Bool)
      → (ltb 0 a.ucount && not (is_named user)) ≡ false
      → IsCounted a
      → ((h : Heap) (r : Bool)
          → Answers
              (pattern_loop id user (t ∷ ts) access more h r)
              (pattern_allows id user (t ∷ ts) access more)
              (is_supplied (length more) h))
      → Answers
          (pattern_loop id user (t ∷ ts) access (a ∷ more) heap result)
          (pattern_allows id user (t ∷ ts) access (a ∷ more))
          (is_supplied (suc (length more)) heap)
  unfolding pattern_loop
  tried-Answers id user a more [] result on counted others =
      rw (on, pattern_loop) (inr (refl, refl))
  tried-Answers id user a more (false ∷ heap) result on counted others =
      rw (on, pattern_loop) (inr (refl, refl))
  tried-Answers id user a more (true ∷ heap) result on counted others =
      let text = local_acl-expand id user a counted in
      let m = written_match (expand id user a.topic) t ts result in
      elim (Bool-cases (is_match (expand id user a.topic) (t ∷ ts) && permits access a)) [
        | inl allowed ↦ rw (on, text, m, allowed, pattern_loop) (inl refl)
        | inr refused ↦
            rw (on, text, m, refused, pattern_loop)
              (others heap (is_match (expand id user a.topic) (t ∷ ts)))
      ]

  pattern_loop-Answers :
      (id : Bytes) (user : Option Bytes) (acls : List Acl) (heap : Heap) (result : Bool)
      → All IsCounted acls
      → Answers
          (pattern_loop id user (t ∷ ts) access acls heap result)
          (pattern_allows id user (t ∷ ts) access acls)
          (is_supplied (length acls) heap)
  unfolding pattern_loop
  pattern_loop-Answers id user [] heap result counted = inl refl
  pattern_loop-Answers id user (a ∷ more) heap result counted =
      elim (Bool-cases (ltb 0 a.ucount && not (is_named user))) [
        | inl skip ↦
            rw (skip, pattern_loop)
              (Answers-less (pattern_loop id user (t ∷ ts) access more heap result)
                (pattern_allows id user (t ∷ ts) access more) (length more) heap
                (pattern_loop-Answers id user more heap result counted.1))
        | inr on ↦
            tried-Answers id user a more heap result on counted.0
              (λ h r. pattern_loop-Answers id user more h r counted.1)
      ]

  acl_check_default-Answers :
      (db : AclDb) (c : Session) (id : Bytes) (heap : Heap) (result : Bool)
      → c.id ≡ some id
      → All IsCounted db.acl_patterns
      → Answers
          (acl_check_default db c (some (t ∷ ts)) access heap result)
          (is_allowed db c id (t ∷ ts) access)
          (is_supplied (length db.acl_patterns) heap)
  unfolding acl_check_default
  acl_check_default-Answers db c id heap result known counted =
      elim (Bool-cases (is_none_left db || has_bridge c)) [
        | inl all ↦ rw (all, acl_check_default) (inl refl)
        | inr some_left ↦ (elim (Option-cases c.acl_list) [
          | inl nobody ↦ (elim (Bool-cases (has_patterns db)) [
            | inl there ↦
                rw (some_left, nobody, there, known, acl_check_default)
                  (pattern_loop-Answers id c.username db.acl_patterns heap result counted)
            | inr empty ↦
                rw (some_left, nobody, empty, no_patterns db empty, acl_check_default) (inl refl)
          ])
          | inr (u, listed_one) ↦
              (let own = own_loop-own_allows u.acl result in
                elim (Bool-cases (own_allows (t ∷ ts) access u.acl)) [
                  | inl allowed ↦
                      rw (some_left, listed_one, own, allowed, acl_check_default) (inl refl)
                  | inr refused ↦
                      rw (some_left, listed_one, own, refused, known, acl_check_default)
                        (pattern_loop-Answers id c.username db.acl_patterns heap _ counted)
                ])
        ])
      ]

-- A client with an id, a topic that is not empty, and patterns with the counts that
-- `_add_acl_pattern` makes. With an allocation for each pattern `mosquitto_acl_check_default` grants
-- exactly what the lists allow: all, where there are no lists or for a bridge, and else what an
-- entry of the user's own list or a pattern with the client's names in it matches and permits.
-- Whichever allocations fail, it grants nothing more, and it does not write outside of its buffer.
pub acl_check_default-is_allowed :
    (db : AclDb) (c : Session) (id : Bytes) (t : ℕ) (ts : Bytes) (access : ℕ) (heap : Heap)
    (result : Bool)
    → c.id ≡ some id
    → All IsCounted db.acl_patterns
    → let outcome = acl_check_default db c (some (t ∷ ts)) access heap result in
      let says = is_allowed db c id (t ∷ ts) access in
      (is_supplied (length db.acl_patterns) heap ≡ true
        → outcome ≡ some (if says then granted else denied))
      × (outcome ≡ some granted → says ≡ true)
      × (outcome ≢ none)
acl_check_default-is_allowed db c id t ts access heap result known counted =
    read (acl_check_default db c (some (t ∷ ts)) access heap result)
      (is_allowed db c id (t ∷ ts) access) (is_supplied (length db.acl_patterns) heap)
      (acl_check_default-Answers t ts access db c id heap result known counted)
  where
    read :
        (o : Option Access) (b s : Bool)
        → Answers o b s
        → (s ≡ true → o ≡ some (answer b)) × (o ≡ some granted → b ≡ true) × (o ≢ none)
    read o true s (inl e) = (λ h. e, λ h. refl, λ h. cc (e, h))
    read o false s (inl e) = (λ h. e, λ h. absurd (cc (e, h)), λ h. cc (e, h))
    read o b s (inr (e, f)) = (λ h. absurd (cc (f, h)), λ h. absurd (cc (e, h)), λ h. cc (e, h))
