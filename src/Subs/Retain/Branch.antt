-- ===== src/Subs/Retain/Branch.antt =====
-- One branch of `_retain_search`: what it finds, by how its topic compares with the filter's level.
use wirenboard.Common.{
  ℕ, ◌+◌, ◌≡◌, ◌∙◌, refl, sym, ap, arith, Bool, true, false, not, ◌&&◌, ◌||◌, ◌==◌, if◌then◌else◌,
  ltb, Bool-cases, inl, inr, none, some, Option-cases, List, [], ◌∷◌, map, Bytes, str_eq,
  str_eq_iff, str_eq_refl,
}
use wirenboard.Topic.Levels.{hash, plus, is_nil, level_match}
use wirenboard.Subs.Tree.{Node, Hier, end, node}
use wirenboard.Subs.Search.{is_end}
use wirenboard.Subs.Ended.{HashLast}
use wirenboard.Subs.Retain.{visit, retain_search}
use wirenboard.Subs.Retain.Kept.{
  under_kept, own, is_seen, shelf, is_above, tally, occurrences, collect, NoRetained, tally-append,
  occurrences-append, shelf_none, tally-hash, tally_hit, tally_miss, tally_nil,
}

-- How often a node holds a stored message.
abbrev pub held : ℕ → Node → ℕ
held r n = elim n.retained [ none ↦ 0 | some x ↦ if x == r then 1 else 0 ]

tally-own :
    (r : ℕ) (n : Node) (seen : Bool) (tokens : List Bytes)
    → tally r tokens (own n seen) ≡ (
        if level_match tokens (n.topic ∷ []) && (seen || not (is_above (n.topic ∷ []) tokens))
        then held r n
        else 0)
tally-own r n seen tokens = ground arith

occurrences-visit :
    (r : ℕ) (n : Node) (s : List ℕ) → occurrences r (visit collect n s) ≡ occurrences r s + held r n
occurrences-visit r n s = elim (Option-cases n.retained) [
  | inl e ↦ rw e (omega arith)
  | inr (x, e) ↦ rw e (occurrences-append r s (x ∷ []) ∙ (omega arith))
]

tally-shelf :
    (r level : ℕ) (tokens : List Bytes) (n : Node) (ch next : Hier)
    → tally r tokens (shelf level (node n ch next))
      ≡ tally r tokens (map (under_kept n.topic) (shelf (level + 1) ch))
        + (tally r tokens (own n (is_seen ch next level)) + tally r tokens (shelf level next))
tally-shelf r level tokens n ch next =
    tally-append r tokens (map (under_kept n.topic) (shelf (level + 1) ch)) _
    ∙ ap (λ x. tally r tokens (map (under_kept n.topic) (shelf (level + 1) ch)) + x)
        (tally-append r tokens (own n (is_seen ch next level)) (shelf level next))

abbrev pub hits : Node → Bytes → Bool
hits n t = not (str_eq n.topic plus) && (str_eq n.topic t || str_eq t plus)

module _ {S : Type 0} (process : ℕ → S → S) where
  search_flag_other :
      (h : Hier) (t : Bytes) (ts : List Bytes) (level : ℕ) (s : S)
      → (str_eq t hash && is_nil ts) ≡ false
      → (retain_search process h t ts level s).flag ≡ false
  unfolding retain_search
  search_flag_other end t ts level s e = refl
  search_flag_other (node n ch next) t [] level s e = elim (Bool-cases (hits n t)) [
    | inl hit ↦ rw (e, hit, retain_search) (search_flag_other next t [] level _ e)
    | inr miss ↦ rw (e, miss, retain_search) (search_flag_other next t [] level s e)
  ]
  search_flag_other (node n ch next) t (u ∷ ts) level s e = elim (Bool-cases (hits n t)) [
    | inl hit ↦ rw (e, hit, retain_search) (search_flag_other next t (u ∷ ts) level _ e)
    | inr miss ↦ rw (e, miss, retain_search) (search_flag_other next t (u ∷ ts) level s e)
  ]

  pub retain_search-flag :
      (h : Hier) (t : Bytes) (ts : List Bytes) (level : ℕ) (s : S)
      → (retain_search process h t ts level s).flag
        ≡ ((str_eq t hash && is_nil ts) && not (is_end h))
  unfolding retain_search is_end
  retain_search-flag end t ts level s = ground arith
  retain_search-flag (node n ch next) t ts level s =
      elim (Bool-cases (str_eq t hash && is_nil ts)) [
        | inl e ↦ rw (e, retain_search) refl
        | inr e ↦ rw e (search_flag_other (node n ch next) t ts level s e)
      ]

module _ (r : ℕ) (n : Node) (ch next : Hier) (level : ℕ) (s : List ℕ) where
  pub found_hash :
      ((x : List ℕ)
        → occurrences r (retain_search collect ch hash [] (level + 1) x).state
          ≡ occurrences r x + tally r (hash ∷ []) (shelf (level + 1) ch))
      → ((x : List ℕ)
          → occurrences r (retain_search collect next hash [] level x).state
            ≡ occurrences r x + tally r (hash ∷ []) (shelf level next))
      → occurrences r (retain_search collect (node n ch next) hash [] level s).state
        ≡ occurrences r s + tally r (hash ∷ []) (shelf level (node n ch next))
  unfolding retain_search
  found_hash below beside =
      let a = tally-shelf r level (hash ∷ []) n ch next in
      let b = tally-hash r n.topic (shelf (level + 1) ch) in
      let c : tally r (hash ∷ []) (own n (is_seen ch next level)) ≡ held r n =
        tally-own r n (is_seen ch next level) (hash ∷ []) ∙ ground arith in
      let d = occurrences-visit r n s in
      let e = below (visit collect n s) in
      let f = beside (retain_search collect ch hash [] (level + 1) (visit collect n s)).state in
      let g : occurrences r
            (retain_search collect next hash [] level
              (retain_search collect ch hash [] (level + 1) (visit collect n s)).state).state
          ≡ occurrences r s
            + (tally r (hash ∷ []) (map (under_kept n.topic) (shelf (level + 1) ch))
                + (tally r (hash ∷ []) (own n (is_seen ch next level))
                    + tally r (hash ∷ []) (shelf level next))) =
        omega (arith, b, c, d, e, f) in
      g ∙ ap (λ x. occurrences r s + x) (sym a)

  -- A branch that the filter's first level matches, where it is the filter's last.
  pub found_last :
      (t : Bytes)
      → str_eq t hash ≡ false
      → hits n t ≡ true
      → ((x : List ℕ)
          → occurrences r (retain_search collect next t [] level x).state
            ≡ occurrences r x + tally r (t ∷ []) (shelf level next))
      → occurrences r (retain_search collect (node n ch next) t [] level s).state
        ≡ occurrences r s + tally r (t ∷ []) (shelf level (node n ch next))
  unfolding retain_search
  found_last t h hit beside =
      let a = tally-shelf r level (t ∷ []) n ch next in
      let match : (str_eq t plus || str_eq t n.topic) ≡ true =
        ground (arith, str_eq_iff n.topic t, str_eq_refl t) in
      let b =
        tally_hit r n.topic t [] (shelf (level + 1) ch) (ground arith) match
        ∙ tally_nil r (shelf (level + 1) ch) in
      let c : tally r (t ∷ []) (own n (is_seen ch next level)) ≡ held r n =
        tally-own r n (is_seen ch next level) (t ∷ []) ∙ ground arith in
      let d = occurrences-visit r n s in
      let f = beside (visit collect n s) in
      let g : occurrences r (retain_search collect (node n ch next) t [] level s).state
          ≡ occurrences r s
            + (tally r (t ∷ []) (map (under_kept n.topic) (shelf (level + 1) ch))
                + (tally r (t ∷ []) (own n (is_seen ch next level))
                    + tally r (t ∷ []) (shelf level next))) =
        rw (h, hit, retain_search) (omega (arith, b, c, d, f)) in
      g ∙ ap (λ x. occurrences r s + x) (sym a)

  nothing_wanted :
      (t : Bytes) (ts : List Bytes)
      → (str_eq t hash && is_nil ts) ≡ false
      → hits n t ≡ false
      → (str_eq n.topic plus ≡ true → (n.retained ≡ none) × NoRetained ch)
      → tally r (t ∷ ts) (map (under_kept n.topic) (shelf (level + 1) ch))
          + tally r (t ∷ ts) (own n (is_seen ch next level))
        ≡ 0
  nothing_wanted t ts h miss hollow = elim (Bool-cases (str_eq n.topic plus)) [
    | inl p ↦ rw (shelf_none (level + 1) ch (hollow p).1, (hollow p).0) refl
    | inr p ↦
        (let differ : (str_eq t plus || str_eq t n.topic) ≡ false =
            ground (arith, str_eq_iff t n.topic, str_eq_refl t) in
          let a = tally_miss r n.topic t ts (shelf (level + 1) ch) h differ in
          let b : tally r (t ∷ ts) (own n (is_seen ch next level)) ≡ 0 =
            tally-own r n (is_seen ch next level) (t ∷ ts) ∙ rw (h, differ) refl in
          omega (arith, a, b))
  ]

  -- A branch that the filter's first level does not match.
  pub found_miss :
      (t : Bytes) (ts : List Bytes)
      → (str_eq t hash && is_nil ts) ≡ false
      → hits n t ≡ false
      → (str_eq n.topic plus ≡ true → (n.retained ≡ none) × NoRetained ch)
      → ((x : List ℕ)
          → occurrences r (retain_search collect next t ts level x).state
            ≡ occurrences r x + tally r (t ∷ ts) (shelf level next))
      → occurrences r (retain_search collect (node n ch next) t ts level s).state
        ≡ occurrences r s + tally r (t ∷ ts) (shelf level (node n ch next))
  unfolding retain_search
  found_miss t ts h miss hollow beside =
      let a = tally-shelf r level (t ∷ ts) n ch next in
      let f = beside s in
      let z : tally r (t ∷ ts) (map (under_kept n.topic) (shelf (level + 1) ch))
            + tally r (t ∷ ts) (own n (is_seen ch next level))
          ≡ 0 =
        nothing_wanted t ts h miss hollow in
      let g : occurrences r (retain_search collect (node n ch next) t ts level s).state
          ≡ occurrences r s
            + (tally r (t ∷ ts) (map (under_kept n.topic) (shelf (level + 1) ch))
                + (tally r (t ∷ ts) (own n (is_seen ch next level))
                    + tally r (t ∷ ts) (shelf level next))) =
        rw (h, miss, retain_search) (omega (arith, z, f)) in
      g ∙ ap (λ x. occurrences r s + x) (sym a)

  occurrences-visit_if :
      (b : Bool) (x : List ℕ)
      → occurrences r (if b then visit collect n x else x)
        ≡ occurrences r x + (if b then held r n else 0)
  occurrences-visit_if true x = occurrences-visit r n x
  occurrences-visit_if false x = omega arith

  -- The test that the search makes behind a branch that others follow.
  here_lem :
      (f : Bool) (u : Bytes) (us : List Bytes)
      → f ≡ ((str_eq u hash && is_nil us) && not (is_end ch))
      → (str_eq u hash ≡ true → us ≡ [])
      → (f || (is_end next && (str_eq u hash && ltb 0 level)))
        ≡ ((str_eq u hash && is_nil us) && (is_seen ch next level || not (is_nil us)))
  unfolding is_seen
  here_lem f u [] e last = ground arith
  here_lem f u (v ∷ us) e last = elim (Bool-cases (str_eq u hash)) [
    | inl h ↦ absurd (cc (last h))
    | inr h ↦ rw (e, h) (ground arith)
  ]

  -- A branch that the filter's first level matches, where others follow.
  pub found_below :
      (t u : Bytes) (us : List Bytes)
      → HashLast (t ∷ u ∷ us)
      → hits n t ≡ true
      → ((x : List ℕ)
          → occurrences r (retain_search collect ch u us (level + 1) x).state
            ≡ occurrences r x + tally r (u ∷ us) (shelf (level + 1) ch))
      → ((x : List ℕ)
          → occurrences r (retain_search collect next t (u ∷ us) level x).state
            ≡ occurrences r x + tally r (t ∷ u ∷ us) (shelf level next))
      → occurrences r (retain_search collect (node n ch next) t (u ∷ us) level s).state
        ≡ occurrences r s + tally r (t ∷ u ∷ us) (shelf level (node n ch next))
  unfolding retain_search
  found_below t u us last hit below beside =
      let a = tally-shelf r level (t ∷ u ∷ us) n ch next in
      let match : (str_eq t plus || str_eq t n.topic) ≡ true =
        ground (arith, str_eq_iff n.topic t, str_eq_refl t) in
      let h : (str_eq t hash && is_nil (u ∷ us)) ≡ false = ground arith in
      let b = tally_hit r n.topic t (u ∷ us) (shelf (level + 1) ch) h match in
      let found_there = retain_search collect ch u us (level + 1) s in
      let here = found_there.flag || (is_end next && (str_eq u hash && ltb 0 level)) in
      let same =
        here_lem found_there.flag u us (retain_search-flag collect ch u us (level + 1) s)
          last.1.0 in
      let c : tally r (t ∷ u ∷ us) (own n (is_seen ch next level))
          ≡ (if here then held r n else 0) =
        tally-own r n (is_seen ch next level) (t ∷ u ∷ us) ∙ rw (h, match, same) refl in
      let d = occurrences-visit_if here found_there.state in
      let e = below s in
      let f = beside (if here then visit collect n found_there.state else found_there.state) in
      let g : occurrences r (retain_search collect (node n ch next) t (u ∷ us) level s).state
          ≡ occurrences r s
            + (tally r (t ∷ u ∷ us) (map (under_kept n.topic) (shelf (level + 1) ch))
                + (tally r (t ∷ u ∷ us) (own n (is_seen ch next level))
                    + tally r (t ∷ u ∷ us) (shelf level next))) =
        rw (h, hit, retain_search) (omega (arith, b, c, d, e, f)) in
      g ∙ ap (λ x. occurrences r s + x) (sym a)
