-- ===== src/Subs/Retain/Found.antt =====
-- Which retained messages a subscription is sent, against the meaning of its filter.
use wirenboard.Common.{
  ℕ, ◌+◌, ◌≡◌, ◌∙◌, refl, sym, ap, subst, arith, Bool, true, false, ◌&&◌, ◌||◌, if◌then◌else◌, ltb,
  Bool-cases, inl, inr, Option-cases, List, [], ◌∷◌, ◌++◌, Bytes, str_eq, str_eq_iff,
}
use wirenboard.Topic.Levels.{hash, is_nil}
use wirenboard.Subs.Tree.{Node, Hier, end, node}
use wirenboard.Subs.Search.{is_end}
use wirenboard.Subs.Ended.{HashLast}
use wirenboard.Subs.Retain.{visit, retain_search}
use wirenboard.Subs.Retain.Kept.{shelf, tally, occurrences, run, collect, found, IsHollow}
use wirenboard.Subs.Retain.Branch.{
  hits, retain_search-flag, found_hash, found_last, found_miss, found_below,
}

found_lem :
    (r : ℕ) (h : Hier) (t : Bytes) (ts : List Bytes) (level : ℕ) (s : List ℕ)
    → HashLast (t ∷ ts)
    → IsHollow h
    → occurrences r (retain_search collect h t ts level s).state
      ≡ occurrences r s + tally r (t ∷ ts) (shelf level h)
unfolding retain_search
found_lem r end t ts level s last hollow = omega arith
found_lem r (node n ch next) t [] level s last hollow =
    let beside = λ (x : List ℕ). found_lem r next t [] level x last hollow.2 in
    elim (Bool-cases (str_eq t hash)) [
      | inl h ↦
          (let e = (str_eq_iff t hash).0 h in
            subst
              (λ u.
                occurrences r (retain_search collect (node n ch next) u [] level s).state
                ≡ occurrences r s + tally r (u ∷ []) (shelf level (node n ch next)))
              (sym e)
              (found_hash r n ch next level s
                (λ x. found_lem r ch hash [] (level + 1) x (λ p. refl, tt) hollow.1)
                (λ x. found_lem r next hash [] level x (λ p. refl, tt) hollow.2)))
      | inr h ↦ (elim (Bool-cases (hits n t)) [
        | inl hit ↦ found_last r n ch next level s t h hit beside
        | inr miss ↦ found_miss r n ch next level s t [] (ground arith) miss hollow.0 beside
      ])
    ]
found_lem r (node n ch next) t (u ∷ us) level s last hollow =
    let beside = λ (x : List ℕ). found_lem r next t (u ∷ us) level x last hollow.2 in
    elim (Bool-cases (hits n t)) [
      | inl hit ↦
          found_below r n ch next level s t u us last hit
            (λ x. found_lem r ch u us (level + 1) x last.1 hollow.1) beside
      | inr miss ↦ found_miss r n ch next level s t (u ∷ us) (ground arith) miss hollow.0 beside
    ]

module _ {S : Type 0} (process : ℕ → S → S) where
  run-append :
      (xs ys : List ℕ) (s : S) → run process (xs ++ ys) s ≡ run process ys (run process xs s)
  run-append [] ys s = refl
  run-append (x ∷ xs) ys s = run-append xs ys (process x s)

  run-visit :
      (n : Node) (b : Bool) (rs : List ℕ) (s : S)
      → run process (if b then visit collect n rs else rs) s
        ≡ (if b then visit process n (run process rs s) else run process rs s)
  run-visit n false rs s = refl
  run-visit n true rs s = elim (Option-cases n.retained) [
    | inl e ↦ rw e refl
    | inr (x, e) ↦ rw e (run-append rs (x ∷ []) s)
  ]

  run_hit :
      (n : Node) (ch next : Hier) (t : Bytes) (ts : List Bytes) (level : ℕ) (rs : List ℕ) (s : S)
      → (str_eq t hash && is_nil ts) ≡ false
      → hits n t ≡ true
      → ((xs : List ℕ)
          → run process (retain_search collect next t ts level xs).state s
            ≡ (retain_search process next t ts level (run process xs s)).state)
      → ((u : Bytes) (us : List Bytes)
          → run process (retain_search collect ch u us (level + 1) rs).state s
            ≡ (retain_search process ch u us (level + 1) (run process rs s)).state)
      → run process (retain_search collect (node n ch next) t ts level rs).state s
        ≡ (retain_search process (node n ch next) t ts level (run process rs s)).state
  unfolding retain_search
  run_hit n ch next t [] level rs s h hit beside below =
      rw (h, hit, retain_search)
        (beside _
          ∙ ap (λ x. (retain_search process next t [] level x).state) (run-visit n true rs s))
  run_hit n ch next t (u ∷ us) level rs s h hit beside below =
      let a = retain_search-flag collect ch u us (level + 1) rs in
      let b = retain_search-flag process ch u us (level + 1) (run process rs s) in
      let same : (retain_search collect ch u us (level + 1) rs).flag
          ≡ (retain_search process ch u us (level + 1) (run process rs s)).flag =
        a ∙ sym b in
      let f = (retain_search process ch u us (level + 1) (run process rs s)).flag in
      let here = f || (is_end next && (str_eq u hash && ltb 0 level)) in
      rw (h, hit, same, retain_search)
        (beside _
          ∙ ap (λ x. (retain_search process next t (u ∷ us) level x).state)
              (run-visit n here _ s ∙ ap (λ x. if here then visit process n x else x) (below u us)))

  run-retain_search :
      (h : Hier) (t : Bytes) (ts : List Bytes) (level : ℕ) (rs : List ℕ) (s : S)
      → run process (retain_search collect h t ts level rs).state s
        ≡ (retain_search process h t ts level (run process rs s)).state
  unfolding retain_search
  run-retain_search end t ts level rs s = refl
  run-retain_search (node n ch next) t ts level rs s =
      elim (Bool-cases (str_eq t hash && is_nil ts)) [
        | inl h ↦
            rw (h, retain_search)
              (run-retain_search next t ts level _ s
                ∙ ap (λ x. (retain_search process next t ts level x).state)
                    (run-retain_search ch t ts (level + 1) (visit collect n rs) s
                      ∙ ap (λ x. (retain_search process ch t ts (level + 1) x).state)
                          (run-visit n true rs s)))
        | inr h ↦ (elim (Bool-cases (hits n t)) [
          | inr miss ↦ rw (h, miss, retain_search) (run-retain_search next t ts level rs s)
          | inl hit ↦
              run_hit n ch next t ts level rs s h hit (λ xs. run-retain_search next t ts level xs s)
                (λ u us. run-retain_search ch u us (level + 1) rs s)
        ])
      ]

-- A filter with a `#` at its end only, in a tree with no retained message at a `+` or below it:
-- `_retain_search` processes a list of retained messages one after the other, and each stored
-- message is in the list as often as the tree retains it at a path that the filter matches. A match
-- by a `#` below the path itself counts only where the node has children, or is the last of its
-- siblings and not at the top.
pub retain_search-found :
    {S : Type 0} (process : ℕ → S → S) (h : Hier) (t : Bytes) (ts : List Bytes) (level : ℕ) (s : S)
    → HashLast (t ∷ ts)
    → IsHollow h
    → ((retain_search process h t ts level s).state ≡ run process (found h t ts level) s)
      × ((r : ℕ) → occurrences r (found h t ts level) ≡ tally r (t ∷ ts) (shelf level h))
retain_search-found process h t ts level s last hollow = (
  sym (run-retain_search process h t ts level [] s),
  λ r. found_lem r h t ts level [] last hollow ∙ omega arith,
)
