-- ===== src/Subs/Retain/Kept.antt =====
-- The retained messages of a tree, by their paths, and which of them a filter wants.
use wirenboard.Common.{
  ℕ, ◌+◌, ◌≡◌, refl, arith, Bool, true, false, not, ◌&&◌, ◌||◌, ◌==◌, if◌then◌else◌, ltb, none,
  some, List, [], ◌∷◌, ◌++◌, map, Bytes, str_eq,
}
use wirenboard.Topic.Levels.{hash, plus, is_nil, level_match}
use wirenboard.Subs.Tree.{Node, Hier, end, node}
use wirenboard.Subs.Search.{is_end}
use wirenboard.Subs.Retain.{retain_search}

-- A retained message, at the path `top ∷ rest`. `seen` says that the node has children, or is the
-- last one of its siblings and not at the top.
pub record Kept : Type 0 where
  pub top : Bytes
  pub rest : List Bytes
  pub stored : ℕ
  pub seen : Bool

abbrev pub under_kept : Bytes → Kept → Kept
under_kept b e = record e { top = b; rest = e.top ∷ e.rest }

abbrev pub own : Node → Bool → List Kept
own n seen = elim n.retained [
  | none ↦ []
  | some r ↦ record { top = n.topic; rest = []; stored = r; seen = seen } ∷ []
]

unfoldable pub is_seen : Hier → Hier → ℕ → Bool
unfolding is_end
is_seen ch next level = not (is_end ch) || (is_end next && ltb 0 level)

-- The retained messages of a tree at a level.
abbrev pub shelf : ℕ → Hier → List Kept
shelf level end = []
shelf level (node n ch next) =
    map (under_kept n.topic) (shelf (level + 1) ch)
    ++ (own n (is_seen ch next level) ++ shelf level next)

-- A filter of one level more than the path.
abbrev pub is_above : List Bytes → List Bytes → Bool
is_above [] [] = false
is_above [] (t ∷ ts) = is_nil ts
is_above (p ∷ ps) [] = false
is_above (p ∷ ps) (t ∷ ts) = is_above ps ts

-- The filter matches the path; where it does by a `#` below the path, the node must be seen.
abbrev pub is_wanted : List Bytes → Kept → Bool
is_wanted tokens e =
    level_match tokens (e.top ∷ e.rest) && (e.seen || not (is_above (e.top ∷ e.rest) tokens))

-- How often a stored message is among those that a filter wants.
abbrev pub tally : ℕ → List Bytes → List Kept → ℕ
tally r tokens [] = 0
tally r tokens (e ∷ es) = (if is_wanted tokens e && e.stored == r then 1 else 0) + tally r tokens es

abbrev pub occurrences : ℕ → List ℕ → ℕ
occurrences r [] = 0
occurrences r (x ∷ xs) = (if x == r then 1 else 0) + occurrences r xs

abbrev pub run : {S : Type 0} → (ℕ → S → S) → List ℕ → S → S
run process [] s = s
run process (r ∷ rs) s = run process rs (process r s)

abbrev pub collect : ℕ → List ℕ → List ℕ
collect r rs = rs ++ r ∷ []

-- The messages that the search comes to, in order.
abbrev pub found : Hier → Bytes → List Bytes → ℕ → List ℕ
found h t ts level = (retain_search collect h t ts level []).state

-- No retained message in a tree.
abbrev pub NoRetained : Hier → Type 0
NoRetained end = Unit
NoRetained (node n ch next) = (n.retained ≡ none) × NoRetained ch × NoRetained next

-- No retained message at a `+` or below it.
abbrev pub IsHollow : Hier → Type 0
IsHollow end = Unit
IsHollow (node n ch next) =
    (str_eq n.topic plus ≡ true → (n.retained ≡ none) × NoRetained ch) × IsHollow ch × IsHollow next

pub tally-append :
    (r : ℕ) (tokens : List Bytes) (xs ys : List Kept)
    → tally r tokens (xs ++ ys) ≡ tally r tokens xs + tally r tokens ys
tally-append r tokens [] ys = omega arith
tally-append r tokens (x ∷ xs) ys = let ih = tally-append r tokens xs ys in omega arith

pub occurrences-append :
    (r : ℕ) (xs ys : List ℕ) → occurrences r (xs ++ ys) ≡ occurrences r xs + occurrences r ys
occurrences-append r [] ys = omega arith
occurrences-append r (x ∷ xs) ys = let ih = occurrences-append r xs ys in omega arith

pub shelf_none : (level : ℕ) (h : Hier) → NoRetained h → shelf level h ≡ []
shelf_none level end e = refl
shelf_none level (node n ch next) (e, f, g) =
    rw (shelf_none (level + 1) ch f, e, shelf_none level next g) refl

pub is_above_nil : (ps : List Bytes) → is_above ps [] ≡ false
is_above_nil [] = refl
is_above_nil (p ∷ ps) = refl

pub tally-hash :
    (r : ℕ) (b : Bytes) (es : List Kept)
    → tally r (hash ∷ []) (map (under_kept b) es) ≡ tally r (hash ∷ []) es
tally-hash r b [] = refl
tally-hash r b (e ∷ es) = rw (tally-hash r b es, is_above_nil e.rest) refl

module _ (r : ℕ) (b t : Bytes) (ts : List Bytes) where
  pub tally_hit :
      (es : List Kept)
      → (str_eq t hash && is_nil ts) ≡ false
      → (str_eq t plus || str_eq t b) ≡ true
      → tally r (t ∷ ts) (map (under_kept b) es) ≡ tally r ts es
  tally_hit [] h hit = refl
  tally_hit (e ∷ es) h hit = rw (h, hit, tally_hit es h hit) refl

  pub tally_miss :
      (es : List Kept)
      → (str_eq t hash && is_nil ts) ≡ false
      → (str_eq t plus || str_eq t b) ≡ false
      → tally r (t ∷ ts) (map (under_kept b) es) ≡ 0
  tally_miss [] h miss = refl
  tally_miss (e ∷ es) h miss = rw (h, miss, tally_miss es h miss) refl

pub tally_nil : (r : ℕ) (es : List Kept) → tally r [] es ≡ 0
tally_nil r [] = refl
tally_nil r (e ∷ es) = rw (tally_nil r es) refl
