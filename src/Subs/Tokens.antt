-- ===== src/Subs/Tokens.antt =====
-- `_sub_topic_tokenise` of src/subs.c: the levels of a topic or filter, behind an empty one for
-- those that do not begin with a dollar sign.
use wirenboard.Common.{
  ℕ, zero, suc, ◌≡◌, ◌∙◌, refl, sym, ap, arith, Bool, true, false, if◌then◌else◌, ◌==◌, Option,
  none, some, List, [], ◌∷◌, ◌++◌, append_assoc, append-nil, Bool-cases, Option-cases, length, inl,
  inr, Bytes,
}
use wirenboard.Topic.Levels.{levels, onto_first}
use wirenboard.Topic.Check.{levels-cons}

-- Which allocations succeed, in their order; behind the list they fail.
abbrev pub Heap : Type 0
Heap = List Bool

abbrev pub Cursor : Type 0
Cursor = record { tokens : List Bytes; heap : Heap }

-- `_sub_topic_append` of a copy: the allocation of the text and that of the token.
pub topic_append : Bytes → List Bytes → Heap → Option Cursor
topic_append topic tokens (true ∷ true ∷ heap) =
    some (record { tokens = tokens ++ topic ∷ []; heap = heap })
topic_append topic tokens _ = none

-- The loop, at the characters from `i` on; `level` is what stands between `start` and `i`. A
-- failed allocation gives all tokens back, and the function returns 1: `none`.
pub token_loop : Bytes → Bytes → List Bytes → Heap → Option Cursor
token_loop [] level tokens heap = topic_append level tokens heap
token_loop (c ∷ s) level tokens heap = elim (c == b'/') [
  | true ↦ (elim (topic_append level tokens heap) [
    | none ↦ none
    | some r ↦ token_loop s [] r.tokens r.heap
  ])
  | false ↦ token_loop s (level ++ c ∷ []) tokens heap
]

unfoldable pub is_dollar : Bytes → Bool
is_dollar [] = false
is_dollar (c ∷ s) = c == b'$'

-- An empty token for a slash at the start, and what follows it.
pub leading : Bytes → List Bytes → Heap → Option Cursor
leading (c ∷ s) tokens heap =
    if c == b'/'
    then (elim (topic_append [] tokens heap) [
      | none ↦ none
      | some r ↦ token_loop s [] r.tokens r.heap
    ])
    else token_loop (c ∷ s) [] tokens heap
leading [] tokens heap = token_loop [] [] tokens heap

unfoldable pub tokenise : Bytes → Heap → Option Cursor
unfolding topic_append token_loop is_dollar leading
tokenise s heap =
    if is_dollar s
    then leading s [] heap
    else (elim (topic_append [] [] heap) [ none ↦ none | some r ↦ leading s r.tokens r.heap ])

-- What the tokens are: the levels, behind an empty one where there is no dollar sign.
abbrev pub path_of : Bytes → List Bytes
path_of s = if is_dollar s then levels s else [] ∷ levels s

append_all : List Bytes → List Bytes → Heap → Option Cursor
append_all [] tokens heap = some (record { tokens = tokens; heap = heap })
append_all (t ∷ ts) tokens heap = elim (topic_append t tokens heap) [
  | none ↦ none
  | some r ↦ append_all ts r.tokens r.heap
]

abbrev onto_level : Bytes → List Bytes → List Bytes
onto_level level [] = level ∷ []
onto_level level (l ∷ ls) = (level ++ l) ∷ ls

onto_level-onto_first :
    (level : Bytes) (c : ℕ) (ls : List Bytes)
    → onto_level (level ++ c ∷ []) ls ≡ onto_level level (onto_first c ls)
onto_level-onto_first level c [] = refl
onto_level-onto_first level c (l ∷ ls) = rw (append_assoc level (c ∷ []) l) refl

onto_level-nil : (s : Bytes) → onto_level [] (levels s) ≡ levels s
onto_level-nil s = let (l, ls, e) = levels-cons s in rw e refl

append_all_one :
    (t : Bytes) (tokens : List Bytes) (heap : Heap)
    → topic_append t tokens heap ≡ append_all (t ∷ []) tokens heap
unfolding append_all
append_all_one t tokens heap = ground arith

token_loop_lem :
    (s level : Bytes) (tokens : List Bytes) (heap : Heap)
    → token_loop s level tokens heap ≡ append_all (onto_level level (levels s)) tokens heap
unfolding token_loop append_all
token_loop_lem [] level tokens heap = rw (append-nil level) (append_all_one level tokens heap)
token_loop_lem (c ∷ s) level tokens heap = elim (Bool-cases (c == b'/')) [
  | inl slash ↦ (elim (Option-cases (topic_append level tokens heap)) [
    | inl full ↦ rw (slash, append-nil level, full, token_loop, append_all) refl
    | inr (r, e) ↦
        rw (slash, append-nil level, e, token_loop, append_all)
          (token_loop_lem s [] r.tokens r.heap
            ∙ ap (λ ts. append_all ts r.tokens r.heap) (onto_level-nil s))
  ])
  | inr other ↦
      rw (other, token_loop)
        (token_loop_lem s (level ++ c ∷ []) tokens heap
          ∙ ap (λ ts. append_all ts tokens heap) (onto_level-onto_first level c (levels s)))
]

leading_other :
    (c : ℕ) (s : Bytes) (tokens : List Bytes) (heap : Heap)
    → (c == b'/') ≡ false
    → leading (c ∷ s) tokens heap ≡ token_loop (c ∷ s) [] tokens heap
unfolding leading
leading_other c s tokens heap other = rw other refl

leading_lem :
    (s : Bytes) (tokens : List Bytes) (heap : Heap)
    → leading s tokens heap ≡ append_all (levels s) tokens heap
unfolding leading append_all
leading_lem [] tokens heap = token_loop_lem [] [] tokens heap
leading_lem (c ∷ s) tokens heap = elim (Bool-cases (c == b'/')) [
  | inr other ↦
      leading_other c s tokens heap other
      ∙ token_loop_lem (c ∷ s) [] tokens heap
      ∙ ap (λ ts. append_all ts tokens heap) (onto_level-nil (c ∷ s))
  | inl slash ↦ (elim (Option-cases (topic_append [] tokens heap)) [
    | inl full ↦ rw (slash, full, leading, append_all) refl
    | inr (r, e) ↦
        rw (slash, e, leading, append_all)
          (token_loop_lem s [] r.tokens r.heap
            ∙ ap (λ ts. append_all ts r.tokens r.heap) (onto_level-nil s))
  ])
]

tokenise_lem : (s : Bytes) (heap : Heap) → tokenise s heap ≡ append_all (path_of s) [] heap
unfolding tokenise append_all
tokenise_lem s heap = elim (Bool-cases (is_dollar s)) [
  | inl dollar ↦ rw dollar (leading_lem s [] heap)
  | inr plain ↦ (elim (Option-cases (topic_append [] [] heap)) [
    | inl full ↦ rw (plain, full, append_all) refl
    | inr (r, e) ↦ rw (plain, e, append_all) (leading_lem s r.tokens r.heap)
  ])
]

-- Two successful allocations for each of `n` tokens, and what the heap has behind them.
abbrev pub ready : ℕ → Heap → Heap
ready zero heap = heap
ready (suc n) heap = true ∷ true ∷ ready n heap

append_all-ready :
    (ts tokens : List Bytes) (heap : Heap)
    → append_all ts tokens (ready (length ts) heap)
      ≡ some (record { tokens = tokens ++ ts; heap = heap })
unfolding append_all topic_append
append_all-ready [] tokens heap = rw (append-nil tokens) refl
append_all-ready (t ∷ ts) tokens heap =
    append_all-ready ts (tokens ++ t ∷ []) heap ∙ rw (append_assoc tokens (t ∷ []) ts) refl

append_all_tokens :
    (ts tokens : List Bytes) (heap : Heap) (r : Cursor)
    → append_all ts tokens heap ≡ some r
    → r.tokens ≡ tokens ++ ts
unfolding append_all topic_append
append_all_tokens [] tokens heap r h = rw (append-nil tokens) (ground arith)
append_all_tokens (t ∷ ts) tokens [] r h = ground arith
append_all_tokens (t ∷ ts) tokens (false ∷ heap) r h = ground arith
append_all_tokens (t ∷ ts) tokens (true ∷ []) r h = ground arith
append_all_tokens (t ∷ ts) tokens (true ∷ false ∷ heap) r h = ground arith
append_all_tokens (t ∷ ts) tokens (true ∷ true ∷ heap) r h =
    append_all_tokens ts (tokens ++ t ∷ []) heap r h ∙ append_assoc tokens (t ∷ []) ts

-- `_sub_topic_tokenise` makes the levels of its text, behind an empty token if the text does not
-- begin with a dollar sign, whenever it succeeds, and it succeeds when two allocations for each
-- token do.
pub tokenise-path_of :
    (s : Bytes) (heap : Heap)
    → ((r : Cursor) → tokenise s heap ≡ some r → r.tokens ≡ path_of s)
      × (tokenise s (ready (length (path_of s)) heap)
          ≡ some (record { tokens = path_of s; heap = heap }))
tokenise-path_of s heap = (
  λ r h. append_all_tokens (path_of s) [] heap r (sym (tokenise_lem s heap) ∙ h),
  tokenise_lem s (ready (length (path_of s)) heap) ∙ append_all-ready (path_of s) [] heap,
)
