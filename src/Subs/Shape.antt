-- ===== src/Subs/Shape.antt =====
-- A publication keeps the tree in order: the search changes retained messages only, and those not
-- at a `+` or below it.
use wirenboard.Common.{
  ◌≡◌, ◌∙◌, refl, arith, Bool, true, false, if◌then◌else◌, inl, inr, List, Bytes, str_eq,
}
use wirenboard.Topic.Levels.{plus}
use wirenboard.Subs.Tree.{Node, Hier, end, node}
use wirenboard.Subs.Distinct.{Absent, IsDistinct}
use wirenboard.Subs.Search.{visit_of, is_last, sub_search, Visit-cases}
use wirenboard.Subs.Search.Entries.{IsEnded}
use wirenboard.Subs.Retain.Kept.{NoRetained, IsHollow}

-- What is done at a node keeps its topic, and its retained message where none may be set.
pub record KeepsNode {S : Type 0} (process : Bool → Node → S → Node × S) : Type 0 where
  pub topic : (sr : Bool) (n : Node) (s : S) → (process sr n s).0.topic ≡ n.topic
  pub retained : (n : Node) (s : S) → (process false n s).0.retained ≡ n.retained

-- What the search makes of a tree: each node has the topic it had, and where the flag
-- `set_retained` is not set, as at a `+` and below it, its retained message too.
pub data Searched : Bool → Hier → Hier → Type 0 where
  ended : {sr : Bool} → Searched sr end end
  branch :
      {sr below : Bool}
      → {n n' : Node} → {ch ch' next next' : Hier} → n'.topic ≡ n.topic
      → (sr ≡ false → below ≡ false)
      → (str_eq n.topic plus ≡ true → below ≡ false)
      → (below ≡ false → n'.retained ≡ n.retained)
      → Searched below ch ch'
      → Searched sr next next'
      → Searched sr (node n ch next) (node n' ch' next')

pub Searched-same : (sr : Bool) (h : Hier) → Searched sr h h
Searched-same sr end = ended
Searched-same sr (node n ch next) =
    branch {below = false} refl (λ e. refl) (λ e. refl) (λ e. refl) (Searched-same false ch)
      (Searched-same sr next)

module _ {S : Type 0} (process : Bool → Node → S → Node × S) (K : KeepsNode process) where
  at : Bool → Bool → Node → S → Node × S
  at b sr n s = if b then process sr n s else (n, s)

  at_topic : (b sr : Bool) (n : Node) (s : S) → (at b sr n s).0.topic ≡ n.topic
  unfolding at
  at_topic true sr n s = K.topic sr n s
  at_topic false sr n s = refl

  at_retained :
      (b sr : Bool) (n : Node) (s : S) → sr ≡ false → (at b sr n s).0.retained ≡ n.retained
  unfolding at
  at_retained true sr n s e = rw e (K.retained n s)
  at_retained false sr n s e = refl

  pub sub_search-Searched :
      (h : Hier) (tokens : List Bytes) (sr : Bool) (s : S)
      → Searched sr h (sub_search process h tokens sr s).hier
  unfolding sub_search at
  sub_search-Searched end tokens sr s = ended
  sub_search-Searched (node n ch next) tokens sr s = elim (Visit-cases (visit_of n ch tokens)) [
    | inl (ts, v) ↦
        (let sr' = if str_eq n.topic plus then false else sr in
          let r = (sub_search process ch ts sr' s).state in
          rw (v, sub_search)
            (branch {below = sr'} (at_topic (is_last ts) sr' n r) (λ e. ground arith)
              (λ e. rw e refl) (λ e. at_retained (is_last ts) sr' n r e)
              (sub_search-Searched ch ts sr' s) (sub_search-Searched next tokens sr _)))
    | inr (inl v) ↦
        rw (v, sub_search)
          (branch {below = false} (K.topic false n s) (λ e. refl) (λ e. refl) (λ e. K.retained n s)
            (Searched-same false ch) (sub_search-Searched next tokens sr _))
    | inr (inr v) ↦
        rw (v, sub_search)
          (branch {below = false} refl (λ e. refl) (λ e. refl) (λ e. refl) (Searched-same false ch)
            (sub_search-Searched next tokens sr s))
  ]

pub Searched-Absent :
    {sr : Bool} {h h' : Hier} (k : Bytes) → Searched sr h h' → Absent k h → Absent k h'
Searched-Absent k ended a = tt
Searched-Absent k (branch t x y z below beside) a = (rw t a.0, Searched-Absent k beside a.1)

pub Searched-IsDistinct :
    {sr : Bool} {h h' : Hier} → Searched sr h h' → IsDistinct h → IsDistinct h'
Searched-IsDistinct ended d = tt
Searched-IsDistinct (branch {n = n} t x y z below beside) d = (
  rw t (Searched-Absent n.topic beside d.0),
  Searched-IsDistinct below d.1,
  Searched-IsDistinct beside d.2,
)

Searched-end : {sr : Bool} {h h' : Hier} → Searched sr h h' → h ≡ end → h' ≡ end
Searched-end ended e = refl
Searched-end (branch t x y z below beside) e = absurd (cc e)

pub Searched-IsEnded : {sr : Bool} {h h' : Hier} → Searched sr h h' → IsEnded h → IsEnded h'
Searched-IsEnded ended e = tt
Searched-IsEnded (branch t x y z below beside) e = (
  λ p. Searched-end below (e.0 (rw (← t) p)),
  Searched-IsEnded below e.1,
  Searched-IsEnded beside e.2,
)

Searched-NoRetained :
    {sr : Bool} {h h' : Hier} → Searched sr h h' → sr ≡ false → NoRetained h → NoRetained h'
Searched-NoRetained ended f e = tt
Searched-NoRetained (branch t x y z below beside) f e =
    (z (x f) ∙ e.0, Searched-NoRetained below (x f) e.1, Searched-NoRetained beside f e.2)

pub Searched-IsHollow : {sr : Bool} {h h' : Hier} → Searched sr h h' → IsHollow h → IsHollow h'
Searched-IsHollow ended e = tt
Searched-IsHollow (branch {n = n} t x y z below beside) e = (
  λ p.
      let q : str_eq n.topic plus ≡ true = rw (← t) p in
      let (kept, none_below) = e.0 q in
      (z (y q) ∙ kept, Searched-NoRetained below (y q) none_below),
  Searched-IsHollow below e.1,
  Searched-IsHollow beside e.2,
)
