-- ===== src/Subs/Removed.antt =====
-- Removing a subscription changes the leaves at one path; the nodes that are pruned held nothing.
use wirenboard.Common.{
  ℕ, ◌≡◌, refl, arith, true, if◌then◌else◌, ◌&&◌, Bool-cases, inl, inr, none, some, List, [], ◌∷◌,
  Bytes, str_eq, str_eq_iff, str_eq_refl,
}
use wirenboard.Subs.Tree.{Leaf, Node, Hier, end, node, State, Added, Subscriber}
use wirenboard.Subs.Prune.{remove_leaf, remove_branch, sub_remove, is_bare}
use wirenboard.Subs.Paths.{below_first, leaves_at, path_eq, leaves_at_bare}
use wirenboard.Subs.Distinct.{Absent, IsDistinct}

-- The leaves without the client's first one.
abbrev pub gone : ℕ → List Leaf → List Leaf
gone c ls = elim (remove_leaf c ls) [ none ↦ ls | some r ↦ r ]

gone_nil : (c : ℕ) → gone c [] ≡ []
unfolding remove_leaf
gone_nil c = refl

leaves_at-is_bare :
    (p : List Bytes) (n : Node) (ch : Hier) → is_bare n ch ≡ true → leaves_at p n ch ≡ []
unfolding is_bare
leaves_at-is_bare [] n (node m mch next) h = cc
leaves_at-is_bare (t ∷ p) n (node m mch next) h = cc
leaves_at-is_bare p n end h = leaves_at_bare p n (ground arith)

below_first-Absent :
    (f : Node → Hier → List Leaf) (t : Bytes) (h : Hier) → Absent t h → below_first f t h ≡ []
below_first-Absent f t end a = refl
below_first-Absent f t (node n ch next) a = rw a.0 (below_first-Absent f t next a.1)

module _ (c : ℕ) where
  -- What a function that removes below a node does to the leaves there.
  record Removes (ts : List Bytes) (f : Node → Hier → State → Added) : Type 0 where
    topic : (n : Node) (ch : Hier) (s : State) → (f n ch s).node.topic ≡ n.topic
    leaves :
        (p : List Bytes) (n : Node) (ch : Hier) (s : State)
        → IsDistinct ch
        → leaves_at p (f n ch s).node (f n ch s).children
          ≡ (if path_eq ts p then gone c (leaves_at ts n ch) else leaves_at p n ch)

  remove_branch-leaves :
      (ts : List Bytes) (f : Node → Hier → State → Added)
      → Removes ts f
      → (t t' : Bytes) (p : List Bytes) (h : Hier) (s : State) → IsDistinct h
      → below_first (leaves_at p) t' (remove_branch f t h s).hier ≡ (
          if str_eq t t' && path_eq ts p
          then gone c (below_first (leaves_at ts) t h)
          else below_first (leaves_at p) t' h)
  unfolding remove_branch
  remove_branch-leaves ts f H t t' p end s d = ground (arith, gone_nil c)
  remove_branch-leaves ts f H t t' p (node n ch next) s d =
      let l = H.leaves p n ch s d.1 in
      elim (Bool-cases (str_eq n.topic t)) [
        | inl same ↦
            (let eq = (str_eq_iff n.topic t).0 same in
              elim (Bool-cases (is_bare (f n ch s).node (f n ch s).children)) [
                | inl bare ↦
                    rw (same, bare, remove_branch)
                      (ground (
                        arith,
                        eq,
                        l,
                        leaves_at-is_bare p (f n ch s).node (f n ch s).children bare,
                        below_first-Absent (leaves_at p) t' next,
                        str_eq_iff t t',
                      ))
                | inr stays ↦
                    rw (same, stays, remove_branch) (ground (arith, eq, H.topic n ch s, l))
              ])
        | inr differ ↦
            rw (differ, remove_branch)
              (ground (
                arith,
                str_eq_iff n.topic t',
                str_eq_iff t t',
                str_eq_refl t,
                remove_branch-leaves ts f H t t' p next s d.2,
              ))
      ]

sub_remove_here :
    (c : Subscriber) (p : List Bytes) (n : Node) (ch : Hier) (s : State)
    → leaves_at p (sub_remove [] n ch c s).node (sub_remove [] n ch c s).children
      ≡ (if path_eq [] p then gone c.address n.subs else leaves_at p n ch)
unfolding sub_remove
sub_remove_here c [] n ch s = ground arith
sub_remove_here c (t ∷ p) n ch s = ground arith

sub_remove_below :
    (c : Subscriber) (t : Bytes) (ts : List Bytes)
    → Removes c.address ts (λ m mch s. sub_remove ts m mch c s)
    → (p : List Bytes) (n : Node) (ch : Hier) (s : State) → IsDistinct ch
    → leaves_at p n (remove_branch (λ m mch s'. sub_remove ts m mch c s') t ch s).hier ≡ (
        if path_eq (t ∷ ts) p
        then gone c.address (below_first (leaves_at ts) t ch)
        else leaves_at p n ch)
sub_remove_below c t ts H [] n ch s d = refl
sub_remove_below c t ts H (t' ∷ p) n ch s d =
    remove_branch-leaves c.address ts (λ m mch s'. sub_remove ts m mch c s') H t t' p ch s d

sub_remove-Removes :
    (c : Subscriber) (ts : List Bytes) → Removes c.address ts (λ n ch s. sub_remove ts n ch c s)
unfolding sub_remove
sub_remove-Removes c [] = record {
  topic = λ n ch s. ground arith;
  leaves = λ p n ch s d. sub_remove_here c p n ch s;
}
sub_remove-Removes c (t ∷ ts) = record {
  topic = λ n ch s. refl;
  leaves = λ p n ch s d. sub_remove_below c t ts (sub_remove-Removes c ts) p n ch s d;
}

-- The tree as a map from paths to leaves, with siblings of different topics: `_sub_remove` takes
-- the client's leaf away at the path of the filter, and every other path keeps its leaves, though
-- empty nodes are pruned.
pub sub_remove-leaves_at :
    (c : Subscriber) (ts p : List Bytes) (n : Node) (ch : Hier) (s : State)
    → IsDistinct ch
    → leaves_at p (sub_remove ts n ch c s).node (sub_remove ts n ch c s).children
      ≡ (if path_eq ts p then gone c.address (leaves_at ts n ch) else leaves_at p n ch)
sub_remove-leaves_at c ts p n ch s d = (sub_remove-Removes c ts).leaves p n ch s d
