-- ===== src/Subs/Ended.antt =====
-- In the tree of valid filters a `#` has nothing below it, and siblings have different topics:
-- `mqtt3_sub_add` and `mqtt3_sub_remove` keep both.
use wirenboard.Common.{
  ℕ, ◌≡◌, refl, true, Bool-cases, Option-cases, inl, inr, Option, none, List, [], ◌∷◌, Bytes,
  str_eq, str_eq_iff, str_eq_refl,
}
use wirenboard.Topic.Levels.{hash}
use wirenboard.Subs.Tree.{
  Node, Hier, end, node, State, Added, add_branch, malloc, sub_add, Subscriber,
}
use wirenboard.Subs.Prune.{remove_branch, sub_remove, is_bare}
use wirenboard.Subs.Distinct.{
  Keeps, sub_add_children, sub_remove_children, sub_add-Keeps, sub_remove-Keeps,
}
use wirenboard.Subs.Search.Entries.{IsEnded}

-- A `#` stands at the end of a path only.
abbrev pub HashLast : List Bytes → Type 0
HashLast [] = Unit
HashLast (t ∷ ts) = (str_eq t hash ≡ true → ts ≡ []) × HashLast ts

-- A function on a node and its children that keeps the tree below in order, and empty if the node
-- is a `#`.
pub record KeepsEnd (t : Bytes) (f : Node → Hier → State → Added) : Type 0 where
  pub ended : (n : Node) (ch : Hier) (s : State) → IsEnded ch → IsEnded (f n ch s).children
  pub closed : str_eq t hash ≡ true → (n : Node) (s : State) → (f n end s).children ≡ end

module _ (t : Bytes) (f : Node → Hier → State → Added) (K : Keeps f) (E : KeepsEnd t f) where
  -- The node that `f` is called at.
  pub at_node :
      (n : Node) (ch next : Hier) (s : State)
      → str_eq n.topic t ≡ true
      → IsEnded (node n ch next)
      → IsEnded (node (f n ch s).node (f n ch s).children next)
  at_node n ch next s same e = (
    λ h.
        let hash_topic : str_eq n.topic hash ≡ true = rw (← K.topic n ch s) h in
        let is_hash : str_eq t hash ≡ true = rw (← (str_eq_iff n.topic t).0 same) hash_topic in
        rw (e.0 hash_topic) (E.closed is_hash n s),
    E.ended n ch s e.1,
    e.2,
  )

  pub fresh_node :
      (a : ℕ) (next : Hier) (s : State)
      → IsEnded next
      → let n : Node = record { address = a; topic = t; subs = []; retained = none } in
        IsEnded (node (f n end s).node (f n end s).children next)
  fresh_node a next s e =
      at_node (record { address = a; topic = t; subs = []; retained = none }) end next s
        (str_eq_refl t) (λ h. refl, tt, e)

  add_branch-IsEnded : (h : Hier) (s : State) → IsEnded h → IsEnded (add_branch f t h s).hier
  unfolding add_branch
  add_branch-IsEnded end s e = elim (Option-cases (malloc s).given) [
    | inl e0 ↦ rw (e0, add_branch) tt
    | inr (a, e1) ↦ (elim (Option-cases (malloc (malloc s).state).given) [
      | inl e0 ↦ rw (e1, e0, add_branch) tt
      | inr (b, e2) ↦ rw (e1, e2, add_branch) (fresh_node a end _ tt)
    ])
  ]
  add_branch-IsEnded (node n ch next) s e = elim (Bool-cases (str_eq n.topic t)) [
    | inl same ↦ rw (same, add_branch) (at_node n ch next s same e)
    | inr differ ↦ rw (differ, add_branch) (e.0, e.1, add_branch-IsEnded next s e.2)
  ]

  remove_branch-IsEnded : (h : Hier) (s : State) → IsEnded h → IsEnded (remove_branch f t h s).hier
  unfolding remove_branch
  remove_branch-IsEnded end s e = tt
  remove_branch-IsEnded (node n ch next) s e = elim (Bool-cases (str_eq n.topic t)) [
    | inl same ↦ (elim (Bool-cases (is_bare (f n ch s).node (f n ch s).children)) [
      | inl bare ↦ rw (same, bare, remove_branch) e.2
      | inr stays ↦ rw (same, stays, remove_branch) (at_node n ch next s same e)
    ])
    | inr differ ↦ rw (differ, remove_branch) (e.0, e.1, remove_branch-IsEnded next s e.2)
  ]

pub sub_add-KeepsEnd :
    (id_of : ℕ → Option Bytes) (qos : ℕ) (t : Bytes) (ts : List Bytes)
    → HashLast (t ∷ ts)
    → KeepsEnd t (sub_add id_of qos ts)
unfolding sub_add
sub_add-KeepsEnd id_of qos t [] h = record {
  ended = λ n ch s e. rw (sub_add_children id_of qos n ch s) e;
  closed = λ is_hash n s. sub_add_children id_of qos n end s;
}
sub_add-KeepsEnd id_of qos t (u ∷ ts) h = record {
  ended = λ n ch s e.
      add_branch-IsEnded u (sub_add id_of qos ts) (sub_add-Keeps id_of qos ts)
        (sub_add-KeepsEnd id_of qos u ts h.1) ch s e;
  closed = λ is_hash n s. absurd (cc (h.0 is_hash));
}

pub sub_remove-KeepsEnd :
    (c : Subscriber) (t : Bytes) (ts : List Bytes) → KeepsEnd t (λ n ch s. sub_remove ts n ch c s)
unfolding sub_remove remove_branch
sub_remove-KeepsEnd c t [] = record {
  ended = λ n ch s e. rw (sub_remove_children c n ch s) e;
  closed = λ is_hash n s. sub_remove_children c n end s;
}
sub_remove-KeepsEnd c t (u ∷ ts) = record {
  ended = λ n ch s e.
      remove_branch-IsEnded u (λ m mch s'. sub_remove ts m mch c s') (sub_remove-Keeps c ts)
        (sub_remove-KeepsEnd c u ts) ch s e;
  closed = λ is_hash n s. refl;
}
